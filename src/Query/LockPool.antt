-- ===== src/Query/LockPool.antt =====
-- `KeyedLockPool` of backend/domain/shared/async_utils.py, from which the query engine takes the lock
-- of a session. A lock object is known by a number; which locks are held is an argument.
pub mod Sound
pub mod Shared
use velpos.Prelude.{
  ℕ, suc, ◌+◌, ◌-◌, ◌/◌, max, String, Bool, true, false, Option, none, some, List, [], ◌∷◌, ◌&&◌,
  not, map, filter, take, length, leb, or_else, ◌==◌, nat_eq, if◌then◌else◌,
}
use velpos.Prelude.Dict
use velpos.Prelude.Dict.{Dict}

pub record KeyedLockPool : Type 0 where
  pub locks : Dict ℕ
  pub refcounts : Dict ℕ
  pub created : ℕ

abbrev pub empty_pool : KeyedLockPool
empty_pool = record { locks = []; refcounts = []; created = 0 }

-- `self._refcounts.get(key, 0)`
abbrev pub count_of : String → KeyedLockPool → ℕ
count_of key p = or_else (Dict.lookup key p.refcounts) 0

-- `del d[k]` for each of the keys
unfoldable pub erase_all : List String → Dict ℕ → Dict ℕ
unfolding Dict.erase
erase_all [] d = d
erase_all (k ∷ ks) d = erase_all ks (Dict.erase k d)

abbrev pub key_of : String × ℕ → String
key_of (k, l) = k

unfoldable pub bump : String → KeyedLockPool → KeyedLockPool
bump key p = record p { refcounts = Dict.insert key (count_of key p + 1) p.refcounts }

abbrev pub make_lock : String → KeyedLockPool → ℕ × KeyedLockPool
make_lock key p = (
  p.created,
  bump key (record p { locks = Dict.insert key p.created p.locks; created = suc p.created }),
)

unfoldable pub unref : String → KeyedLockPool → KeyedLockPool
unref key p =
    if leb (count_of key p) 1
    then record p { refcounts = Dict.erase key p.refcounts }
    else record p { refcounts = Dict.insert key (count_of key p - 1) p.refcounts }

abbrev pub forget : String → KeyedLockPool → KeyedLockPool
forget key p = record p { locks = Dict.erase key p.locks; refcounts = Dict.erase key p.refcounts }

module _ (locked : ℕ → Bool) where
  abbrev pub is_stale : KeyedLockPool → String × ℕ → Bool
  is_stale p (k, l) = not (locked l) && count_of k p == 0

  unfoldable pub stale : KeyedLockPool → List String
  unfolding Dict.lookup
  stale p = map key_of (filter (is_stale p) p.locks)

  abbrev pub evicted : KeyedLockPool → List String
  evicted p = take (max (length (stale p) / 2) 1) (stale p)

  unfoldable pub evict : KeyedLockPool → KeyedLockPool
  evict p = record p {
    locks = erase_all (evicted p) p.locks;
    refcounts = erase_all (evicted p) p.refcounts;
  }

  unfoldable pub acquire : (max_size : ℕ) → String → KeyedLockPool → ℕ × KeyedLockPool
  acquire max_size key p = elim (Dict.lookup key p.locks) [
    | some l ↦ (l, bump key p)
    | none ↦ make_lock key (if leb max_size (length p.locks) then evict p else p)
  ]

  unfoldable pub release : String → KeyedLockPool → KeyedLockPool
  release key p = elim (Dict.lookup key p.locks) [
    | none ↦ p
    | some l ↦ if not (locked l) && count_of key p == 0 then forget key p else p
  ]
