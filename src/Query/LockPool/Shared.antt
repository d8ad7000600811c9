-- ===== src/Query/LockPool/Shared.antt =====
-- Who asks for the same key at the same time (backend/domain/shared/async_utils.py).
use velpos.Prelude.{
  ℕ, suc, ◌-◌, String, Bool, true, [], ◌∷◌, ◌++◌, ◌&&◌, not, Memᴰ, ◌==◌, nat_eq, text_eq,
  text_eq_iff, leb, ◌≡◌, refl, subst, ap, arith, Bool-cases, Option-cases, inl, inr, if◌then◌else◌,
}
use velpos.Prelude.Dict
use velpos.Prelude.Dict.{Dict, lookup-insert, lookup-erase}
use velpos.Query.LockPool.{KeyedLockPool, empty_pool, count_of, acquire, unref, release, forget}
use velpos.Query.LockPool.Sound.{Takers, takers_of, Sound, takers-positive, acquire-Sound}

takers_of-remove :
    (k key : String) (l : ℕ) (before after : Takers)
    → takers_of k (before ++ (key, l) ∷ after)
      ≡ (if key == k then suc (takers_of k (before ++ after)) else takers_of k (before ++ after))
takers_of-remove k key l [] after = refl
takers_of-remove k key l ((j, i) ∷ before) after =
    ground (arith, takers_of-remove k key l before after)

mem-remove :
    {x : String × ℕ} (y : String × ℕ) (before after : Takers)
    → Memᴰ x (before ++ after)
    → Memᴰ x (before ++ y ∷ after)
mem-remove y [] after m = Memᴰ.tail m
mem-remove y (z ∷ before) after (Memᴰ.head e) = Memᴰ.head e
mem-remove y (z ∷ before) after (Memᴰ.tail m) = Memᴰ.tail (mem-remove y before after m)

unref-count :
    (key k : String) (p : KeyedLockPool)
    → count_of k (unref key p) ≡ (if key == k then count_of k p - 1 else count_of k p)
unfolding unref
unref-count key k p = elim (Bool-cases (leb (count_of key p) 1)) [
  | inl b ↦ elim (Bool-cases (key == k)) [
    | inl e ↦
        let d : key ≡ k = (text_eq_iff key k).0 e in
        ground (arith, b, e, lookup-erase key k p.refcounts, ap (λ (j : String). count_of j p) d)
    | inr e ↦ ground (arith, b, e, lookup-erase key k p.refcounts)
  ]
  | inr b ↦ elim (Bool-cases (key == k)) [
    | inl e ↦
        let d : key ≡ k = (text_eq_iff key k).0 e in
        ground (
          arith,
          b,
          e,
          lookup-insert key k (count_of key p - 1) p.refcounts,
          ap (λ (j : String). count_of j p) d,
        )
    | inr e ↦ ground (arith, b, e, lookup-insert key k (count_of key p - 1) p.refcounts)
  ]
]

unref-locks : (key : String) (p : KeyedLockPool) → (unref key p).locks ≡ p.locks
unfolding unref
unref-locks key p = ground arith

unref-Sound :
    (p : KeyedLockPool) (key : String) (l : ℕ) (before after : Takers)
    → Sound (before ++ (key, l) ∷ after) p
    → Sound (before ++ after) (unref key p)
unref-Sound p key l before after h = record {
  counted =
      λ k. ground (arith, unref-count key k p, h.counted k, takers_of-remove k key l before after);
  held = λ k i m. rw (unref-locks key p) (h.held k i (mem-remove (key, l) before after m));
}

module _ (locked : ℕ → Bool) where
  forget-Sound :
      (ts : Takers) (p : KeyedLockPool) (key : String)
      → count_of key p ≡ 0
      → Sound ts p
      → Sound ts (forget key p)
  forget-Sound ts p key z h = record {
    counted = λ k. elim (Bool-cases (key == k)) [
      | inl e ↦
          let d : count_of k p ≡ 0 = rw (← (text_eq_iff key k).0 e) z in
          ground (arith, e, d, h.counted k, lookup-erase key k p.refcounts)
      | inr e ↦ ground (arith, e, h.counted k, lookup-erase key k p.refcounts)
    ];
    held = λ k i m. elim (Bool-cases (key == k)) [
      | inl e ↦
          let d : count_of k p ≡ 0 = rw (← (text_eq_iff key k).0 e) z in
          absurd (omega (arith, d, h.counted k, takers-positive k i ts m))
      | inr e ↦ ground (arith, e, h.held k i m, lookup-erase key k p.locks)
    ];
  }

  release-Sound :
      (ts : Takers) (p : KeyedLockPool) (key : String)
      → Sound ts p
      → Sound ts (release locked key p)
  unfolding release
  release-Sound ts p key h = elim (Option-cases (Dict.lookup key p.locks)) [
    | inl e ↦ rw (release, e) h
    | inr (l, e) ↦ elim (Bool-cases (not (locked l) && count_of key p == 0)) [
      | inl b ↦ rw (release, e, b) (forget-Sound ts p key (unused (locked l) (count_of key p) b) h)
      | inr b ↦ rw (release, e, b) h
    ]
  ]
    where
      unused : (c : Bool) (n : ℕ) → (not c && n == 0) ≡ true → n ≡ 0
      unused c n e = ground (arith, e)

-- What may happen to a pool, with the takers that it leaves. Each taker gives its key back once; what
-- is locked when the pool looks is arbitrary.
pub data History (max_size : ℕ) : Takers → KeyedLockPool → Type 0 where
  new_pool : History max_size [] empty_pool
  acquired :
      {ts : Takers} {p : KeyedLockPool} (locked : ℕ → Bool) (key : String)
      → History max_size ts p
      → History max_size
          ((key, (acquire locked max_size key p).0) ∷ ts)
          (acquire locked max_size key p).1
  given_back :
      {ts us : Takers} {p : KeyedLockPool} (key : String) (l : ℕ) (before after : Takers)
      → History max_size ts p
      → ts ≡ before ++ (key, l) ∷ after
      → us ≡ before ++ after
      → History max_size us (unref key p)
  released :
      {ts : Takers} {p : KeyedLockPool} (locked : ℕ → Bool) (key : String)
      → History max_size ts p
      → History max_size ts (release locked key p)

empty_pool-Sound : Sound [] empty_pool
unfolding Dict.lookup
empty_pool-Sound = record { counted = λ k. refl; held = λ k l m. elim m [ ] }

History-Sound :
    {max_size : ℕ} {ts : Takers} {p : KeyedLockPool} → History max_size ts p → Sound ts p
History-Sound new_pool = empty_pool-Sound
History-Sound {max_size} (acquired {ts = ts} {p = p} locked key h) =
    acquire-Sound locked max_size ts p key (History-Sound h)
History-Sound (given_back {p = p} key l before after h e u) =
    rw u (unref-Sound p key l before after (subst (λ t. Sound t p) e (History-Sound h)))
History-Sound (released {ts = ts} {p = p} locked key h) =
    release-Sound locked ts p key (History-Sound h)

-- Two takers of one key have the same lock, whatever was evicted, given back or released meanwhile
-- and however small the pool is.
pub takers_share :
    {max_size : ℕ} {ts : Takers} {p : KeyedLockPool}
    → History max_size ts p
    → (key : String) (l i : ℕ) → Memᴰ (key, l) ts
    → Memᴰ (key, i) ts
    → l ≡ i
takers_share h key l i m n =
    let s = History-Sound h in
    let e = s.held key l m in let f = s.held key i n in ground (arith, e, f)
