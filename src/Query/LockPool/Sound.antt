-- ===== src/Query/LockPool/Sound.antt =====
-- How the pool counts and keeps what was taken from it (backend/domain/shared/async_utils.py).
use velpos.Prelude.{
  ℕ, zero, suc, ◌+◌, ◌<◌, String, Bool, true, false, none, some, List, [], ◌∷◌, ◌&&◌, ◌||◌, not,
  map, any, filter, take, Memᴰ, mem-cons_cases, ◌==◌, nat_eq, text_eq, text_eq_iff, leb, length,
  ◌≡◌, refl, sym, ◌∙◌, ap, arith, Bool-cases, Option-cases, inl, inr, if◌then◌else◌,
}
use velpos.Prelude.Dict
use velpos.Prelude.Dict.{Dict, lookup-insert, lookup-erase}
use velpos.Query.LockPool.{
  KeyedLockPool, count_of, erase_all, is_stale, stale, evicted, evict, bump, acquire, make_lock,
  key_of,
}

abbrev has_key : String → List String → Bool
has_key k = any (λ j. j == k)

lookup-erase_all :
    (k : String) (ks : List String) (d : Dict ℕ)
    → Dict.lookup k (erase_all ks d) ≡ (if any (λ j. j == k) ks then none else Dict.lookup k d)
unfolding erase_all
lookup-erase_all k [] d = refl
lookup-erase_all k (j ∷ ks) d =
    ground (arith, lookup-erase_all k ks (Dict.erase j d), lookup-erase j k d)

any-take :
    (p : String → Bool) (n : ℕ) (xs : List String) → any p (take n xs) ≡ true → any p xs ≡ true
any-take p zero xs h = absurd (ground (arith, h))
any-take p (suc n) [] h = h
any-take p (suc n) (x ∷ xs) h = elim (Bool-cases (p x)) [
  | inl e ↦ ground (arith, e)
  | inr e ↦ ground (arith, e, any-take p n xs (rw e at h))
]

module _ (locked : ℕ → Bool) where
  stale_from :
      (k : String) (p : KeyedLockPool) (ls : Dict ℕ)
      → any (λ j. j == k) (map key_of (filter (is_stale locked p) ls)) ≡ true
      → count_of k p ≡ 0
  stale_from k p [] h = absurd (ground (arith, h))
  stale_from k p ((j, l) ∷ ls) h = elim (Bool-cases (is_stale locked p (j, l))) [
    | inr e ↦ stale_from k p ls (rw e at h)
    | inl e ↦ elim (Bool-cases (j == k)) [
      | inr n ↦ stale_from k p ls (skipped n (rw e at h))
      | inl n ↦ same_count ((text_eq_iff j k).0 n) (no_count (locked l) (count_of j p) e)
    ]
  ]
    where
      skipped : {b c : Bool} → b ≡ false → b || c ≡ true → c ≡ true
      skipped n h = ground (arith, n, h)

      same_count : {i : String} → i ≡ k → count_of i p ≡ 0 → count_of k p ≡ 0
      same_count d c = rw (← d) c

      no_count : (b : Bool) (n : ℕ) → (not b && n == 0) ≡ true → n ≡ 0
      no_count b n e = ground (arith, e)

  evicted-unused :
      (k : String) (p : KeyedLockPool) → has_key k (evicted locked p) ≡ true → count_of k p ≡ 0
  unfolding stale
  evicted-unused k p h = stale_from k p p.locks (any-take (λ j. j == k) _ (stale locked p) h)

  evict-count : (k : String) (p : KeyedLockPool) → count_of k (evict locked p) ≡ count_of k p
  unfolding evict
  evict-count k p = elim (Bool-cases (has_key k (evicted locked p))) [
    | inl e ↦
        ground (arith, e, lookup-erase_all k (evicted locked p) p.refcounts, evicted-unused k p e)
    | inr e ↦ ground (arith, e, lookup-erase_all k (evicted locked p) p.refcounts)
  ]

  evict-lock :
      (k : String) (p : KeyedLockPool)
      → 0 < count_of k p
      → Dict.lookup k (evict locked p).locks ≡ Dict.lookup k p.locks
  unfolding evict
  evict-lock k p h = elim (Bool-cases (has_key k (evicted locked p))) [
    | inl e ↦ absurd (omega (arith, h, evicted-unused k p e))
    | inr e ↦ ground (arith, e, lookup-erase_all k (evicted locked p) p.locks)
  ]

-- The takers of a key that have not given it back, each with the lock that it got.
abbrev pub Takers : Type 0
Takers = List (String × ℕ)

abbrev pub takers_of : String → Takers → ℕ
takers_of k [] = 0
takers_of k ((j, l) ∷ ts) = if j == k then suc (takers_of k ts) else takers_of k ts

-- The pool counts the takers of each key, and has the lock that each of them got.
pub record Sound (ts : Takers) (p : KeyedLockPool) : Type 0 where
  pub counted : (k : String) → count_of k p ≡ takers_of k ts
  pub held : (k : String) (l : ℕ) → Memᴰ (k, l) ts → Dict.lookup k p.locks ≡ some l

pub takers-positive : (k : String) (l : ℕ) (ts : Takers) → Memᴰ (k, l) ts → 0 < takers_of k ts
takers-positive k l [] m = elim m [ ]
takers-positive k l ((j, i) ∷ ts) (Memᴰ.head e) =
    let d : k ≡ j = ap (λ (x : String × ℕ). x.0) e in ground (arith, (text_eq_iff j k).1 (sym d))
takers-positive k l ((j, i) ∷ ts) (Memᴰ.tail m) = ground (arith, takers-positive k l ts m)

bump-count :
    (key k : String) (p : KeyedLockPool)
    → count_of k (bump key p) ≡ (if key == k then suc (count_of k p) else count_of k p)
unfolding bump
bump-count key k p = elim (Bool-cases (key == k)) [
  | inl e ↦
      let d : key ≡ k = (text_eq_iff key k).0 e in
      ground (
        arith,
        e,
        lookup-insert key k (count_of key p + 1) p.refcounts,
        ap (λ (j : String). count_of j p) d,
      )
  | inr e ↦ ground (arith, e, lookup-insert key k (count_of key p + 1) p.refcounts)
]

acquire_old-Sound :
    (ts : Takers) (p : KeyedLockPool) (key : String) (l : ℕ)
    → Sound ts p
    → Dict.lookup key p.locks ≡ some l
    → Sound ((key, l) ∷ ts) (bump key p)
unfolding bump
acquire_old-Sound ts p key l h e = record {
  counted = λ k. ground (arith, bump-count key k p, h.counted k);
  held = λ k i m. elim (mem-cons_cases m) [
    | inl d ↦
        let dk : key ≡ k = sym (ap (λ (x : String × ℕ). x.0) d) in
        let di : l ≡ i = sym (ap (λ (x : String × ℕ). x.1) d) in rw (← dk, ← di) e
    | inr n ↦ h.held k i n
  ];
}

acquire_new-Sound :
    (ts : Takers) (p : KeyedLockPool) (key : String)
    → Sound ts p
    → ((i : ℕ) → Memᴰ (key, i) ts → ⊥)
    → Sound ((key, (make_lock key p).0) ∷ ts) (make_lock key p).1
unfolding bump
acquire_new-Sound ts p key h none_taken =
    let q : KeyedLockPool = record p {
      locks = Dict.insert key p.created p.locks;
      created = suc p.created;
    } in
    record {
      counted = λ k. ground (arith, bump-count key k q, h.counted k);
      held = λ k i m. elim (mem-cons_cases m) [
        | inl d ↦
            let dk : key ≡ k = sym (ap (λ (x : String × ℕ). x.0) d) in
            let di : p.created ≡ i = sym (ap (λ (x : String × ℕ). x.1) d) in
            rw (← dk, ← di)
              (ground (arith, lookup-insert key key p.created p.locks, text_eq_iff key key))
        | inr n ↦ elim (Bool-cases (key == k)) [
          | inl e ↦ absurd (taken k i n ((text_eq_iff key k).0 e))
          | inr e ↦ ground (arith, e, lookup-insert key k p.created p.locks, h.held k i n)
        ]
      ];
    }
  where
    taken : (k : String) (i : ℕ) → Memᴰ (k, i) ts → key ≡ k → ⊥
    taken k i n d = none_taken i (rw d n)

module _ (locked : ℕ → Bool) where
  evict-Sound : (ts : Takers) (p : KeyedLockPool) → Sound ts p → Sound ts (evict locked p)
  evict-Sound ts p h = record {
    counted = λ k. evict-count locked k p ∙ h.counted k;
    held = λ k l m.
        let n : 0 < count_of k p = rw (h.counted k) (takers-positive k l ts m) in
        evict-lock locked k p n ∙ h.held k l m;
  }

  pub acquire-Sound :
      (max_size : ℕ) (ts : Takers) (p : KeyedLockPool) (key : String)
      → Sound ts p
      → Sound ((key, (acquire locked max_size key p).0) ∷ ts) (acquire locked max_size key p).1
  unfolding acquire
  acquire-Sound max_size ts p key h = elim (Option-cases (Dict.lookup key p.locks)) [
    | inr (l, e) ↦ rw (acquire, e) (acquire_old-Sound ts p key l h e)
    | inl e ↦ elim (Bool-cases (leb max_size (length p.locks))) [
      | inl b ↦
          rw (acquire, e, b)
            (acquire_new-Sound ts (evict locked p) key (evict-Sound ts p h) (free e))
      | inr b ↦ rw (acquire, e, b) (acquire_new-Sound ts p key h (free e))
    ]
  ]
    where
      free : Dict.lookup key p.locks ≡ none → (i : ℕ) → Memᴰ (key, i) ts → ⊥
      free e i m = ground (arith, e, h.held key i m)
