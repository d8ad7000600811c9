-- ===== src/Prelude/Members.antt =====
-- Membership in a list, as a derivation, against the Boolean searches.
use mathlib.Core.Path.{◌≡◌, refl}
use mathlib.Core.Logic.{◌⊎◌, inl, inr}
use mathlib.Core.Bool.{Bool, true, false, ◌||◌}
use mathlib.Core.List.{List, [], ◌∷◌, ◌++◌, map, Memᴰ}
use mathlib.Core.Option.{some}
use native.Mathlib.Omega.{arith}
use velpos.Prelude.Tests.{Bool-cases}
use velpos.Prelude.Lists.{any, filter, find}

pub mem-cons_cases {ℓ} :
    {A : Type ℓ} {x y : A} {ys : List A} → Memᴰ x (y ∷ ys) → (x ≡ y) ⊎ Memᴰ x ys
mem-cons_cases (Memᴰ.head e) = inl e
mem-cons_cases (Memᴰ.tail m) = inr m

module _ {ℓ} {A : Type ℓ} (p : A → Bool) where
  pub any-false-mem : {x : A} (xs : List A) → any p xs ≡ false → Memᴰ x xs → p x ≡ false
  any-false-mem [] h m = elim m [ ]
  any-false-mem (y ∷ ys) h (Memᴰ.head e) = rw e (ground arith)
  any-false-mem (y ∷ ys) h (Memᴰ.tail m) = any-false-mem ys (ground arith) m

  pub any-true-mem : (xs : List A) → any p xs ≡ true → (x : A) × Memᴰ x xs × (p x ≡ true)
  any-true-mem [] h = absurd (ground arith)
  any-true-mem (y ∷ ys) h = elim (Bool-cases (p y)) [
    | inl e ↦ (y, Memᴰ.head refl, e)
    | inr e ↦ let (x, m, q) = any-true-mem ys (ground arith) in (x, Memᴰ.tail m, q)
  ]

  cong_true : {x y : A} → x ≡ y → p x ≡ true → p y ≡ true
  cong_true e h = cc

  pub mem-any-true : {x : A} (xs : List A) → Memᴰ x xs → p x ≡ true → any p xs ≡ true
  mem-any-true [] m h = elim m [ ]
  mem-any-true (y ∷ ys) (Memᴰ.head e) h = ground (arith, cong_true e h)
  mem-any-true (y ∷ ys) (Memᴰ.tail m) h = ground (arith, mem-any-true ys m h)

  pub mem-filter_left : {x : A} (xs : List A) → Memᴰ x (filter p xs) → Memᴰ x xs × (p x ≡ true)
  mem-filter_left [] m = elim m [ ]
  mem-filter_left {x} (y ∷ ys) m = elim (Bool-cases (p y)) [
    | inl e ↦ elim (mem-cons_cases (rw e at m)) [
      | inl d ↦ (Memᴰ.head d, cc)
      | inr n ↦ let (k, q) = mem-filter_left ys n in (Memᴰ.tail k, q)
    ]
    | inr e ↦ let (n, q) = mem-filter_left ys (rw e at m) in (Memᴰ.tail n, q)
  ]

  pub mem-filter_right : {x : A} (xs : List A) → Memᴰ x xs → p x ≡ true → Memᴰ x (filter p xs)
  mem-filter_right [] m h = elim m [ ]
  mem-filter_right (y ∷ ys) (Memᴰ.head d) h = rw (cong_true d h) (Memᴰ.head d)
  mem-filter_right (y ∷ ys) (Memᴰ.tail m) h = elim (Bool-cases (p y)) [
    | inl e ↦ rw e (Memᴰ.tail (mem-filter_right ys m h))
    | inr e ↦ rw e (mem-filter_right ys m h)
  ]

  pub find-mem : {x : A} (xs : List A) → find p xs ≡ some x → Memᴰ x xs × (p x ≡ true)
  find-mem [] h = absurd (ground arith)
  find-mem {x} (y ∷ ys) h = elim (Bool-cases (p y)) [
    | inl e ↦ let d : x ≡ y = ground arith in (Memᴰ.head d, cc)
    | inr e ↦ let (m, q) = find-mem ys (ground arith) in (Memᴰ.tail m, q)
  ]

module _ {ℓ} {A : Type ℓ} where
  pub mem-append_one : {x : A} (xs : List A) (y : A) → Memᴰ x (xs ++ y ∷ []) → Memᴰ x xs ⊎ (x ≡ y)
  mem-append_one [] y (Memᴰ.head e) = inr e
  mem-append_one [] y (Memᴰ.tail m) = elim m [ ]
  mem-append_one (z ∷ zs) y (Memᴰ.head e) = inl (Memᴰ.head e)
  mem-append_one (z ∷ zs) y (Memᴰ.tail m) = elim (mem-append_one zs y m) [
    | inl n ↦ inl (Memᴰ.tail n)
    | inr e ↦ inr e
  ]

  pub any-append_one : (p : A → Bool) (xs : List A) (y : A) → any p (xs ++ y ∷ []) ≡ any p xs || p y
  any-append_one p [] y = ground arith
  any-append_one p (x ∷ xs) y = ground (arith, any-append_one p xs y)

pub mem-map_inv {ℓ κ} :
    {A : Type ℓ} {B : Type κ} (f : A → B) (xs : List A) {y : B}
    → Memᴰ y (map f xs)
    → (x : A) × Memᴰ x xs × (y ≡ f x)
mem-map_inv f [] m = elim m [ ]
mem-map_inv f (x ∷ xs) m = elim (mem-cons_cases m) [
  | inl e ↦ (x, Memᴰ.head refl, e)
  | inr n ↦ let (z, k, q) = mem-map_inv f xs n in (z, Memᴰ.tail k, q)
]
