-- ===== src/Prelude/Keyed.antt =====
-- Rows with a numeric key: the UPDATE of one key, and the search for it.
use Prim.Native.Nat.{ℕ}
use mathlib.Core.Path.{◌≡◌, ap}
use mathlib.Core.Logic.{inl, inr}
use mathlib.Core.Bool.{Bool}
use mathlib.Core.List.{List, [], ◌∷◌, Memᴰ}
use mathlib.Core.Option.{Option, some}
use native.Mathlib.Omega.{arith}
use velpos.Prelude.Tests.{Bool-cases, ◌==◌, nat_eq, if◌then◌else◌}
use velpos.Prelude.Lists.{find}

test_kept : (a b i : ℕ) {c : Bool} → a ≡ b → (b == i) ≡ c → (a == i) ≡ c
test_kept a b i e h = rw e h

module _ {ℓ} {A : Type ℓ} (key : A → ℕ) where
  -- UPDATE … WHERE key = i
  unfoldable pub update_at : ℕ → (A → A) → List A → List A
  update_at i f [] = []
  update_at i f (r ∷ rs) = (if key r == i then f r else r) ∷ update_at i f rs

  abbrev pub find_at : ℕ → List A → Option A
  find_at i = find (λ r. key r == i)

  pub find_at-mem :
      (i : ℕ) (rows : List A) {r : A}
      → Memᴰ r rows
      → key r ≡ i
      → (x : A) × (find_at i rows ≡ some x)
  find_at-mem i [] m e = elim m [ ]
  find_at-mem i (y ∷ ys) {r} (Memᴰ.head d) e =
      let k : key y ≡ i = rw (← d) e in (y, ground (arith, k))
  find_at-mem i (y ∷ ys) (Memᴰ.tail m) e = elim (Bool-cases (key y == i)) [
    | inl a ↦ (y, rw a)
    | inr a ↦ let (x, f) = find_at-mem i ys m e in (x, rw a f)
  ]

  -- An update that keeps the keys changes what the search finds.
  pub find_at-update_at :
      (i : ℕ) (f : A → A) (rows : List A) {r : A}
      → ((x : A) → key (f x) ≡ key x)
      → find_at i rows ≡ some r
      → find_at i (update_at i f rows) ≡ some (f r)
  unfolding update_at
  find_at-update_at i f [] keeps h = absurd (ground arith)
  find_at-update_at i f (x ∷ xs) {r} keeps h = elim (Bool-cases (key x == i)) [
    | inl a ↦
        let d : x ≡ r = ground arith in
        rw (a, test_kept (key (f x)) (key x) i (keeps x) a) (ap (λ y. some (f y)) d)
    | inr a ↦ rw (a, a) (find_at-update_at i f xs keeps (rw a at h))
  ]
