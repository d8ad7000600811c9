-- ===== src/Prelude/Text.antt =====
-- Texts cut by characters, and tests for the empty text.
use Prim.Native.Nat.{ℕ, zero, suc, ◌≤◌}
use Prim.Native.Char.{code}
use Prim.Native.String.{String, ◌++◌}
use mathlib.Core.Path.{◌≡◌, refl}
use mathlib.Core.Bool.{Bool, true, false, ◌&&◌, ◌||◌}
use mathlib.Core.List.{List, [], ◌∷◌}
use native.Mathlib.Omega.{arith}
use text.Mathlib.TextLemmas.{cons-append}
use velpos.Prelude.Tests.{nat_beq, if◌then◌else◌}

-- Python's `len(s)`: the number of characters.
abbrev pub chars : String → ℕ
chars String.[] = 0
chars (String.◌∷◌ c s) = suc (chars s)

-- Python's `s[:n]`
abbrev pub take_chars : ℕ → String → String
take_chars zero s = ""
take_chars (suc n) String.[] = ""
take_chars (suc n) (String.◌∷◌ c s) = String.◌∷◌ c (take_chars n s)

-- Python's `s[n:]`
abbrev pub drop_chars : ℕ → String → String
drop_chars zero s = s
drop_chars (suc n) String.[] = ""
drop_chars (suc n) (String.◌∷◌ c s) = drop_chars n s

-- Python's `not s`
abbrev pub is_empty : String → Bool
is_empty String.[] = true
is_empty (String.◌∷◌ c s) = false

-- Python's `s or t`
abbrev pub or_text : String → String → String
or_text s t = if is_empty s then t else s

pub chars-take_chars : (n : ℕ) (s : String) → chars (take_chars n s) ≤ n
chars-take_chars zero s = omega arith
chars-take_chars (suc n) String.[] = omega arith
chars-take_chars (suc n) (String.◌∷◌ c s) = omega (arith, chars-take_chars n s)

-- Python's `s + t`, and what an f-string puts together.
infixr 60 ◌<>◌
abbrev pub ◌<>◌ : String → String → String
s <> t = s ++ t

-- Python's `s.startswith(p)`, the prefix first.
unfoldable pub starts_with : String → String → Bool
starts_with String.[] s = true
starts_with (String.◌∷◌ c p) String.[] = false
starts_with (String.◌∷◌ c p) (String.◌∷◌ d s) = nat_beq (code c) (code d) && starts_with p s

-- Python's `p in s`
unfoldable pub has_text : String → String → Bool
unfolding starts_with
has_text p String.[] = is_empty p
has_text p (String.◌∷◌ c s) = starts_with p (String.◌∷◌ c s) || has_text p s

-- Python's `sep.join(parts)`
unfoldable pub join_texts : String → List String → String
join_texts sep [] = ""
join_texts sep (s ∷ []) = s
join_texts sep (s ∷ t ∷ rest) = s <> sep <> join_texts sep (t ∷ rest)

pub starts_with-append : (p s : String) → starts_with p (p <> s) ≡ true
unfolding starts_with
starts_with-append String.[] s = refl
starts_with-append (String.◌∷◌ c p) s =
    rw (cons-append c p s) (ground (arith, starts_with-append p s))
