-- ===== src/Prelude/Strings.antt =====
-- Strings as lists of code units, with equality, order and the string methods that the sources call.
use Prim.Native.Nat.{ℕ, ◌+◌}
use Prim.Native.Char.{code}
use Prim.Native.String.{String}
use mathlib.Core.Path.{◌≡◌, refl}
use mathlib.Core.Logic.{◌↔◌, ◌≢◌}
use mathlib.Core.Bool.{Bool, true, false, ◌&&◌, ◌||◌}
use mathlib.Core.List.{List, [], ◌∷◌, ◌++◌}
use native.Mathlib.Omega.{arith}
use backend_architecture.Prelude.Tests.{leb, ◌==◌, if◌then◌else◌}
use backend_architecture.Prelude.Lists.{All}

abbrev pub Text : Type 0
Text = List ℕ

abbrev pub codes : String → Text
codes String.[] = []
codes (String.◌∷◌ c s) = code c ∷ codes s

abbrev pub text_eq : Text → Text → Bool
text_eq [] [] = true
text_eq [] (d ∷ t) = false
text_eq (c ∷ s) [] = false
text_eq (c ∷ s) (d ∷ t) = (c == d) && text_eq s t

pub text_eq_iff : (s t : Text) → (text_eq s t ≡ true) ↔ (s ≡ t)
text_eq_iff [] [] = ground arith
text_eq_iff [] (d ∷ t) = ground arith
text_eq_iff (c ∷ s) [] = ground arith
text_eq_iff (c ∷ s) (d ∷ t) = ground (arith, text_eq_iff s t)

pub text_eq_refl : (s : Text) → text_eq s s ≡ true
text_eq_refl s = (text_eq_iff s s).1 refl

-- The `startsWith` method.
abbrev pub starts_with : Text → Text → Bool
starts_with [] t = true
starts_with (c ∷ s) [] = false
starts_with (c ∷ s) (d ∷ t) = (c == d) && starts_with s t

-- Text up to the first separator: `t.split(sep)[0]`.
abbrev pub before : ℕ → Text → Text
before sep [] = []
before sep (c ∷ s) = if c == sep then [] else c ∷ before sep s

-- What `trim` removes, among the ASCII characters.
abbrev pub is_space : ℕ → Bool
is_space c = (c == 32) || ((leb 9 c) && (leb c 13))

abbrev pub trim_start : Text → Text
trim_start [] = []
trim_start (c ∷ s) = if is_space c then trim_start s else c ∷ s

-- `trim_end` keeps a space only if something other than spaces follows.
abbrev pub cons_unless_blank : ℕ → Text → Text
cons_unless_blank c [] = if is_space c then [] else c ∷ []
cons_unless_blank c (d ∷ s) = c ∷ d ∷ s

abbrev pub trim_end : Text → Text
trim_end [] = []
trim_end (c ∷ s) = cons_unless_blank c (trim_end s)

abbrev pub trim : Text → Text
trim s = trim_end (trim_start s)

-- `toLowerCase`, for ASCII.
abbrev pub lower_char : ℕ → ℕ
lower_char c = if (leb b'A' c) && (leb c b'Z') then c + 32 else c

-- The letters A to Z only.
abbrev pub to_lower : Text → Text
to_lower [] = []
to_lower (c ∷ s) = lower_char c ∷ to_lower s

pub head_eq : {c d : ℕ} {s t : Text} → c ∷ s ≡ d ∷ t → c ≡ d
head_eq h = cc

pub tail_eq : {c d : ℕ} {s t : Text} → c ∷ s ≡ d ∷ t → s ≡ t
tail_eq h = cc

pub append_left_cancel : (p s t : Text) → p ++ s ≡ p ++ t → s ≡ t
append_left_cancel [] s t h = h
append_left_cancel (c ∷ p) s t h = append_left_cancel p s t (cc)

-- Two texts whose first parts do not hold the separator are split by it in the same way.
pub split_unique :
    (sep : ℕ) (a b s t : Text)
    → All (λ c. c ≢ sep) a
    → All (λ c. c ≢ sep) b
    → a ++ sep ∷ s ≡ b ++ sep ∷ t
    → (a ≡ b) × (s ≡ t)
split_unique sep [] [] s t ha hb h = (refl, cc)
split_unique sep [] (d ∷ b) s t ha hb h = absurd (hb.0 (cc))
split_unique sep (c ∷ a) [] s t ha hb h = absurd (ha.0 (cc))
split_unique sep (c ∷ a) (d ∷ b) s t ha hb h =
    let rest = split_unique sep a b s t ha.1 hb.1 (cc) in (cc rest.0, rest.1)
