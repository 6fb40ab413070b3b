-- ===== src/Prelude/Decimal.antt =====
-- Decimal numerals: `String(n)` and `Number.parseInt(s, 10)`.
use backend_architecture.Prelude.Tests.{leb, ltb, ◌==◌, if◌then◌else◌, Bool-cases}
use backend_architecture.Prelude.Lists.{All, All-append, length, length-append}
use backend_architecture.Prelude.Strings.{Text, trim_start}
use Prim.Native.Nat.{ℕ, zero, suc, ◌+◌, ◌-◌, ◌*◌, ◌/◌, ◌%◌, ◌<◌, ◌≤◌, ◌^◌}
use mathlib.Core.Path.{refl, ◌≡◌, sym, ◌∙◌, ap}
use mathlib.Core.Logic.{◌≢◌, inl, inr}
use mathlib.Core.Bool.{Bool, true, ◌&&◌}
use mathlib.Core.Option.{Option, none, some}
use mathlib.Core.List.{[], ◌∷◌, ◌++◌}
use native.Mathlib.Omega.{arith}

-- The digits of `n`, by fuel: every number below the fuel is printed whole.
unfoldable pub digits_fuel : ℕ → ℕ → Text
digits_fuel zero n = []
digits_fuel (suc f) n =
    let front = digits_fuel f (n / 10) in
    if ltb n 10 then (b'0' + n) ∷ [] else front ++ (b'0' + n % 10) ∷ []

-- `String(n)` of a whole number that is not negative.
unfoldable pub decimal : ℕ → Text
unfolding digits_fuel
decimal n = digits_fuel (suc n) n

abbrev pub is_digit : ℕ → Bool
is_digit c = (leb b'0' c) && (leb c b'9')

-- The digits that `parseInt` reads, up to the first other character.
unfoldable pub scan : Text → ℕ → ℕ
scan [] acc = acc
scan (c ∷ s) acc = let rest = scan s (acc * 10 + (c - b'0')) in if is_digit c then rest else acc

-- A signed whole number, as `parseInt` returns it; `NaN` where no digit is read.
pub data Number : Type 0 where
  nan : Number
  whole : ℕ → Number
  negative : ℕ → Number

unfoldable pub unsigned : Text → Option ℕ
unfolding scan
unsigned [] = none
unsigned (c ∷ s) = if is_digit c then some (scan (c ∷ s) 0) else none

abbrev pub signed : (ℕ → Number) → Option ℕ → Number
signed f none = nan
signed f (some n) = f n

unfoldable pub parse_sign : Text → Number
unfolding unsigned
parse_sign [] = nan
parse_sign (c ∷ s) =
    if c == b'-'
    then signed negative (unsigned s)
    else if c == b'+'
    then signed whole (unsigned s)
    else signed whole (unsigned (c ∷ s))

-- `Number.parseInt(s, 10)`, whole numbers taken exactly.
unfoldable pub parse_int : Text → Number
unfolding parse_sign
parse_int s = parse_sign (trim_start s)

scan-append_digit :
    (s : Text) (d acc : ℕ)
    → All (λ c. is_digit c ≡ true) s
    → d < 10
    → scan (s ++ (b'0' + d) ∷ []) acc ≡ scan s acc * 10 + d
unfolding scan
scan-append_digit [] d acc hs hd = ground arith
scan-append_digit (c ∷ s) d acc hs hd =
    ground (arith, scan-append_digit s d (acc * 10 + (c - b'0')))

digits_fuel-digits : (f n : ℕ) → All (λ c. is_digit c ≡ true) (digits_fuel f n)
unfolding digits_fuel
digits_fuel-digits zero n = tt
digits_fuel-digits (suc f) n = elim (Bool-cases (ltb n 10)) [
  | inl small ↦ rw small (ground arith, tt)
  | inr large ↦ rw large (All-append _ _ _ (digits_fuel-digits f (n / 10)) (ground arith, tt))
]

scan-digits_fuel : (f n : ℕ) → n < f → scan (digits_fuel f n) 0 ≡ n
unfolding digits_fuel scan
scan-digits_fuel zero n h = absurd (omega arith)
scan-digits_fuel (suc f) n h = elim (Bool-cases (ltb n 10)) [
  | inl small ↦ rw small (ground arith)
  | inr large ↦ rw large (
      scan-append_digit (digits_fuel f (n / 10)) (n % 10) 0 (digits_fuel-digits f (n / 10))
        (omega arith)
      ∙ omega (arith, scan-digits_fuel f (n / 10) (ground arith)))
]

pub decimal-digits : (n : ℕ) → All (λ c. is_digit c ≡ true) (decimal n)
unfolding decimal
decimal-digits n = digits_fuel-digits (suc n) n

pub scan-decimal : (n : ℕ) → scan (decimal n) 0 ≡ n
unfolding decimal
scan-decimal n = scan-digits_fuel (suc n) n (omega arith)

-- Two numbers that print alike are equal.
pub decimal_injective : (m n : ℕ) → decimal m ≡ decimal n → m ≡ n
decimal_injective m n h = sym (scan-decimal m) ∙ ap (λ s. scan s 0) h ∙ scan-decimal n

append_one-ne-nil : (s : Text) (c : ℕ) → s ++ c ∷ [] ≢ []
append_one-ne-nil [] c h = cc
append_one-ne-nil (d ∷ s) c h = cc

pub decimal-ne-nil : (n : ℕ) → decimal n ≢ []
unfolding decimal
decimal-ne-nil n = elim (Bool-cases (ltb n 10)) [
  | inl small ↦ rw small (λ e. cc)
  | inr large ↦ rw large (append_one-ne-nil _ _)
]

parse_int-digits :
    (s : Text) → All (λ c. is_digit c ≡ true) s → s ≢ [] → parse_int s ≡ whole (scan s 0)
unfolding parse_int
parse_int-digits [] h ne = absurd (ne refl)
parse_int-digits (c ∷ s) h ne = ground (arith, h.0)

-- `Number.parseInt` reads back every whole number that `String` prints.
pub parse_int-decimal : (n : ℕ) → parse_int (decimal n) ≡ whole n
parse_int-decimal n =
    parse_int-digits (decimal n) (decimal-digits n) (decimal-ne-nil n) ∙ ap whole (scan-decimal n)

digits_fuel-length : (k f n : ℕ) → n < 10 ^ suc k → length (digits_fuel f n) ≤ suc k
unfolding digits_fuel
digits_fuel-length k zero n h = omega arith
digits_fuel-length zero (suc f) n h =
    let small : ltb n 10 ≡ true = ground arith in rw small (omega arith)
digits_fuel-length (suc k) (suc f) n h = elim (Bool-cases (ltb n 10)) [
  | inl small ↦ rw small (omega arith)
  | inr large ↦
      let shorter : n / 10 < 10 ^ suc k = ground arith in
      let rest = digits_fuel-length k f (n / 10) shorter in
      rw large (omega (arith, rest, length-append (digits_fuel f (n / 10)) ((b'0' + n % 10) ∷ [])))
]

-- A number below a power of ten has at most that many digits.
pub decimal-length : (k n : ℕ) → n < 10 ^ suc k → length (decimal n) ≤ suc k
unfolding decimal
decimal-length k n h = digits_fuel-length k (suc n) n h
