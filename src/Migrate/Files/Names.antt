-- ===== src/Migrate/Files/Names.antt =====
-- scripts/migrate.mjs: which file names are taken, and what is read off them.
use backend_architecture.Prelude.{
  ℕ, ◌-◌, ◌≡◌, refl, Bool, true, not, ◌||◌, some, [], ◌∷◌, ◌++◌, Text, codes, text_eq_refl, ltb,
  ◌==◌, length, take-append, drop-append, length-append, &&-eq-true, drop, all, arith, leb_iff,
}
use backend_architecture.Prelude.Decimal.{is_digit}
use backend_architecture.Migrate.Files.{match_filename, span_digits, stem, ends_with}

abbrev pub filename_of : Text → Text → Text
filename_of version description = version ++ (b'_' ∷ (description ++ codes ".sql"))

-- What `.` matches.
abbrev pub is_in_line : ℕ → Bool
is_in_line c = not ((c == 10) || ((c == 13) || ((c == 8232) || (c == 8233))))

span_digits-append :
    (v s : Text) → all is_digit v ≡ true → span_digits (v ++ b'_' ∷ s) ≡ (v, b'_' ∷ s)
span_digits-append [] s h = refl
span_digits-append (c ∷ v) s h =
    let (digit, digits) = &&-eq-true (is_digit c) (all is_digit v) h in
    let rest = span_digits-append v s digits in rw (digit, rest)

ends_with-append : (d s : Text) → ends_with s (d ++ s) ≡ true
ends_with-append d s =
    let n : length (d ++ s) - length s ≡ length d = omega (arith, length-append d s) in
    let after : drop (length (d ++ s) - length s) (d ++ s) ≡ s = rw n (drop-append d s) in
    let fits = (leb_iff (length s) (length (d ++ s))).1 (omega (arith, length-append d s)) in
    rw (after, text_eq_refl s, fits)

stem-append : (d : Text) → stem (d ++ codes ".sql") ≡ d
stem-append d =
    let n : length (d ++ codes ".sql") - 4 ≡ length d =
      omega (arith, length-append d (codes ".sql")) in
    rw n (take-append d (codes ".sql"))

-- A name put together from a version of digits and a description of a line, neither of them empty,
-- is taken apart again by the pattern.
pub match_filename-filename_of :
    (c d : ℕ) (version description : Text)
    → all is_digit (c ∷ version) ≡ true
    → all is_in_line (d ∷ description) ≡ true
    → match_filename (filename_of (c ∷ version) (d ∷ description))
      ≡ some (c ∷ version, d ∷ description)
unfolding match_filename
match_filename-filename_of c d version description digits line =
    let s = d ∷ description in
    let parts = span_digits-append (c ∷ version) (s ++ codes ".sql") digits in
    let ends = ends_with-append s (codes ".sql") in
    let long : ltb 4 (length (s ++ codes ".sql")) ≡ true =
      let n = length-append description (codes ".sql") in ground arith in
    let kept = stem-append s in rw (parts, ends, long, kept, line)
