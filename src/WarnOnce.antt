-- ===== src/WarnOnce.antt =====
-- packages/api-service/src/utils/warn-once.ts
use mathlib.Core.Path.{subst}
use backend_architecture.Prelude.{
  ℕ, ◌+◌, ◌-◌, ◌≤◌, ◌≡◌, sym, inl, inr, false, Option, none, some, List, [], ◌∷◌, Text, text_eq,
  text_eq_iff, text_eq_refl, ltb, if◌then◌else◌, All, arith, Bool-cases,
}

-- The last times of the keys, and what the logger was given, the latest first: key, time and message.
pub record Warnings : Type 0 where
  pub warn_timestamps : Text → Option ℕ
  pub logged : List (Text × (ℕ × Text))

unfoldable pub create_warn_once_per_minute : Warnings
create_warn_once_per_minute = record { warn_timestamps = λ key. none; logged = [] }

abbrev or_zero : Option ℕ → ℕ
or_zero none = 0
or_zero (some n) = n

-- `warnTimestamps.set(key, now)`
abbrev set_timestamp : Text → ℕ → (Text → Option ℕ) → Text → Option ℕ
set_timestamp key now timestamps k = if text_eq key k then some now else timestamps k

-- The function that `createWarnOncePerMinute` returns, at the time `now`; a difference below zero is
-- less than a minute too.
unfoldable pub warn_once_per_minute : Text → Text → ℕ → Warnings → Warnings
warn_once_per_minute key message now s =
    if ltb (now - or_zero (s.warn_timestamps key)) 60000 then s else record {
      warn_timestamps = set_timestamp key now s.warn_timestamps;
      logged = (key, (now, message)) ∷ s.logged;
    }

-- Calls one after the other, each with its key, message and time; the clock may be set back between.
abbrev pub warn_each : List (Text × (Text × ℕ)) → Warnings → Warnings
warn_each [] s = s
warn_each ((key, (message, now)) ∷ calls) s =
    warn_each calls (warn_once_per_minute key message now s)

-- Any two warnings of one key lie at least a minute apart.
abbrev pub IsSpaced : List (Text × (ℕ × Text)) → Type 0
IsSpaced [] = Unit
IsSpaced ((key, (now, message)) ∷ logged) =
    All (λ (e : Text × (ℕ × Text)). e.0 ≡ key → e.1.0 + 60000 ≤ now) logged × IsSpaced logged

-- No warning of a key is later than the time kept for the key.
abbrev Bounded : Warnings → Type 0
Bounded s = All (λ (e : Text × (ℕ × Text)). e.1.0 ≤ or_zero (s.warn_timestamps e.0)) s.logged

All-map :
    {A : Type 0} (P Q : A → Type 0) (xs : List A) → ((x : A) → P x → Q x) → All P xs → All Q xs
All-map P Q [] f h = tt
All-map P Q (x ∷ xs) f h = (f x h.0, All-map P Q xs f h.1)

warned_late : (last now : ℕ) → ltb (now - last) 60000 ≡ false → last + 60000 ≤ now
warned_late last now late = ground arith

abbrev IsKept : Warnings → Type 0
IsKept s = IsSpaced s.logged × Bounded s

abbrev warned : Text → Text → ℕ → Warnings → Warnings
warned key message now s = record {
  warn_timestamps = set_timestamp key now s.warn_timestamps;
  logged = (key, (now, message)) ∷ s.logged;
}

module _ (key message : Text) (now : ℕ) (s : Warnings)
    (late : ltb (now - or_zero (s.warn_timestamps key)) 60000 ≡ false) where
  still_bounded :
      (e : Text × (ℕ × Text))
      → e.1.0 ≤ or_zero (s.warn_timestamps e.0)
      → e.1.0 ≤ or_zero (set_timestamp key now s.warn_timestamps e.0)
  still_bounded (k, (t, m)) le = elim (Bool-cases (text_eq key k)) [
    | inl same ↦
        let is_key : k ≡ key = sym ((text_eq_iff key k).0 same) in
        let le' : t ≤ or_zero (s.warn_timestamps key) =
          subst (λ j. t ≤ or_zero (s.warn_timestamps j)) is_key le in
        let gap = warned_late (or_zero (s.warn_timestamps key)) now late in
        rw same (omega (arith, le', gap))
    | inr other ↦ rw other le
  ]

  warned-IsKept : IsKept s → IsKept (warned key message now s)
  warned-IsKept (spaced, bounded) =
      let gap = warned_late (or_zero (s.warn_timestamps key)) now late in
      (
        (
          All-map _ _ s.logged
              (λ e le same.
                let le' : e.1.0 ≤ or_zero (s.warn_timestamps key) =
                  subst (λ j. e.1.0 ≤ or_zero (s.warn_timestamps j)) same le in
                omega (arith, le', gap))
              bounded,
          spaced,
        ),
        (rw (text_eq_refl key) (omega arith), All-map _ _ s.logged still_bounded bounded),
      )

warn_once_per_minute-IsKept :
    (key message : Text) (now : ℕ) (s : Warnings)
    → IsKept s
    → IsKept (warn_once_per_minute key message now s)
unfolding warn_once_per_minute
warn_once_per_minute-IsKept key message now s kept =
    elim (Bool-cases (ltb (now - or_zero (s.warn_timestamps key)) 60000)) [
      | inl soon ↦ subst (λ b. IsKept (if b then s else warned key message now s)) (sym soon) kept
      | inr late ↦
          subst (λ b. IsKept (if b then s else warned key message now s)) (sym late)
            (warned-IsKept key message now s late kept)
    ]

warn_each-IsKept :
    (calls : List (Text × (Text × ℕ))) (s : Warnings) → IsKept s → IsKept (warn_each calls s)
warn_each-IsKept [] s kept = kept
warn_each-IsKept ((key, (message, now)) ∷ calls) s kept =
    warn_each-IsKept calls (warn_once_per_minute key message now s)
      (warn_once_per_minute-IsKept key message now s kept)

-- Whatever the calls and their times: the logger never gets two warnings of one key less than a
-- minute apart.
pub warn_each-IsSpaced :
    (calls : List (Text × (Text × ℕ)))
    → IsSpaced (warn_each calls create_warn_once_per_minute).logged
unfolding create_warn_once_per_minute
warn_each-IsSpaced calls = (warn_each-IsKept calls create_warn_once_per_minute (tt, tt)).0
