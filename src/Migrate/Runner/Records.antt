-- ===== src/Migrate/Runner/Records.antt =====
-- scripts/migrate.mjs: the rows that applied migrations leave in `schema_migrations`.
use mathlib.Core.Path.{subst}
use mathlib.Core.List.{Memᴰ}
use mathlib.Core.List.Memᴰ.{head, tail}
use backend_architecture.Prelude.{
  ◌≡◌, refl, sym, ap, ◌∙◌, inl, inr, Bool, true, false, some, List, [], ◌∷◌, Text, text_eq,
  text_eq_iff, text_eq_refl, if◌then◌else◌, All, arith, Bool-cases, Option-cases,
}
use backend_architecture.Migrate.{Migration, AppliedMigration, find_applied, upsert}
use backend_architecture.Migrate.Runner.{is_modified, is_pending, any_migration, keep_migrations}

-- No two files have the same version.
abbrev pub AllDistinct : List Migration → Type 0
AllDistinct [] = Unit
AllDistinct (m ∷ ms) = All (λ n. text_eq n.version m.version ≡ false) ms × AllDistinct ms

abbrev pub record_all : List Migration → List AppliedMigration → List AppliedMigration
record_all [] rows = rows
record_all (m ∷ ms) rows = record_all ms (upsert m rows)

abbrev pub IsRecorded : List AppliedMigration → Migration → Type 0
IsRecorded rows m = find_applied m.version rows ≡ some m.checksum

find_applied-upsert :
    (v : Text) (m : Migration) (rows : List AppliedMigration)
    → find_applied v (upsert m rows)
      ≡ (if text_eq m.version v then some m.checksum else find_applied v rows)
find_applied-upsert v m [] = refl
find_applied-upsert v m (row ∷ rows) = ground (
  arith,
  text_eq_iff row.version m.version,
  text_eq_iff row.version v,
  text_eq_iff m.version v,
  find_applied-upsert v m rows,
)

find_applied-record_all :
    (v : Text) (ms : List Migration) (rows : List AppliedMigration)
    → All (λ m. text_eq m.version v ≡ false) ms
    → find_applied v (record_all ms rows) ≡ find_applied v rows
find_applied-record_all v [] rows h = refl
find_applied-record_all v (m ∷ ms) rows h =
    let rest = find_applied-record_all v ms (upsert m rows) h.1 in
    let one = find_applied-upsert v m rows in ground arith

record_all-IsRecorded :
    (m : Migration) (ms : List Migration) (rows : List AppliedMigration)
    → AllDistinct ms
    → Memᴰ m ms
    → IsRecorded (record_all ms rows) m
record_all-IsRecorded m [] rows d i = elim i [ ]
record_all-IsRecorded m (x ∷ ms) rows d (head e) =
    let later = find_applied-record_all x.version ms (upsert x rows) d.0 in
    let now = find_applied-upsert x.version x rows in
    subst (IsRecorded (record_all ms (upsert x rows))) (sym e)
      (later ∙ now ∙ rw (text_eq_refl x.version))
record_all-IsRecorded m (x ∷ ms) rows d (tail i) = record_all-IsRecorded m ms (upsert x rows) d.1 i

keep_migrations-All :
    (test : Migration → Bool) (P : Migration → Type 0) (ms : List Migration)
    → All P ms
    → All P (keep_migrations test ms)
keep_migrations-All test P [] h = tt
keep_migrations-All test P (m ∷ ms) h =
    let rest = keep_migrations-All test P ms h.1 in
    elim (Bool-cases (test m)) [ inl kept ↦ rw kept (h.0, rest) | inr dropped ↦ rw dropped rest ]

keep_migrations-AllDistinct :
    (test : Migration → Bool) (ms : List Migration)
    → AllDistinct ms
    → AllDistinct (keep_migrations test ms)
keep_migrations-AllDistinct test [] d = tt
keep_migrations-AllDistinct test (m ∷ ms) d =
    let rest = keep_migrations-AllDistinct test ms d.1 in
    elim (Bool-cases (test m)) [
      | inl kept ↦
          rw kept (keep_migrations-All test (λ n. text_eq n.version m.version ≡ false) ms d.0, rest)
      | inr dropped ↦ rw dropped rest
    ]

keep_migrations-Memᴰ :
    (test : Migration → Bool) (m : Migration) (ms : List Migration)
    → test m ≡ true
    → Memᴰ m ms
    → Memᴰ m (keep_migrations test ms)
keep_migrations-Memᴰ test m [] holds i = elim i [ ]
keep_migrations-Memᴰ test m (x ∷ ms) holds (head e) =
    let here : test x ≡ true = ap test (sym e) ∙ holds in rw here (head e)
keep_migrations-Memᴰ test m (x ∷ ms) holds (tail i) =
    let rest = keep_migrations-Memᴰ test m ms holds i in
    elim (Bool-cases (test x)) [ inl y ↦ rw y (tail rest) | inr n ↦ rw n rest ]

-- A row that is there keeps its checksum while pending migrations are recorded.
pending_differ :
    (v c : Text) (rows : List AppliedMigration) (ms : List Migration)
    → find_applied v rows ≡ some c
    → All (λ m. text_eq m.version v ≡ false) (keep_migrations (is_pending rows) ms)
pending_differ v c rows [] h = tt
pending_differ v c rows (m ∷ ms) h =
    let rest = pending_differ v c rows ms h in
    let same = text_eq_iff m.version v in
    elim (Option-cases (find_applied m.version rows)) [
      | inl new ↦ rw (is_pending, new) (ground arith, rest)
      | inr (d, old) ↦ rw (is_pending, old) rest
    ]

-- An applied migration that is not modified is recorded already.
is_modified-IsRecorded :
    (m : Migration) (c : Text) (ms : List Migration) (rows : List AppliedMigration)
    → any_migration (is_modified rows) ms ≡ false
    → Memᴰ m ms
    → find_applied m.version rows ≡ some c
    → IsRecorded rows m
is_modified-IsRecorded m c [] rows unmodified i old = elim i [ ]
is_modified-IsRecorded m c (x ∷ ms) rows unmodified (head e) old =
    let old' : find_applied x.version rows ≡ some c =
      subst (λ y. find_applied y.version rows ≡ some c) e old in
    let same = text_eq_iff c x.checksum in subst (IsRecorded rows) (sym e) (ground arith)
is_modified-IsRecorded m c (x ∷ ms) rows unmodified (tail i) old =
    is_modified-IsRecorded m c ms rows (ground arith) i old

pub is_pending-IsRecorded :
    (m : Migration) (ms : List Migration) (rows : List AppliedMigration)
    → AllDistinct ms
    → any_migration (is_modified rows) ms ≡ false
    → Memᴰ m ms
    → IsRecorded (record_all (keep_migrations (is_pending rows) ms) rows) m
is_pending-IsRecorded m ms rows d unmodified i = elim (Option-cases (find_applied m.version rows)) [
  | inl new ↦
      record_all-IsRecorded m (keep_migrations (is_pending rows) ms) rows
        (keep_migrations-AllDistinct (is_pending rows) ms d)
        (keep_migrations-Memᴰ (is_pending rows) m ms (rw (is_pending, new)) i)
  | inr (c, old) ↦
      find_applied-record_all m.version (keep_migrations (is_pending rows) ms) rows
        (pending_differ m.version c rows ms old)
      ∙ is_modified-IsRecorded m c ms rows unmodified i old
]
