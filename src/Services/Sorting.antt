-- ===== src/Services/Sorting.antt =====
-- `ORDER BY` of Postgres, for a column that holds numbers, and its documented behaviour: the order of
-- rows whose column is the same is open.
use mathlib.Core.List.{Permᴰ}
use backend_architecture.Prelude.{ℕ, ◌≤◌, List, [], ◌∷◌}

pub record Sorting (R : Type 0) : Type 0 where
  -- `ORDER BY … ASC` and `ORDER BY … DESC`
  pub ascending : (R → ℕ) → List R → List R
  pub descending : (R → ℕ) → List R → List R

abbrev pub IsAscending : {R : Type 0} → (R → ℕ) → List R → Type 0
IsAscending column [] = Unit
IsAscending column (a ∷ []) = Unit
IsAscending column (a ∷ b ∷ rows) = (column a ≤ column b) × IsAscending column (b ∷ rows)

abbrev pub IsDescending : {R : Type 0} → (R → ℕ) → List R → Type 0
IsDescending column [] = Unit
IsDescending column (a ∷ []) = Unit
IsDescending column (a ∷ b ∷ rows) = (column b ≤ column a) × IsDescending column (b ∷ rows)

-- The sorted rows are the given ones, each as often as it was given.
pub record IsSorting {R : Type 0} (sorting : Sorting R) : Type 0 where
  pub ascending_permutes :
      (column : R → ℕ) (rows : List R) → Permᴰ (sorting.ascending column rows) rows
  pub ascending_sorts :
      (column : R → ℕ) (rows : List R) → IsAscending column (sorting.ascending column rows)
  pub descending_permutes :
      (column : R → ℕ) (rows : List R) → Permᴰ (sorting.descending column rows) rows
  pub descending_sorts :
      (column : R → ℕ) (rows : List R) → IsDescending column (sorting.descending column rows)
