-- ===== src/Tests/Sorting.antt =====
-- A sorting by insertion: the documented behaviour of `ORDER BY` can be met.
use mathlib.Core.List.{Permᴰ}
use mathlib.Core.List.Permᴰ
use backend_architecture.Prelude.{
  ℕ, refl, inl, inr, Bool, List, [], ◌∷◌, leb, arith, if◌then◌else◌, Bool-cases,
}
use backend_architecture.Services.Sorting.{Sorting, IsSorting, IsAscending, IsDescending}

-- `before a b` allows `a` to stand before `b`.
abbrev insert : {R : Type 0} → (R → R → Bool) → R → List R → List R
insert before row [] = row ∷ []
insert before row (r ∷ rows) =
    let rest = insert before row rows in if before row r then row ∷ r ∷ rows else r ∷ rest

abbrev sort : {R : Type 0} → (R → R → Bool) → List R → List R
sort before [] = []
sort before (row ∷ rows) = insert before row (sort before rows)

abbrev pub by_insertion : {R : Type 0} → Sorting R
by_insertion = record {
  ascending = λ column. sort (λ a b. leb (column a) (column b));
  descending = λ column. sort (λ a b. leb (column b) (column a));
}

module _ {R : Type 0} (before : R → R → Bool) where
  insert-permutes : (row : R) (rows : List R) → Permᴰ (insert before row rows) (row ∷ rows)
  insert-permutes row [] = Permᴰ.refl (row ∷ [])
  insert-permutes row (r ∷ rows) = elim (Bool-cases (before row r)) [
    | inl first ↦ rw first (Permᴰ.refl (row ∷ r ∷ rows))
    | inr later ↦
        rw later (Permᴰ.trans (Permᴰ.cons refl (insert-permutes row rows)) (Permᴰ.swap refl refl))
  ]

  sort-permutes : (rows : List R) → Permᴰ (sort before rows) rows
  sort-permutes [] = Permᴰ.nil
  sort-permutes (row ∷ rows) =
      Permᴰ.trans (insert-permutes row (sort before rows)) (Permᴰ.cons refl (sort-permutes rows))

module _ {R : Type 0} (column : R → ℕ) where
  abbrev up : R → R → Bool
  up a b = leb (column a) (column b)

  abbrev down : R → R → Bool
  down a b = leb (column b) (column a)

  insert-IsAscending :
      (row : R) (rows : List R) → IsAscending column rows → IsAscending column (insert up row rows)
  insert-IsAscending row [] h = tt
  insert-IsAscending row (r ∷ []) h = ground arith
  insert-IsAscending row (r ∷ s ∷ rows) h =
      let rest = insert-IsAscending row (s ∷ rows) h.1 in
      elim (Bool-cases (up row r)) [
        | inl first ↦ ground arith
        | inr later ↦ elim (Bool-cases (up row s)) [
          | inl here ↦ ground arith
          | inr beyond ↦ ground arith
        ]
      ]

  insert-IsDescending :
      (row : R) (rows : List R)
      → IsDescending column rows
      → IsDescending column (insert down row rows)
  insert-IsDescending row [] h = tt
  insert-IsDescending row (r ∷ []) h = ground arith
  insert-IsDescending row (r ∷ s ∷ rows) h =
      let rest = insert-IsDescending row (s ∷ rows) h.1 in
      elim (Bool-cases (down row r)) [
        | inl first ↦ ground arith
        | inr later ↦ elim (Bool-cases (down row s)) [
          | inl here ↦ ground arith
          | inr beyond ↦ ground arith
        ]
      ]

  sort-IsAscending : (rows : List R) → IsAscending column (sort up rows)
  sort-IsAscending [] = tt
  sort-IsAscending (row ∷ rows) = insert-IsAscending row (sort up rows) (sort-IsAscending rows)

  sort-IsDescending : (rows : List R) → IsDescending column (sort down rows)
  sort-IsDescending [] = tt
  sort-IsDescending (row ∷ rows) = insert-IsDescending row (sort down rows) (sort-IsDescending rows)

pub by_insertion-IsSorting : {R : Type 0} → IsSorting (by_insertion {R = R})
by_insertion-IsSorting = record {
  ascending_permutes = λ column. sort-permutes (λ a b. leb (column a) (column b));
  ascending_sorts = sort-IsAscending;
  descending_permutes = λ column. sort-permutes (λ a b. leb (column b) (column a));
  descending_sorts = sort-IsDescending;
}
