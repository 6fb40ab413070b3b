-- ===== src/Pagination/Pages.antt =====
-- The pages that `paginationOffset` and `buildPaginationMeta` cut a result set into.
use native.Mathlib.Nat.{mul-le-mul_right, div-add-mod, mod-lt, zero-mul, suc-mul}
use native.Mathlib.Decide.{dec_lt}
use backend_architecture.Pagination.{pagination_offset}
use backend_architecture.Prelude.{
  zero, List, ◌≡◌, ℕ, ◌+◌, ◌-◌, ◌*◌, ◌≤◌, ◌<◌, arith, take, [], suc, length, true, drop, ◌++◌, ap,
  take-add, ◌∙◌, ◌↔◌, take_all,
}
use backend_architecture.Pagination.{PaginationParams, build_pagination_meta, ceil_div}

ceil_div_bounds : (t p : ℕ) → 0 < p → (t ≤ p * ceil_div t p) × (p * ceil_div t p < t + p)
ceil_div_bounds t p h =
    let e = div-add-mod (t + (p - 1)) p in
    let r = mod-lt (t + (p - 1)) h in (omega (arith, e, r), omega (arith, e, r))

-- The page count is the least that covers all rows.
pub total_pages_bounds :
    (total : ℕ) (q : PaginationParams)
    → 0 < q.page_size
    → (total ≤ (build_pagination_meta total q).total_pages * q.page_size)
      × ((build_pagination_meta total q).total_pages * q.page_size < total + q.page_size)
unfolding build_pagination_meta
total_pages_bounds total q h = ground (arith, ceil_div_bounds total q.page_size h)

-- The rows that `LIMIT pageSize OFFSET (page - 1) * pageSize` selects.
abbrev pub page_rows {ℓ} : {A : Type ℓ} → List A → PaginationParams → List A
page_rows rows q = take q.page_size (drop (pagination_offset q) rows)

-- The pages 1 to `n`, one after the other.
abbrev pub first_pages {ℓ} : {A : Type ℓ} → List A → ℕ → ℕ → List A
first_pages rows page_size zero = []
first_pages rows page_size (suc n) =
    first_pages rows page_size n ++ page_rows rows (record { page = suc n; page_size = page_size })

offset_suc : (n p : ℕ) → pagination_offset (record { page = suc n; page_size = p }) ≡ n * p
unfolding pagination_offset
offset_suc n p = ap (λ t. t * p) (omega arith)

first_pages-eq-take {ℓ} :
    {A : Type ℓ} (rows : List A) (p n : ℕ) → first_pages rows p n ≡ take (n * p) rows
first_pages-eq-take rows p zero = rw zero-mul
first_pages-eq-take rows p (suc n) =
    rw (first_pages-eq-take rows p n, offset_suc n p, suc-mul, take-add (n * p) p rows)

-- For every page size above 0 the pages from the first to the last that the metadata announce, one
-- after the other, are exactly the rows: no row is lost, repeated or moved.
pub all_pages-eq-rows {ℓ} :
    {A : Type ℓ} (rows : List A) (q : PaginationParams)
    → 0 < q.page_size
    → first_pages rows q.page_size (build_pagination_meta (length rows) q).total_pages ≡ rows
all_pages-eq-rows rows q h =
    first_pages-eq-take rows q.page_size (build_pagination_meta (length rows) q).total_pages
    ∙ take_all _ rows (total_pages_bounds (length rows) q h).0

lt_of_mul_lt : (a n t p : ℕ) → a * p < t → t ≤ n * p → a < n
lt_of_mul_lt a n t p lt le = elim (dec_lt a n) [
  | yes h ↦ h
  | no h ↦ let ge : n ≤ a = omega arith in absurd (omega (arith, mul-le-mul_right p ge))
]

has_next_iff_pages :
    (total : ℕ) (q : PaginationParams)
    → ((build_pagination_meta total q).has_next ≡ true)
      ↔ (q.page < (build_pagination_meta total q).total_pages)
unfolding build_pagination_meta
has_next_iff_pages total q = ground arith

-- `hasNext` is true exactly when a row stands behind the last row of this page, for every page
-- size above 0.
pub has_next_iff :
    (total : ℕ) (q : PaginationParams)
    → 0 < q.page_size
    → ((build_pagination_meta total q).has_next ≡ true) ↔ (q.page * q.page_size < total)
has_next_iff total q h =
    let n = (build_pagination_meta total q).total_pages in
    let b = total_pages_bounds total q h in
    let i = has_next_iff_pages total q in
    (
      λ e. let below = i.0 e in grind (arith, b.1, mul-le-mul_right q.page_size below),
      λ lt. i.1 (lt_of_mul_lt q.page n total q.page_size lt b.0),
    )
