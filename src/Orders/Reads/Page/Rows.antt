-- ===== src/Orders/Reads/Page/Rows.antt =====
-- packages/api-service/src/routes/orders.routes.ts: the page that `fetchOrdersPage` gives, and its total.
use backend_architecture.Prelude.{
  ℕ, suc, ◌-◌, ◌≡◌, refl, ◌∙◌, inl, inr, Bool, false, some, List, [], ◌∷◌, ◌++◌, Text, length,
  get_elem?, ok, arith, Result-cases, length-append,
}
use backend_architecture.Prelude.Decimal.{decimal, parse_int-decimal}
use mathlib.Core.List.{Permᴰ}
use backend_architecture.Services.Postgres.{IsPool}
use backend_architecture.Services.Sorting.{Sorting, IsSorting, IsDescending}
use backend_architecture.Pagination.{build_pagination_meta, pagination_offset}
use backend_architecture.Pagination.Pages.{page_rows}
use backend_architecture.Cache.CountCache.{with_count_cache}
use backend_architecture.Orders.Tables.{OrderRow, Tables}
use backend_architecture.Orders.Create.{OrderContext}
use backend_architecture.Orders.Reads.Where.{
  ListOrdersQuery, Param, number, where_of, satisfies_all,
}
use backend_architecture.Orders.Reads.Filter.{
  is_selected, where_of-is_selected, satisfies_all-append, where_of-IsNumbered,
}
use backend_architecture.Orders.Reads.Page.{
  select_rows, newest_first, select_page, count_rows, params_of, list_params, ListReply,
  count_options, fetch_rows, fetch_total, fetch_orders_page,
}

-- The rows that a query asks for, the newest first.
abbrev pub requested :
    Sorting OrderRow → (Text → ℕ) → ListOrdersQuery → Text → Tables → List OrderRow
requested sorting timestamp query owner t =
    newest_first sorting (select_rows (is_selected timestamp query owner) t.orders)

select_rows_ext :
    (p q : OrderRow → Bool) (rows : List OrderRow)
    → ((row : OrderRow) → p row ≡ q row)
    → select_rows p rows ≡ select_rows q rows
select_rows_ext p q [] h = refl
select_rows_ext p q (row ∷ rows) h = rw (h row, select_rows_ext p q rows h)

get_elem?-next {ℓ} :
    {A : Type ℓ} (xs : List A) (y z : A)
    → (get_elem? (xs ++ y ∷ z ∷ []) (length xs) ≡ some y)
      × (get_elem? (xs ++ y ∷ z ∷ []) (suc (length xs)) ≡ some z)
get_elem?-next [] y z = (refl, refl)
get_elem?-next (x ∷ xs) y z = get_elem?-next xs y z

-- The page's limit and offset, behind the other parameters, are found at their placeholders.
get_elem?-limit :
    (params : List Param) (y z : Param)
    → (get_elem? (params ++ y ∷ z ∷ []) (length (params ++ y ∷ z ∷ []) - 2) ≡ some y)
      × (get_elem? (params ++ y ∷ z ∷ []) (length (params ++ y ∷ z ∷ []) - 1) ≡ some z)
get_elem?-limit params y z =
    let n = length-append params (y ∷ z ∷ []) in
    let second : length (params ++ y ∷ z ∷ []) - 2 ≡ length params = omega (arith, n) in
    let last : length (params ++ y ∷ z ∷ []) - 1 ≡ suc (length params) = omega (arith, n) in
    let found = get_elem?-next params y z in (rw second found.0, rw last found.1)

list_params-is_selected :
    (timestamp : Text → ℕ) (query : ListOrdersQuery) (owner : Text) (row : OrderRow)
    → satisfies_all timestamp row (list_params query owner) (where_of query owner).clauses
      ≡ is_selected timestamp query owner row
list_params-is_selected timestamp query owner row =
    satisfies_all-append timestamp row (where_of query owner).params _
      (where_of query owner).clauses (where_of-IsNumbered query owner)
    ∙ where_of-is_selected timestamp query owner row

-- The statement of the page, read by its placeholders, gives the page of the requested rows.
select_page-eq-page_rows :
    (sorting : Sorting OrderRow) (timestamp : Text → ℕ) (query : ListOrdersQuery) (owner : Text)
    (t : Tables)
    → select_page sorting timestamp (where_of query owner).clauses (list_params query owner) t
      ≡ ok (page_rows (requested sorting timestamp query owner t) (params_of query), t)
unfolding select_page
select_page-eq-page_rows sorting timestamp query owner t = rw (
  (get_elem?-limit (where_of query owner).params (number query.page_size)
      (number (pagination_offset (params_of query)))).0,
  (get_elem?-limit (where_of query owner).params (number query.page_size)
      (number (pagination_offset (params_of query)))).1,
  select_rows_ext _ (is_selected timestamp query owner) t.orders
      (list_params-is_selected timestamp query owner),
)

count_rows-eq-length :
    (timestamp : Text → ℕ) (query : ListOrdersQuery) (owner : Text) (t : Tables)
    → count_rows timestamp (where_of query owner).clauses (where_of query owner).params t
      ≡ ok (decimal (length (select_rows (is_selected timestamp query owner) t.orders)), t)
unfolding count_rows
count_rows-eq-length timestamp query owner t = rw (
    select_rows_ext _ (is_selected timestamp query owner) t.orders
      (where_of-is_selected timestamp query owner))

module _ {W : Type 0} (ctx : OrderContext W) (tables : W → Tables) (laws : IsPool ctx.pool tables)
    (sorting : Sorting OrderRow) (timestamp : Text → ℕ) (query : ListOrdersQuery)
    (owner : Text) where
  fetch_rows-eq :
      (w : W) (rows : List OrderRow)
      → (fetch_rows ctx sorting timestamp query owner w).0 ≡ ok rows
      → (rows ≡ page_rows (requested sorting timestamp query owner (tables w)) (params_of query))
        × (tables (fetch_rows ctx sorting timestamp query owner w).1 ≡ tables w)
  unfolding fetch_rows
  fetch_rows-eq w rows done =
      let q =
        select_page sorting timestamp (where_of query owner).clauses (list_params query owner) in
      let e = laws.query_ok q w rows done in
      let p = select_page-eq-page_rows sorting timestamp query owner (tables w) in ground arith

  fetch_orders_page-requested :
      (w : W) (reply : ListReply)
      → (fetch_orders_page ctx sorting timestamp query owner w).0 ≡ ok reply
      → reply.orders
        ≡ page_rows (requested sorting timestamp query owner (tables w)) (params_of query)
  unfolding fetch_orders_page
  fetch_orders_page-requested w reply done =
      let w1 = (fetch_rows ctx sorting timestamp query owner w).1 in
      elim (Result-cases (fetch_rows ctx sorting timestamp query owner w).0) [
        | inl (rows, read) ↦
            let e = fetch_rows-eq w rows read in
            elim (Result-cases
              (with_count_cache ctx.cache (count_options ctx sorting timestamp query owner)
                (fetch_total ctx sorting timestamp query owner) w1).0) [
                  | inl (total, counted) ↦ ground arith
                  | inr (x, failed) ↦ absurd (ground arith)
                ]
        | inr (x, failed) ↦
            elim (Result-cases
              (with_count_cache ctx.cache (count_options ctx sorting timestamp query owner)
                (fetch_total ctx sorting timestamp query owner) w1).0) [
                  | inl (total, counted) ↦ absurd (ground arith)
                  | inr (y, lost) ↦ absurd (ground arith)
                ]
      ]

  -- Whenever the page is answered, whatever the cache of counts holds or does, its rows are a page of a
  -- list of the user's orders in the table that pass every filter given: the list has exactly these
  -- rows, a newer one before an older one, and the page has its rows from the offset on, as many as the
  -- page size at most.
  pub fetch_orders_page-eq-page_rows :
      IsSorting sorting
      → (w : W) (reply : ListReply)
      → (fetch_orders_page ctx sorting timestamp query owner w).0 ≡ ok reply
      → (listed : List OrderRow) × Permᴰ listed
          (select_rows (is_selected timestamp query owner) (tables w).orders)
        × IsDescending (λ row. row.created_at) listed
        × (reply.orders ≡ page_rows listed (params_of query))
  fetch_orders_page-eq-page_rows sorts w reply done =
      let rows = select_rows (is_selected timestamp query owner) (tables w).orders in
      (
        requested sorting timestamp query owner (tables w),
        sorts.descending_permutes (λ row. row.created_at) rows,
        sorts.descending_sorts (λ row. row.created_at) rows,
        fetch_orders_page-requested w reply done,
      )

  fetch_total-eq :
      (w : W) (n : ℕ)
      → (fetch_total ctx sorting timestamp query owner w).0 ≡ ok n
      → n ≡ length (select_rows (is_selected timestamp query owner) (tables w).orders)
  unfolding fetch_total
  fetch_total-eq w n done =
      let q = count_rows timestamp (where_of query owner).clauses (where_of query owner).params in
      let c = count_rows-eq-length timestamp query owner (tables w) in
      elim (Result-cases (ctx.pool.query q w).0) [
        | inl (text, read) ↦
            let e = laws.query_ok q w text read in
            let p =
              parse_int-decimal
                (length (select_rows (is_selected timestamp query owner) (tables w).orders)) in
            ground arith
        | inr (x, failed) ↦ absurd (ground arith)
      ]

  -- With the cache off, the total of an answer is the number of the user's orders in the table that
  -- pass every filter given.
  pub fetch_orders_page-total :
      (w : W) (reply : ListReply)
      → ctx.cache.config.cache_enabled ≡ false
      → (fetch_orders_page ctx sorting timestamp query owner w).0 ≡ ok reply
      → reply.meta.total
        ≡ length (select_rows (is_selected timestamp query owner) (tables w).orders)
  unfolding fetch_orders_page with_count_cache build_pagination_meta
  fetch_orders_page-total w reply off done =
      let w1 = (fetch_rows ctx sorting timestamp query owner w).1 in
      elim (Result-cases (fetch_rows ctx sorting timestamp query owner w).0) [
        | inl (rows, read) ↦
            let e = fetch_rows-eq w rows read in
            elim (Result-cases (fetch_total ctx sorting timestamp query owner w1).0) [
              | inl (total, counted) ↦
                  let n = fetch_total-eq w1 total counted in
                  let same : reply.meta.total ≡ total = ground arith in same ∙ n ∙ rw e.1 refl
              | inr (x, failed) ↦ absurd (ground arith)
            ]
        | inr (x, failed) ↦
            elim (Result-cases (fetch_total ctx sorting timestamp query owner w1).0) [
              | inl (total, counted) ↦ absurd (ground arith)
              | inr (y, lost) ↦ absurd (ground arith)
            ]
      ]
