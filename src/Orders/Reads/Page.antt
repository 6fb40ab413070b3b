-- ===== src/Orders/Reads/Page.antt =====
-- packages/api-service/src/routes/orders.routes.ts: `fetchOrdersPage` and the handler of GET /v1/orders.
use backend_architecture.Prelude.{
  ℕ, zero, suc, ◌+◌, ◌-◌, ◌*◌, ◌/◌, ◌%◌, ◌≤◌, ◌<◌, ◌≡◌, ◌≢◌, ◌↔◌, refl, sym, ap, ◌∙◌, ◌⊎◌, inl, inr,
  Bool, true, false, not, ◌&&◌, ◌||◌, Option, none, some, List, [], ◌∷◌, ◌++◌, map, Text, codes,
  text_eq, text_eq_iff, text_eq_refl, to_lower, trim, starts_with, before, leb, ltb, ◌==◌,
  if◌then◌else◌, length, take, drop, get_elem?, all, All, join, Exception, Result, ok, err, Action,
  pure, throw, ◌>>=◌, ◌>>◌, try_catch, modify, Pending, await, arith, Bool-cases, Option-cases,
  Result-cases, after_bind, after_try, Post, bind-Post, try-Post, Post-intro, min, max,
}
pub mod Rows
use backend_architecture.Prelude.Decimal.{Number, nan, whole, negative, decimal, parse_int}
use backend_architecture.Services.Postgres.{Statement, Pool}
use backend_architecture.Services.Json.{Json}
use backend_architecture.Shared.Status.{OrderStatus}
use backend_architecture.Pagination.{
  PaginationParams, PaginationMeta, pagination_offset, build_pagination_meta,
}
use backend_architecture.Cache.Key.{Query}
use backend_architecture.Cache.ListCache.{ListCacheOptions, with_list_cache}
use backend_architecture.Cache.CountCache.{CountCacheOptions, with_count_cache}
use backend_architecture.Orders.Tables.{OrderRow, Tables}
use backend_architecture.Orders.Create.{OrderContext, orders_list}
use backend_architecture.Services.Sorting.{Sorting}
use backend_architecture.Orders.Reads.Where.{
  ListOrdersQuery, Clause, Param, number, Where, where_of, lower_email, map_option, status_text,
  satisfies_all,
}

abbrev pub select_rows : (OrderRow → Bool) → List OrderRow → List OrderRow
select_rows p [] = []
select_rows p (row ∷ rows) = let rest = select_rows p rows in if p row then row ∷ rest else rest

-- `ORDER BY created_at DESC`
abbrev pub newest_first : Sorting OrderRow → List OrderRow → List OrderRow
newest_first sorting rows = sorting.descending (λ row. row.created_at) rows

abbrev number_of : Option Param → ℕ
number_of (some (number n)) = n
number_of _ = 0

-- `SELECT … WHERE … ORDER BY created_at DESC LIMIT $n-1 OFFSET $n`, `n` being the number of parameters
unfoldable pub select_page :
    Sorting OrderRow → (Text → ℕ) → List Clause → List Param → Statement Tables (List OrderRow)
select_page sorting timestamp clauses params t =
    let limit = number_of (get_elem? params (length params - 2)) in
    let offset = number_of (get_elem? params (length params - 1)) in
    let rows =
      newest_first sorting
        (select_rows (λ row. satisfies_all timestamp row params clauses) t.orders) in
    ok (take limit (drop offset rows), t)

-- `SELECT count(*)::text … WHERE …`
unfoldable pub count_rows : (Text → ℕ) → List Clause → List Param → Statement Tables Text
count_rows timestamp clauses params t =
    ok (
      decimal (length (select_rows (λ row. satisfies_all timestamp row params clauses) t.orders)),
      t,
    )

abbrev pub params_of : ListOrdersQuery → PaginationParams
params_of query = record { page = query.page; page_size = query.page_size }

-- `[...params, query.pageSize, offset]`
abbrev pub list_params : ListOrdersQuery → Text → List Param
list_params query owner =
    (where_of query owner).params
    ++ number query.page_size ∷ number (pagination_offset (params_of query)) ∷ []

-- `countCacheQuery`
unfoldable pub count_cache_query : ListOrdersQuery → Text → Query
count_cache_query query owner =
    (codes "userId", some owner)
    ∷ (codes "status", map_option status_text query.status)
    ∷ (codes "customerEmail", lower_email query)
    ∷ (codes "createdAfter", query.created_after)
    ∷ (codes "createdBefore", query.created_before)
    ∷ []

-- A key of the parsed query that is there only if it was given.
abbrev pub given : Text → Option Text → Query
given key none = []
given key (some value) = (key, some value) ∷ []

-- `{ ...query, userId: user.id }`
unfoldable pub list_cache_query : ListOrdersQuery → Text → Query
list_cache_query query owner =
    (codes "page", some (decimal query.page))
    ∷ (codes "pageSize", some (decimal query.page_size))
    ∷ (given (codes "status") (map_option status_text query.status)
        ++ (given (codes "customerEmail") query.customer_email
            ++ (given (codes "createdAfter") query.created_after
                ++ (given (codes "createdBefore") query.created_before
                    ++ (codes "userId", some owner) ∷ []))))

-- The response: the metadata, the rows, and the filters as they were given.
pub record ListReply : Type 0 where
  pub meta : PaginationMeta
  pub orders : List OrderRow
  pub query : ListOrdersQuery

-- A count is a numeral that is not negative.
abbrev total_of : Number → ℕ
total_of nan = 0
total_of (whole n) = n
total_of (negative n) = 0

-- `Promise.all([m, k])`, the first run before the second; if one fails, both have run.
abbrev pub both : {W A B : Type 0} → Action W A → Action W B → Action W (A × B)
both m k w =
    let (r, w') = m w in
    let (s, w'') = k w' in
    ((elim r [ ok a ↦ elim s [ ok b ↦ ok (a, b) | err e ↦ err e ] | err e ↦ err e ]), w'')

module _ {W : Type 0} (ctx : OrderContext W) (sorting : Sorting OrderRow)
    (timestamp : Text → ℕ) where
  abbrev pub count_options : ListOrdersQuery → Text → CountCacheOptions
  count_options query owner = record {
    namespace = orders_list;
    query = count_cache_query query owner;
    ttl_seconds = none;
  }

  unfoldable pub fetch_rows : ListOrdersQuery → Text → Action W (List OrderRow)
  fetch_rows query owner =
      ctx.pool.query
        (select_page sorting timestamp (where_of query owner).clauses (list_params query owner))

  unfoldable pub fetch_total : ListOrdersQuery → Text → Action W ℕ
  fetch_total query owner =
      ctx.pool.query
        (count_rows timestamp (where_of query owner).clauses (where_of query owner).params)
      >>= λ count. pure (total_of (parse_int count))

  unfoldable pub fetch_orders_page : ListOrdersQuery → Text → Action W ListReply
  fetch_orders_page query owner =
      both (fetch_rows query owner)
        (with_count_cache ctx.cache (count_options query owner) (fetch_total query owner))
      >>= λ (rows, total). pure (record {
        meta = build_pagination_meta total (params_of query);
        orders = rows;
        query = query;
      })

  -- The handler of GET /v1/orders, after the validation of its query.
  unfoldable pub list_orders :
      Json ListReply → (Text → Text → W → W) → ListOrdersQuery → Text → Action W ListReply
  list_orders json reply_header query owner =
      with_list_cache ctx.cache json
        (record {
          namespace = orders_list;
          query = list_cache_query query owner;
          reply_header = reply_header;
          ttl_seconds = none;
        })
        (fetch_orders_page query owner)
