-- ===== src/Tests/Reads.antt =====
-- The theorems on reading orders, each at one input.
use backend_architecture.Prelude.{
  ◌≡◌, refl, inl, false, none, some, [], ◌∷◌, codes, ok, arith, Text, List,
}
use backend_architecture.Prelude.Decimal.{decimal, parse_int}
use backend_architecture.Services.Json.{Json}
use backend_architecture.Services.Postgres.{IsPool}
use backend_architecture.Pagination.{build_pagination_meta, pagination_offset}
use backend_architecture.Cache.CountCache.{with_count_cache}
use backend_architecture.Cache.EntityCache.{with_entity_cache, read_entity, serve_entity}
use backend_architecture.Cache.Primitives.{cache_get, with_timeout, cache_set}
use backend_architecture.Pagination.Pages.{page_rows}
use backend_architecture.Cache.Fresh.{Answers}
use backend_architecture.Orders.Tables.{OrderRow, select_order, find_order}
use backend_architecture.Orders.Create.{OrderContext}
use backend_architecture.Shared.Status.{pending}
use backend_architecture.Orders.Reads.{found, get_order}
use backend_architecture.Orders.Reads.Where.{ListOrdersQuery, where_of, satisfies_all}
use backend_architecture.Orders.Reads.Filter.{is_selected, where_of-is_selected}
use backend_architecture.Orders.Reads.Page.{
  ListReply, fetch_orders_page, fetch_rows, fetch_total, select_page, count_rows, select_rows,
}
use backend_architecture.Orders.Reads.Page.Rows.{fetch_orders_page-eq-page_rows}
use backend_architecture.Orders.Reads.Keys.{list_cache_key-owner}
use backend_architecture.Orders.Reads.Entity.{IsOwnOrder, get_order-IsOwnOrder}
use mathlib.Core.List.{Permᴰ}
use backend_architecture.Services.Sorting.{IsDescending}
use backend_architecture.Tests.Sorting.{by_insertion, by_insertion-IsSorting}
use backend_architecture.Tests.Databases.{pool_of-IsPool}
use backend_architecture.Tests.Orders.{Session, orders, row, one_order, open_session}

abbrev two_pending : ListOrdersQuery
two_pending = record {
  page = 1;
  page_size = 2;
  status = some pending;
  customer_email = some (codes "Ann@Example.com");
  created_after = none;
  created_before = none;
}

where_of-is_selected_example :
    satisfies_all
      (λ s. 0)
      row
      (where_of two_pending (codes "u")).params
      (where_of two_pending (codes "u")).clauses
    ≡ is_selected (λ s. 0) two_pending (codes "u") row
where_of-is_selected_example = where_of-is_selected (λ s. 0) two_pending (codes "u") row

-- A newer order of the same user.
abbrev newer : OrderRow
newer = record row { id = codes "p"; created_at = 7 }

abbrev two_orders : Session
two_orders = record open_session { committed = record one_order { orders = row ∷ newer ∷ [] } }

-- The context with the cache off.
abbrev uncached : OrderContext Session
uncached = record orders {
  cache = record orders.cache { config = record orders.cache.config { cache_enabled = false } };
}

uncached-IsPool : IsPool uncached.pool (λ w. w.committed)
uncached-IsPool =
    pool_of-IsPool (λ w. w.committed) (λ t w. record w { committed = t }) (λ t w. refl)

abbrev answer : ListReply
answer = record {
  meta = build_pagination_meta 2 (record { page = 1; page_size = 2 });
  orders = newer ∷ row ∷ [];
  query = two_pending;
}

answered :
    (fetch_orders_page uncached by_insertion (λ s. 0) two_pending (codes "u") two_orders).0
    ≡ ok answer
unfolding fetch_orders_page fetch_rows fetch_total select_page count_rows where_of satisfies_all
    with_count_cache build_pagination_meta pagination_offset decimal parse_int
answered = refl

fetch_orders_page-eq-page_rows_example :
    (listed : List OrderRow) × Permᴰ listed
      (select_rows (is_selected (λ s. 0) two_pending (codes "u")) (row ∷ newer ∷ []))
    × IsDescending (λ row. row.created_at) listed
    × (newer ∷ row ∷ [] ≡ page_rows listed (record { page = 1; page_size = 2 }))
fetch_orders_page-eq-page_rows_example =
    fetch_orders_page-eq-page_rows uncached (λ w. w.committed) uncached-IsPool by_insertion (λ s. 0)
      two_pending (codes "u") by_insertion-IsSorting two_orders answer answered

abbrev by_id : Json OrderRow
by_id = record { stringify = λ o. o.id; parse = λ s. none }

orders-Answers : Answers orders.cache (λ w k. w.store k)
orders-Answers = λ k w. (refl, omega arith)

get_order-IsOwnOrder_example :
    IsOwnOrder (codes "u") (find_order (codes "o") one_order.orders) (found row)
unfolding get_order select_order with_entity_cache read_entity cache_get with_timeout serve_entity
    cache_set
get_order-IsOwnOrder_example =
    get_order-IsOwnOrder orders by_id (λ k v w. w) (λ w k. w.store k) (λ w. w.committed)
      uncached-IsPool orders-Answers (λ k w. refl) (codes "u") (codes "o") open_session (found row)
      refl (inl refl) refl

abbrev user_id : Text
user_id = codes "0f8e-4c"

list_cache_key-owner_example : user_id ≡ user_id
list_cache_key-owner_example =
    list_cache_key-owner (codes "orders-list") user_id user_id 3 3 two_pending two_pending
      (ground arith) (ground arith) refl
