-- ===== src/Orders/Reads/Keys.antt =====
-- packages/api-service/src/routes/orders.routes.ts: the users in the cache keys of GET /v1/orders.
use mathlib.Core.List.{append_assoc}
use backend_architecture.Prelude.{
  ℕ, ◌≡◌, refl, sym, ap, ◌∙◌, true, Option, none, some, [], ◌∷◌, ◌++◌, Text, codes, All, All-append,
  arith,
}
use backend_architecture.Prelude.Decimal.{decimal}
use backend_architecture.Cache.Key.{Query, build_list_cache_key, text_le}
use backend_architecture.Cache.Key.LastEntry.{IsUuid, build_list_cache_key-uuid}
use backend_architecture.Orders.Reads.Where.{ListOrdersQuery, status_text, map_option}
use backend_architecture.Orders.Reads.Page.{list_cache_query, given}

abbrev user_key : Text
user_key = codes "userId"

abbrev IsBefore : Query → Type 0
IsBefore q = All (λ (e : Text × Option Text). text_le e.0 user_key ≡ true) q

given-IsBefore :
    (key : Text) (value : Option Text) → text_le key user_key ≡ true → IsBefore (given key value)
given-IsBefore key none h = tt
given-IsBefore key (some v) h = (h, tt)

-- The entries of the query besides the user's.
abbrev filters_of : ListOrdersQuery → Query
filters_of query =
    (codes "page", some (decimal query.page))
    ∷ (codes "pageSize", some (decimal query.page_size))
    ∷ (given (codes "status") (map_option status_text query.status)
        ++ (given (codes "customerEmail") query.customer_email
            ++ (given (codes "createdAfter") query.created_after
                ++ given (codes "createdBefore") query.created_before)))

filters_of-IsBefore : (query : ListOrdersQuery) → IsBefore (filters_of query)
filters_of-IsBefore query = (
  refl,
  (
    refl,
    All-append _ (given (codes "status") (map_option status_text query.status)) _
        (given-IsBefore (codes "status") (map_option status_text query.status) refl)
        (All-append _ (given (codes "customerEmail") query.customer_email) _
          (given-IsBefore (codes "customerEmail") query.customer_email refl)
          (All-append _ (given (codes "createdAfter") query.created_after) _
            (given-IsBefore (codes "createdAfter") query.created_after refl)
            (given-IsBefore (codes "createdBefore") query.created_before refl))),
  ),
)

list_cache_query-eq :
    (query : ListOrdersQuery) (owner : Text)
    → list_cache_query query owner ≡ filters_of query ++ (user_key, some owner) ∷ []
unfolding list_cache_query
list_cache_query-eq query owner =
    let a = given (codes "status") (map_option status_text query.status) in
    let b = given (codes "customerEmail") query.customer_email in
    let c = given (codes "createdAfter") query.created_after in
    let d = given (codes "createdBefore") query.created_before in
    let last : Query = (user_key, some owner) ∷ [] in
    let inner = append_assoc c d last in
    let middle = append_assoc b (c ++ d) last ∙ ap (λ q. b ++ q) inner in
    let outer = append_assoc a (b ++ (c ++ d)) last ∙ ap (λ q. a ++ q) middle in
    ap
      (λ q.
        (codes "page", some (decimal query.page))
        ∷ (codes "pageSize", some (decimal query.page_size))
        ∷ q)
      (sym outer)

-- Users' identifiers being UUIDs: whatever the filters, pages and versions of two requests, the cache
-- key of one user's page is never that of another user's.
pub list_cache_key-owner :
    (namespace owner owner' : Text) (v v' : ℕ) (query query' : ListOrdersQuery)
    → IsUuid owner
    → IsUuid owner'
    → build_list_cache_key namespace v (list_cache_query query owner)
      ≡ build_list_cache_key namespace v' (list_cache_query query' owner')
    → owner ≡ owner'
list_cache_key-owner namespace owner owner' v v' query query' u u' same =
    let e = ap (build_list_cache_key namespace v) (list_cache_query-eq query owner) in
    let e' = ap (build_list_cache_key namespace v') (list_cache_query-eq query' owner') in
    build_list_cache_key-uuid namespace user_key owner owner' v v' (filters_of query)
      (filters_of query') (ground arith) (filters_of-IsBefore query) (filters_of-IsBefore query') u
      u' (sym e ∙ (same ∙ e'))
