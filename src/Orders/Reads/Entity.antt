-- ===== src/Orders/Reads/Entity.antt =====
-- packages/api-service/src/routes/orders.routes.ts: GET /v1/orders/:id through its cache.
use mathlib.Core.Path.{subst}
use backend_architecture.Prelude.{
  ◌≡◌, ◌≢◌, refl, sym, text_eq, text_eq_iff, Bool-cases, ap, ◌∙◌, ◌⊎◌, inl, inr, true, Option, none,
  some, Text, ok, Action, pure, arith, bind-eq-ok,
}
use backend_architecture.Services.Json.{Json}
use backend_architecture.Services.Postgres.{IsPool}
use backend_architecture.Cache.Primitives.{hit, miss, cache_get, with_timeout}
use backend_architecture.Cache.EntityCache.{read_entity, with_entity_cache}
use backend_architecture.Cache.Degrade.{
  served_entity, after_read_entity, with_entity_cache-eq-served,
}
use backend_architecture.Cache.Fresh.{Answers}
use backend_architecture.Orders.Tables.{OrderRow, Tables, find_order, select_order}
use backend_architecture.Orders.Create.{OrderContext}
use backend_architecture.Orders.Patch.{order_entity_key}
use backend_architecture.Orders.Reads.{
  OrderReply, found, not_found, owned_by, entity_options, get_order,
}

-- Nothing is cached under the order's key, or the order as it stands in the table.
abbrev pub IsCoherent : Json OrderRow → Text → Option Text → Tables → Type 0
IsCoherent json id cached t =
    (cached ≡ none)
    ⊎ ((order : OrderRow) × (find_order id t.orders ≡ some order)
        × (cached ≡ some (json.stringify order))
        × (json.parse (json.stringify order) ≡ some order))

-- What a user may be answered, given the order in the table.
abbrev pub IsOwnOrder : Text → Option OrderRow → OrderReply → Type 0
IsOwnOrder user_id o reply =
    ((order : OrderRow) × (o ≡ some order) × (order.user_id ≡ user_id) × (reply ≡ found order))
    ⊎ ((reply ≡ not_found)
        × ((o ≡ none) ⊎ ((order : OrderRow) × (o ≡ some order) × (order.user_id ≢ user_id))))

owned_by-IsOwnOrder :
    (user_id : Text) (o : Option OrderRow) → IsOwnOrder user_id o (owned_by user_id o)
owned_by-IsOwnOrder user_id none = inr (refl, inl refl)
owned_by-IsOwnOrder user_id (some order) = elim (Bool-cases (text_eq order.user_id user_id)) [
  | inl own ↦ inl (order, refl, (text_eq_iff order.user_id user_id).0 own, rw own refl)
  | inr other ↦ inr (
    rw other refl,
    inr (order, refl, λ same. absurd (ground (arith, text_eq_iff order.user_id user_id))),
  )
]

module _ {W : Type 0} (ctx : OrderContext W) (json : Json OrderRow)
    (reply_header : Text → Text → W → W) (cell : W → Text → Option Text) (tables : W → Tables)
    (laws : IsPool ctx.pool tables) (answers : Answers ctx.cache cell)
    (get_keeps : (k : Text) (w : W) → tables (ctx.cache.redis.get k w).1 ≡ tables w) where
  read_entity-miss :
      (id : Text) (w : W)
      → cell w (order_entity_key id) ≡ none
      → read_entity ctx.cache json (entity_options ctx json reply_header id) w
        ≡ (ok (miss (order_entity_key id)), (ctx.cache.redis.get (order_entity_key id) w).1)
  unfolding read_entity cache_get with_timeout
  read_entity-miss id w absent = let a = answers (order_entity_key id) w in ground arith

  read_entity-hit :
      (id : Text) (w : W) (order : OrderRow)
      → cell w (order_entity_key id) ≡ some (json.stringify order)
      → json.parse (json.stringify order) ≡ some order
      → (read_entity ctx.cache json (entity_options ctx json reply_header id) w).0 ≡ ok (hit order)
  unfolding read_entity cache_get with_timeout
  read_entity-hit id w order held back = let a = answers (order_entity_key id) w in ground arith

  after_read_entity-miss :
      (id : Text) (w : W)
      → cell w (order_entity_key id) ≡ none
      → after_read_entity ctx.cache json (entity_options ctx json reply_header id) w
        ≡ (ctx.cache.redis.get (order_entity_key id) w).1
  after_read_entity-miss id w absent =
      let r = read_entity-miss id w absent in rw (after_read_entity, r) (ap (λ p. p.1) r)

  abbrev served_order : Text → Action W (Option OrderRow)
  served_order id =
      with_entity_cache ctx.cache json (entity_options ctx json reply_header id)
        (ctx.pool.query (select_order id))

  served_order-miss :
      (id : Text) (w : W) (o : Option OrderRow)
      → ctx.cache.config.cache_enabled ≡ true
      → cell w (order_entity_key id) ≡ none
      → (served_order id w).0 ≡ ok o
      → o ≡ find_order id (tables w).orders
  unfolding select_order
  served_order-miss id w o on absent done =
      let e =
        with_entity_cache-eq-served ctx.cache json (entity_options ctx json reply_header id)
          (ctx.pool.query (select_order id)) w on in
      let r = read_entity-miss id w absent in
      let w1 = (ctx.cache.redis.get (order_entity_key id) w).1 in
      let asked : (ctx.pool.query (select_order id) w1).0 ≡ ok o =
        rw (← done, e, r, after_read_entity-miss id w absent) in
      let q = laws.query_ok (select_order id) w1 o asked in
      let k = get_keeps (order_entity_key id) w in ground arith

  served_order-hit :
      (id : Text) (w : W) (order : OrderRow)
      → ctx.cache.config.cache_enabled ≡ true
      → cell w (order_entity_key id) ≡ some (json.stringify order)
      → json.parse (json.stringify order) ≡ some order
      → (served_order id w).0 ≡ ok (some order)
  served_order-hit id w order on held back =
      let e =
        with_entity_cache-eq-served ctx.cache json (entity_options ctx json reply_header id)
          (ctx.pool.query (select_order id)) w on in
      e
      ∙ ap
          (λ r.
            served_entity r
              (ctx.pool.query (select_order id)
                (after_read_entity ctx.cache json (entity_options ctx json reply_header id) w)).0)
          (read_entity-hit id w order held back)

  get_order-eq-owned_by :
      (user_id id : Text) (w : W) (reply : OrderReply)
      → ctx.cache.config.cache_enabled ≡ true
      → IsCoherent json id (cell w (order_entity_key id)) (tables w)
      → (get_order ctx json reply_header user_id id w).0 ≡ ok reply
      → reply ≡ owned_by user_id (find_order id (tables w).orders)
  unfolding get_order select_order
  get_order-eq-owned_by user_id id w reply on (inl absent) done =
      let (o, served, replied) =
        bind-eq-ok (served_order id) (λ o. pure (owned_by user_id o)) w reply done in
      let e = served_order-miss id w o on absent served in cc
  get_order-eq-owned_by user_id id w reply on (inr (order, there, held, back)) done =
      let (o, served, replied) =
        bind-eq-ok (served_order id) (λ o. pure (owned_by user_id o)) w reply done in
      let e = served_order-hit id w order on held back in cc

  -- With the cache on, Redis answering in time, and nothing cached under the order's key or the order as
  -- it stands: whenever the handler answers, either it answers with the order in the table that has the
  -- identifier, and the user is its owner; or it answers that nothing is found, and there is no such
  -- order in the table or its owner is another user.
  pub get_order-IsOwnOrder :
      (user_id id : Text) (w : W) (reply : OrderReply)
      → ctx.cache.config.cache_enabled ≡ true
      → IsCoherent json id (cell w (order_entity_key id)) (tables w)
      → (get_order ctx json reply_header user_id id w).0 ≡ ok reply
      → IsOwnOrder user_id (find_order id (tables w).orders) reply
  get_order-IsOwnOrder user_id id w reply on coherent done =
      subst (IsOwnOrder user_id (find_order id (tables w).orders))
        (sym (get_order-eq-owned_by user_id id w reply on coherent done))
        (owned_by-IsOwnOrder user_id (find_order id (tables w).orders))
