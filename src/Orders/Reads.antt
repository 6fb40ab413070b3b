-- ===== src/Orders/Reads.antt =====
-- packages/api-service/src/routes/orders.routes.ts: GET /v1/orders/:id and GET /v1/orders.
pub mod Where
pub mod Page
pub mod Filter
pub mod Entity
pub mod Keys
use backend_architecture.Prelude.{
  ℕ, zero, suc, ◌+◌, ◌-◌, ◌*◌, ◌/◌, ◌%◌, ◌≤◌, ◌<◌, ◌≡◌, ◌≢◌, ◌↔◌, refl, sym, ap, ◌∙◌, ◌⊎◌, inl, inr,
  Bool, true, false, not, ◌&&◌, ◌||◌, Option, none, some, List, [], ◌∷◌, ◌++◌, map, Text, codes,
  text_eq, text_eq_iff, text_eq_refl, to_lower, trim, starts_with, before, leb, ltb, ◌==◌,
  if◌then◌else◌, length, take, drop, get_elem?, all, All, join, Exception, Result, ok, err, Action,
  pure, throw, ◌>>=◌, ◌>>◌, try_catch, modify, Pending, await, arith, Bool-cases, Option-cases,
  Result-cases, after_bind, after_try, Post, bind-Post, try-Post, Post-intro, min, max,
}
use backend_architecture.Services.Postgres.{Statement, Pool}
use backend_architecture.Services.Json.{Json}
use backend_architecture.Cache.EntityCache.{EntityCacheOptions, with_entity_cache}
use backend_architecture.Orders.Tables.{OrderRow, Tables, find_order, select_order}
use backend_architecture.Orders.Create.{OrderContext}
use backend_architecture.Orders.Patch.{order_entity_key}

pub data OrderReply : Type 0 where
  -- status 404
  not_found : OrderReply
  found : OrderRow → OrderReply

-- The ownership check on what the cache or the database gave.
abbrev pub owned_by : Text → Option OrderRow → OrderReply
owned_by user_id none = not_found
owned_by user_id (some order) = if text_eq order.user_id user_id then found order else not_found

module _ {W : Type 0} (ctx : OrderContext W) (json : Json OrderRow)
    (reply_header : Text → Text → W → W) where
  abbrev pub entity_options : Text → EntityCacheOptions W
  entity_options id = record {
    key = order_entity_key id;
    namespace = codes "order";
    reply_header = reply_header;
    ttl_seconds = none;
  }

  -- The handler of GET /v1/orders/:id, after the validation of its parameter.
  unfoldable pub get_order : Text → Text → Action W OrderReply
  get_order user_id id =
      with_entity_cache ctx.cache json (entity_options id) (ctx.pool.query (select_order id))
      >>= λ response. pure (owned_by user_id response)
