-- ===== src/Orders/Post.antt =====
-- packages/api-service/src/routes/orders.routes.ts: the handler of POST /v1/orders, once the body is
-- validated and the user is known.
pub mod Once
use backend_architecture.Prelude.{
  ℕ, suc, ◌≡◌, true, false, Option, none, some, Text, codes, Result, ok, Action, pure, ◌>>=◌, arith,
}
use backend_architecture.Services.Redis.{Redis, IsRedis}
use backend_architecture.Services.Json.{Json}
use backend_architecture.Idempotency.{
  StoredRecord, IdempotencyResult, payload, HeaderValue, HashedRequest, Hashing, replay_of,
  read_idempotency_key, idempotency_key_regex, canonical_request_hash, build_redis_key, invalid_key,
  processing_ttl_seconds,
}
use backend_architecture.Idempotency.Attempt.{
  with_idempotency, attempt, rounds, read_existing_record, claim,
}
use backend_architecture.Idempotency.Replay.{Reaches, Holds, attempt-held}
use backend_architecture.Orders.Tables.{OrderRow, Tables}
use backend_architecture.Orders.Create.{OrderContext, CreateOrder, create_order_transactionally}

-- `{ status: 201, body: { order } }`
abbrev pub placed : OrderRow → IdempotencyResult OrderRow
placed row = record { status = 201; body = some (payload row) }

abbrev pub create_scope : Text
create_scope = codes "orders:create"

module _ {W : Type 0} (ctx : OrderContext W) (json : Json (StoredRecord OrderRow))
    (hashing : Hashing CreateOrder) where
  -- The processor.
  abbrev pub created : Text → Text → CreateOrder → Action W (IdempotencyResult OrderRow)
  created user_id correlation_id order =
      create_order_transactionally ctx user_id correlation_id order >>= λ row. pure (placed row)

  unfoldable pub post_order :
      ℕ
      → Text
      → Text
      → HeaderValue
      → HashedRequest
      → CreateOrder
      → W
      → Option (Result (IdempotencyResult OrderRow) × W)
  post_order fuel user_id correlation_id header request order =
      with_idempotency ctx.cache.redis json hashing fuel create_scope user_id header request order
        (created user_id correlation_id order)

  -- A request whose key is no key is refused and changes nothing.
  post_order-invalid_key :
      (fuel : ℕ) (user_id correlation_id key : Text) (header : HeaderValue)
      (request : HashedRequest) (order : CreateOrder) (w : W)
      → read_idempotency_key header ≡ some key
      → idempotency_key_regex key ≡ false
      → post_order fuel user_id correlation_id header request order w ≡ some (ok invalid_key, w)
  unfolding post_order with_idempotency
  post_order-invalid_key fuel user_id correlation_id key header request order w given bad =
      rw (given, bad)
