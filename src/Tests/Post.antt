-- ===== src/Tests/Post.antt =====
-- The theorem on POST /v1/orders, at one order that is sent twice.
use backend_architecture.Prelude.{
  ℕ, zero, suc, ◌≡◌, ◌≢◌, refl, false, Option, some, none, [], ◌∷◌, ◌++◌, Text, codes, ok, arith,
}
use backend_architecture.Services.Redis.{IsRedis}
use backend_architecture.Services.Json.{Json}
use backend_architecture.Services.Memory.{memory-IsRedis}
use backend_architecture.Idempotency.{
  RecordState, in_progress, completed, StoredRecord, Hashing, HashedRequest, single,
  read_idempotency_key, idempotency_key_regex, canonical_request_hash, build_redis_key,
}
use backend_architecture.Idempotency.Attempt
use backend_architecture.Orders.Tables.{
  OrderRow, insert_order, total_cents, insert_order_event, insert_outbox_event,
}
use backend_architecture.Orders.Create.{CreateOrder, create_order_transactionally}
use backend_architecture.Orders.Create
use backend_architecture.Orders.Post.{placed, post_order}
use backend_architecture.Orders.Post.Once.{
  KeepsTables, post_order-post_order, after_first, after_create, text_of,
}
use backend_architecture.Prelude.Decimal.{decimal}
use backend_architecture.Cache.Invalidate.{invalidate_list_namespace}
use backend_architecture.Cache.Primitives.{cache_bump_namespace_version, with_timeout}
use backend_architecture.Tests.Orders.{Session, session_redis, orders, session, basket, row}

session_redis-IsRedis : IsRedis session_redis (λ w. w.store)
session_redis-IsRedis = record {
  get_value = λ k w. memory-IsRedis.get_value k w.store;
  get_keeps = λ k j w. memory-IsRedis.get_keeps k j w.store;
  set_value = λ k v n w. memory-IsRedis.set_value k v n w.store;
  set_keeps = λ k j v n w. memory-IsRedis.set_keeps k j v n w.store;
  nx_taken = λ k v n w. memory-IsRedis.nx_taken k v n w.store;
  nx_held = λ k v n w. memory-IsRedis.nx_held k v n w.store;
  nx_keeps = λ k j v n w. memory-IsRedis.nx_keeps k j v n w.store;
  del_value = λ k w. memory-IsRedis.del_value k w.store;
  del_keeps = λ k j w. memory-IsRedis.del_keeps k j w.store;
  incr_new = λ k w. memory-IsRedis.incr_new k w.store;
  incr_old = λ k w. memory-IsRedis.incr_old k w.store;
  incr_keeps = λ k j w. memory-IsRedis.incr_keeps k j w.store;
  expire_keeps = λ k j n w. memory-IsRedis.expire_keeps k j n w.store;
  ttl_keeps = λ k j w. memory-IsRedis.ttl_keeps k j w.store;
}

session_redis-KeepsTables : KeepsTables session_redis (λ w. w.committed)
session_redis-KeepsTables = record {
  claim_committed = λ k v n w. refl;
  set_committed = λ k v n w. refl;
  get_committed = λ k w. refl;
}

-- The row that the first order makes.
abbrev first_row : OrderRow
first_row = record row { id = codes "1" }

-- Records as a text, where the body of a completed one is that row.
abbrev state_code : RecordState → ℕ
state_code in_progress = 0
state_code completed = 1

abbrev completed_record : Text → StoredRecord OrderRow
completed_record h = record {
  state = completed;
  request_hash = h;
  status = some 201;
  body = (placed first_row).body;
}

abbrev parse_record : Text → Option (StoredRecord OrderRow)
parse_record [] = none
parse_record (zero ∷ h) =
    some (record { state = in_progress; request_hash = h; status = none; body = none })
parse_record (suc n ∷ h) = some (completed_record h)

abbrev records : Json (StoredRecord OrderRow)
records = record { stringify = λ r. state_code r.state ∷ r.request_hash; parse = parse_record }

-- The text itself in place of its hash.
abbrev hashing : Hashing CreateOrder
hashing = record {
  sha256_hex = λ s. s;
  canonical = λ method route order. method ++ (route ++ order.customer_email);
}

abbrev sent : HashedRequest
sent = record { method = codes "POST"; route = some (codes "/v1/orders"); url = codes "/v1/orders" }

abbrev key : Text
key = codes "order-0001"

some_text : (c : ℕ) (s : Text) → c ∷ s ≢ []
some_text c s h = cc

post_order-post_order_example :
    (post_order orders records hashing 1 (codes "u") (codes "c") (single key) sent basket session
      ≡ some (
        ok (placed first_row),
        after_first orders records hashing
            (λ w. w.store)
            session_redis-IsRedis
            (λ w. w.committed)
            session_redis-KeepsTables
            (codes "u")
            key
            (single key)
            sent
            basket
            (codes "c")
            session,
      ))
    × ((w2 : Session) × ((post_order orders records hashing 1
              (codes "u")
              (codes "d")
              (single key)
              sent
              basket
              (after_first orders records hashing
                (λ w. w.store)
                session_redis-IsRedis
                (λ w. w.committed)
                session_redis-KeepsTables
                (codes "u")
                key
                (single key)
                sent
                basket
                (codes "c")
                session)
            ≡ some (ok (placed first_row), w2))
          × (w2.committed
              ≡ (after_create orders records hashing
                  (λ w. w.store)
                  session_redis-IsRedis
                  (λ w. w.committed)
                  session_redis-KeepsTables
                  (codes "u")
                  key
                  (single key)
                  sent
                  basket
                  (codes "c")
                  session).committed)))
unfolding read_idempotency_key idempotency_key_regex canonical_request_hash build_redis_key
    create_order_transactionally Create.create_in_transaction Create.insert_all insert_order
    total_cents insert_order_event decimal insert_outbox_event invalidate_list_namespace
    cache_bump_namespace_version with_timeout Attempt.attempt Attempt.run_claimed Attempt.keep
post_order-post_order_example =
    post_order-post_order orders records hashing (λ w. w.store) session_redis-IsRedis
      (λ w. w.committed) session_redis-KeepsTables (codes "u") key (single key) sent basket 0 0
      (codes "c") (codes "d") first_row session refl refl refl (some_text _ _) refl refl
      (omega arith) refl
      (
        (false, refl),
        (
          some (
              text_of orders records hashing (λ w. w.store) session_redis-IsRedis (λ w. w.committed)
                session_redis-KeepsTables (codes "u") key (single key) sent basket first_row),
          refl,
        ),
      )
