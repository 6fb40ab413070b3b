-- ===== src/Orders/Post/Once.antt =====
-- packages/api-service/src/routes/orders.routes.ts: POST /v1/orders, sent twice with one key.
use backend_architecture.Prelude.{
  ℕ, suc, ◌≤◌, ◌≡◌, ◌≢◌, ◌∙◌, ap, true, false, Option, some, [], Text, ok, Action, arith,
}
use backend_architecture.Services.Redis.{Redis, IsRedis}
use backend_architecture.Services.Json.{Json}
use backend_architecture.Idempotency.{
  StoredRecord, IdempotencyResult, HeaderValue, HashedRequest, Hashing, read_idempotency_key,
  idempotency_key_regex, canonical_request_hash, build_redis_key, processing_ttl_seconds,
  completed_ttl_seconds, max_stored_body_bytes, byte_length,
}
use backend_architecture.Idempotency.Attempt.{
  with_idempotency, attempt, read_existing_record, claim, stored, run_claimed, keep,
}
use backend_architecture.Idempotency.Replay.{Reaches, Holds}
use backend_architecture.Idempotency.Rounds.{rounds-attempt}
use backend_architecture.Idempotency.Release.{
  Claims, Ends, claimed, processed, record_text, attempt-attempt, attempt-completes,
}
use backend_architecture.Orders.Tables.{OrderRow, Tables}
use backend_architecture.Orders.Create.{OrderContext, CreateOrder, create_order_transactionally}
use backend_architecture.Orders.Post.{create_scope, created, placed, post_order}

-- The commands of an idempotent request do not reach the tables.
pub record KeepsTables {W : Type 0} (redis : Redis W) (committed : W → Tables) : Type 0 where
  pub claim_committed :
      (k v : Text) (n : ℕ) (w : W) → committed (redis.set_ex_nx k v n w).1 ≡ committed w
  pub set_committed :
      (k v : Text) (n : ℕ) (w : W) → committed (redis.set_ex k v n w).1 ≡ committed w
  pub get_committed : (k : Text) (w : W) → committed (redis.get k w).1 ≡ committed w

module _ {W P : Type 0} (redis : Redis W) (json : Json (StoredRecord P))
    (cell : W → Text → Option Text) (laws : IsRedis redis cell) (committed : W → Tables)
    (keeps : KeepsTables redis committed) (key request_hash : Text) where
  -- A request on a key that holds a record leaves the committed tables as they are.
  attempt-held-committed :
      (process : Action W (IdempotencyResult P)) (r : StoredRecord P) (w : W)
      → Holds redis json cell laws key r w
      → Reaches redis json cell laws key request_hash w
      → committed (attempt redis json key request_hash process w).1 ≡ committed w
  unfolding attempt read_existing_record
  attempt-held-committed process r w h ((true, taken), got) =
      let free = laws.nx_taken key _ _ w taken in ground (arith)
  attempt-held-committed process r w (holds, back, filled) ((false, held), (o, got)) =
      let text = json.stringify (claim redis json request_hash) in
      let w1 = (redis.set_ex_nx key text processing_ttl_seconds w).1 in
      let stays = laws.nx_held key _ _ w held in
      let live = laws.get_value key w1 o got in
      let same = keeps.claim_committed key text processing_ttl_seconds w in
      let read = keeps.get_committed key w1 in ground (arith)

  -- A request whose response is stored leaves the committed tables as its processor did.
  attempt-processed-committed :
      (process : Action W (IdempotencyResult P)) (result : IdempotencyResult P) (w : W)
      → Claims redis json cell laws key request_hash w
      → Ends redis json cell laws key request_hash process (ok result) w
      → byte_length (record_text redis json cell laws key request_hash result)
        ≤ max_stored_body_bytes
      → (redis.set_ex key
          (record_text redis json cell laws key request_hash result)
          completed_ttl_seconds
          (processed redis json cell laws key request_hash process w)).0.result
        ≡ ok tt
      → committed (attempt redis json key request_hash process w).1
        ≡ committed (processed redis json cell laws key request_hash process w)
  unfolding attempt run_claimed keep
  attempt-processed-committed process result w claims done small kept =
      let same =
        keeps.set_committed key (record_text redis json cell laws key request_hash result)
          completed_ttl_seconds (processed redis json cell laws key request_hash process w) in
      ground arith

module _ {W : Type 0} (ctx : OrderContext W) (json : Json (StoredRecord OrderRow))
    (hashing : Hashing CreateOrder) (cell : W → Text → Option Text)
    (laws : IsRedis ctx.cache.redis cell) (committed : W → Tables)
    (keeps : KeepsTables ctx.cache.redis committed) (user_id key : Text) (header : HeaderValue)
    (request : HashedRequest) (order : CreateOrder) where
  abbrev pub redis_key : Text
  redis_key = build_redis_key create_scope user_id key

  abbrev pub hash : Text
  hash = canonical_request_hash hashing request order

  -- The world after the key is claimed, and after the order is created.
  abbrev pub ready : W → W
  ready = claimed ctx.cache.redis json cell laws redis_key hash

  abbrev pub after_create : Text → W → W
  after_create correlation_id w =
      (create_order_transactionally ctx user_id correlation_id order (ready w)).1

  -- The world after the first request.
  abbrev pub after_first : Text → W → W
  after_first correlation_id w =
      (attempt ctx.cache.redis json redis_key hash
        (created ctx json hashing user_id correlation_id order) w).1

  abbrev pub text_of : OrderRow → Text
  text_of row = record_text ctx.cache.redis json cell laws redis_key hash (placed row)

  post_order-attempt :
      (fuel : ℕ) (correlation_id : Text) (x : IdempotencyResult OrderRow) (w : W)
      → read_idempotency_key header ≡ some key
      → idempotency_key_regex key ≡ true
      → (attempt ctx.cache.redis json redis_key hash
          (created ctx json hashing user_id correlation_id order)
          w).0
        ≡ ok (some x)
      → post_order ctx json hashing (suc fuel) user_id correlation_id header request order w
        ≡ some (ok x, after_first correlation_id w)
  unfolding post_order with_idempotency
  post_order-attempt fuel correlation_id x w given good answered =
      rw (given, good)
        (rounds-attempt ctx.cache.redis json fuel redis_key hash
          (created ctx json hashing user_id correlation_id order) x w answered)

  -- If a request with a valid key claims it, creates its order, and stores a response that is not too
  -- large, it answers 201 with the row; and the same request sent again, when its commands reach Redis,
  -- has the same answer, while the committed tables stay as the one creation left them.
  pub post_order-post_order :
      (fuel again : ℕ) (correlation_id other_id : Text) (row : OrderRow) (w : W)
      → read_idempotency_key header ≡ some key
      → idempotency_key_regex key ≡ true
      → json.parse (text_of row) ≡ some (stored ctx.cache.redis json hash (placed row))
      → text_of row ≢ []
      → Claims ctx.cache.redis json cell laws redis_key hash w
      → (create_order_transactionally ctx user_id correlation_id order (ready w)).0 ≡ ok row
      → byte_length (text_of row) ≤ max_stored_body_bytes
      → (ctx.cache.redis.set_ex redis_key
          (text_of row)
          completed_ttl_seconds
          (after_create correlation_id w)).0.result
        ≡ ok tt
      → Reaches ctx.cache.redis json cell laws redis_key hash (after_first correlation_id w)
      → (post_order ctx json hashing (suc fuel) user_id correlation_id header request order w
          ≡ some (ok (placed row), after_first correlation_id w))
        × ((w2 : W) × ((post_order ctx json hashing
                  (suc again)
                  user_id
                  other_id
                  header
                  request
                  order
                  (after_first correlation_id w)
                ≡ some (ok (placed row), w2))
              × (committed w2 ≡ committed (after_create correlation_id w))))
  post_order-post_order fuel again correlation_id other_id row w given good back filled claims made
        small kept reaches =
      let process = created ctx json hashing user_id correlation_id order in
      let retry = created ctx json hashing user_id other_id order in
      let w1 = after_first correlation_id w in
      let ends : (process (ready w)).0 ≡ ok (placed row) = ground arith in
      let world : (process (ready w)).1 ≡ after_create correlation_id w = ground arith in
      let kept1 : (ctx.cache.redis.set_ex redis_key (text_of row) completed_ttl_seconds
            (process (ready w)).1).0.result
          ≡ ok tt =
        cc in
      let both =
        attempt-attempt ctx.cache.redis json cell laws redis_key hash process retry (placed row) w
          back filled claims ends small kept1 reaches in
      let holds =
        attempt-completes ctx.cache.redis json cell laws redis_key hash process (placed row) w
          claims ends small kept1 in
      let first =
        attempt-processed-committed ctx.cache.redis json cell laws committed keeps redis_key hash
          process (placed row) w claims ends small kept1 in
      let second =
        attempt-held-committed ctx.cache.redis json cell laws committed keeps redis_key hash retry
          (stored ctx.cache.redis json hash (placed row)) w1 (holds.1, back, filled) reaches in
      (
        post_order-attempt fuel correlation_id (placed row) w given good both.0,
        (
          (attempt ctx.cache.redis json redis_key hash retry w1).1,
          (
            post_order-attempt again other_id (placed row) w1 given good both.1,
            second ∙ first ∙ ap committed world,
          ),
        ),
      )
