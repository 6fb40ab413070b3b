-- ===== src/Idempotency/Attempt.antt =====
-- packages/api-service/src/utils/idempotency.ts: `readExistingRecord` and `withIdempotency`.
use backend_architecture.Prelude.{
  ℕ, zero, suc, Bool, true, false, Option, none, some, [], ◌∷◌, Text, Result, ok, err, Action, pure,
  throw, ◌>>=◌, try_catch, await, ltb, if◌then◌else◌,
}
use backend_architecture.Services.Redis.{Redis}
use backend_architecture.Services.Json.{Json}
use backend_architecture.Idempotency.{
  StoredRecord, IdempotencyResult, in_progress, completed, replay_of, max_stored_body_bytes,
  byte_length, processing_ttl_seconds, completed_ttl_seconds, HeaderValue, HashedRequest, Hashing,
  read_idempotency_key, idempotency_key_regex, canonical_request_hash, build_redis_key, invalid_key,
}

module _ {W P : Type 0} (redis : Redis W) (json : Json (StoredRecord P)) where
  -- `await ctx.redis.del(redisKey).catch(() => undefined)`
  unfoldable pub release : Text → Action W (Unit {0})
  release key = try_catch (await (redis.del key)) (λ e. pure tt)

  abbrev parsed_record :
      Text → Text → Option (StoredRecord P) → Action W (Option (IdempotencyResult P))
  parsed_record key request_hash none = release key >>= λ _. pure none
  parsed_record key request_hash (some r) = pure (some (replay_of r request_hash))

  abbrev existing_record : Text → Text → Option Text → Action W (Option (IdempotencyResult P))
  existing_record key request_hash none = pure none
  existing_record key request_hash (some []) = pure none
  existing_record key request_hash (some (c ∷ s)) =
      parsed_record key request_hash (json.parse (c ∷ s))

  -- A text under the key reads as a record or as nothing.
  unfoldable pub read_existing_record : Text → Text → Action W (Option (IdempotencyResult P))
  read_existing_record key request_hash = do
    existing ← await (redis.get key)
    existing_record key request_hash existing

  abbrev pub claim : Text → StoredRecord P
  claim request_hash = record {
    state = in_progress;
    request_hash = request_hash;
    status = none;
    body = none;
  }

  abbrev pub stored : Text → IdempotencyResult P → StoredRecord P
  stored request_hash result = record {
    state = completed;
    request_hash = request_hash;
    status = some result.status;
    body = result.body;
  }

  -- Keeps the response for replays, unless it is too large.
  unfoldable pub keep : Text → Text → IdempotencyResult P → Action W (Unit {0})
  unfolding release
  keep key request_hash result =
      let serialized = json.stringify (stored request_hash result) in
      if ltb max_stored_body_bytes (byte_length serialized)
      then release key
      else await (redis.set_ex key serialized completed_ttl_seconds)

  -- The `try` block after the claim, with its `catch`.
  unfoldable pub run_claimed :
      Text → Text → Action W (IdempotencyResult P) → Action W (IdempotencyResult P)
  run_claimed key request_hash process =
      try_catch (process >>= λ result. keep key request_hash result >>= λ _. pure result)
        (λ e. release key >>= λ _. throw e)

  abbrev after_claim :
      Text → Text → Action W (IdempotencyResult P) → Bool → Action W (Option (IdempotencyResult P))
  after_claim key request_hash process true =
      run_claimed key request_hash process >>= λ result. pure (some result)
  after_claim key request_hash process false = read_existing_record key request_hash

  -- One round for a valid key; `none` where the source calls `withIdempotency` again.
  unfoldable pub attempt :
      Text → Text → Action W (IdempotencyResult P) → Action W (Option (IdempotencyResult P))
  attempt key request_hash process = do
    acquired ←
        await (redis.set_ex_nx key (json.stringify (claim request_hash)) processing_ttl_seconds)
    after_claim key request_hash process acquired

  -- The rounds of a request, at most `fuel`; `none` where it has not ended by then.
  unfoldable pub rounds :
      ℕ
      → Text
      → Text
      → Action W (IdempotencyResult P)
      → W
      → Option (Result (IdempotencyResult P) × W)
  rounds zero key request_hash process w = none
  rounds (suc fuel) key request_hash process w =
      let (r, w') = attempt key request_hash process w in
      elim r [
        | ok o ↦ elim o [
          | none ↦ rounds fuel key request_hash process w'
          | some x ↦ some (ok x, w')
        ]
        | err e ↦ some (err e, w')
      ]

  module _ {Q : Type 0} (hashing : Hashing Q) where
    abbrev keyed :
        ℕ
        → Text
        → Text
        → HashedRequest
        → Q
        → Action W (IdempotencyResult P)
        → Option Text
        → W
        → Option (Result (IdempotencyResult P) × W)
    keyed fuel scope user_id request request_body process none w = some (process w)
    keyed fuel scope user_id request request_body process (some key) w =
        if idempotency_key_regex key
        then rounds fuel (build_redis_key scope user_id key)
            (canonical_request_hash hashing request request_body) process w
        else some (ok invalid_key, w)

    unfoldable pub with_idempotency :
        ℕ
        → Text
        → Text
        → HeaderValue
        → HashedRequest
        → Q
        → Action W (IdempotencyResult P)
        → W
        → Option (Result (IdempotencyResult P) × W)
    with_idempotency fuel scope user_id header request request_body process =
        keyed fuel scope user_id request request_body process (read_idempotency_key header)
