-- ===== src/Idempotency/Release.antt =====
-- packages/api-service/src/utils/idempotency.ts: the first request with a key, when its work succeeds
-- and when something fails.
use backend_architecture.Prelude.{
  ◌≤◌, ◌≡◌, ◌≢◌, ◌∙◌, ap, Bool, true, false, Option, none, some, [], Text, Result, ok, err, Action,
  arith, text_eq_refl, Exception, Pending,
}
use backend_architecture.Services.Redis.{Redis, IsRedis}
use backend_architecture.Services.Json.{Json}
use backend_architecture.Idempotency.{
  StoredRecord, IdempotencyResult, replay_of, processing_ttl_seconds, completed_ttl_seconds,
  max_stored_body_bytes, byte_length,
}
use backend_architecture.Idempotency.Attempt.{claim, stored, keep, run_claimed, attempt, release}
use backend_architecture.Idempotency.Replay.{Reaches, attempt-held}

replay_of-stored :
    {W P : Type 0} (redis : Redis W) (json : Json (StoredRecord P)) (h : Text)
    (r : IdempotencyResult P)
    → replay_of (stored redis json h r) h ≡ r
unfolding replay_of
replay_of-stored redis json h r = rw (text_eq_refl h)

module _ {W P : Type 0} (redis : Redis W) (json : Json (StoredRecord P))
    (cell : W → Text → Option Text) (laws : IsRedis redis cell) (key request_hash : Text) where
  -- The world after the command that claims the key.
  abbrev pub claimed : W → W
  claimed w =
      (redis.set_ex_nx key (json.stringify (claim redis json request_hash)) processing_ttl_seconds
        w).1

  abbrev pub Claims : W → Type 0
  Claims w =
      (redis.set_ex_nx key (json.stringify (claim redis json request_hash)) processing_ttl_seconds
        w).0.result
      ≡ ok true

  -- The processor ends with this result, run after the claim.
  abbrev pub Ends : Action W (IdempotencyResult P) → Result (IdempotencyResult P) → W → Type 0
  Ends process r w = (process (claimed w)).0 ≡ r

  abbrev pub processed : Action W (IdempotencyResult P) → W → W
  processed process w = (process (claimed w)).1

  abbrev pub record_text : IdempotencyResult P → Text
  record_text result = json.stringify (stored redis json request_hash result)

  -- The command that stores the response, after the processor.
  abbrev pub after_set :
      Action W (IdempotencyResult P) → IdempotencyResult P → W → Pending (Unit {0}) × W
  after_set process result w =
      redis.set_ex key (record_text result) completed_ttl_seconds (processed process w)

  pub attempt-completes :
      (process : Action W (IdempotencyResult P)) (result : IdempotencyResult P) (w : W)
      → Claims w
      → Ends process (ok result) w
      → byte_length (record_text result) ≤ max_stored_body_bytes
      → (redis.set_ex key (record_text result) completed_ttl_seconds (processed process w)).0.result
        ≡ ok tt
      → ((attempt redis json key request_hash process w).0 ≡ ok (some result))
        × (cell (attempt redis json key request_hash process w).1 key ≡ some (record_text result))
  unfolding attempt run_claimed keep
  attempt-completes process result w claims done small kept =
      let holds =
        laws.set_value key (record_text result) completed_ttl_seconds (processed process w) kept in
      ground arith

  -- A request that claims the key, whose processor returns a result that is not too large to store,
  -- and whose result is stored, answers with that result; and a second request with the same key and
  -- hash, whose commands reach Redis, answers with the same result, whatever its processor is.
  pub attempt-attempt :
      (process again : Action W (IdempotencyResult P)) (result : IdempotencyResult P) (w : W)
      → json.parse (record_text result) ≡ some (stored redis json request_hash result)
      → record_text result ≢ []
      → Claims w
      → Ends process (ok result) w
      → byte_length (record_text result) ≤ max_stored_body_bytes
      → (redis.set_ex key (record_text result) completed_ttl_seconds (processed process w)).0.result
        ≡ ok tt
      → Reaches redis json cell laws key request_hash
          (attempt redis json key request_hash process w).1
      → ((attempt redis json key request_hash process w).0 ≡ ok (some result))
        × ((attempt redis json key request_hash again
              (attempt redis json key request_hash process w).1).0
            ≡ ok (some result))
  attempt-attempt process again result w back filled claims done small kept reaches =
      let first = attempt-completes process result w claims done small kept in
      let w' = (attempt redis json key request_hash process w).1 in
      let second =
        attempt-held redis json cell laws key request_hash again
          (stored redis json request_hash result) w' (first.1, back, filled) reaches in
      (first.0, second.0 ∙ ap (λ r. ok (some r)) (replay_of-stored redis json request_hash result))

  -- If the processor throws and the release reaches Redis, the request fails with that exception and
  -- the key is free for a retry.
  pub attempt-throws :
      (process : Action W (IdempotencyResult P)) (e : Exception) (w : W)
      → Claims w
      → Ends process (err e) w
      → (redis.del key (processed process w)).0.result ≡ ok tt
      → ((attempt redis json key request_hash process w).0 ≡ err e)
        × (cell (attempt redis json key request_hash process w).1 key ≡ none)
  unfolding attempt run_claimed release
  attempt-throws process e w claims failed released =
      let free = laws.del_value key (processed process w) released in ground arith

  -- A claim of a free key that is answered is granted.
  free-Claims :
      (w : W) (b : Bool)
      → cell w key ≡ none
      → (redis.set_ex_nx key
          (json.stringify (claim redis json request_hash))
          processing_ttl_seconds
          w).0.result
        ≡ ok b
      → Claims w
  free-Claims w true free answered = answered
  free-Claims w false free answered = absurd ((laws.nx_held key _ _ w answered).0 free)

  attempt-fails_to_store :
      (process : Action W (IdempotencyResult P)) (result : IdempotencyResult P) (e : Exception)
      (w : W)
      → Claims w
      → Ends process (ok result) w
      → byte_length (record_text result) ≤ max_stored_body_bytes
      → (after_set process result w).0.result ≡ err e
      → (redis.del key (after_set process result w).1).0.result ≡ ok tt
      → ((attempt redis json key request_hash process w).0 ≡ err e)
        × (cell (attempt redis json key request_hash process w).1 key ≡ none)
  unfolding attempt run_claimed keep release
  attempt-fails_to_store process result e w claims done small failed released =
      let w' =
        (redis.set_ex key (record_text result) completed_ttl_seconds (processed process w)).1 in
      let free = laws.del_value key w' released in ground arith

  -- If the processor has done its work and only the command that stores the response fails, the request
  -- fails all the same and its key is free; and a retry whose claim Redis answers runs its processor
  -- again: if that succeeds and its response is stored, the retry answers with the second result.
  pub attempt-loses_response :
      (process again : Action W (IdempotencyResult P)) (result second : IdempotencyResult P)
      (e : Exception) (b : Bool) (w : W)
      → Claims w
      → Ends process (ok result) w
      → byte_length (record_text result) ≤ max_stored_body_bytes
      → (after_set process result w).0.result ≡ err e
      → (redis.del key (after_set process result w).1).0.result ≡ ok tt
      → let w1 = (attempt redis json key request_hash process w).1 in
        (redis.set_ex_nx key
            (json.stringify (claim redis json request_hash))
            processing_ttl_seconds
            w1).0.result
          ≡ ok b
        → Ends again (ok second) w1
        → byte_length (record_text second) ≤ max_stored_body_bytes
        → (after_set again second w1).0.result ≡ ok tt
        → ((attempt redis json key request_hash process w).0 ≡ err e)
          × (cell w1 key ≡ none)
          × ((attempt redis json key request_hash again w1).0 ≡ ok (some second))
  attempt-loses_response process again result second e b w claims done small failed released
        answered ends small2 kept =
      let w1 = (attempt redis json key request_hash process w).1 in
      let lost = attempt-fails_to_store process result e w claims done small failed released in
      (
        lost.0,
        lost.1,
        (attempt-completes again second w1 (free-Claims w1 b lost.1 answered) ends small2 kept).0,
      )
