-- ===== src/Idempotency/Replay.antt =====
-- packages/api-service/src/utils/idempotency.ts: requests with a key that is already in use.
use backend_architecture.Prelude.{
  ◌≡◌, ◌≢◌, ◌∙◌, Bool, true, false, Option, some, [], Text, ok, Action, arith,
}
use backend_architecture.Services.Redis.{Redis, IsRedis}
use backend_architecture.Services.Json.{Json}
use backend_architecture.Idempotency.{
  StoredRecord, IdempotencyResult, replay_of, processing_ttl_seconds,
}
use backend_architecture.Idempotency.Attempt.{read_existing_record, claim, attempt}

module _ {W P : Type 0} (redis : Redis W) (json : Json (StoredRecord P))
    (cell : W → Text → Option Text) (laws : IsRedis redis cell) where
  -- The two commands of a request on a key in use do not fail.
  abbrev pub Reaches : Text → Text → W → Type 0
  Reaches key request_hash w =
      let (p, w1) =
        redis.set_ex_nx key (json.stringify (claim redis json request_hash)) processing_ttl_seconds
          w in
      ((b : Bool) × (p.result ≡ ok b)) × ((o : Option Text) × ((redis.get key w1).0.result ≡ ok o))

  -- The key holds the record, as text that reads back.
  abbrev pub Holds : Text → StoredRecord P → W → Type 0
  Holds key r w =
      (cell w key ≡ some (json.stringify r))
      × (json.parse (json.stringify r) ≡ some r)
      × (json.stringify r ≢ [])

  read_existing_record-held :
      (key request_hash : Text) (r : StoredRecord P) (w : W)
      → Holds key r w
      → ((o : Option Text) × ((redis.get key w).0.result ≡ ok o))
      → ((read_existing_record redis json key request_hash w).0
          ≡ ok (some (replay_of r request_hash)))
        × (cell (read_existing_record redis json key request_hash w).1 key ≡ cell w key)
  unfolding read_existing_record
  read_existing_record-held key request_hash r w (held, back, filled) (o, got) =
      let live = laws.get_value key w o got in let same = laws.get_keeps key key w in ground (arith)

  -- A request whose key holds a record, and whose two commands reach Redis, answers by that record
  -- alone: a conflict where its hash is another, a refusal while the first request is in progress, and
  -- the stored response once it is done. Its processor does not matter, and the record stays.
  pub attempt-held :
      (key request_hash : Text) (process : Action W (IdempotencyResult P)) (r : StoredRecord P)
      (w : W)
      → Holds key r w
      → Reaches key request_hash w
      → ((attempt redis json key request_hash process w).0 ≡ ok (some (replay_of r request_hash)))
        × (cell (attempt redis json key request_hash process w).1 key ≡ cell w key)
  unfolding attempt
  attempt-held key request_hash process r w h ((true, taken), got) =
      let free = laws.nx_taken key _ _ w taken in ground (arith)
  attempt-held key request_hash process r w h ((false, held), got) =
      let stays = laws.nx_held key _ _ w held in
      let w1 =
        (redis.set_ex_nx key (json.stringify (claim redis json request_hash)) processing_ttl_seconds
          w).1 in
      let still : Holds key r w1 = (stays.1 ∙ h.0, h.1, h.2) in
      ground (arith, read_existing_record-held key request_hash r w1 still got)
