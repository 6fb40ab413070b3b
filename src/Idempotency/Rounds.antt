-- ===== src/Idempotency/Rounds.antt =====
-- packages/api-service/src/utils/idempotency.ts: how often `withIdempotency` calls itself.
use backend_architecture.Prelude.{
  ℕ, zero, suc, ◌≡◌, ◌≢◌, refl, sym, ◌∙◌, ap, inl, inr, Bool, true, false, Option, none, some, [],
  ◌∷◌, Text, Result, ok, err, Action, arith, Result-cases, Option-cases, Bool-cases, ◌⊎◌,
}
use backend_architecture.Services.Redis.{Redis, IsRedis}
use backend_architecture.Services.Json.{Json}
use backend_architecture.Idempotency.{
  StoredRecord, IdempotencyResult, replay_of, processing_ttl_seconds,
}
use backend_architecture.Idempotency.Attempt.{
  read_existing_record, claim, run_claimed, attempt, rounds, release,
}

module _ {W P : Type 0} (redis : Redis W) (json : Json (StoredRecord P)) where
  vanishing_attempt :
      (key request_hash : Text) (process : Action W (IdempotencyResult P)) (w : W)
      → ((k v : Text) (n : ℕ) (w : W) → (redis.set_ex_nx k v n w).0.result ≡ ok false)
      → ((k : Text) (w : W) → (redis.get k w).0.result ≡ ok none)
      → (attempt redis json key request_hash process w).0 ≡ ok none
  unfolding attempt read_existing_record
  vanishing_attempt key request_hash process w held gone =
      let c = json.stringify (claim redis json request_hash) in
      let taken = held key c processing_ttl_seconds w in
      let missing = gone key (redis.set_ex_nx key c processing_ttl_seconds w).1 in ground arith

  -- If the record is there at each claim and gone at each read after it, no number of rounds is
  -- enough: the retries are not bounded by one.
  pub rounds-vanishing :
      (fuel : ℕ) (key request_hash : Text) (process : Action W (IdempotencyResult P)) (w : W)
      → ((k v : Text) (n : ℕ) (w : W) → (redis.set_ex_nx k v n w).0.result ≡ ok false)
      → ((k : Text) (w : W) → (redis.get k w).0.result ≡ ok none)
      → rounds redis json fuel key request_hash process w ≡ none
  unfolding rounds
  rounds-vanishing zero key request_hash process w held gone = refl
  rounds-vanishing (suc fuel) key request_hash process w held gone =
      rw (vanishing_attempt key request_hash process w held gone, rounds)
        (rounds-vanishing fuel key request_hash process
          (attempt redis json key request_hash process w).1 held gone)

  -- A request that a round answers has that answer.
  pub rounds-attempt :
      (fuel : ℕ) (key request_hash : Text) (process : Action W (IdempotencyResult P))
      (x : IdempotencyResult P) (w : W)
      → (attempt redis json key request_hash process w).0 ≡ ok (some x)
      → rounds redis json (suc fuel) key request_hash process w
        ≡ some (ok x, (attempt redis json key request_hash process w).1)
  unfolding rounds
  rounds-attempt fuel key request_hash process x w answered = rw (answered, rounds) refl

  module _ (cell : W → Text → Option Text) (laws : IsRedis redis cell) where
    -- No command fails.
    abbrev pub Succeeds : Type 0
    Succeeds =
        ((k v : Text) (n : ℕ) (w : W) → (b : Bool) × ((redis.set_ex_nx k v n w).0.result ≡ ok b))
        × ((k : Text) (w : W) → (o : Option Text) × ((redis.get k w).0.result ≡ ok o))
        × ((k : Text) (w : W) → (redis.del k w).0.result ≡ ok tt)

    -- A round that does not end leaves the key free: its record was not readable, and is deleted.
    read-ends :
        (key request_hash : Text) (w : W)
        → Succeeds
        → cell w key ≢ none
        → cell w key ≢ some []
        → ((x : IdempotencyResult P) × ((read_existing_record redis json key request_hash w).0
              ≡ ok (some x)))
          ⊎ (((read_existing_record redis json key request_hash w).0 ≡ ok none)
              × (cell (read_existing_record redis json key request_hash w).1 key ≡ none))
    unfolding read_existing_record release
    read-ends key request_hash w (nx, get, del) there filled =
        let (o, got) = get key w in
        let live = laws.get_value key w o got in let w1 = (redis.get key w).1 in go o got live
      where
        go :
            (o : Option Text)
            → (redis.get key w).0.result ≡ ok o
            → o ≡ cell w key
            → ((x : IdempotencyResult P) × ((read_existing_record redis json key request_hash w).0
                  ≡ ok (some x)))
              ⊎ (((read_existing_record redis json key request_hash w).0 ≡ ok none)
                  × (cell (read_existing_record redis json key request_hash w).1 key ≡ none))
        go none got live = absurd (there (sym live))
        go (some []) got live = absurd (filled (sym live))
        go (some (c ∷ s)) got live = elim (Option-cases (json.parse (c ∷ s))) [
          | inl corrupt ↦
              let gone = laws.del_value key (redis.get key w).1 (del key (redis.get key w).1) in
              let done = del key (redis.get key w).1 in inr (ground arith, ground arith)
          | inr (r, parsed) ↦ inl (replay_of r request_hash, ground arith)
        ]

    abbrev Ended : Result (Option (IdempotencyResult P)) → Type 0
    Ended (ok none) = ⊥
    Ended (ok (some x)) = Unit
    Ended (err e) = Unit

    free_attempt :
        (key request_hash : Text) (process : Action W (IdempotencyResult P)) (w : W)
        → Succeeds
        → cell w key ≡ none
        → Ended (attempt redis json key request_hash process w).0
    unfolding attempt
    free_attempt key request_hash process w (nx, get, del) free =
        let c = json.stringify (claim redis json request_hash) in
        let w1 = (redis.set_ex_nx key c processing_ttl_seconds w).1 in
        let (b, reply) = nx key c processing_ttl_seconds w in
        elim (Bool-cases b) [
          | inl e ↦
              let taken : (redis.set_ex_nx key c processing_ttl_seconds w).0.result ≡ ok true =
                rw e at reply in
              elim (Result-cases (run_claimed redis json key request_hash process w1).0) [
                | inl (x, done) ↦ ground arith
                | inr (x, failed) ↦ ground arith
              ]
          | inr e ↦ absurd ((laws.nx_held key c processing_ttl_seconds w (rw e at reply)).0 free)
        ]

    attempt-ends :
        (key request_hash : Text) (process : Action W (IdempotencyResult P)) (w : W)
        → Succeeds
        → cell w key ≢ some []
        → Ended (attempt redis json key request_hash process w).0
          ⊎ (((attempt redis json key request_hash process w).0 ≡ ok none)
              × (cell (attempt redis json key request_hash process w).1 key ≡ none))
    unfolding attempt
    attempt-ends key request_hash process w (nx, get, del) filled =
        let c = json.stringify (claim redis json request_hash) in
        let w1 = (redis.set_ex_nx key c processing_ttl_seconds w).1 in
        let (b, reply) = nx key c processing_ttl_seconds w in
        elim (Bool-cases b) [
          | inl e ↦
              let free = (laws.nx_taken key c processing_ttl_seconds w (rw e at reply)).0 in
              inl (free_attempt key request_hash process w (nx, get, del) free)
          | inr e ↦
              let held : (redis.set_ex_nx key c processing_ttl_seconds w).0.result ≡ ok false =
                rw e at reply in
              let stays = laws.nx_held key c processing_ttl_seconds w held in
              elim (read-ends key request_hash w1 (nx, get, del) (λ z. stays.0 (sym stays.1 ∙ z))
                (λ z. filled (sym stays.1 ∙ z))) [
                  | inl (x, there) ↦ inl (ground arith)
                  | inr (gone, free) ↦ inr (ground arith, ground arith)
                ]
        ]

    rounds_again :
        (fuel : ℕ) (key request_hash : Text) (process : Action W (IdempotencyResult P)) (w : W)
        → (attempt redis json key request_hash process w).0 ≡ ok none
        → rounds redis json (suc fuel) key request_hash process w
          ≡ rounds redis json fuel key request_hash process
              (attempt redis json key request_hash process w).1
    unfolding rounds
    rounds_again fuel key request_hash process w again = ground arith

    rounds-Ended :
        (fuel : ℕ) (key request_hash : Text) (process : Action W (IdempotencyResult P)) (w : W)
        → Ended (attempt redis json key request_hash process w).0
        → (x : Result (IdempotencyResult P) × W) × (rounds redis json
              (suc fuel)
              key
              request_hash
              process
              w
            ≡ some x)
    unfolding rounds
    rounds-Ended fuel key request_hash process w ended =
        let w' = (attempt redis json key request_hash process w).1 in
        elim (Result-cases (attempt redis json key request_hash process w).0) [
          | inl (o, e) ↦ elim (Option-cases o) [
            | inl gone ↦ absurd (rw (e ∙ ap ok gone) at ended)
            | inr (x, there) ↦ ((ok x, w'), ground arith)
          ]
          | inr (x, e) ↦ ((err x, w'), ground arith)
        ]

    -- If no command fails and the key does not hold the empty text, two rounds are enough to end with a
    -- result, whether or not the key holds a record that reads back, and whatever the processor does.
    pub rounds_total :
        (fuel : ℕ) (key request_hash : Text) (process : Action W (IdempotencyResult P)) (w : W)
        → Succeeds
        → cell w key ≢ some []
        → (x : Result (IdempotencyResult P) × W) × (rounds redis json
              (suc (suc fuel))
              key
              request_hash
              process
              w
            ≡ some x)
    rounds_total fuel key request_hash process w good filled =
        elim (attempt-ends key request_hash process w good filled) [
          | inl ended ↦ rounds-Ended (suc fuel) key request_hash process w ended
          | inr (again, free) ↦
              let w' = (attempt redis json key request_hash process w).1 in
              let (x, e) =
                rounds-Ended fuel key request_hash process w'
                  (free_attempt key request_hash process w' good free) in
              (x, rounds_again (suc fuel) key request_hash process w again ∙ e)
        ]
