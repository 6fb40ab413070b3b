-- ===== src/Tests/Idempotency.antt =====
-- The theorems on idempotent requests, each at one input.
use backend_architecture.Prelude.{
  ℕ, zero, suc, ◌≡◌, ◌≢◌, refl, true, false, Option, some, none, [], ◌∷◌, Text, codes, Result, ok,
  err, Action, pure, throw, arith, Bool, Bool-cases, text_eq, if◌then◌else◌, Option-cases, inl, inr,
}
use backend_architecture.Services.Redis.{Redis}
use backend_architecture.Services.Json.{Json}
use backend_architecture.Services.Memory.{Store, update, cell, memory, memory-IsRedis}
use backend_architecture.Idempotency.{
  RecordState, in_progress, completed, StoredRecord, IdempotencyResult,
}
use backend_architecture.Idempotency.Attempt
use backend_architecture.Idempotency.Attempt.{attempt, rounds}
use backend_architecture.Services.Redis.{IsRedis}
use backend_architecture.Idempotency.Release.{attempt-attempt, attempt-loses_response, record_text}
use backend_architecture.Idempotency.Rounds.{rounds-vanishing, rounds_total}
use backend_architecture.Tests.Fixtures.{empty, lost}

-- Records without bodies, as a text: the state, the status and the hash.
abbrev state_code : RecordState → ℕ
state_code in_progress = 0
state_code completed = 1

abbrev status_code : Option ℕ → ℕ
status_code none = 0
status_code (some n) = suc n

abbrev state_of : ℕ → RecordState
state_of zero = in_progress
state_of (suc n) = completed

abbrev status_of : ℕ → Option ℕ
status_of zero = none
status_of (suc n) = some n

abbrev parse_record : Text → Option (StoredRecord (Unit {0}))
parse_record [] = none
parse_record (a ∷ []) = none
parse_record (a ∷ b ∷ h) =
    some (record { state = state_of a; request_hash = h; status = status_of b; body = none })

abbrev records : Json (StoredRecord (Unit {0}))
records = record {
  stringify = λ r. state_code r.state ∷ status_code r.status ∷ r.request_hash;
  parse = parse_record;
}

abbrev created : IdempotencyResult (Unit {0})
created = record { status = 201; body = none }

abbrev create : Action Store (IdempotencyResult (Unit {0}))
create = pure created

abbrev fail : Action Store (IdempotencyResult (Unit {0}))
fail = throw lost

abbrev key : Text
key = codes "idempotency:orders:u:k"

abbrev first_hash : Text
first_hash = codes "abc"

abbrev in_use : StoredRecord (Unit {0})
in_use = record { state = completed; request_hash = codes "xyz"; status = some 201; body = none }

abbrev taken : Store
taken = update key (some (records.stringify in_use)) empty

some_text : (c : ℕ) (s : Text) → c ∷ s ≢ []
some_text c s h = cc

attempt-attempt_example :
    ((attempt memory records key first_hash create empty).0 ≡ ok (some created))
    × ((attempt memory records key first_hash fail
          (attempt memory records key first_hash create empty).1).0
        ≡ ok (some created))
unfolding attempt Attempt.run_claimed Attempt.keep
attempt-attempt_example =
    attempt-attempt memory records cell memory-IsRedis key first_hash create fail created empty refl
      (some_text _ _) refl refl (omega arith) refl
      (
        (false, refl),
        (some (record_text memory records cell memory-IsRedis key first_hash created), refl),
      )

abbrev repeated : IdempotencyResult (Unit {0})
repeated = record { status = 200; body = none }

-- Redis loses the connection when it is to store the first response.
abbrev first_text : Text
first_text = record_text memory records cell memory-IsRedis key first_hash created

abbrev forgetful : Redis Store
forgetful = record memory {
  set_ex = λ k v n w.
      if text_eq v first_text
      then (record { result = err lost; delay_ms = 1 }, w)
      else memory.set_ex k v n w;
}

forgetful-IsRedis : IsRedis forgetful cell
forgetful-IsRedis = record {
  get_value = memory-IsRedis.get_value;
  get_keeps = memory-IsRedis.get_keeps;
  set_value = λ k v n w h. elim (Bool-cases (text_eq v first_text)) [
    | inl first ↦ absurd (ground arith)
    | inr other ↦ let stored = memory-IsRedis.set_value k v n w refl in ground arith
  ];
  set_keeps = λ k j v n w h. elim (Bool-cases (text_eq v first_text)) [
    | inl first ↦ ground arith
    | inr other ↦ let kept = memory-IsRedis.set_keeps k j v n w h in ground arith
  ];
  nx_taken = memory-IsRedis.nx_taken;
  nx_held = memory-IsRedis.nx_held;
  nx_keeps = memory-IsRedis.nx_keeps;
  del_value = memory-IsRedis.del_value;
  del_keeps = memory-IsRedis.del_keeps;
  incr_new = memory-IsRedis.incr_new;
  incr_old = memory-IsRedis.incr_old;
  incr_keeps = memory-IsRedis.incr_keeps;
  expire_keeps = memory-IsRedis.expire_keeps;
  ttl_keeps = memory-IsRedis.ttl_keeps;
}

attempt-loses_response_example :
    let w1 = (attempt forgetful records key first_hash create empty).1 in
    ((attempt forgetful records key first_hash create empty).0 ≡ err lost)
    × (cell w1 key ≡ none)
    × ((attempt forgetful records key first_hash (pure repeated) w1).0 ≡ ok (some repeated))
unfolding attempt Attempt.run_claimed Attempt.keep Attempt.release
attempt-loses_response_example =
    attempt-loses_response forgetful records cell forgetful-IsRedis key first_hash create
      (pure repeated) created repeated lost true empty refl refl (omega arith) refl refl refl refl
      (omega arith) refl

-- Redis holds the record at each claim and has lost it at each read.
abbrev vanishing : Redis Store
vanishing = record memory {
  get = λ k w. (record { result = ok none; delay_ms = 1 }, w);
  set_ex_nx = λ k v n w. (record { result = ok false; delay_ms = 1 }, w);
}

rounds-vanishing_example : rounds vanishing records 9 key first_hash create empty ≡ none
rounds-vanishing_example =
    rounds-vanishing vanishing records 9 key first_hash create empty (λ k v n w. refl) (λ k w. refl)

-- A text that does not read back stands under the key.
abbrev corrupt : Store
corrupt = update key (some (codes "?")) empty

memory_claims :
    (k v : Text) (n : ℕ) (w : Store) → (b : Bool) × ((memory.set_ex_nx k v n w).0.result ≡ ok b)
memory_claims k v n w = elim (Option-cases (w k)) [
  | inl free ↦ (true, rw free)
  | inr (s, held) ↦ (false, rw held)
]

rounds_total_example :
    (x : Result (IdempotencyResult (Unit {0})) × Store) × (rounds memory records 2 key first_hash
        create corrupt
      ≡ some x)
rounds_total_example =
    rounds_total memory records cell memory-IsRedis 0 key first_hash create corrupt
      (memory_claims, (λ k w. (w k, refl)), λ k w. refl) not_nil
  where
    not_nil : cell corrupt key ≢ some []
    not_nil h = cc
