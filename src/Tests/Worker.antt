-- ===== src/Tests/Worker.antt =====
-- The theorems on the worker, each at one input.
use backend_architecture.Prelude.{
  ◌≡◌, refl, inl, none, some, [], ◌∷◌, codes, true, false, Result, ok, err, Action, pure, arith,
  Result-cases, inr,
}
use backend_architecture.Prelude.Int.{pos}
use backend_architecture.Prelude.Decimal.{parse_int}
use backend_architecture.Services.Postgres.{Pool, IsPool}
use backend_architecture.Worker.{
  OrderCreatedEvent, Message, Processed, string, insert_event, mark_processed,
}
use backend_architecture.Worker.Handler.{
  World, WorkerState, WorkerContext, duplicate, process_event,
}
use backend_architecture.Worker.Once.{process_event-seen, process_event-process_event}

-- A database that holds one table in memory.
abbrev settle : {A : Type 0} → Result (A × Processed) → World Processed → Result A × World Processed
settle (ok (a, t)) w = (ok a, record w { rest = t })
settle (err e) w = (err e, w)

abbrev pool : Pool (World Processed) Processed
pool = record { query = λ q w. settle (q w.rest) w }

pool-IsPool : IsPool pool (λ w. w.rest)
pool-IsPool = record {
  query_ok = λ q w a h. elim (Result-cases (q w.rest)) [
    | inl ((b, t), e) ↦ ground arith
    | inr (x, e) ↦ ground arith
  ];
  query_err = λ q w x h. elim (Result-cases (q w.rest)) [
    | inl ((b, t), e) ↦ absurd (ground arith)
    | inr (y, e) ↦ inl (ground arith)
  ];
}

abbrev worker : Action (World Processed) (Unit {0}) → WorkerContext Processed
worker work = record {
  config = record { queue = codes "order-created"; processing_timeout_ms = 10000; max_retries = 2 };
  pool = pool;
  simulate_notification_work = λ event. work;
  now_ms = λ w. 0;
  json_parse = λ s. none;
  number_of_text = parse_int;
}

abbrev fresh_state : WorkerState
fresh_state = record {
  has_channel = true;
  in_flight = pos 0;
  acked = [];
  sent = [];
  consumed = 0;
  processed = 0;
  failed = 0;
  dead_lettered = 0;
}

abbrev message : Message
message = record { content = codes "{}"; headers = []; message_id = some (codes "m") }

-- The header holds the number NaN.
abbrev odd_message : Message
odd_message = record message { headers = (codes "x-retry-count", string (codes "x")) ∷ [] }

abbrev event : OrderCreatedEvent
event = record {
  event_id = codes "e";
  event_type = codes "order.created";
  order_id = codes "o";
  occurred_at = codes "2024-01-01";
  correlation_id = none;
}

abbrev idle_world : World Processed
idle_world = record { worker = fresh_state; rest = [] }

-- The row of an earlier run that never finished.
abbrev seen_world : World Processed
seen_world = record idle_world {
  rest =
      record { event_id = codes "e"; event_type = codes "order.created"; is_processed = false }
      ∷ [];
}

process_event-seen_example :
    ((process_event (worker (pure tt)) event seen_world).0 ≡ ok duplicate)
    × ((process_event (worker (pure tt)) event seen_world).1.rest ≡ seen_world.rest)
unfolding insert_event
process_event-seen_example =
    process_event-seen (worker (pure tt)) (λ w. w.rest) pool-IsPool event seen_world refl (0, refl)

process_event-process_event_example :
    (process_event (worker (pure tt)) event (process_event (worker (pure tt)) event idle_world).1).0
    ≡ ok duplicate
unfolding process_event insert_event mark_processed
process_event-process_event_example =
    process_event-process_event (worker (pure tt)) (λ w. w.rest) pool-IsPool event idle_world
      (λ w. refl) refl (0, refl)
