-- ===== src/Tests/Outbox.antt =====
-- The theorems on the outbox publisher, each at one input.
use backend_architecture.Prelude.{
  ◌≡◌, refl, ◌⊎◌, inl, inr, true, false, none, [], ◌∷◌, List, codes, Result, ok, err, Action, pure,
  map, arith, Result-cases, Text, if◌then◌else◌, text_eq,
}
use backend_architecture.Services.Postgres.{Client, IsClient}
use backend_architecture.Outbox.{OutboxRow, Rows, select_due, mark_published}
use backend_architecture.Outbox.Poll.{
  OutboxContext, OutboxMessage, poll_once, poll_batch, poll_rows, poll_row, publish, message_of,
}
use backend_architecture.Outbox.Confirmed.{IsBroker, IsSent}
use backend_architecture.Outbox.Schedule.{
  Scheduler, schedule_poll, start_poll, end_poll, reject_poll, stop_polling, started,
}
use backend_architecture.Outbox.Schedule.Turns.{
  Reach, start, then_step, fires, fulfils, rejects, signal, one_turn, Reach-one_turn,
}
use backend_architecture.Outbox.Published.{poll_once-IsSent}

-- The table, one transaction on it, and the messages that the broker has confirmed.
record Broker : Type 0 where
  committed : Rows
  working : Rows
  confirmed : List OutboxMessage

abbrev IsMember : OutboxMessage → List OutboxMessage → Type 0
IsMember m [] = ⊥
IsMember m (x ∷ xs) = (m ≡ x) ⊎ IsMember m xs

abbrev IsLogged : OutboxMessage → Broker → Type 0
IsLogged m w = IsMember m w.confirmed

abbrev settle : {A : Type 0} → Result (A × Rows) → Broker → Result A × Broker
settle (ok (a, t)) w = (ok a, record w { working = t })
settle (err e) w = (err e, w)

abbrev client : Client Broker Rows
client = record {
  begin = λ w. (ok tt, record w { working = w.committed });
  execute = λ q w. settle (q w.working) w;
  commit = λ w. (ok tt, record w { committed = w.working });
  rollback = λ w. (ok tt, record w { working = w.committed });
}

client-IsClient : IsClient client (λ w. w.committed) (λ w. w.working)
client-IsClient = record {
  begin_ok = λ w h. (refl, refl);
  begin_err = λ w e h. refl;
  execute_ok = λ q w a h. elim (Result-cases (q w.working)) [
    | inl ((b, t), e) ↦ ground arith
    | inr (x, e) ↦ ground arith
  ];
  execute_err = λ q w e h. elim (Result-cases (q w.working)) [
    | inl ((b, t), done) ↦ absurd (ground arith)
    | inr (x, failed) ↦ inl (ground arith)
  ];
  execute_keeps = λ q w. elim (Result-cases (q w.working)) [
    | inl ((b, t), e) ↦ ground arith
    | inr (x, e) ↦ ground arith
  ];
  commit_ok = λ w h. refl;
  commit_err = λ w e h. cc;
  rollback_keeps = λ w. refl;
}

-- A publisher whose database connects as given.
abbrev publisher : Action Broker (Unit {0}) → OutboxContext Broker
publisher connect = record {
  batch_size = 10;
  connect = connect;
  client = client;
  release = λ w. w;
  refresh_unpublished_gauge = pure tt;
  connect_rabbit = pure tt;
  send = λ m w. (ok tt, record w { confirmed = m ∷ w.confirmed });
  count_attempt = λ t w. w;
  count_failure = λ t w. w;
  locked = λ w id. false;
  database_now = λ w. 100;
}

settle-confirmed :
    {A : Type 0} (r : Result (A × Rows)) (w : Broker) → (settle r w).1.confirmed ≡ w.confirmed
settle-confirmed (ok (a, t)) w = refl
settle-confirmed (err e) w = refl

abbrev event_row : OutboxRow
event_row = record {
  id = codes "e";
  event_type = codes "order.created";
  event_id = codes "e";
  correlation_id = none;
  payload = codes "{}";
  attempts = 0;
  is_published = false;
  last_error = none;
  next_attempt_at = 50;
  occurred_at = 50;
}

-- Not yet due.
abbrev later_row : OutboxRow
later_row = record event_row { id = codes "f"; event_id = codes "f"; next_attempt_at = 200 }

abbrev messages : Text → OutboxMessage
messages id = if text_eq id (codes "f") then message_of later_row else message_of event_row

publisher-IsBroker :
    (connect : Action Broker (Unit {0}))
    → ((w : Broker) → (connect w).1 ≡ w)
    → IsBroker (publisher connect) (λ w. w.committed) (λ w. w.working) IsLogged messages
publisher-IsBroker connect still = record {
  send_ok = λ m w h. inl refl;
  send_leaves = λ m. ((λ n w h. inr h), λ w. (refl, refl));
  rabbit_leaves = ((λ n w h. h), λ w. (refl, refl));
  attempt_leaves = λ t. ((λ n w h. h), λ w. (refl, refl));
  failure_leaves = λ t. ((λ n w h. h), λ w. (refl, refl));
  connect_leaves = ((λ n w h. rw (still w) h), λ w. (rw (still w) refl, rw (still w) refl));
  release_leaves = ((λ n w h. h), λ w. (refl, refl));
  gauge_leaves = ((λ n w h. h), λ w. (refl, refl));
  begin_persists = λ n w h. h;
  execute_persists = λ q n w h. rw (settle-confirmed (q w.working) w) h;
  commit_persists = λ n w h. h;
  rollback_persists = λ n w h. h;
}

abbrev waiting : Broker
waiting = record { committed = event_row ∷ later_row ∷ []; working = []; confirmed = [] }

published_once :
    map
      (λ (row : OutboxRow). row.is_published)
      (poll_once (publisher (pure tt)) waiting).1.committed
    ≡ true ∷ false ∷ []
unfolding poll_once poll_batch select_due poll_rows poll_row publish mark_published
published_once = refl

poll_once-IsSent_example :
    IsSent
      (publisher (pure tt))
      (λ w. w.committed)
      (λ w. w.working)
      IsLogged
      messages
      (poll_once (publisher (pure tt)) waiting).1
      (poll_once (publisher (pure tt)) waiting).1.committed
poll_once-IsSent_example =
    poll_once-IsSent (publisher (pure tt)) (λ w. w.committed) (λ w. w.working) IsLogged messages
      client-IsClient (publisher-IsBroker (pure tt) (λ w. refl)) waiting
      ((refl, λ e. cc), ((refl, λ e. cc), tt))

-- One poll ends, and a signal arrives during the next one, which is rejected after it.
abbrev stopped : Scheduler
stopped = reject_poll (stop_polling (start_poll (end_poll (start_poll started))))

stopped-Reach : Reach stopped
unfolding schedule_poll end_poll stop_polling
stopped-Reach =
    then_step
      (then_step
        (then_step (then_step (then_step start (fires refl refl)) (fulfils refl refl))
          (fires refl refl))
        (signal refl))
      (rejects refl refl)

Reach-one_turn_example : one_turn stopped ≡ true
Reach-one_turn_example = Reach-one_turn stopped stopped-Reach
