-- ===== src/Worker/Once.antt =====
-- packages/worker-service/src/index.ts: an event is worked on once, as long as its row stays.
use backend_architecture.Prelude.{
  ℕ, ◌≡◌, refl, inl, inr, true, false, [], ◌∷◌, Text, Exception, ok, err, Action, arith,
  text_eq_refl, Result-cases,
}
use backend_architecture.Services.Postgres.{IsPool}
use backend_architecture.Worker.{
  OrderCreatedEvent, Processed, has_event, insert_event, mark, mark_processed, remove, delete_event,
}
use backend_architecture.Worker.Handler.{World, WorkerContext, processed, duplicate, process_event}

has_event-mark : (id j : Text) (rows : Processed) → has_event j (mark id rows) ≡ has_event j rows
has_event-mark id j [] = refl
has_event-mark id j (row ∷ rows) = ground (arith, has_event-mark id j rows)

has_event-remove : (id : Text) (rows : Processed) → has_event id (remove id rows) ≡ false
has_event-remove id [] = refl
has_event-remove id (row ∷ rows) = ground (arith, has_event-remove id rows)

module _ {E : Type 0} (ctx : WorkerContext E) (tables : World E → Processed)
    (laws : IsPool ctx.pool tables) where
  -- The insertion of the event reaches the database.
  abbrev pub Inserts : OrderCreatedEvent → World E → Type 0
  Inserts event w =
      (n : ℕ) × ((ctx.pool.query (insert_event event.event_id event.event_type) w).0 ≡ ok n)

  insert-seen :
      (event : OrderCreatedEvent) (w : World E) (n : ℕ)
      → has_event event.event_id (tables w) ≡ true
      → (ctx.pool.query (insert_event event.event_id event.event_type) w).0 ≡ ok n
      → (n ≡ 0)
        × (tables (ctx.pool.query (insert_event event.event_id event.event_type) w).1 ≡ tables w)
  unfolding insert_event
  insert-seen event w n seen done =
      let e = laws.query_ok (insert_event event.event_id event.event_type) w n done in ground arith

  -- An event that has a row is a duplicate, whether or not its work was ever finished: its work is not
  -- done again, and the table stays as it is.
  pub process_event-seen :
      (event : OrderCreatedEvent) (w : World E)
      → has_event event.event_id (tables w) ≡ true
      → Inserts event w
      → ((process_event ctx event w).0 ≡ ok duplicate)
        × (tables (process_event ctx event w).1 ≡ tables w)
  unfolding process_event
  process_event-seen event w seen (n, done) =
      let s = insert-seen event w n seen done in ground arith

  insert-has_event :
      (event : OrderCreatedEvent) (w : World E) (n : ℕ)
      → (ctx.pool.query (insert_event event.event_id event.event_type) w).0 ≡ ok n
      → has_event event.event_id
          (tables (ctx.pool.query (insert_event event.event_id event.event_type) w).1)
        ≡ true
  unfolding insert_event
  insert-has_event event w n done =
      let e = laws.query_ok (insert_event event.event_id event.event_type) w n done in
      ground (arith, text_eq_refl event.event_id)

  -- The notification work leaves the table alone.
  abbrev pub LeavesTable : OrderCreatedEvent → Type 0
  LeavesTable event = (w : World E) → tables (ctx.simulate_notification_work event w).1 ≡ tables w

  mark-has_event :
      (event : OrderCreatedEvent) (w : World E)
      → (ctx.pool.query (mark_processed event.event_id) w).0 ≡ ok tt
      → has_event event.event_id (tables (ctx.pool.query (mark_processed event.event_id) w).1)
        ≡ has_event event.event_id (tables w)
  unfolding mark_processed
  mark-has_event event w done =
      let e = laws.query_ok (mark_processed event.event_id) w tt done in
      ground (arith, has_event-mark event.event_id event.event_id (tables w))

  processed-has_event :
      (event : OrderCreatedEvent) (w : World E)
      → LeavesTable event
      → (process_event ctx event w).0 ≡ ok processed
      → has_event event.event_id (tables (process_event ctx event w).1) ≡ true
  unfolding process_event
  processed-has_event event w leaves done =
      let w1 = (ctx.pool.query (insert_event event.event_id event.event_type) w).1 in
      let w2 = (ctx.simulate_notification_work event w1).1 in
      let kept = leaves w1 in
      elim (Result-cases (ctx.pool.query (insert_event event.event_id event.event_type) w).0) [
        | inl (n, inserted) ↦
            let there = insert-has_event event w n inserted in
            ground (arith, mark-has_event event w2)
        | inr (x, failed) ↦ ground arith
      ]

  -- When the work of an event was done, and the work leaves the table alone, a later delivery of the
  -- same event is a duplicate.
  pub process_event-process_event :
      (event : OrderCreatedEvent) (w : World E)
      → LeavesTable event
      → (process_event ctx event w).0 ≡ ok processed
      → Inserts event (process_event ctx event w).1
      → (process_event ctx event (process_event ctx event w).1).0 ≡ ok duplicate
  process_event-process_event event w leaves done reaches =
      (process_event-seen event (process_event ctx event w).1
        (processed-has_event event w leaves done) reaches).0

  -- The insertion of the event, and the work after it.
  abbrev pub inserted : OrderCreatedEvent → Action (World E) ℕ
  inserted event = ctx.pool.query (insert_event event.event_id event.event_type)

  abbrev pub worked : OrderCreatedEvent → Action (World E) (Unit {0})
  worked event w = ctx.simulate_notification_work event (inserted event w).1

  -- When the insertion is new, the work throws, and the deletion reaches the database, the exception is
  -- passed on and the event has no row, so that a retry does the work.
  pub process_event-throws :
      (event : OrderCreatedEvent) (w : World E) (e : Exception)
      → (inserted event w).0 ≡ ok 1
      → (worked event w).0 ≡ err e
      → (ctx.pool.query (delete_event event.event_id) (worked event w).1).0 ≡ ok tt
      → ((process_event ctx event w).0 ≡ err e)
        × (has_event event.event_id (tables (process_event ctx event w).1) ≡ false)
  unfolding process_event delete_event
  process_event-throws event w e new failed deleted =
      let w1 = (ctx.pool.query (insert_event event.event_id event.event_type) w).1 in
      let w2 = (ctx.simulate_notification_work event w1).1 in
      let gone = laws.query_ok (delete_event event.event_id) w2 tt deleted in
      ground (arith, has_event-remove event.event_id (tables w2))
