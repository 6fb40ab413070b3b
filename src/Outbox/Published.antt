-- ===== src/Outbox/Published.antt =====
-- packages/outbox-publisher/src/index.ts: what `pollOnce` leaves in the table.
use mathlib.Core.Path.{subst}
use backend_architecture.Prelude.{
  ◌+◌, ◌≡◌, refl, inl, inr, true, none, some, [], ◌∷◌, Exception, Result, ok, err, Action, ◌>>=◌,
  try_catch, modify, arith, Post, bind-Post, try-Post, Post-intro, after_bind, All, Post-ok,
  Post-err,
}
use backend_architecture.Services.Postgres.{IsClient, Statement}
use backend_architecture.Outbox.{
  OutboxRow, Rows, backoff_seconds, change_row, select_due, mark_published, mark_failed, Text, Bool,
  ℕ,
}
use backend_architecture.Outbox.Poll.{
  OutboxContext, OutboxMessage, message_of, reading, publish, note_failure, poll_row, poll_rows,
  poll_batch, finish_poll, poll_once,
}
use backend_architecture.Outbox.Confirmed.{
  Leaves, IsBroker, IsKeyed, IsSent, select_due-IsKeyed, Persists-IsSent, change-IsSent, IsKeyed,
}

module _ {W : Type 0} (ctx : OutboxContext W) (committed working : W → Rows)
    (Logged : OutboxMessage → W → Type 0) (messages : Text → OutboxMessage)
    (laws : IsClient ctx.client committed working)
    (broker : IsBroker ctx committed working Logged messages) where
  -- The committed rows that are marked were confirmed.
  Good : W → Type 0
  Good w = IsSent ctx committed working Logged messages w (committed w)

  -- So were those that the transaction sees.
  Ready : W → Type 0
  Ready w = Good w × IsSent ctx committed working Logged messages w (working w)

  ReadyAfter : {A : Type 0} → A → W → Type 0
  ReadyAfter a w = Ready w

  GoodAfter : {A : Type 0} → A → W → Type 0
  GoodAfter a w = Good w

  Leaves-Good :
      (f : W → W) (w : W) → Leaves ctx committed working Logged messages f → Good w → Good (f w)
  unfolding Good
  Leaves-Good f w leaves h =
      rw (leaves.1 w).0
        (Persists-IsSent ctx committed working Logged messages f w (committed w) leaves.0 h)

  Leaves-Ready :
      (f : W → W) (w : W) → Leaves ctx committed working Logged messages f → Ready w → Ready (f w)
  unfolding Ready
  Leaves-Ready f w leaves h = (
    Leaves-Good f w leaves h.0,
    rw (leaves.1 w).1
        (Persists-IsSent ctx committed working Logged messages f w (working w) leaves.0 h.1),
  )

  -- A statement that marks no row but those confirmed.
  execute-Ready :
      {A : Type 0} (q : Statement Rows A) (w : W)
      → ((rows rows' : Rows) (a : A)
          → IsSent ctx committed working Logged messages w rows
          → q rows ≡ ok (a, rows')
          → IsSent ctx committed working Logged messages w rows')
      → Ready w
      → Post Ready (ReadyAfter {A = A}) (ctx.client.execute q w)
  unfolding Ready Good ReadyAfter
  execute-Ready q w keeps h =
      let f : W → W = λ w. (ctx.client.execute q w).1 in
      let later = Persists-IsSent ctx committed working Logged messages f w in
      let kept = laws.execute_keeps q w in
      let first : Good (f w) = rw kept (later (committed w) (broker.execute_persists q) h.0) in
      Post-intro Ready ReadyAfter (ctx.client.execute q w)
        (λ a done. (
          first,
          later (working (f w)) (broker.execute_persists q)
              (keeps (working w) (working (f w)) a h.1 (laws.execute_ok q w a done)),
        ))
        (λ e failed. (
          first,
          elim (laws.execute_err q w e failed) [
            | inl same ↦
                let k : IsSent ctx committed working Logged messages (f w) (working (f w)) =
                  rw same (later (working w) (broker.execute_persists q) h.1) in
                k
            | inr back ↦
                let k : IsSent ctx committed working Logged messages (f w) (working (f w)) =
                  rw back (later (committed w) (broker.execute_persists q) h.0) in
                k
          ],
        ))

  -- A step that leaves the tables alone, however it ends.
  step-Ready :
      {A : Type 0} (m : Action W A) (w : W)
      → Leaves ctx committed working Logged messages (λ w. (m w).1)
      → Ready w
      → Post Ready (ReadyAfter {A = A}) (m w)
  unfolding ReadyAfter
  step-Ready m w leaves h =
      let r = Leaves-Ready (λ w. (m w).1) w leaves h in
      Post-intro Ready ReadyAfter (m w) (λ a done. r) (λ e failed. r)

  -- After `publish` the message is confirmed.
  SentRow : OutboxRow → Unit {0} → W → Type 0
  SentRow row a w = Ready w × Logged (message_of row) w

  publish-Ready : (row : OutboxRow) (w : W) → Ready w → Post Ready (SentRow row) (publish ctx row w)
  unfolding publish ReadyAfter SentRow
  publish-Ready row w h =
      bind-Post Ready ReadyAfter (SentRow row) ctx.connect_rabbit
        (λ _. modify (ctx.count_attempt row.event_type) >>= λ _. ctx.send (message_of row)) w
        (step-Ready ctx.connect_rabbit w broker.rabbit_leaves h)
        (λ _ w1 h1.
          let w2 = ctx.count_attempt row.event_type w1 in
          let h2 =
            Leaves-Ready (ctx.count_attempt row.event_type) w1
              (broker.attempt_leaves row.event_type) h1 in
          let h3 =
            Leaves-Ready (λ w. (ctx.send (message_of row) w).1) w2
              (broker.send_leaves (message_of row)) h2 in
          Post-intro Ready (SentRow row) (ctx.send (message_of row) w2)
            (λ _ done. (h3, broker.send_ok (message_of row) w2 done)) (λ e failed. h3))

  mark-Ready :
      (row : OutboxRow) (w : W)
      → IsKeyed ctx committed working Logged messages row
      → Ready w
      → Logged (message_of row) w
      → Post Ready ReadyAfter (ctx.client.execute (mark_published row.id) w)
  unfolding mark_published
  mark-Ready row w keyed h sent =
      execute-Ready (mark_published row.id) w
        (λ rows rows' a k done.
          let same : change_row (λ row. record row { is_published = true; last_error = none })
                row.id rows
              ≡ rows' =
            ground arith in
          subst (IsSent ctx committed working Logged messages w) same (
            change-IsSent ctx committed working Logged messages
              (λ row. record row { is_published = true; last_error = none }) row.id w rows
              (λ r. (refl, refl)) (λ r e. inr (subst (λ m. Logged m w) keyed sent)) k))
        h

  note_failure-Ready :
      (row : OutboxRow) (e : Exception) (w : W)
      → Ready w
      → Post Ready ReadyAfter (note_failure ctx row e w)
  unfolding note_failure mark_failed
  note_failure-Ready row e w h =
      let w1 = ctx.count_failure row.event_type w in
      let h1 =
        Leaves-Ready (ctx.count_failure row.event_type) w (broker.failure_leaves row.event_type)
          h in
      let next = row.attempts + 1 in
      let now = ctx.database_now w1 in
      let f : OutboxRow → OutboxRow = λ row. record row {
        attempts = next;
        last_error = some e.message;
        next_attempt_at = now + backoff_seconds next;
      } in
      execute-Ready (mark_failed row.id next e.message (backoff_seconds next) now) w1
        (λ rows rows' a k done.
          let same : change_row f row.id rows ≡ rows' = ground arith in
          subst (IsSent ctx committed working Logged messages w1) same (
            change-IsSent ctx committed working Logged messages f row.id w1 rows (λ r. (refl, refl))
              (λ r e. inl e) k))
        h1

  poll_row-Ready :
      (row : OutboxRow) (w : W)
      → IsKeyed ctx committed working Logged messages row
      → Ready w
      → Post Ready ReadyAfter (poll_row ctx row w)
  unfolding poll_row SentRow
  poll_row-Ready row w keyed h =
      try-Post Ready Ready ReadyAfter
        (publish ctx row >>= λ _. ctx.client.execute (mark_published row.id)) (note_failure ctx row)
        w
        (bind-Post Ready (SentRow row) ReadyAfter (publish ctx row)
          (λ _. ctx.client.execute (mark_published row.id)) w (publish-Ready row w h)
          (λ _ w1 k. mark-Ready row w1 keyed k.0 k.1))
        (note_failure-Ready row)

  poll_rows-Ready :
      (rows : Rows) (w : W)
      → All (IsKeyed ctx committed working Logged messages) rows
      → Ready w
      → Post Ready ReadyAfter (poll_rows ctx rows w)
  unfolding poll_rows ReadyAfter
  poll_rows-Ready [] w keyed h = h
  poll_rows-Ready (row ∷ rows) w keyed h =
      bind-Post Ready ReadyAfter ReadyAfter (poll_row ctx row) (λ _. poll_rows ctx rows) w
        (poll_row-Ready row w keyed.0 h) (λ _ w1 k. poll_rows-Ready rows w1 keyed.1 k)

  begin-Ready : (w : W) → Good w → Post Good ReadyAfter (ctx.client.begin w)
  unfolding ReadyAfter Ready Good
  begin-Ready w h =
      let f : W → W = λ w. (ctx.client.begin w).1 in
      let later =
        Persists-IsSent ctx committed working Logged messages f w (committed w)
          broker.begin_persists h in
      Post-intro Good ReadyAfter (ctx.client.begin w)
        (λ _ done. let start = laws.begin_ok w done in (rw start.1 later, rw start.0 later))
        (λ e failed. rw (laws.begin_err w e failed) later)

  commit-Good : (w : W) → Ready w → Post Good GoodAfter (ctx.client.commit w)
  unfolding GoodAfter Ready Good
  commit-Good w h =
      let f : W → W = λ w. (ctx.client.commit w).1 in
      let later = Persists-IsSent ctx committed working Logged messages f w in
      let old = later (committed w) broker.commit_persists h.0 in
      let new = later (working w) broker.commit_persists h.1 in
      Post-intro Good GoodAfter (ctx.client.commit w) (λ _ done. rw (laws.commit_ok w done) new)
        (λ e failed. elim (laws.commit_err w e failed) [
          | inl same ↦ rw same old
          | inr published ↦ rw published new
        ])

  rollback-Good : (w : W) → Good w → Good (ctx.client.rollback w).1
  unfolding Good
  rollback-Good w h = rw (laws.rollback_keeps w) (
      Persists-IsSent ctx committed working Logged messages (λ w. (ctx.client.rollback w).1) w
        (committed w) broker.rollback_persists h)

  -- What holds if it throws may be weakened.
  weaken :
      {A : Type 0} (p : Result A × W)
      → Post Ready (ReadyAfter {A = A}) p
      → Post Good (ReadyAfter {A = A}) p
  unfolding Ready ReadyAfter
  weaken (ok a, w) h = h
  weaken (err e, w) h = h.0

  Post-Good : {A : Type 0} (p : Result A × W) → Post Good (GoodAfter {A = A}) p → Good p.1
  unfolding GoodAfter
  Post-Good (ok a, w) h = h
  Post-Good (err e, w) h = h

  -- The rows selected are rows of the table.
  Selected : Rows → W → Type 0
  Selected rows w = Ready w × All (IsKeyed ctx committed working Logged messages) rows

  select-Selected :
      (locked : Text → Bool) (now : ℕ) (w : W)
      → Ready w
      → Post Good Selected (ctx.client.execute (select_due locked now ctx.batch_size) w)
  unfolding select_due Ready ReadyAfter Selected
  select-Selected locked now w h =
      let q = select_due locked now ctx.batch_size in
      let read =
        execute-Ready q w
          (λ rows rows' a k done.
            let same : rows ≡ rows' = ground arith in
            subst (IsSent ctx committed working Logged messages w) same k)
          h in
      Post-intro Good Selected (ctx.client.execute q w)
        (λ rows done. (
          Post-ok Ready ReadyAfter (ctx.client.execute q w) rows read done,
          select_due-IsKeyed ctx committed working Logged messages locked now ctx.batch_size w
              (working w) rows (working (ctx.client.execute q w).1) h.1
              (laws.execute_ok q w rows done),
        ))
        (λ e failed. (Post-err Ready ReadyAfter (ctx.client.execute q w) e read failed).0)

  poll_batch-Good : (w : W) → Good w → Post Good GoodAfter (poll_batch ctx w)
  unfolding poll_batch Ready ReadyAfter Selected
  poll_batch-Good w h =
      bind-Post Good ReadyAfter GoodAfter ctx.client.begin
        (λ _.
          reading ctx (λ w. (ctx.locked w, ctx.database_now w))
            (λ (locked, now). ctx.client.execute (select_due locked now ctx.batch_size) >>= λ rows.
              poll_rows ctx rows >>= λ _. ctx.client.commit))
        w (begin-Ready w h)
        (λ _ w1 h1.
          let q = select_due (ctx.locked w1) (ctx.database_now w1) ctx.batch_size in
          bind-Post Good Selected GoodAfter (ctx.client.execute q)
            (λ rows. poll_rows ctx rows >>= λ _. ctx.client.commit) w1
            (select-Selected (ctx.locked w1) (ctx.database_now w1) w1 h1)
            (λ rows w2 h2.
              bind-Post Good ReadyAfter GoodAfter (poll_rows ctx rows) (λ _. ctx.client.commit) w2
                (weaken (poll_rows ctx rows w2) (poll_rows-Ready rows w2 h2.1 h2.0))
                (λ _ w3 h3. commit-Good w3 h3)))

  -- If the message of a row is that of its identifier, and the broker has confirmed the own message of
  -- each row that is marked as published in the committed table, then so it is after `pollOnce`, whatever
  -- fails in it and whether or not it throws.
  pub poll_once-IsSent :
      (w : W)
      → IsSent ctx committed working Logged messages w (committed w)
      → IsSent ctx committed working Logged messages
          (poll_once ctx w).1
          (committed (poll_once ctx w).1)
  unfolding poll_once Good ReadyAfter GoodAfter
  poll_once-IsSent w h =
      let w1 = (ctx.connect w).1 in
      let h1 : Good w1 = Leaves-Good (λ w. (ctx.connect w).1) w broker.connect_leaves h in
      let m = try_catch (poll_batch ctx) (λ error. ctx.client.rollback) in
      let h2 : Good (m w1).1 = Post-Good (m w1) (
        try-Post Good Good GoodAfter (poll_batch ctx) (λ error. ctx.client.rollback) w1
          (poll_batch-Good w1 h1)
          (λ e w2 k.
            let r = rollback-Good w2 k in
            Post-intro Good GoodAfter (ctx.client.rollback w2) (λ a x. r) (λ e x. r))) in
      let w3 = (m w1).1 in
      let h3 = Leaves-Good ctx.release w3 broker.release_leaves h2 in
      let h4 =
        Leaves-Good (λ w. (ctx.refresh_unpublished_gauge w).1) (ctx.release w3) broker.gauge_leaves
          h3 in
      after_bind Good ctx.connect (λ _. finish_poll ctx m) w (λ e x. h1) (λ a x. h4)
