-- ===== src/Outbox/Confirmed.antt =====
-- packages/outbox-publisher/src/index.ts: an event is marked as published only if it was sent. `messages`
-- is the message of the row with an identifier, which is the primary key of the table.
use mathlib.Core.Path.{subst}
use backend_architecture.Prelude.{
  ℕ, zero, suc, ◌≡◌, take, leb, arith, sym, ◌∙◌, ap, ◌⊎◌, inl, inr, Bool, true, [], ◌∷◌, Text,
  text_eq, text_eq_iff, ok, All, if◌then◌else◌, Bool-cases,
}
use backend_architecture.Services.Postgres.{Statement}
use backend_architecture.Outbox.{
  OutboxRow, Rows, change_row, is_due, due, insert_by_time, by_time, select_due,
}
use backend_architecture.Outbox.Poll.{OutboxContext, OutboxMessage, message_of}

module _ {W : Type 0} (ctx : OutboxContext W) (committed working : W → Rows)
    (Logged : OutboxMessage → W → Type 0) (messages : Text → OutboxMessage) where
  -- What the broker has confirmed stays so.
  abbrev pub Persists : (W → W) → Type 0
  Persists f = (m : OutboxMessage) (w : W) → Logged m w → Logged m (f w)

  -- The step leaves the tables alone too.
  abbrev pub Leaves : (W → W) → Type 0
  Leaves f = Persists f × ((w : W) → (committed (f w) ≡ committed w) × (working (f w) ≡ working w))

  -- `Logged m w` says that the broker has confirmed the message.
  pub record IsBroker : Type 1 where
    pub send_ok : (m : OutboxMessage) (w : W) → (ctx.send m w).0 ≡ ok tt → Logged m (ctx.send m w).1
    pub send_leaves : (m : OutboxMessage) → Leaves (λ w. (ctx.send m w).1)
    pub rabbit_leaves : Leaves (λ w. (ctx.connect_rabbit w).1)
    pub attempt_leaves : (t : Text) → Leaves (ctx.count_attempt t)
    pub failure_leaves : (t : Text) → Leaves (ctx.count_failure t)
    pub connect_leaves : Leaves (λ w. (ctx.connect w).1)
    pub release_leaves : Leaves ctx.release
    pub gauge_leaves : Leaves (λ w. (ctx.refresh_unpublished_gauge w).1)
    pub begin_persists : Persists (λ w. (ctx.client.begin w).1)
    pub execute_persists :
        {A : Type 0} (q : Statement Rows A) → Persists (λ w. (ctx.client.execute q w).1)
    pub commit_persists : Persists (λ w. (ctx.client.commit w).1)
    pub rollback_persists : Persists (λ w. (ctx.client.rollback w).1)

  abbrev pub IsKeyed : OutboxRow → Type 0
  IsKeyed row = message_of row ≡ messages row.id

  -- The message of the row itself was confirmed if the row is marked as published.
  abbrev pub IsSentRow : W → OutboxRow → Type 0
  IsSentRow w row = row.is_published ≡ true → Logged (message_of row) w

  -- Each row has the message of its identifier, and those marked as published were confirmed.
  abbrev pub IsSent : W → Rows → Type 0
  IsSent w rows = All (λ (row : OutboxRow). IsKeyed row × IsSentRow w row) rows

  pub Persists-IsSent :
      (f : W → W) (w : W) (rows : Rows) → Persists f → IsSent w rows → IsSent (f w) rows
  Persists-IsSent f w [] keeps h = tt
  Persists-IsSent f w (row ∷ rows) keeps h =
      ((h.0.0, λ e. keeps (message_of row) w (h.0.1 e)), Persists-IsSent f w rows keeps h.1)

  -- A change of the row with one identifier that keeps the messages, and marks it only if the message
  -- of that identifier is confirmed.
  pub change-IsSent :
      (f : OutboxRow → OutboxRow) (id : Text) (w : W) (rows : Rows)
      → ((row : OutboxRow) → ((f row).id ≡ row.id) × (message_of (f row) ≡ message_of row))
      → ((row : OutboxRow)
          → (f row).is_published ≡ true
          → (row.is_published ≡ true) ⊎ Logged (messages id) w)
      → IsSent w rows
      → IsSent w (change_row f id rows)
  change-IsSent f id w [] same held h = tt
  change-IsSent f id w (row ∷ rows) same held h = (here, change-IsSent f id w rows same held h.1)
    where
      changed : row.id ≡ id → IsKeyed (f row) × IsSentRow w (f row)
      changed name =
          let kept : message_of (f row) ≡ message_of row = (same row).1 in
          (
            kept ∙ h.0.0 ∙ ap messages (sym (same row).0),
            λ e.
                subst (λ m. Logged m w) (sym kept)
                  (elim (held row e) [
                    | inl old ↦ h.0.1 old
                    | inr new ↦ subst (λ m. Logged m w) (sym (h.0.0 ∙ ap messages name)) new
                  ]),
          )

      here :
          IsKeyed (if text_eq row.id id then f row else row)
          × IsSentRow w (if text_eq row.id id then f row else row)
      here = elim (Bool-cases (text_eq row.id id)) [
        | inr other ↦ rw other h.0
        | inl hit ↦ rw hit (changed ((text_eq_iff row.id id).0 hit))
      ]

  -- The rows that a poll selects are rows of the table.
  due-IsKeyed :
      (locked : Text → Bool) (now : ℕ) (w : W) (rows : Rows)
      → IsSent w rows
      → All IsKeyed (due locked now rows)
  due-IsKeyed locked now w [] h = tt
  due-IsKeyed locked now w (row ∷ rows) h =
      let rest = due-IsKeyed locked now w rows h.1 in
      elim (Bool-cases (is_due locked now row)) [
        | inl ready ↦ rw ready (h.0.0, rest)
        | inr other ↦ rw other rest
      ]

  insert_by_time-IsKeyed :
      (row : OutboxRow) (rows : Rows)
      → IsKeyed row
      → All IsKeyed rows
      → All IsKeyed (insert_by_time row rows)
  insert_by_time-IsKeyed row [] k h = (k, tt)
  insert_by_time-IsKeyed row (r ∷ rows) k h =
      let rest = insert_by_time-IsKeyed row rows k h.1 in
      elim (Bool-cases (leb row.occurred_at r.occurred_at)) [
        | inl early ↦ rw early (k, h)
        | inr late ↦ rw late (h.0, rest)
      ]

  by_time-IsKeyed : (rows : Rows) → All IsKeyed rows → All IsKeyed (by_time rows)
  by_time-IsKeyed [] h = tt
  by_time-IsKeyed (row ∷ rows) h =
      insert_by_time-IsKeyed row (by_time rows) h.0 (by_time-IsKeyed rows h.1)

  take-IsKeyed : (n : ℕ) (rows : Rows) → All IsKeyed rows → All IsKeyed (take n rows)
  take-IsKeyed zero rows h = tt
  take-IsKeyed (suc n) [] h = tt
  take-IsKeyed (suc n) (row ∷ rows) h = (h.0, take-IsKeyed n rows h.1)

  pub select_due-IsKeyed :
      (locked : Text → Bool) (now batch_size : ℕ) (w : W) (rows selected rows' : Rows)
      → IsSent w rows
      → select_due locked now batch_size rows ≡ ok (selected, rows')
      → All IsKeyed selected
  unfolding select_due
  select_due-IsKeyed locked now batch_size w rows selected rows' h done =
      let same : take batch_size (by_time (due locked now rows)) ≡ selected = ground arith in
      subst (All IsKeyed) same (
        take-IsKeyed batch_size (by_time (due locked now rows))
          (by_time-IsKeyed (due locked now rows) (due-IsKeyed locked now w rows h)))
