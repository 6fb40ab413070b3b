-- ===== src/Outbox.antt =====
-- packages/outbox-publisher/src/index.ts: the rows of the outbox, its statements and the poll.
pub mod Poll
pub mod Schedule
pub mod Backoff
pub mod Confirmed
pub mod Published
use backend_architecture.Prelude.{
  ℕ, ◌+◌, ◌^◌, ◌≤◌, min, max, Bool, true, false, not, ◌&&◌, Option, none, some, List, [], ◌∷◌, Text,
  codes, text_eq, take, leb, if◌then◌else◌, ok,
}
use backend_architecture.Services.Postgres.{Statement}

-- `OutboxRow`, with the columns that the statements read or write. Times are seconds.
pub record OutboxRow : Type 0 where
  pub id : Text
  pub event_type : Text
  pub event_id : Text
  pub correlation_id : Option Text
  pub payload : Text
  pub attempts : ℕ
  pub is_published : Bool
  pub last_error : Option Text
  pub next_attempt_at : ℕ
  pub occurred_at : ℕ

abbrev pub Rows : Type 0
Rows = List OutboxRow

unfoldable pub backoff_seconds : ℕ → ℕ
backoff_seconds attempts = min 60 (max 1 (2 ^ min attempts 6))

abbrev pub is_due : (Text → Bool) → ℕ → OutboxRow → Bool
is_due locked now row = not row.is_published && leb row.next_attempt_at now && not (locked row.id)

abbrev pub due : (Text → Bool) → ℕ → Rows → Rows
due locked now [] = []
due locked now (row ∷ rows) =
    let rest = due locked now rows in if is_due locked now row then row ∷ rest else rest

-- `ORDER BY occurred_at ASC`
abbrev pub insert_by_time : OutboxRow → Rows → Rows
insert_by_time row [] = row ∷ []
insert_by_time row (r ∷ rows) =
    let rest = insert_by_time row rows in
    if leb row.occurred_at r.occurred_at then row ∷ r ∷ rows else r ∷ rest

abbrev pub by_time : Rows → Rows
by_time [] = []
by_time (row ∷ rows) = insert_by_time row (by_time rows)

-- `SELECT … WHERE published_at IS NULL AND next_attempt_at <= now() ORDER BY occurred_at ASC LIMIT $1
-- FOR UPDATE SKIP LOCKED`; `locked` tells the rows that other transactions have locked.
unfoldable pub select_due : (Text → Bool) → ℕ → ℕ → Statement Rows Rows
select_due locked now batch_size rows = ok (take batch_size (by_time (due locked now rows)), rows)

abbrev pub change_row : (OutboxRow → OutboxRow) → Text → Rows → Rows
change_row f id [] = []
change_row f id (row ∷ rows) = (if text_eq row.id id then f row else row) ∷ change_row f id rows

-- `UPDATE outbox_events SET published_at = now(), last_error = NULL … WHERE id = $1`
unfoldable pub mark_published : Text → Statement Rows (Unit {0})
mark_published id rows =
    ok (tt, change_row (λ row. record row { is_published = true; last_error = none }) id rows)

-- `UPDATE outbox_events SET attempts = $2, last_error = $3, next_attempt_at = now() + $4 … WHERE id = $1`
unfoldable pub mark_failed : Text → ℕ → Text → ℕ → ℕ → Statement Rows (Unit {0})
mark_failed id attempts message seconds now rows = ok (
  tt,
  change_row
      (λ row. record row {
        attempts = attempts;
        last_error = some message;
        next_attempt_at = now + seconds;
      })
      id rows,
)
