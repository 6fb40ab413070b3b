-- ===== src/Outbox/Schedule.antt =====
-- packages/outbox-publisher/src/index.ts: `schedulePoll`, its callback, and the start of `shutdown`.
-- The callback runs when the timer fires; the poll it starts is fulfilled or rejected later. Nothing
-- handles the rejection except a `shutdown` that waits for the poll; Node ends a process on a rejection
-- that nothing handles.
pub mod Turns
use backend_architecture.Prelude.{Bool, true, false, if◌then◌else◌}

-- `shuttingDown`; whether the timer of `pollTimer` is pending; whether `currentPoll` is not null; and
-- whether Node has not ended the process.
pub record Scheduler : Type 0 where
  pub shutting_down : Bool
  pub timer : Bool
  pub polling : Bool
  pub running : Bool

unfoldable pub schedule_poll : Scheduler → Scheduler
schedule_poll s = if s.shutting_down then s else record s { timer = true }

-- The callback of `setTimeout`.
abbrev pub start_poll : Scheduler → Scheduler
start_poll s = record s { timer = false; polling = true }

-- The callback of `finally`, which runs for a poll that is fulfilled and for one that is rejected.
unfoldable pub end_poll : Scheduler → Scheduler
end_poll s = schedule_poll (record s { polling = false })

-- A rejected poll: after `finally`, `currentPoll.catch` of a shutdown that waits for the poll handles the
-- rejection, and without a shutdown it ends the process.
unfoldable pub reject_poll : Scheduler → Scheduler
unfolding end_poll
reject_poll s = record (end_poll s) { running = s.shutting_down }

-- `shutdown` up to the point where it waits for the active poll.
unfoldable pub stop_polling : Scheduler → Scheduler
stop_polling s = record s { shutting_down = true; timer = false }

-- The process after its last lines.
abbrev pub started : Scheduler
started =
    schedule_poll (record { shutting_down = false; timer = false; polling = false; running = true })
