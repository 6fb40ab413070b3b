-- ===== src/Outbox/Schedule/Turns.antt =====
-- packages/outbox-publisher/src/index.ts: what the scheduler of the polls can reach.
use backend_architecture.Prelude.{◌≡◌, refl, Bool, true, ◌&&◌, not, arith, if◌then◌else◌}
use backend_architecture.Outbox.Schedule.{
  Scheduler, schedule_poll, start_poll, end_poll, reject_poll, stop_polling, started,
}

-- In a process that is running, a pending timer fires, an active poll is fulfilled or rejected, or a
-- signal arrives.
pub data Step (s : Scheduler) : Scheduler → Type 0 where
  fires : s.running ≡ true → s.timer ≡ true → Step s (start_poll s)
  fulfils : s.running ≡ true → s.polling ≡ true → Step s (end_poll s)
  rejects : s.running ≡ true → s.polling ≡ true → Step s (reject_poll s)
  signal : s.running ≡ true → Step s (stop_polling s)

pub data Reach : Scheduler → Type 0 where
  start : Reach started
  then_step : {s t : Scheduler} → Reach s → Step s t → Reach t

-- In a shutdown the process runs and no timer is pending; before it, while the process runs, either a
-- timer is pending or a poll is active, and not both.
abbrev pub one_turn : Scheduler → Bool
one_turn s =
    if s.shutting_down
    then s.running && not s.timer
    else if s.running
    then (if s.timer then not s.polling else s.polling)
    else not s.polling

Step-one_turn : {s t : Scheduler} → Step s t → one_turn s ≡ true → one_turn t ≡ true
unfolding end_poll schedule_poll reject_poll stop_polling
Step-one_turn {s} (fires up due) h = ground arith
Step-one_turn {s} (fulfils up active) h = ground arith
Step-one_turn {s} (rejects up active) h = ground arith
Step-one_turn {s} (signal up) h = ground arith

-- In every state that the steps of the scheduler lead to: before a shutdown, as long as no rejected
-- poll has ended the process, either a timer is pending or a poll is active, and not both, so polls do
-- not overlap and polling does not come to rest; in a shutdown no timer is pending, so no further poll
-- starts, and no rejected poll ends the process.
pub Reach-one_turn : (s : Scheduler) → Reach s → one_turn s ≡ true
unfolding schedule_poll
Reach-one_turn s start = refl
Reach-one_turn s (then_step r step) = Step-one_turn step (Reach-one_turn _ r)
