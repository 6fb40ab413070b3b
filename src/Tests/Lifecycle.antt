-- ===== src/Tests/Lifecycle.antt =====
-- The theorems on the life of the service, each at one input.
use backend_architecture.Prelude.{ℕ, ◌+◌, ◌*◌, ◌≡◌, refl, none, some, [], codes, true, length}
use backend_architecture.Prelude.Int.{ℤ, pos, pos_part, neg_part}
use backend_architecture.Lifecycle.{
  Request, create_request_lifecycle_state, on_request, on_response, begin_shutdown,
}
use backend_architecture.Lifecycle.Counting.{
  System, Reach, arrive, stop, refuse, preflight, start, next, enter, fresh, active-eq-pending,
  active-undercounts,
}

abbrev first : Request
first = record { object = 1; id = codes "r1"; x_correlation_id = none }

abbrev second : Request
second = record { object = 2; id = codes "r2"; x_correlation_id = some (codes "c") }

abbrev third : Request
third = record { object = 3; id = codes "r3"; x_correlation_id = none }

-- One request has arrived.
abbrev busy : System
busy = enter first fresh (on_request first 10 fresh.state)

busy-Reach : Reach busy
busy-Reach = next start (arrive first 10)

active-eq-pending_example : busy.state.active_requests ≡ pos (length busy.pending)
unfolding on_request create_request_lifecycle_state
active-eq-pending_example = active-eq-pending {s = busy} busy-Reach refl refl

-- Then the shutdown begins, and a request is refused.
abbrev stopping : System
stopping = record busy { state = record busy.state { shutting_down = true } }

abbrev refused_one : System
refused_one = enter second stopping (on_request second 20 stopping.state)

abbrev answered_refusal : System
answered_refusal = record refused_one {
  state = on_response second refused_one.state;
  refused = [];
  refusals_sent = refused_one.refusals_sent + 1;
}

answered_refusal-Reach : Reach answered_refusal
unfolding on_request create_request_lifecycle_state begin_shutdown
answered_refusal-Reach =
    next
      (next (next busy-Reach (stop (record busy.state { shutting_down = true }) refl))
        (arrive second 20))
      (refuse [] second [] refl)

-- And the browser asks before a request of another origin.
abbrev after_preflight : System
after_preflight = record answered_refusal {
  state = on_response third answered_refusal.state;
  preflights = answered_refusal.preflights + 1;
}

active-undercounts_example :
    pos_part after_preflight.state.active_requests
      + after_preflight.refusals_sent
      + after_preflight.preflights
    ≡ neg_part after_preflight.state.active_requests + length after_preflight.pending
active-undercounts_example =
    active-undercounts {s = after_preflight} (next answered_refusal-Reach (preflight third))

-- One request stays open for good.
abbrev stuck : ℕ → ℤ × ℕ
stuck i = (pos 1, 250 * i)
