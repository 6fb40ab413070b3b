-- ===== src/Lifecycle.antt =====
-- packages/api-service/src/hooks/request-lifecycle.ts and request-state.ts, the `shutdown` function of
-- packages/api-service/src/index.ts, and `genReqId` of packages/api-service/src/app.ts.
pub mod Counting
pub mod Drain
use backend_architecture.Prelude.{
  ℕ, ◌+◌, ◌≡◌, Bool, true, false, ◌&&◌, Option, none, some, List, [], ◌∷◌, Text, codes, length, leb,
  ltb, ◌==◌, if◌then◌else◌,
}
use backend_architecture.Prelude.Int.{ℤ, pos, inc, dec, is_positive}

-- `requestStart` maps request objects, here numbers, to start times; the gauge of the metrics stands
-- beside the state.
pub record RequestLifecycleState : Type 0 where
  pub shutting_down : Bool
  pub active_requests : ℤ
  pub request_start : List (ℕ × ℕ)
  pub in_flight_gauge : ℤ
  pub observed_requests : ℕ

unfoldable pub create_request_lifecycle_state : RequestLifecycleState
create_request_lifecycle_state = record {
  shutting_down = false;
  active_requests = pos 0;
  request_start = [];
  in_flight_gauge = pos 0;
  observed_requests = 0;
}

-- A header of at most 128 characters, and otherwise the fallback.
abbrev short_or : Option Text → Text → Text
short_or none other = other
short_or (some value) other = if leb (length value) 128 then value else other

-- `genReqId`, given the identifier that `randomUUID()` would return
unfoldable pub gen_req_id : Option Text → Text → Text
gen_req_id x_request_id fresh_uuid = short_or x_request_id fresh_uuid

unfoldable pub correlation_id_of : Option Text → Text → Text
correlation_id_of x_correlation_id request_id = short_or x_correlation_id request_id

pub record Request : Type 0 where
  pub object : ℕ
  pub id : Text
  pub x_correlation_id : Option Text

pub data OnRequest : Type 0 where
  -- status 503 is sent
  unavailable : OnRequest
  -- the correlation id that the request carries on
  accepted : Text → OnRequest

unfoldable pub on_request : Request → ℕ → RequestLifecycleState → OnRequest × RequestLifecycleState
on_request request now s = if s.shutting_down then (unavailable, s) else (
  accepted (correlation_id_of request.x_correlation_id request.id),
  record s {
    active_requests = inc s.active_requests;
    request_start = (request.object, now) ∷ s.request_start;
    in_flight_gauge = inc s.in_flight_gauge;
  },
)

abbrev lookup_start : ℕ → List (ℕ × ℕ) → Option ℕ
lookup_start k [] = none
lookup_start k ((j, t) ∷ l) = if k == j then some t else lookup_start k l

abbrev observe : Option ℕ → ℕ → ℕ
observe none n = n
observe (some start) n = n + 1

unfoldable pub on_response : Request → RequestLifecycleState → RequestLifecycleState
on_response request s = record s {
  active_requests = dec s.active_requests;
  in_flight_gauge = dec s.in_flight_gauge;
  observed_requests = observe (lookup_start request.object s.request_start) s.observed_requests;
}

-- How the drain loop ends: with no request counted, or at the deadline.
pub data Drained : Type 0 where
  idle forced : Drained

-- The loop of `shutdown`: `look i` is the counter and the clock at the `i`-th test.
unfoldable pub drain : (ℕ → ℤ × ℕ) → ℕ → ℕ → ℕ → Option Drained
drain look deadline ℕ.zero i = none
drain look deadline (ℕ.suc fuel) i =
    let rest = drain look deadline fuel (i + 1) in
    let (active, now) = look i in
    if is_positive active && ltb now deadline
    then rest
    else some (if is_positive active then forced else idle)

-- `shutdown` sets the flag once; `none` where it was set before.
unfoldable pub begin_shutdown : RequestLifecycleState → Option RequestLifecycleState
begin_shutdown s = if s.shutting_down then none else some (record s { shutting_down = true })
