-- ===== src/Lifecycle/Counting.antt =====
-- What the counter of packages/api-service/src/hooks/request-lifecycle.ts counts. Fastify runs
-- `onResponse` for every response, also for one that an `onRequest` hook sent. The hook of @fastify/cors
-- is registered first and answers a preflight itself: then the `onRequest` of this file does not run.
use backend_architecture.Prelude.{
  ℕ, zero, suc, ◌+◌, ◌≡◌, refl, inl, inr, false, some, List, [], ◌∷◌, ◌++◌, arith, length,
  length-append, Bool-cases, ap, ◌≤◌, sym, ◌∙◌,
}
use backend_architecture.Prelude.Int.{
  ℤ, pos, pos_part, neg_part, inc_parts, dec_parts, eq-pos_of_parts, negsuc,
}
use backend_architecture.Lifecycle.{
  RequestLifecycleState, create_request_lifecycle_state, Request, OnRequest, unavailable, accepted,
  on_request, on_response, begin_shutdown, drain, is_positive, idle,
}

-- The service, the requests that it accepted and has not answered, those that it refused and has not
-- answered, how many refusals it has answered, and how many preflights.
pub record System : Type 0 where
  pub state : RequestLifecycleState
  pub pending : List Request
  pub refused : List Request
  pub refusals_sent : ℕ
  pub preflights : ℕ

abbrev pub enter : Request → System → OnRequest × RequestLifecycleState → System
enter r s (unavailable, t) = record s { state = t; refused = r ∷ s.refused }
enter r s (accepted c, t) = record s { state = t; pending = r ∷ s.pending }

abbrev pub fresh : System
fresh = record {
  state = create_request_lifecycle_state;
  pending = [];
  refused = [];
  refusals_sent = 0;
  preflights = 0;
}

pub data Step (s : System) : System → Type 0 where
  arrive : (r : Request) (now : ℕ) → Step s (enter r s (on_request r now s.state))
  answer :
      (front : List Request) (r : Request) (back : List Request)
      → s.pending ≡ front ++ r ∷ back
      → Step s (record s { state = on_response r s.state; pending = front ++ back })
  refuse :
      (front : List Request) (r : Request) (back : List Request)
      → s.refused ≡ front ++ r ∷ back
      → Step s (record s {
        state = on_response r s.state;
        refused = front ++ back;
        refusals_sent = s.refusals_sent + 1;
      })
  preflight :
      (r : Request)
      → Step s (record s { state = on_response r s.state; preflights = s.preflights + 1 })
  stop :
      (t : RequestLifecycleState)
      → begin_shutdown s.state ≡ some t
      → Step s (record s { state = t })

pub data Reach : System → Type 0 where
  start : Reach fresh
  next : {s t : System} → Reach s → Step s t → Reach t

-- The counter, off by the refusals and the preflights that were answered.
pub record Counted (s : System) : Type 0 where
  pub counter :
      pos_part s.state.active_requests + s.refusals_sent + s.preflights
      ≡ neg_part s.state.active_requests + length s.pending
  pub refusing : (s.state.shutting_down ≡ false) → (s.refusals_sent ≡ 0) × (s.refused ≡ [])

fresh-Counted : Counted fresh
unfolding create_request_lifecycle_state
fresh-Counted = ground arith

split_length :
    (xs front back : List Request) (r : Request)
    → xs ≡ front ++ r ∷ back
    → length xs ≡ suc (length (front ++ back))
split_length xs front back r e =
    omega
      (arith, ap (length {0}) e, length-append {0} front (r ∷ back), length-append {0} front back)

not-nil-eq-append : (front back : List Request) (r : Request) → [] ≡ front ++ r ∷ back → ⊥
not-nil-eq-append [] back r e = cc
not-nil-eq-append (x ∷ front) back r e = cc

not_positive : (a : ℤ) (n k : ℕ) → pos_part a + k ≡ neg_part a + n → n ≤ k → is_positive a ≡ false
not_positive (pos zero) n k e le = refl
not_positive (pos (suc m)) n k e le = absurd (omega arith)
not_positive (negsuc m) n k e le = refl

module _ (s : System) (h : Counted s) where
  arrive-Counted : (r : Request) (now : ℕ) → Counted (enter r s (on_request r now s.state))
  unfolding on_request
  arrive-Counted r now = elim (Bool-cases s.state.shutting_down) [
    | inl down ↦ ground (arith, h.refusing)
    | inr up ↦ ground (arith, h.refusing, inc_parts s.state.active_requests)
  ]

  answer-Counted :
      (front : List Request) (r : Request) (back : List Request)
      → s.pending ≡ front ++ r ∷ back
      → Counted (record s { state = on_response r s.state; pending = front ++ back })
  unfolding on_response
  answer-Counted front r back e = record {
    counter = omega (
      arith,
      h.counter,
      dec_parts s.state.active_requests,
      split_length s.pending front back r e,
    );
    refusing = h.refusing;
  }

  refuse-Counted :
      (front : List Request) (r : Request) (back : List Request)
      → s.refused ≡ front ++ r ∷ back
      → Counted (record s {
        state = on_response r s.state;
        refused = front ++ back;
        refusals_sent = s.refusals_sent + 1;
      })
  unfolding on_response
  refuse-Counted front r back e = record {
    counter = omega (arith, h.counter, dec_parts s.state.active_requests);
    refusing = λ up. absurd (not-nil-eq-append front back r (sym (h.refusing up).1 ∙ e));
  }

  preflight-Counted :
      (r : Request)
      → Counted (record s { state = on_response r s.state; preflights = s.preflights + 1 })
  unfolding on_response
  preflight-Counted r = record {
    counter = omega (arith, h.counter, dec_parts s.state.active_requests);
    refusing = h.refusing;
  }

  stop-Counted :
      (t : RequestLifecycleState)
      → begin_shutdown s.state ≡ some t
      → Counted (record s { state = t })
  unfolding begin_shutdown
  stop-Counted t e = ground (arith, h.refusing)

Step-Counted : {s t : System} → Step s t → Counted s → Counted t
Step-Counted {s} (arrive r now) h = arrive-Counted s h r now
Step-Counted {s} (answer front r back e) h = answer-Counted s h front r back e
Step-Counted {s} (refuse front r back e) h = refuse-Counted s h front r back e
Step-Counted {s} (preflight r) h = preflight-Counted s h r
Step-Counted {s} (stop t e) h = stop-Counted s h t e

Reach-Counted : {s : System} → Reach s → Counted s
Reach-Counted start = fresh-Counted
Reach-Counted (next r st) = Step-Counted st (Reach-Counted r)

-- In every state that the steps lead to before a shutdown, and in which no preflight was answered,
-- `activeRequests` is the number of requests that were accepted and not yet answered.
pub active-eq-pending :
    {s : System}
    → Reach s
    → s.state.shutting_down ≡ false
    → s.preflights ≡ 0
    → s.state.active_requests ≡ pos (length s.pending)
active-eq-pending {s} r up none_early =
    let h = Reach-Counted r in
    let none_sent = h.refusing up in
    eq-pos_of_parts s.state.active_requests (length s.pending)
      (omega (arith, h.counter, none_sent.0))

-- In every state that the steps lead to, the accepted requests still to be answered are as many as
-- `activeRequests`, the answered refusals and the answered preflights together: each request that is
-- refused during the shutdown, and each preflight at any time, takes one off the counter that it never
-- added.
pub active-undercounts :
    {s : System}
    → Reach s
    → pos_part s.state.active_requests + s.refusals_sent + s.preflights
      ≡ neg_part s.state.active_requests + length s.pending
active-undercounts r = (Reach-Counted r).counter

-- So with one refusal or preflight answered for each request still to be answered, the drain loop sees no
-- request at all, and ends as if the service were idle.
pub drain-misses_pending :
    {s : System} (deadline fuel now : ℕ)
    → Reach s
    → length s.pending ≤ s.refusals_sent + s.preflights
    → drain (λ i. (s.state.active_requests, now)) deadline (suc fuel) 0 ≡ some idle
unfolding drain
drain-misses_pending {s} deadline fuel now r enough =
    let h = (Reach-Counted r).counter in
    rw (
      not_positive s.state.active_requests (length s.pending) (s.refusals_sent + s.preflights)
        (omega (arith, h)) enough)
