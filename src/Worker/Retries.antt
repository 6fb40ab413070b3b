-- ===== src/Worker/Retries.antt =====
-- packages/worker-service/src/index.ts: what becomes of a message that keeps failing.
use backend_architecture.Prelude.{
  ℕ, zero, suc, map, ◌+◌, ◌≤◌, ◌<◌, ◌≡◌, refl, true, some, List, [], ◌∷◌, Text, Exception, arith,
  length, text_eq, text_eq_iff, if◌then◌else◌,
}
use backend_architecture.Prelude.Decimal.{whole}
use backend_architecture.Worker.{HeaderValue, Headers, Message, header, set_header, retry_queue}
use backend_architecture.Worker.Handler.{
  WorkerState, WorkerContext, retry_count, next_message, requeue_or_dead_letter,
}

header-set_header :
    (j k : Text) (v : HeaderValue) (h : Headers)
    → header j (set_header k v h) ≡ (if text_eq j k then some v else header j h)
header-set_header j k v [] = refl
header-set_header j k v ((i, u) ∷ h) =
    ground (arith, text_eq_iff j k, text_eq_iff k i, text_eq_iff j i, header-set_header j k v h)

-- The queues that copies were sent to, the latest first.
abbrev pub sent_to : WorkerState → List Text
sent_to s = map (λ (sent : Text × Message). sent.0) s.sent

abbrev pub times : ℕ → Text → List Text → List Text
times zero queue queues = queues
times (suc n) queue queues = queue ∷ times n queue queues

module _ {E : Type 0} (ctx : WorkerContext E) where
  retry_count-next_message :
      (m : Message) (e : Exception) (n : ℕ)
      → retry_count ctx m ≡ whole n
      → retry_count ctx (next_message ctx m e) ≡ whole (n + 1)
  unfolding retry_count next_message
  retry_count-next_message m e n h = simp (header-set_header, h)

  -- The message fails once for each exception; each time the copy that was sent is delivered next.
  abbrev pub fail_each : List Exception → Message → WorkerState → WorkerState
  fail_each [] m s = s
  fail_each (e ∷ es) m s = fail_each es (next_message ctx m e) (requeue_or_dead_letter ctx m e s)

  requeue_retries :
      (m : Message) (e : Exception) (s : WorkerState) (n : ℕ)
      → s.has_channel ≡ true
      → retry_count ctx m ≡ whole n
      → n < ctx.config.max_retries
      → requeue_or_dead_letter ctx m e s ≡ record s {
        sent = (retry_queue ctx.config, next_message ctx m e) ∷ s.sent;
        acked = m ∷ s.acked;
      }
  unfolding requeue_or_dead_letter
  requeue_retries m e s n up count below = ground arith

  -- As long as retries are left, a message is never given up.
  pub fail_each-retries :
      (es : List Exception) (m : Message) (s : WorkerState) (n : ℕ)
      → s.has_channel ≡ true
      → retry_count ctx m ≡ whole n
      → n + length es ≤ ctx.config.max_retries
      → (fail_each es m s).dead_lettered ≡ s.dead_lettered
  fail_each-retries [] m s n up count total = refl
  fail_each-retries (e ∷ es) m s n up count total =
      rw (requeue_retries m e s n up count (omega arith), fail_each)
        (fail_each-retries es (next_message ctx m e) _ (n + 1) up
          (retry_count-next_message m e n count) (omega arith))
