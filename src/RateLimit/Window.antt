-- ===== src/RateLimit/Window.antt =====
-- packages/api-service/src/middleware/rate-limit.ts: the requests of one client in one window.
use backend_architecture.Prelude.{
  ℕ, zero, suc, ◌+◌, ◌-◌, min, ◌≡◌, ◌∙◌, ap, inl, inr, Bool, true, false, Option, none, some, List,
  [], ◌∷◌, Text, Result, ok, err, arith, length, All, ltb, ◌==◌, Result-cases, Bool-cases,
  if◌then◌else◌,
}
use backend_architecture.Prelude.Decimal.{decimal}
use backend_architecture.Services.Redis.{IsRedis}
use backend_architecture.RateLimit.{
  RateContext, RateRequest, HookReply, untouched, is_exempt, limit_reply, window_bucket, rate_key,
  count_request, enforce_rate_limit,
}

-- Whatever the storage does, the hook does not throw: a request that it cannot count is let through
-- with no headers.
pub enforce_rate_limit-eq-ok :
    {W : Type 0} (ctx : RateContext W) (request : RateRequest) (w : W)
    → (enforce_rate_limit ctx request w).0
      ≡ ok (
          if is_exempt request.url
          then untouched
          else elim (count_request ctx (rate_key ctx request (window_bucket ctx w)) w).0 [
            | ok reply ↦ reply
            | err e ↦ untouched
          ])
unfolding enforce_rate_limit
enforce_rate_limit-eq-ok ctx request w = elim (Bool-cases (is_exempt request.url)) [
  | inl e ↦ rw (e, enforce_rate_limit)
  | inr e ↦
      elim (Result-cases (count_request ctx (rate_key ctx request (window_bucket ctx w)) w).0) [
        | inl (reply, done) ↦ ground arith
        | inr (x, failed) ↦ ground arith
      ]
]

abbrev pub is_limited : Result HookReply → Bool
is_limited (ok reply) = elim reply.sent [ none ↦ false | some _ ↦ true ]
is_limited (err e) = false

module _ {W : Type 0} (ctx : RateContext W) (cell : W → Text → Option Text)
    (laws : IsRedis ctx.redis cell) (request : RateRequest) where
  -- The requests of the client, each after some step of the rest of the system.
  abbrev pub serve : List (W → W) → W → List (Result HookReply)
  serve [] w = []
  serve (step ∷ steps) w =
      let (reply, w') = enforce_rate_limit ctx request (step w) in reply ∷ serve steps w'

  abbrev pub admitted : List (Result HookReply) → ℕ
  admitted [] = 0
  admitted (r ∷ rs) = (if is_limited r then 0 else 1) + admitted rs

  -- No command fails.
  abbrev pub Succeeds : Type 0
  Succeeds =
      ((k : Text) (w : W) → (n : ℕ) × ((ctx.redis.incr k w).0.result ≡ ok n))
      × ((k : Text) (n : ℕ) (w : W) → (ctx.redis.expire k n w).0.result ≡ ok tt)
      × ((k : Text) (w : W) → (o : Option ℕ) × ((ctx.redis.ttl k w).0.result ≡ ok o))

  module _ (bucket : ℕ) where
    abbrev pub key : Text
    key = rate_key ctx request bucket

    -- The key counts `n` requests.
    abbrev pub Counts : ℕ → W → Type 0
    Counts zero w = cell w key ≡ none
    Counts (suc n) w = cell w key ≡ some (decimal (suc n))

    -- The step leaves the count alone and ends in the same window.
    abbrev pub Stays : (W → W) → Type 0
    Stays step = (w : W) → (cell (step w) key ≡ cell w key) × (window_bucket ctx (step w) ≡ bucket)

    Counts_of_eq : (n : ℕ) (w w' : W) → cell w key ≡ cell w' key → Counts n w' → Counts n w
    Counts_of_eq zero w w' e h = e ∙ h
    Counts_of_eq (suc n) w w' e h = e ∙ h

    incr_counts :
        (n m : ℕ) (w : W)
        → Counts n w
        → (ctx.redis.incr key w).0.result ≡ ok m
        → (m ≡ n + 1) × Counts (suc n) (ctx.redis.incr key w).1
    incr_counts zero m w h done = let l = laws.incr_new key w m done h in (omega (arith, l.0), l.1)
    incr_counts (suc n) m w h done =
        let l = laws.incr_old key w m (suc n) done h in
        (l.0, l.1 ∙ ap (λ k. some (decimal k)) (omega arith))

    counted :
        (n : ℕ) (w : W)
        → Succeeds
        → Counts n w
        → ((o : Option ℕ) × ((count_request ctx key w).0
              ≡ ok (limit_reply ctx.config.rate_limit_requests (suc n) o)))
          × Counts (suc n) (count_request ctx key w).1
    unfolding count_request
    counted n w (incr, expire, ttl) h =
        let (m, done) = incr key w in
        let w1 = (ctx.redis.incr key w).1 in
        let (here, next) = incr_counts n m w h done in
        let expired = expire key ctx.config.rate_limit_window_seconds w1 in
        let w2 = (ctx.redis.expire key ctx.config.rate_limit_window_seconds w1).1 in
        let kept = laws.expire_keeps key key ctx.config.rate_limit_window_seconds w1 in
        let (o1, got1) = ttl key w1 in
        let (o2, got2) = ttl key w2 in
        let kept1 = laws.ttl_keeps key key w1 in
        let kept2 = laws.ttl_keeps key key w2 in
        elim (Bool-cases (m == 1)) [
          | inl first ↦ ((o2, ground arith), ground arith)
          | inr later ↦ ((o1, ground arith), ground arith)
        ]

    limited_iff :
        (c : ℕ) (o : Option ℕ)
        → is_limited (ok (limit_reply ctx.config.rate_limit_requests c o))
          ≡ ltb ctx.config.rate_limit_requests c
    unfolding limit_reply
    limited_iff c o = ground arith

    enforce-counted :
        (w : W) (reply : HookReply)
        → is_exempt request.url ≡ false
        → window_bucket ctx w ≡ bucket
        → (count_request ctx key w).0 ≡ ok reply
        → enforce_rate_limit ctx request w ≡ (ok reply, (count_request ctx key w).1)
    unfolding enforce_rate_limit
    enforce-counted w reply limited here done = ground arith

    enforced :
        (n : ℕ) (w : W)
        → Succeeds
        → is_exempt request.url ≡ false
        → window_bucket ctx w ≡ bucket
        → Counts n w
        → (is_limited (enforce_rate_limit ctx request w).0
            ≡ ltb ctx.config.rate_limit_requests (suc n))
          × Counts (suc n) (enforce_rate_limit ctx request w).1
    enforced n w good limited here h =
        let ((o, done), next) = counted n w good h in
        let last = limited_iff (suc n) o in
        let e = enforce-counted w _ limited here done in (rw e last, rw e next)

    -- In one window, of the requests that a client makes to a limited path, whatever the rest of the
    -- system does between them, exactly the first ones up to the limit are admitted: after `n` counted
    -- requests, as many of the next ones as the limit leaves. No command fails, and nothing else
    -- touches the client's counter.
    pub serve-admitted :
        (n : ℕ) (steps : List (W → W)) (w : W)
        → Succeeds
        → is_exempt request.url ≡ false
        → All Stays steps
        → Counts n w
        → admitted (serve steps w) ≡ min (ctx.config.rate_limit_requests - n) (length steps)
    serve-admitted n [] w good limited stays h = omega arith
    serve-admitted n (step ∷ steps) w good limited stays h =
        let (kept, here) = stays.0 w in
        let counts : Counts n (step w) = Counts_of_eq n (step w) w kept h in
        let (answer, next) = enforced n (step w) good limited here counts in
        let rest =
          serve-admitted (suc n) steps (enforce_rate_limit ctx request (step w)).1 good limited
            stays.1 next in
        ground (arith)
