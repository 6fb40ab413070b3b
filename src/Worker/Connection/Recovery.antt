-- ===== src/Worker/Connection/Recovery.antt =====
-- packages/worker-service/src/index.ts: what the loop that reconnects ends in.
use mathlib.Core.Path.{subst}
use backend_architecture.Prelude.{
  ℕ, zero, suc, ◌*◌, ◌≤◌, ◌≡◌, refl, sym, ap, ◌∙◌, inl, inr, true, false, some, List, [], ◌∷◌, Text,
  Exception, ok, err, Action, ◌>>=◌, modify, arith, Result-cases, Post, bind-Post, Post-intro,
  Post-ok, Post-err, min, ◌^◌,
}
use backend_architecture.Worker.Connection.Turns.{
  setup_rabbit-closed, setup_rabbit-open, reconnect_loop-ok, reconnect_loop-err,
}
use backend_architecture.Worker.Connection.{
  Link, LinkWorld, RabbitContext, update_link, open_channel, call_each, topology, setup_rabbit,
  start_consumer, reconnect, reconnect_loop, next_delay, ended, create_channel, Call,
}

-- The delay before the turn with this number, counted from 0.
abbrev pub delay_before : ℕ → ℕ
delay_before zero = 1000
delay_before (suc n) = next_delay (delay_before n)

-- The delays between attempts double from one second up to half a minute.
pub delay_before-eq : (n : ℕ) → delay_before n ≡ min (1000 * 2 ^ n) 30000
delay_before-eq zero = refl
delay_before-eq (suc n) = let e = delay_before-eq n in ground arith

-- Everything but the RabbitMQ client leaves the module's variables alone, and the worlds in which the
-- broker is up stay so while it is called.
pub record IsUp {E : Type 0} (ctx : RabbitContext E) (up : LinkWorld E → Type 0) : Type 0 where
  pub connects :
      (w : LinkWorld E)
      → up w
      → ((ctx.connect w).0 ≡ ok tt) × (up (ctx.connect w).1) × ((ctx.connect w).1.link ≡ w.link)
  pub calls :
      (c : Call) (w : LinkWorld E)
      → up w
      → ((ctx.call c w).0 ≡ ok tt) × (up (ctx.call c w).1) × ((ctx.call c w).1.link ≡ w.link)
  pub consumes :
      (q : Text) (w : LinkWorld E)
      → up w
      → ((tag : Text) × ((ctx.consume q w).0 ≡ ok tag)) × ((ctx.consume q w).1.link ≡ w.link)
  pub updates : (f : Link → Link) (w : LinkWorld E) → up w → up (update_link f w)

abbrev pub HasConsumer : Link → Type 0
HasConsumer link =
    (link.has_channel ≡ true)
    × (link.has_connection ≡ true)
    × ((tag : Text) × (link.consumer_tag ≡ some tag))

module _ {E : Type 0} (ctx : RabbitContext E) (up : LinkWorld E → Type 0)
    (works : IsUp ctx up) where
  -- No step throws in a world where the broker is up.
  abbrev Never : LinkWorld E → Type 0
  Never w = ⊥

  abbrev IsLinked : Link → Type 0
  IsLinked link = (link.has_channel ≡ true) × (link.has_connection ≡ true)

  abbrev Connected : LinkWorld E → Type 0
  Connected w = (up w) × IsLinked w.link

  call-Post :
      (c : Call) (P : Link → Type 0) (w : LinkWorld E)
      → up w
      → P w.link
      → Post Never (λ _ w'. (up w') × P w'.link) (ctx.call c w)
  call-Post c P w u h =
      let (e, u', same) = works.calls c w u in
      Post-intro _ _ (ctx.call c w) (λ _ _. (u', subst P (sym same) h))
        (λ x failed. absurd (ground arith))

  call_each-Connected :
      (cs : List Call) (w : LinkWorld E)
      → Connected w
      → Post Never (λ _ w'. Connected w') (call_each ctx cs w)
  call_each-Connected [] w h = h
  call_each-Connected (c ∷ cs) w (u, linked) =
      bind-Post Never (λ _ w'. Connected w') (λ _ w'. Connected w') (ctx.call c)
        (λ _. call_each ctx cs) w (call-Post c IsLinked w u linked)
        (λ _ w' h'. call_each-Connected cs w' h')

  abbrev with_connection : Link → Link
  with_connection link = record link { has_connection = true }

  abbrev with_channel : Link → Link
  with_channel link = record link { has_channel = true }

  -- The rest of `open_channel` after the call that makes the channel, and after the connection.
  abbrev channelled : Unit {0} → Action (LinkWorld E) (Unit {0})
  channelled _ = modify (update_link with_channel) >>= λ _. call_each ctx (topology ctx.config)

  abbrev connected : Unit {0} → Action (LinkWorld E) (Unit {0})
  connected _ = modify (update_link with_connection) >>= λ _. ctx.call create_channel >>= channelled

  setup_rabbit-Connected :
      (w : LinkWorld E)
      → up w
      → w.link.has_channel ≡ false
      → Post Never (λ _ w'. Connected w') (setup_rabbit ctx w)
  setup_rabbit-Connected w u closed =
      subst (λ p. Post Never (λ _ w'. Connected w') p) (sym (setup_rabbit-closed ctx w closed))
        (bind-Post Never (λ _ w'. up w') (λ _ w'. Connected w') ctx.connect connected w
          (let (e, u', same) = works.connects w u in
            Post-intro _ _ (ctx.connect w) (λ _ _. u') (λ x failed. absurd (ground arith)))
          (λ _ w1 u1.
            bind-Post Never (λ _ w'. (up w') × (w'.link.has_connection ≡ true))
              (λ _ w'. Connected w') (ctx.call create_channel) channelled
              (update_link with_connection w1)
              (call-Post create_channel (λ link. link.has_connection ≡ true)
                (update_link with_connection w1) (works.updates with_connection w1 u1) refl)
              (λ _ w2 (u2, connection).
                call_each-Connected (topology ctx.config) (update_link with_channel w2)
                  (works.updates with_channel w2 u2, (refl, connection)))))

  abbrev consuming : Action (LinkWorld E) (Unit {0})
  consuming = ctx.consume ctx.config.queue >>= λ tag.
      modify (update_link (λ link. record link { consumer_tag = some tag }))

  start_consumer-HasConsumer :
      (w : LinkWorld E)
      → Connected w
      → Post Never (λ _ w'. HasConsumer w'.link) (start_consumer ctx w)
  unfolding start_consumer
  start_consumer-HasConsumer w (u, (channel, connection)) =
      subst (λ p. Post Never (λ _ w'. HasConsumer w'.link) (((λ _. p) >>= λ _. consuming) w))
        (sym (setup_rabbit-open ctx w channel))
        (let ((tag, e), same) = works.consumes ctx.config.queue w u in
          bind-Post Never (λ _ w'. w'.link ≡ w.link) (λ _ w'. HasConsumer w'.link)
            (ctx.consume ctx.config.queue)
            (λ tag'. modify (update_link (λ link. record link { consumer_tag = some tag' }))) w
            (Post-intro _ _ (ctx.consume ctx.config.queue w) (λ _ _. same)
              (λ x failed. absurd (ground arith)))
            (λ tag' w' same'. (
              ap (λ l. l.has_channel) same' ∙ channel,
              ap (λ l. l.has_connection) same' ∙ connection,
              (tag', refl),
            )))

  reconnect-HasConsumer :
      (w : LinkWorld E)
      → up w
      → w.link.has_channel ≡ false
      → Post Never (λ _ w'. HasConsumer w'.link) (reconnect ctx w)
  unfolding reconnect
  reconnect-HasConsumer w u closed =
      bind-Post Never (λ _ w'. Connected w') (λ _ w'. HasConsumer w'.link) (setup_rabbit ctx)
        (λ _. start_consumer ctx) w (setup_rabbit-Connected w u closed)
        (λ _ w' h'. start_consumer-HasConsumer w' h')

  reconnect-refused :
      (w : LinkWorld E) (e : Exception)
      → w.link.has_channel ≡ false
      → (ctx.connect w).0 ≡ err e
      → reconnect ctx w ≡ (err e, (ctx.connect w).1)
  unfolding reconnect
  reconnect-refused w e closed refused =
      let opened : open_channel ctx w ≡ (err e, (ctx.connect w).1) = ground arith in
      ap (λ p. ((λ _. p) >>= λ _. start_consumer ctx) w) (setup_rabbit-closed ctx w closed ∙ opened)

  -- The connection is refused `k` times from the turn with number `n` on, counted from 0, and then
  -- the broker is up; neither a refused attempt nor the delay after it changes the module's variables.
  abbrev pub UpAfter : ℕ → ℕ → LinkWorld E → Type 0
  UpAfter zero n w = up w
  UpAfter (suc k) n w =
      let w1 = (ctx.connect w).1 in
      let w2 = ctx.delay (delay_before n) w1 in
      ((e : Exception) × ((ctx.connect w).0 ≡ err e))
      × (w1.link ≡ w.link)
      × (w2.link ≡ w.link)
      × UpAfter k (suc n) w2

  -- Not shutting down and without a channel, and the broker being up after `k` refused connections:
  -- the loop ends within `k + 1` turns, with a connection, a channel and a consumer.
  pub reconnect_loop-HasConsumer :
      (k n fuel : ℕ) (w : LinkWorld E)
      → w.link.shutting_down ≡ false
      → w.link.has_channel ≡ false
      → UpAfter k n w
      → k ≤ fuel
      → ((reconnect_loop ctx (suc fuel) (delay_before n) w).0 ≡ ended)
        × HasConsumer (reconnect_loop ctx (suc fuel) (delay_before n) w).1.link
  reconnect_loop-HasConsumer zero n fuel w on closed u enough =
      let h = reconnect-HasConsumer w u closed in
      elim (Result-cases (reconnect ctx w).0) [
        | inl (_, done) ↦
            let e = reconnect_loop-ok ctx fuel (delay_before n) w on closed done in
            (
              ap (λ p. p.0) e,
              subst (λ p. HasConsumer p.1.link) (sym e)
                  (Post-ok Never (λ _ w'. HasConsumer w'.link) (reconnect ctx w) tt h done),
            )
        | inr (x, failed) ↦
            absurd (Post-err Never (λ _ w'. HasConsumer w'.link) (reconnect ctx w) x h failed)
      ]
  reconnect_loop-HasConsumer (suc k) n zero w on closed later enough = absurd (omega arith)
  reconnect_loop-HasConsumer (suc k) n (suc fuel) w on closed ((e, refused), kept, kept', later)
        enough =
      let w2 = ctx.delay (delay_before n) (ctx.connect w).1 in
      let r = reconnect-refused w e closed refused in
      let turn =
        reconnect_loop-err ctx (suc fuel) (delay_before n) w e on closed (ap (λ p. p.0) r) in
      let same =
        ap
          (λ p.
            reconnect_loop ctx (suc fuel) (delay_before (suc n)) (ctx.delay (delay_before n) p.1))
          r in
      subst (λ p. (p.0 ≡ ended) × HasConsumer p.1.link) (sym (turn ∙ same))
        (reconnect_loop-HasConsumer k (suc n) fuel w2 (ap (λ l. l.shutting_down) kept' ∙ on)
          (ap (λ l. l.has_channel) kept' ∙ closed) later (omega arith))
