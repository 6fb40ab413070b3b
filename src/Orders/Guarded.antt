-- ===== src/Orders/Guarded.antt =====
-- packages/api-service/src/routes/orders.routes.ts: a change that PATCH /v1/orders/:id must not make.
use backend_architecture.Prelude.{
  ◌≡◌, sym, ◌∙◌, ap, inl, inr, true, Option, none, some, Text, text_eq, text_eq_iff, Exception, ok,
  pure, throw, ◌>>=◌, try_catch, arith, Bool-cases, after_bind, after_try,
}
use backend_architecture.Services.Postgres.{IsClient}
use backend_architecture.Shared.Status.{OrderStatus, is_allowed_order_status_transition}
use backend_architecture.Orders.Tables.{OrderRow, Tables, find_order, select_order}
use backend_architecture.Orders.Create.{OrderContext, abandon, finally_release}
use backend_architecture.Orders.Patch.{
  PatchReply, apply_patch, patch_found, patch_in_transaction, patch_order,
}
use backend_architecture.Orders.Quiet.{LeavesTables}

-- The user owns the order, and the table of transitions allows the change.
abbrev pub MayChange : Text → Text → OrderStatus → Tables → Type 0
MayChange user_id id target t =
    (o : OrderRow) × (find_order id t.orders ≡ some o)
    × (o.user_id ≡ user_id)
    × (is_allowed_order_status_transition o.status target ≡ true)

module _ {W : Type 0} (ctx : OrderContext W) (committed working : W → Tables)
    (laws : IsClient ctx.client committed working) (quiet : LeavesTables ctx committed working)
    (user_id id : Text) (target : OrderStatus) (t : Tables) where
  Same : W → Type 0
  Same w = committed w ≡ t

  rollback-Same : (w : W) → Same w → Same (ctx.client.rollback w).1
  unfolding Same
  rollback-Same w h = laws.rollback_keeps w ∙ h

  refusal-Same :
      (reply : PatchReply) (w : W) → Same w → Same ((ctx.client.rollback >>= λ _. pure reply) w).1
  refusal-Same reply w h =
      after_bind Same ctx.client.rollback (λ _. pure reply) w (λ e x. rollback-Same w h)
        (λ a x. rollback-Same w h)

  patch_found-Same :
      (found : Option OrderRow) (w : W)
      → find_order id t.orders ≡ found
      → (MayChange user_id id target t → ⊥)
      → Same w
      → Same (patch_found ctx user_id id target found w).1
  unfolding patch_found apply_patch
  patch_found-Same none w there refused h = refusal-Same _ w h
  patch_found-Same (some current) w there refused h =
      elim (Bool-cases (text_eq current.user_id user_id)) [
        | inl mine ↦ elim (Bool-cases (is_allowed_order_status_transition current.status target)) [
          | inl allowed ↦
              absurd
                (refused (current, there, (text_eq_iff current.user_id user_id).0 mine, allowed))
          | inr other ↦ rw (mine, other) (refusal-Same _ w h)
        ]
        | inr other ↦ rw other (refusal-Same _ w h)
      ]

  abandon-Same : (e : Exception) (w : W) → Same w → Same (abandon ctx {A = PatchReply} e w).1
  abandon-Same e w h =
      let r = rollback-Same w h in
      let k = after_try Same ctx.client.rollback (λ _. pure tt) w r (λ e x. r) in
      after_bind Same (try_catch ctx.client.rollback (λ _. pure tt)) (λ _. throw {A = PatchReply} e)
        w (λ e x. k) (λ a x. k)

  selected-eq :
      (order : Option OrderRow) (w : W)
      → (ctx.client.execute (select_order id) w).0 ≡ ok order
      → find_order id (working w).orders ≡ order
  unfolding select_order
  selected-eq order w done = let s = laws.execute_ok (select_order id) w order done in ground arith

  patch_in_transaction-Same :
      (w : W)
      → (MayChange user_id id target t → ⊥)
      → Same w
      → Same (patch_in_transaction ctx user_id id target w).1
  unfolding patch_in_transaction Same
  patch_in_transaction-Same w refused h =
      let w1 = (ctx.client.begin w).1 in
      let w2 = (ctx.client.execute (select_order id) w1).1 in
      after_try Same
        (ctx.client.begin >>= λ _. ctx.client.execute (select_order id) >>= λ current.
          patch_found ctx user_id id target current)
        (abandon ctx) w
        (after_bind Same ctx.client.begin
          (λ _. ctx.client.execute (select_order id) >>= λ current.
            patch_found ctx user_id id target current)
          w (λ e x. laws.begin_err w e x ∙ h)
          (λ a x.
            let start = laws.begin_ok w x in
            let h2 = laws.execute_keeps (select_order id) w1 ∙ start.1 ∙ h in
            let view : working w1 ≡ t = start.0 ∙ h in
            after_bind Same (ctx.client.execute (select_order id))
              (λ current. patch_found ctx user_id id target current) w1 (λ e y. h2)
              (λ current y.
                patch_found-Same current w2
                  (ap (λ v. find_order id v.orders) (sym view) ∙ selected-eq current w1 y) refused
                  h2)))
        (λ e g. abandon-Same e _ g)

  -- If the user does not own the order, or it is not there, or its change is not allowed, then the
  -- handler of PATCH leaves the committed tables as they were, whatever it answers or throws.
  pub patch_order-guarded :
      (w : W)
      → (MayChange user_id id target t → ⊥)
      → committed w ≡ t
      → committed (patch_order ctx user_id id target w).1 ≡ t
  unfolding patch_order Same
  patch_order-guarded w refused h =
      let w1 = (ctx.connect w).1 in
      let h1 : Same w1 = quiet.connect_committed w ∙ h in
      let w2 = (patch_in_transaction ctx user_id id target w1).1 in
      after_bind Same ctx.connect
        (λ _. finally_release ctx (patch_in_transaction ctx user_id id target)) w (λ e x. h1)
        (λ a x. quiet.release_committed w2 ∙ patch_in_transaction-Same w1 refused h1)
