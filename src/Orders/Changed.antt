-- ===== src/Orders/Changed.antt =====
-- packages/api-service/src/routes/orders.routes.ts: what PATCH /v1/orders/:id leaves in the tables.
use backend_architecture.Prelude.{
  ◌≡◌, sym, ◌∙◌, inl, inr, true, false, Option, none, some, Text, codes, text_eq, Exception, Result,
  ok, err, pure, ◌>>=◌, try_catch, arith, Result-cases, Bool-cases, after_bind, after_try, throw,
}
use backend_architecture.Services.Postgres.{IsClient}
use backend_architecture.Shared.Status.{OrderStatus, status_eq, is_allowed_order_status_transition}
use backend_architecture.Cache.Invalidate.{invalidate_entity, invalidate_list_namespace}
use backend_architecture.Orders.Tables.{
  OrderRow, Tables, find_order, select_order, update_status, insert_order_event,
}
use backend_architecture.Orders.Create.{OrderContext, orders_list, abandon, finally_release}
use backend_architecture.Orders.Patch.{
  PatchReply, order_entity_key, changed_event, change_status, invalidate_order, apply_patch,
  patch_found, patched, patch_in_transaction, patch_order,
}
use backend_architecture.Orders.Audit.{IsAudited, change-statements-IsAudited}
use backend_architecture.Orders.Quiet.{LeavesTables, invalidate-committed, delete-committed}

module _ {W : Type 0} (ctx : OrderContext W) (committed working : W → Tables)
    (laws : IsClient ctx.client committed working)
    (quiet : LeavesTables ctx committed working) where
  -- The committed tables are audited.
  Safe : W → Type 0
  Safe w = IsAudited (committed w)

  Safe-of_eq : (w w' : W) → committed w' ≡ committed w → Safe w → Safe w'
  unfolding Safe
  Safe-of_eq w w' e h = rw e h

  commit-Safe : (w : W) → Safe w → IsAudited (working w) → Safe (ctx.client.commit w).1
  unfolding Safe
  commit-Safe w h k = elim (Result-cases (ctx.client.commit w).0) [
    | inl (_, done) ↦ rw (laws.commit_ok w done) k
    | inr (x, failed) ↦ elim (laws.commit_err w x failed) [ inl e ↦ rw e h | inr e ↦ rw e k ]
  ]

  invalidate-Safe : (id : Text) (w : W) → Safe w → Safe (invalidate_order ctx id w).1
  unfolding invalidate_order
  invalidate-Safe id w h =
      let w1 = (invalidate_entity ctx.cache (order_entity_key id) (codes "order") w).1 in
      let h1 =
        Safe-of_eq w w1
          (delete-committed ctx committed working quiet (order_entity_key id) (codes "order") w)
          h in
      after_bind Safe (invalidate_entity ctx.cache (order_entity_key id) (codes "order"))
        (λ _. invalidate_list_namespace ctx.cache orders_list) w (λ e failed. h1)
        (λ a done.
          Safe-of_eq w1 (invalidate_list_namespace ctx.cache orders_list w1).1
            (invalidate-committed ctx committed working quiet orders_list w1) h1)

  execute_committed :
      {A : Type 0} (q : Tables → Result (A × Tables)) (w : W)
      → Safe w
      → Safe (ctx.client.execute q w).1
  execute_committed q w h = Safe-of_eq w (ctx.client.execute q w).1 (laws.execute_keeps q w) h

  rollback-Safe : (w : W) → Safe w → Safe (ctx.client.rollback w).1
  rollback-Safe w h = Safe-of_eq w (ctx.client.rollback w).1 (laws.rollback_keeps w) h

  -- A refusal: the transaction is rolled back.
  refusal-Safe :
      (reply : PatchReply) (w : W) → Safe w → Safe ((ctx.client.rollback >>= λ _. pure reply) w).1
  refusal-Safe reply w h =
      after_bind Safe ctx.client.rollback (λ _. pure reply) w (λ e x. rollback-Safe w h)
        (λ a x. rollback-Safe w h)

  -- An answer after the commit.
  answer-Safe :
      (reply : PatchReply) (w : W)
      → Safe w
      → IsAudited (working w)
      → Safe ((ctx.client.commit >>= λ _. pure reply) w).1
  answer-Safe reply w h k =
      after_bind Safe ctx.client.commit (λ _. pure reply) w (λ e x. commit-Safe w h k)
        (λ a x. commit-Safe w h k)

  -- An answer after the commit and the invalidation.
  changed-Safe :
      (id : Text) (reply : PatchReply) (w : W)
      → Safe w
      → IsAudited (working w)
      → Safe ((ctx.client.commit >>= λ _. invalidate_order ctx id >>= λ _. pure reply) w).1
  changed-Safe id reply w h k =
      let w1 = (ctx.client.commit w).1 in
      let c = commit-Safe w h k in
      after_bind Safe ctx.client.commit (λ _. invalidate_order ctx id >>= λ _. pure reply) w
        (λ e x. c)
        (λ a x.
          after_bind Safe (invalidate_order ctx id) (λ _. pure reply) w1
            (λ e y. invalidate-Safe id w1 c) (λ b y. invalidate-Safe id w1 c))

  module _ (user_id id : Text) (target : OrderStatus) where
    noted : OrderStatus → Text → Tables → Result (Unit {0} × Tables)
    noted from audit_id = insert_order_event (changed_event audit_id id from target user_id)

    -- The world after a change of status: still audited, and ready to be committed if all went well.
    change-Safe :
        (current : OrderRow) (w : W)
        → find_order id (working w).orders ≡ some current
        → is_allowed_order_status_transition current.status target ≡ true
        → status_eq current.status target ≡ false
        → Safe w
        → IsAudited (working w)
        → Safe (change_status ctx user_id id current.status target w).1
          × ((order : Option OrderRow)
              → (change_status ctx user_id id current.status target w).0 ≡ ok order
              → IsAudited (working (change_status ctx user_id id current.status target w).1))
    unfolding change_status Safe
    change-Safe current w found allowed other h k =
        let now = ctx.database_now w in
        let q1 = update_status id target now in
        let w1 = (ctx.client.execute q1 w).1 in
        let audit_id = (ctx.random_uuid w1).0 in
        let w2 = (ctx.random_uuid w1).1 in
        let q2 = insert_order_event (changed_event audit_id id current.status target user_id) in
        let w3 = (ctx.client.execute q2 w2).1 in
        let c1 : committed w1 ≡ committed w = laws.execute_keeps q1 w in
        let c2 : committed w2 ≡ committed w = quiet.uuid_committed w1 ∙ c1 in
        let c3 : committed w3 ≡ committed w = laws.execute_keeps q2 w2 ∙ c2 in
        elim (Result-cases (ctx.client.execute q1 w).0) [
          | inr (x, failed) ↦
              let e : change_status ctx user_id id current.status target w ≡ (err x, w1) =
                ground arith in
              rw e (rw c1 h, λ order done. absurd (ground arith))
          | inl (order, updated) ↦ elim (Result-cases (ctx.client.execute q2 w2).0) [
            | inr (x, failed) ↦
                let e : change_status ctx user_id id current.status target w ≡ (err x, w3) =
                  ground arith in
                rw e (rw c3 h, λ order done. absurd (ground arith))
            | inl (_, inserted) ↦
                let e : change_status ctx user_id id current.status target w ≡ (ok order, w3) =
                  ground arith in
                let s1 = laws.execute_ok q1 w order updated in
                let s2 : q2 (working w1) ≡ ok (tt, working w3) =
                  rw (sym (quiet.uuid_working w1)) (laws.execute_ok q2 w2 tt inserted) in
                let good =
                  change-statements-IsAudited user_id id audit_id target now (working w)
                    (working w1) (working w3) current order found allowed other s1 s2 k in
                rw e (rw c3 h, λ order done. good)
          ]
        ]

    selected :
        (order : Option OrderRow) (w : W)
        → (ctx.client.execute (select_order id) w).0 ≡ ok order
        → IsAudited (working w)
        → IsAudited (working (ctx.client.execute (select_order id) w).1)
    unfolding select_order
    selected order w done k =
        let s = laws.execute_ok (select_order id) w order done in
        let same : working (ctx.client.execute (select_order id) w).1 ≡ working w = ground arith in
        rw same k

    apply_patch-Safe :
        (current : OrderRow) (w : W)
        → find_order id (working w).orders ≡ some current
        → Safe w
        → IsAudited (working w)
        → Safe (apply_patch ctx user_id id target current w).1
    unfolding apply_patch
    apply_patch-Safe current w found h k =
        elim (Bool-cases (is_allowed_order_status_transition current.status target)) [
          | inr refused ↦ rw refused (refusal-Safe _ w h)
          | inl allowed ↦ elim (Bool-cases (status_eq current.status target)) [
            | inl same ↦
                rw (allowed, same)
                  (after_bind Safe (ctx.client.execute (select_order id))
                    (λ order. ctx.client.commit >>= λ _. pure (patched order)) w
                    (λ e x. execute_committed (select_order id) w h)
                    (λ order x.
                      answer-Safe (patched order) (ctx.client.execute (select_order id) w).1
                        (execute_committed (select_order id) w h) (selected order w x k)))
            | inr other ↦
                let c = change-Safe current w found allowed other h k in
                rw (allowed, other)
                  (after_bind Safe (change_status ctx user_id id current.status target)
                    (λ order. ctx.client.commit >>= λ _.
                      invalidate_order ctx id >>= λ _. pure (patched order))
                    w (λ e x. c.0)
                    (λ order x.
                      changed-Safe id (patched order)
                        (change_status ctx user_id id current.status target w).1 c.0 (c.1 order x)))
          ]
        ]

    found_row :
        (order : Option OrderRow) (w : W)
        → (ctx.client.execute (select_order id) w).0 ≡ ok order
        → find_order id (working (ctx.client.execute (select_order id) w).1).orders ≡ order
    unfolding select_order
    found_row order w done = let s = laws.execute_ok (select_order id) w order done in ground arith

    patch_found-Safe :
        (found : Option OrderRow) (w : W)
        → find_order id (working w).orders ≡ found
        → Safe w
        → IsAudited (working w)
        → Safe (patch_found ctx user_id id target found w).1
    unfolding patch_found
    patch_found-Safe none w there h k = refusal-Safe _ w h
    patch_found-Safe (some current) w there h k =
        elim (Bool-cases (text_eq current.user_id user_id)) [
          | inl mine ↦ rw mine (apply_patch-Safe current w there h k)
          | inr other ↦ rw other (refusal-Safe _ w h)
        ]

    abandon-Safe : (e : Exception) (w : W) → Safe w → Safe (abandon ctx {A = PatchReply} e w).1
    abandon-Safe e w h =
        let r = rollback-Safe w h in
        let k = after_try Safe ctx.client.rollback (λ _. pure tt) w r (λ e x. r) in
        after_bind Safe (try_catch ctx.client.rollback (λ _. pure tt))
          (λ _. throw {A = PatchReply} e) w (λ e x. k) (λ a x. k)

    patch_in_transaction-Safe :
        (w : W) → Safe w → Safe (patch_in_transaction ctx user_id id target w).1
    unfolding patch_in_transaction Safe
    patch_in_transaction-Safe w h =
        let w1 = (ctx.client.begin w).1 in
        let w2 = (ctx.client.execute (select_order id) w1).1 in
        after_try Safe
          (ctx.client.begin >>= λ _. ctx.client.execute (select_order id) >>= λ current.
            patch_found ctx user_id id target current)
          (abandon ctx) w
          (after_bind Safe ctx.client.begin
            (λ _. ctx.client.execute (select_order id) >>= λ current.
              patch_found ctx user_id id target current)
            w (λ e x. Safe-of_eq w w1 (laws.begin_err w e x) h)
            (λ a x.
              let start = laws.begin_ok w x in
              let h1 = Safe-of_eq w w1 start.1 h in
              let h2 = execute_committed (select_order id) w1 h1 in
              let k1 : IsAudited (working w1) = rw start.0 h in
              after_bind Safe (ctx.client.execute (select_order id))
                (λ current. patch_found ctx user_id id target current) w1 (λ e y. h2)
                (λ current y.
                  patch_found-Safe current w2 (found_row current w1 y) h2
                    (selected current w1 y k1))))
          (λ e g. abandon-Safe e _ g)

    -- On committed tables where every order's trail of events ends in its status, each step of it
    -- allowed, and every event is about an order that is there, the handler of PATCH leaves such tables,
    -- whatever it answers or throws.
    pub patch_order-IsAudited :
        (w : W)
        → IsAudited (committed w)
        → IsAudited (committed (patch_order ctx user_id id target w).1)
    unfolding patch_order Safe
    patch_order-IsAudited w h =
        let w1 = (ctx.connect w).1 in
        let h1 = Safe-of_eq w w1 (quiet.connect_committed w) h in
        let w2 = (patch_in_transaction ctx user_id id target w1).1 in
        after_bind Safe ctx.connect
          (λ _. finally_release ctx (patch_in_transaction ctx user_id id target)) w (λ e x. h1)
          (λ a x.
            Safe-of_eq w2 (ctx.release w2) (quiet.release_committed w2)
              (patch_in_transaction-Safe w1 h1))
