-- ===== src/Orders/Atomic.antt =====
-- packages/api-service/src/routes/orders.routes.ts: an order, its first event and its outbox event are
-- committed together or not at all.
use mathlib.Core.Path.{subst}
use backend_architecture.Prelude.{
  ◌≡◌, sym, ◌∙◌, ap, ◌⊎◌, inl, inr, Text, Exception, Result, ok, err, Action, arith, Result-cases,
  ◌>>=◌, pure, try_catch,
}
use backend_architecture.Services.Postgres.{IsClient}
use backend_architecture.Cache.Invalidate.{invalidate_list_namespace}
use backend_architecture.Orders.Tables.{OrderRow, Tables, total_cents}
use backend_architecture.Orders.Create.{
  OrderContext, CreateOrder, outbox_event, orders_list, insert_all, create_in_transaction,
  create_order_transactionally, abandon, read, fresh_uuid, finally_release,
}
use backend_architecture.Orders.Quiet.{LeavesTables, invalidate-committed, invalidate-ok}
use backend_architecture.Orders.Audit.{IsAudited, insertions-IsAudited}
use backend_architecture.Orders.Placed.{Placed, insert, insert-committed, insert-Placed}

module _ {W : Type 0} (ctx : OrderContext W) (committed working : W → Tables)
    (laws : IsClient ctx.client committed working) (quiet : LeavesTables ctx committed working)
    (user_id correlation_id : Text) (order : CreateOrder) where
  -- What the handler leaves: the order placed, or the tables as they were.
  abbrev pub Outcome : Tables → Result OrderRow × W → Type 0
  Outcome t (ok row, w) = Placed user_id correlation_id order row t (committed w)
  Outcome t (err e, w) =
      (committed w ≡ t)
      ⊎ ((row : OrderRow) × Placed user_id correlation_id order row t (committed w))

  abandon-committed :
      (e : Exception) (w : W) → committed (abandon ctx {A = OrderRow} e w).1 ≡ committed w
  abandon-committed e w = let k = laws.rollback_keeps w in ground arith

  abandon-fails : (e : Exception) (w : W) → (abandon ctx {A = OrderRow} e w).0 ≡ err e
  abandon-fails e w = elim (Result-cases (ctx.client.rollback w).0) [
    | inl (_, done) ↦ ground arith
    | inr (x, failed) ↦ ground arith
  ]

  module _ (order_id event_id occurred_at : Text) where
    attempt : Action W OrderRow
    attempt = create_in_transaction ctx user_id order order_id event_id occurred_at correlation_id

    -- The statements from the start of the transaction to its commit.
    placing : Action W OrderRow
    placing = ctx.client.begin >>= λ _. read ctx ctx.database_now >>= λ now.
        fresh_uuid ctx >>= λ audit_id.
        insert_all ctx user_id order order_id event_id audit_id occurred_at correlation_id now

    placing-committed : (w : W) → committed (placing w).1 ≡ committed w
    unfolding placing insert
    placing-committed w =
        let w1 = (ctx.client.begin w).1 in
        let now = ctx.database_now w1 in
        let audit_id = (ctx.random_uuid w1).0 in
        let w2 = (ctx.random_uuid w1).1 in
        let kept = quiet.uuid_committed w1 in
        let inserted =
          insert-committed ctx committed working laws quiet user_id correlation_id order order_id
            event_id audit_id occurred_at now w2 in
        elim (Result-cases (ctx.client.begin w).0) [
          | inl (_, begun) ↦
              let same : placing w
                  ≡ insert ctx committed working laws quiet user_id correlation_id order order_id
                      event_id audit_id occurred_at now w2 =
                ground arith in
              ap (λ r. committed r.1) same ∙ inserted ∙ kept ∙ (laws.begin_ok w begun).1
          | inr (x, failed) ↦ let start = laws.begin_err w x failed in ground arith
        ]

    placing-Placed :
        (w : W) (row : OrderRow)
        → (placing w).0 ≡ ok row
        → Placed user_id correlation_id order row (committed w) (working (placing w).1)
    unfolding placing insert
    placing-Placed w row done =
        let w1 = (ctx.client.begin w).1 in
        let now = ctx.database_now w1 in
        let audit_id = (ctx.random_uuid w1).0 in
        let w2 = (ctx.random_uuid w1).1 in
        elim (Result-cases (ctx.client.begin w).0) [
          | inl (_, begun) ↦
              let same : placing w
                  ≡ insert ctx committed working laws quiet user_id correlation_id order order_id
                      event_id audit_id occurred_at now w2 =
                ground arith in
              let placed =
                insert-Placed ctx committed working laws quiet user_id correlation_id order order_id
                  event_id audit_id occurred_at now w2 row (ap (λ p. p.0) (sym same) ∙ done) in
              let start : working w2 ≡ committed w =
                quiet.uuid_working w1 ∙ (laws.begin_ok w begun).0 in
              subst
                (λ (r : Result OrderRow × W).
                  Placed user_id correlation_id order row (committed w) (working r.1))
                (sym same)
                (subst
                  (λ (t : Tables). Placed user_id correlation_id order row t (
                    working
                      (insert ctx committed working laws quiet user_id correlation_id order order_id
                        event_id audit_id occurred_at now w2).1))
                  start placed)
          | inr (x, failed) ↦ absurd (ground arith)
        ]

    -- What follows the insertions.
    finishing : OrderRow → Action W OrderRow
    finishing row =
        ctx.client.commit >>= λ _. invalidate_list_namespace ctx.cache orders_list >>= λ _. pure row

    attempt-eq : (w : W) → attempt w ≡ try_catch (placing >>= finishing) (abandon ctx) w
    unfolding attempt placing finishing create_in_transaction
    attempt-eq w = elim (Result-cases (ctx.client.begin w).0) [
      | inl (_, begun) ↦ ground arith
      | inr (x, failed) ↦ ground arith
    ]

    rescued :
        (e : Exception) (t : Tables) (w : W)
        → (committed w ≡ t)
          ⊎ ((row : OrderRow) × Placed user_id correlation_id order row t (committed w))
        → Outcome t (abandon ctx e w)
    rescued e t w h =
        let r = abandon ctx {A = OrderRow} e w in
        let same : (err e, r.1) ≡ r = ap (λ x. (x, r.1)) (sym (abandon-fails e w)) in
        let kept : committed w ≡ committed r.1 = sym (abandon-committed e w) in
        subst (Outcome t) same (
          subst
            (λ (c : Tables).
              (c ≡ t) ⊎ ((row : OrderRow) × Placed user_id correlation_id order row t c))
            kept h)

    finishing-Outcome :
        (row : OrderRow) (t : Tables) (w : W)
        → committed w ≡ t
        → Placed user_id correlation_id order row t (working w)
        → Outcome t (try_catch (finishing row) (abandon ctx) w)
    unfolding finishing
    finishing-Outcome row t w kept placed =
        let w1 = (ctx.client.commit w).1 in
        let w2 = (invalidate_list_namespace ctx.cache orders_list w1).1 in
        let warm = invalidate-ok ctx committed working quiet orders_list w1 in
        elim (Result-cases (ctx.client.commit w).0) [
          | inl (_, done) ↦
              let same : (ok row, w2) ≡ try_catch (finishing row) (abandon ctx) w = ground arith in
              let published = sym (
                invalidate-committed ctx committed working quiet orders_list w1
                ∙ laws.commit_ok w done) in
              subst (Outcome t) same
                (subst (Placed user_id correlation_id order row t) published placed)
          | inr (x, failed) ↦
              let same : abandon ctx x w1 ≡ try_catch (finishing row) (abandon ctx) w =
                ground arith in
              subst (Outcome t) same (
                rescued x t w1 (elim (laws.commit_err w x failed) [
                  | inl lost ↦ inl (lost ∙ kept)
                  | inr published ↦ inr (
                    row,
                    subst (Placed user_id correlation_id order row t) (sym published) placed,
                  )
                ]))
        ]

    attempt-Outcome : (w : W) → Outcome (committed w) (attempt w)
    attempt-Outcome w =
        let w1 = (placing w).1 in
        subst (Outcome (committed w)) (sym (attempt-eq w)) (elim (Result-cases (placing w).0) [
          | inl (row, done) ↦
              let same : try_catch (finishing row) (abandon ctx) w1
                  ≡ try_catch (placing >>= finishing) (abandon ctx) w =
                ground arith in
              subst (Outcome (committed w)) same (
                finishing-Outcome row (committed w) w1 (placing-committed w)
                  (placing-Placed w row done))
          | inr (x, failed) ↦
              let same : abandon ctx x w1 ≡ try_catch (placing >>= finishing) (abandon ctx) w =
                ground arith in
              subst (Outcome (committed w)) same
                (rescued x (committed w) w1 (inl (placing-committed w)))
        ])

  released : (t : Tables) (p : Result OrderRow × W) → Outcome t p → Outcome t (p.0, ctx.release p.1)
  released t (ok row, w) h =
      subst (Placed user_id correlation_id order row t) (sym (quiet.release_committed w)) h
  released t (err e, w) h =
      subst
        (λ (c : Tables). (c ≡ t) ⊎ ((row : OrderRow) × Placed user_id correlation_id order row t c))
        (sym (quiet.release_committed w)) h

  -- Whatever fails and whenever: if the handler returns a row, the committed tables are the ones before
  -- it with the order placed, its first event and its outbox event among them. If it throws, they are
  -- the ones before it, or the ones with the whole order placed (where the answer to COMMIT is lost).
  pub create_order_transactionally-Outcome :
      (w : W)
      → Outcome (committed w) (create_order_transactionally ctx user_id correlation_id order w)
  unfolding create_order_transactionally attempt
  create_order_transactionally-Outcome w =
      let (order_id, w1) = ctx.random_uuid w in
      let (event_id, w2) = ctx.random_uuid w1 in
      let occurred_at = ctx.iso_date w2 in
      let w3 = (ctx.connect w2).1 in
      let kept : committed w3 ≡ committed w =
        quiet.connect_committed w2 ∙ quiet.uuid_committed w1 ∙ quiet.uuid_committed w in
      elim (Result-cases (ctx.connect w2).0) [
        | inl (_, connected) ↦
            let m =
              create_in_transaction ctx user_id order order_id event_id occurred_at
                correlation_id in
            let same : finally_release ctx m w3
                ≡ create_order_transactionally ctx user_id correlation_id order w =
              ground arith in
            subst (Outcome (committed w)) same (
              released (committed w) (m w3) (
                subst (λ (t : Tables). Outcome t (m w3)) kept
                  (attempt-Outcome order_id event_id occurred_at w3)))
        | inr (x, failed) ↦
            let same : (err x, w3)
                ≡ create_order_transactionally ctx user_id correlation_id order w =
              ground arith in
            subst (Outcome (committed w)) same (inl kept)
      ]

  Placed-IsAudited :
      (row : OrderRow) (t t' : Tables)
      → Placed user_id correlation_id order row t t'
      → IsAudited t
      → IsAudited t'
  Placed-IsAudited row t t' p h =
      insertions-IsAudited p.order_id user_id order.customer_email p.audit_id order.items
        (total_cents order.items) p.now
        (outbox_event p.event_id p.order_id p.occurred_at correlation_id) t p.after_order
        p.after_event t' row p.order_inserted p.event_inserted p.outbox_inserted h

  Outcome-IsAudited :
      (t : Tables) (p : Result OrderRow × W) → Outcome t p → IsAudited t → IsAudited (committed p.1)
  Outcome-IsAudited t (ok row, w) placed h = Placed-IsAudited row t (committed w) placed h
  Outcome-IsAudited t (err e, w) (inl same) h = rw same h
  Outcome-IsAudited t (err e, w) (inr (row, placed)) h =
      Placed-IsAudited row t (committed w) placed h

  -- On committed tables where every order's trail of events ends in its status, each step of it allowed,
  -- and every event is about an order that is there, the handler leaves such tables, whatever it returns
  -- or throws.
  pub create_order_transactionally-IsAudited :
      (w : W)
      → IsAudited (committed w)
      → IsAudited (committed (create_order_transactionally ctx user_id correlation_id order w).1)
  create_order_transactionally-IsAudited w h =
      Outcome-IsAudited (committed w)
        (create_order_transactionally ctx user_id correlation_id order w)
        (create_order_transactionally-Outcome w) h
