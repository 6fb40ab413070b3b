-- ===== src/Orders/Patch.antt =====
-- packages/api-service/src/routes/orders.routes.ts: the handler of PATCH /v1/orders/:id, after the
-- validation of its parameters.
use backend_architecture.Prelude.{
  Option, none, some, List, ◌++◌, Text, codes, text_eq, Action, pure, ◌>>=◌, try_catch,
  if◌then◌else◌,
}
use backend_architecture.Shared.Status.{
  OrderStatus, status_eq, is_allowed_order_status_transition, order_status_transitions,
}
use backend_architecture.Cache.Invalidate.{invalidate_list_namespace, invalidate_entity}
use backend_architecture.Orders.Tables.{
  OrderRow, OrderEvent, insert_order_event, select_order, update_status,
}
use backend_architecture.Orders.Create.{
  OrderContext, fresh_uuid, read, abandon, finally_release, orders_list,
}

pub data PatchReply : Type 0 where
  -- status 404
  not_found : PatchReply
  -- status 422, with the statuses that would be allowed
  invalid_transition : OrderStatus → OrderStatus → List OrderStatus → PatchReply
  -- status 200; `none` is an order that the statement did not return
  patched : Option OrderRow → PatchReply

abbrev pub order_entity_key : Text → Text
order_entity_key id = codes "order:" ++ id

abbrev pub changed_event : Text → Text → OrderStatus → OrderStatus → Text → OrderEvent
changed_event id order_id from to user_id = record {
  id = id;
  order_id = order_id;
  from_status = some from;
  to_status = to;
  actor_user_id = user_id;
}

module _ {W : Type 0} (ctx : OrderContext W) where
  -- The two writes of a change.
  unfoldable pub change_status :
      Text → Text → OrderStatus → OrderStatus → Action W (Option OrderRow)
  change_status user_id id from to = read ctx ctx.database_now >>= λ now.
      ctx.client.execute (update_status id to now) >>= λ order. fresh_uuid ctx >>= λ audit_id.
      ctx.client.execute (insert_order_event (changed_event audit_id id from to user_id)) >>= λ _.
      pure order

  unfoldable pub invalidate_order : Text → Action W (Unit {0})
  invalidate_order id = invalidate_entity ctx.cache (order_entity_key id) (codes "order") >>= λ _.
      invalidate_list_namespace ctx.cache orders_list

  unfoldable pub apply_patch : Text → Text → OrderStatus → OrderRow → Action W PatchReply
  apply_patch user_id id target current =
      if is_allowed_order_status_transition current.status target
      then (if status_eq current.status target
          then (ctx.client.execute (select_order id) >>= λ order.
              ctx.client.commit >>= λ _. pure (patched order))
          else (change_status user_id id current.status target >>= λ order.
              ctx.client.commit >>= λ _. invalidate_order id >>= λ _. pure (patched order)))
      else (ctx.client.rollback >>= λ _.
          pure (invalid_transition current.status target (order_status_transitions current.status)))

  unfoldable pub patch_found : Text → Text → OrderStatus → Option OrderRow → Action W PatchReply
  patch_found user_id id target none = ctx.client.rollback >>= λ _. pure not_found
  patch_found user_id id target (some current) =
      if text_eq current.user_id user_id
      then apply_patch user_id id target current
      else (ctx.client.rollback >>= λ _. pure not_found)

  -- The `try` block with its `catch`.
  unfoldable pub patch_in_transaction : Text → Text → OrderStatus → Action W PatchReply
  patch_in_transaction user_id id target =
      try_catch
        (ctx.client.begin >>= λ _.
          ctx.client.execute (select_order id) >>= λ current. patch_found user_id id target current)
        (abandon ctx)

  unfoldable pub patch_order : Text → Text → OrderStatus → Action W PatchReply
  patch_order user_id id target =
      ctx.connect >>= λ _. finally_release ctx (patch_in_transaction user_id id target)
