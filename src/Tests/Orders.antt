-- ===== src/Tests/Orders.antt =====
-- The theorems on orders, each at one input.
use backend_architecture.Prelude.{
  ℕ, ◌+◌, ◌≡◌, refl, inl, inr, [], ◌∷◌, codes, true, Result, ok, err, pure, arith, List, map,
  Result-cases, ◌<◌, Exception,
}
use backend_architecture.Prelude.Decimal.{decimal}
use backend_architecture.Services.Postgres.{Client, IsClient}
use backend_architecture.Services.Memory.{Store, memory}
use backend_architecture.Cache.Primitives.{cache_delete, with_timeout, cache_bump_namespace_version}
use backend_architecture.Orders.Tables.{
  OrderItem, OrderRow, Tables, select_order, update_status, insert_order_event, max_integer,
  total_cents,
}
use backend_architecture.Orders.Create.{
  OrderContext, created_event, CreateOrder, create_order_transactionally,
}
use backend_architecture.Orders.Quiet.{LeavesTables}
use backend_architecture.Orders.Atomic.{
  Outcome, create_order_transactionally-Outcome, create_order_transactionally-IsAudited,
}
use backend_architecture.Orders.Audit.{IsAudited}
use backend_architecture.Shared.Status.{pending, confirmed, is_allowed_order_status_transition}
use backend_architecture.Orders.Patch.{
  patch_order, patch_in_transaction, patch_found, apply_patch, change_status, invalidate_order,
}
use backend_architecture.Cache.Invalidate.{invalidate_entity, invalidate_list_namespace}
use backend_architecture.Orders.Changed.{patch_order-IsAudited}
use backend_architecture.Orders.Guarded.{MayChange, patch_order-guarded}
use backend_architecture.Orders.Total.{items_schema, order_item_schema}
use backend_architecture.Orders.Overflow.{create_order_transactionally-out_of_range}
use backend_architecture.Services.Redis.{Redis}
use backend_architecture.Tests.Databases.{pool_of}
use backend_architecture.Tests.Fixtures.{config, empty}

-- Tables in memory with one transaction at a time, and as many identifiers as are asked for.
pub record Session : Type 0 where
  pub committed : Tables
  pub working : Tables
  pub store : Store
  pub identifiers : ℕ

abbrev settle : {A : Type 0} → Result (A × Tables) → Session → Result A × Session
settle (ok (a, t)) w = (ok a, record w { working = t })
settle (err e) w = (err e, w)

abbrev client : Client Session Tables
client = record {
  begin = λ w. (ok tt, record w { working = w.committed });
  execute = λ q w. settle (q w.working) w;
  commit = λ w. (ok tt, record w { committed = w.working });
  rollback = λ w. (ok tt, record w { working = w.committed });
}

client-IsClient : IsClient client (λ w. w.committed) (λ w. w.working)
client-IsClient = record {
  begin_ok = λ w h. (refl, refl);
  begin_err = λ w e h. refl;
  execute_ok = λ q w a h. elim (Result-cases (q w.working)) [
    | inl ((b, t), e) ↦ ground arith
    | inr (x, e) ↦ ground arith
  ];
  execute_err = λ q w e h. elim (Result-cases (q w.working)) [
    | inl ((b, t), done) ↦ absurd (ground arith)
    | inr (x, failed) ↦ inl (ground arith)
  ];
  execute_keeps = λ q w. elim (Result-cases (q w.working)) [
    | inl ((b, t), e) ↦ ground arith
    | inr (x, e) ↦ ground arith
  ];
  commit_ok = λ w h. refl;
  commit_err = λ w e h. cc;
  rollback_keeps = λ w. refl;
}

abbrev pub lift : {A : Type 0} → (Store → A × Store) → Session → A × Session
lift f w = let (a, s) = f w.store in (a, record w { store = s })

abbrev pub session_redis : Redis Session
session_redis = record {
  get = λ k. lift (memory.get k);
  set_ex = λ k v n. lift (memory.set_ex k v n);
  set_ex_nx = λ k v n. lift (memory.set_ex_nx k v n);
  del = λ k. lift (memory.del k);
  incr = λ k. lift (memory.incr k);
  expire = λ k n. lift (memory.expire k n);
  ttl = λ k. lift (memory.ttl k);
}

abbrev pub orders : OrderContext Session
orders = record {
  cache = record {
    config = config;
    redis = session_redis;
    warn_once_per_minute = λ key message error w. w;
  };
  pool = pool_of (λ w. w.committed) (λ t w. record w { committed = t });
  connect = pure tt;
  client = client;
  release = λ w. w;
  random_uuid = λ w. (decimal w.identifiers, record w { identifiers = w.identifiers + 1 });
  iso_date = λ w. codes "2024-01-01";
  database_now = λ w. 0;
}

orders-LeavesTables : LeavesTables orders (λ w. w.committed) (λ w. w.working)
orders-LeavesTables = record {
  uuid_committed = λ w. refl;
  uuid_working = λ w. refl;
  connect_committed = λ w. refl;
  release_committed = λ w. refl;
  incr_committed = λ k w. refl;
  del_committed = λ k w. refl;
  warn_committed = λ k m e w. refl;
}

abbrev pub no_tables : Tables
no_tables = record { orders = []; order_events = []; outbox_events = [] }

abbrev pub session : Session
session = record { committed = no_tables; working = no_tables; store = empty; identifiers = 1 }

abbrev items : List OrderItem
items =
    record { sku = codes "A"; quantity = 2; unit_price_cents = 150 }
    ∷ record { sku = codes "B"; quantity = 1; unit_price_cents = 99 }
    ∷ []

abbrev pub basket : CreateOrder
basket = record { customer_email = codes "Ann@example.com"; items = items }

create_order_transactionally-Outcome_example :
    Outcome orders
      (λ w. w.committed)
      (λ w. w.working)
      client-IsClient
      orders-LeavesTables
      (codes "u")
      (codes "c")
      basket
      no_tables
      (create_order_transactionally orders (codes "u") (codes "c") basket session)
create_order_transactionally-Outcome_example =
    create_order_transactionally-Outcome orders (λ w. w.committed) (λ w. w.working) client-IsClient
      orders-LeavesTables (codes "u") (codes "c") basket session

create_order_transactionally-IsAudited_example :
    IsAudited
      (create_order_transactionally orders (codes "u") (codes "c") basket session).1.committed
create_order_transactionally-IsAudited_example =
    create_order_transactionally-IsAudited orders (λ w. w.committed) (λ w. w.working)
      client-IsClient orders-LeavesTables (codes "u") (codes "c") basket session (tt, tt)

-- An order that the schema admits and the column does not.
abbrev dear : List OrderItem
dear = record { sku = codes "A"; quantity = 1000; unit_price_cents = 100000000 } ∷ []

dear_admitted : items_schema dear ≡ true
unfolding items_schema order_item_schema
dear_admitted = refl

abbrev dear_order : CreateOrder
dear_order = record { customer_email = codes "ann@example.com"; items = dear }

dear_large : max_integer < total_cents dear
unfolding total_cents
dear_large = omega arith

create_order_transactionally-out_of_range_example :
    let r = create_order_transactionally orders (codes "u") (codes "c") dear_order session in
    ((e : Exception) × (r.0 ≡ err e)) × (r.1.committed ≡ no_tables)
create_order_transactionally-out_of_range_example =
    create_order_transactionally-out_of_range orders (λ w. w.committed) (λ w. w.working)
      client-IsClient orders-LeavesTables (codes "u") (codes "c") dear_order dear_large session

-- A placed order, which its owner may confirm.
abbrev pub row : OrderRow
row = record {
  id = codes "o";
  user_id = codes "u";
  customer_email = codes "ann@example.com";
  items = items;
  total_cents = 399;
  status = pending;
  created_at = 0;
  updated_at = 0;
}

abbrev pub one_order : Tables
one_order = record {
  orders = row ∷ [];
  order_events = created_event (codes "e") (codes "o") (codes "u") ∷ [];
  outbox_events = [];
}

abbrev pub open_session : Session
open_session = record session { committed = one_order; working = one_order }

patch_order-IsAudited_example :
    IsAudited (patch_order orders (codes "u") (codes "o") confirmed open_session).1.committed
patch_order-IsAudited_example =
    patch_order-IsAudited orders (λ w. w.committed) (λ w. w.working) client-IsClient
      orders-LeavesTables (codes "u") (codes "o") confirmed open_session
      (((refl, refl), tt), (refl, tt))

-- The order is another user's.
patch_order-guarded_example :
    (patch_order orders (codes "v") (codes "o") confirmed open_session).1.committed ≡ one_order
patch_order-guarded_example =
    patch_order-guarded orders (λ w. w.committed) (λ w. w.working) client-IsClient
      orders-LeavesTables (codes "v") (codes "o") confirmed one_order open_session not_mine refl
  where
    not_mine : MayChange (codes "v") (codes "o") confirmed one_order → ⊥
    not_mine (o, found, mine, allowed) = ground arith

confirmed_in_tables :
    map
      (λ (o : OrderRow). o.status)
      (patch_order orders (codes "u") (codes "o") confirmed open_session).1.committed.orders
    ≡ confirmed ∷ []
unfolding patch_order patch_in_transaction select_order patch_found apply_patch
    is_allowed_order_status_transition change_status update_status insert_order_event
    invalidate_order invalidate_entity cache_delete with_timeout invalidate_list_namespace
    cache_bump_namespace_version decimal
confirmed_in_tables = refl
