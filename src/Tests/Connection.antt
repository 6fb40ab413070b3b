-- ===== src/Tests/Connection.antt =====
-- The theorems on the worker's connection, each at one input.
use backend_architecture.Prelude.{
  ℕ, zero, suc, ◌*◌, ◌^◌, ◌≡◌, refl, false, none, codes, ok, err, Action, pure, throw, arith, min,
}
use backend_architecture.Worker.Connection.{
  Link, LinkWorld, RabbitContext, Call, assert_exchange, topology, reconnect_loop, ended,
  is_consuming,
}
use backend_architecture.Worker.Connection.Recovery.{
  IsUp, HasConsumer, reconnect_loop-HasConsumer, delay_before, delay_before-eq,
}
use backend_architecture.Worker.Connection.Stuck.{after_topology, reconnect_loop-FailsSetup}
use backend_architecture.Tests.Fixtures.{lost}

-- The rest of the world is the number of connections that the broker still refuses.
abbrev Broker : Type 0
Broker = LinkWorld ℕ

abbrev dial : ℕ → Action Broker (Unit {0})
dial zero w = (ok tt, w)
dial (suc n) w = (err lost, record w { rest = n })

abbrev rabbit : (Call → Action Broker (Unit {0})) → RabbitContext ℕ
rabbit call = record {
  config = record {
    queue = codes "order-created";
    exchange = codes "orders";
    retry_delay_ms = 5000;
    prefetch = 10;
  };
  connect = λ w. dial w.rest w;
  call = call;
  consume = λ queue. pure (codes "tag");
  cancel = λ tag. pure tt;
  select_one = pure tt;
  delay = λ ms w. w;
  now_ms = λ w. 0;
  close_app = pure tt;
  close_channel = pure tt;
  close_connection = pure tt;
  end_pool = pure tt;
}

abbrev sound : RabbitContext ℕ
sound = rabbit (λ c. pure tt)

dial-IsUp :
    (n : ℕ) (w : Broker)
    → n ≡ 0
    → w.rest ≡ 0
    → ((dial n w).0 ≡ ok tt) × ((dial n w).1.rest ≡ 0) × ((dial n w).1.link ≡ w.link)
dial-IsUp zero w none_left u = (refl, u, refl)
dial-IsUp (suc n) w none_left u = absurd (omega arith)

sound-IsUp : IsUp sound (λ w. w.rest ≡ 0)
sound-IsUp = record {
  connects = λ w u. dial-IsUp w.rest w u u;
  calls = λ c w u. (refl, u, refl);
  consumes = λ q w u. ((codes "tag", refl), refl);
  updates = λ f w u. u;
}

abbrev closed_link : Link
closed_link = record {
  has_channel = false;
  has_connection = false;
  consumer_tag = none;
  shutting_down = false;
}

abbrev refused_twice : Broker
refused_twice = record { link = closed_link; in_flight = 0; rest = 2 }

reconnect_loop-HasConsumer_example :
    ((reconnect_loop sound 5 1000 refused_twice).0 ≡ ended)
    × HasConsumer (reconnect_loop sound 5 1000 refused_twice).1.link
reconnect_loop-HasConsumer_example =
    reconnect_loop-HasConsumer sound (λ w. w.rest ≡ 0) sound-IsUp 2 0 4 refused_twice refl refl
      ((lost, refl), refl, refl, ((lost, refl), refl, refl, refl)) (omega arith)

-- The exchange is there with another type.
abbrev refuse_exchange : Call → Action Broker (Unit {0})
refuse_exchange (assert_exchange name) = throw lost
refuse_exchange _ = pure tt

abbrev reached : Broker
reached = record { link = closed_link; in_flight = 0; rest = 0 }

reconnect_loop-FailsSetup_example :
    (reconnect_loop (rabbit refuse_exchange) 9 1000 reached
      ≡ (ended, after_topology (rabbit refuse_exchange) reached))
    × (is_consuming (rabbit refuse_exchange) (after_topology (rabbit refuse_exchange) reached).link
        ≡ false)
unfolding topology
reconnect_loop-FailsSetup_example =
    reconnect_loop-FailsSetup (rabbit refuse_exchange) reached 1000 7 refl refl refl
      (refl, refl, (lost, refl)) refl

delay_before-eq_example : delay_before 7 ≡ min (1000 * 2 ^ 7) 30000
delay_before-eq_example = delay_before-eq 7
