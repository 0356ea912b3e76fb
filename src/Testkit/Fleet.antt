-- ===== src/Testkit/Fleet.antt =====
-- internal/session/fleet.go over testkit/fake_broker.go: a fleet session on the in-process broker.
use navlink.Base.{ℕ, ◌≡◌, false, List, []}
use navlink.Base.Dict.{lookup}
use navlink.Base.{nat_eq}
use navlink.Topic.{Resolver}
use navlink.Config.{FleetOptions}
use navlink.Session.{new_session, stop}
use navlink.Session.History.{Call, run, run-stop-live}
use navlink.Testkit.{FakeBroker}
use navlink.Testkit.Contract.{Fresh, present, broker_net, broker_net-Keeps}

-- A session on a FakeBroker, whatever calls of its methods it has had, in whatever order, the failed
-- ones included: after Stop the broker has exactly the subscriptions that it had before the session
-- was made, and the session tracks nothing and is not started.
pub fleet_leaves_broker :
    {E D H : Type 0} (handler : D) (topics : Resolver) (opts : FleetOptions) (b : FakeBroker E D)
    (fresh : Fresh b) (cs : List (Call H)) (id : ℕ)
    → let s =
        (stop
          (broker_net handler)
          (run (broker_net handler) (new_session topics opts (b, fresh)) cs)).0 in
      (present (lookup id s.world.0.subs) ≡ present (lookup id b.subs))
      × (s.tracked ≡ [])
      × (s.started ≡ false)
fleet_leaves_broker handler topics opts b fresh cs id =
    run-stop-live (broker_net-Keeps handler) topics opts (b, fresh) cs id
