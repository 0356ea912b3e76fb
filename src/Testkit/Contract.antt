-- ===== src/Testkit/Contract.antt =====
-- testkit/fake_broker.go: FakeBroker keeps the contract that the fleet session needs.
use navlink.Base.{ℕ, ◌+◌, ◌-◌, ◌<◌, ◌≡◌, ap, Option, none, some, arith, nat_beq_iff, nat_eq}
use navlink.Base.Result.{ok, err}
use navlink.Base.Text.{GoString}
use navlink.Base.Dict.{lookup, lookup-insert, lookup-delete}
use navlink.Errors.{GoError}
use navlink.Session.Count.{one}
use navlink.Session.Broker.{Net, Keeps}
use navlink.Testkit.{FakeBroker, subscribe, unsubscribe}

-- 1 for a subscription that is there.
abbrev pub present {ℓ} : {A : Type ℓ} → Option A → ℕ
present none = 0
present (some _) = 1

module _ {E D : Type 0} where
  -- No subscription has an identifier that is still to be given out.
  abbrev pub Fresh : FakeBroker E D → Type 0
  Fresh b = (id : ℕ) → b.next_id < id → lookup id b.subs ≡ none

  pub subscribe-Fresh :
      (b : FakeBroker E D) (filter : GoString) (handler : D)
      → Fresh b
      → Fresh (subscribe b filter handler).0
  unfolding subscribe
  subscribe-Fresh b filter handler h id lt = ground (
    arith,
    lookup-insert (b.next_id + 1) id (record { filter = filter; handler = handler }) b.subs,
    h id,
  )

  pub unsubscribe-Fresh : (b : FakeBroker E D) (id : ℕ) → Fresh b → Fresh (unsubscribe b id).0
  unfolding unsubscribe
  unsubscribe-Fresh b id h j lt = ground (arith, lookup-delete id j b.subs, h j)

  pub subscribe-present :
      (b : FakeBroker E D) (filter : GoString) (handler : D) (u v : ℕ)
      → Fresh b
      → (subscribe b filter handler).1 ≡ ok u
      → present (lookup v (subscribe b filter handler).0.subs) ≡ present (lookup v b.subs) + one u v
  unfolding subscribe
  subscribe-present b filter handler u v h made = ground (
    arith,
    lookup-insert (b.next_id + 1) v (record { filter = filter; handler = handler }) b.subs,
    h v,
    nat_beq_iff u v,
  )

  pub subscribe-refused :
      (b : FakeBroker E D) (filter : GoString) (handler : D) (x : GoError E)
      → (subscribe b filter handler).1 ≡ err x
      → (subscribe b filter handler).0.subs ≡ b.subs
  unfolding subscribe
  subscribe-refused b filter handler x h = ground arith

  pub unsubscribe-present :
      (b : FakeBroker E D) (u v : ℕ)
      → present (lookup v (unsubscribe b u).0.subs) ≡ present (lookup v b.subs) - one u v
  unfolding unsubscribe
  unsubscribe-present b u v = ground (arith, lookup-delete u v b.subs)

  -- FakeBroker as the transport of a session whose messages go to `handler`.
  abbrev pub broker_net : D → Net E ((b : FakeBroker E D) × Fresh b) ℕ
  broker_net handler = record {
    subscribe = λ w filter. (
      ((subscribe w.0 filter handler).0, subscribe-Fresh w.0 filter handler w.1),
      (subscribe w.0 filter handler).1,
    );
    unsubscribe =
        λ w id. (((unsubscribe w.0 id).0, unsubscribe-Fresh w.0 id w.1), (unsubscribe w.0 id).1);
  }

  -- FakeBroker keeps the contract of Subscribe and Unsubscribe: each handle is new when it is given
  -- out, a refused Subscribe leaves the subscriptions as they are, and an Unsubscribe ends exactly
  -- the subscription of its handle.
  abbrev pub broker_net-Keeps : (handler : D) → Keeps (broker_net handler)
  broker_net-Keeps handler = record {
    live = λ w v. present (lookup v w.0.subs);
    subscribe-ok = λ w f u made v. subscribe-present w.0 f handler u v w.1 made;
    subscribe-err = λ w f x refused v.
        ap (λ subs. present (lookup v subs)) (subscribe-refused w.0 f handler x refused);
    unsubscribe-live = λ w u v. unsubscribe-present w.0 u v;
  }
