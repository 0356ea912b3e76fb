-- ===== src/Session/Broker.antt =====
-- What the fleet session needs of a transport: SubscribeFunc and Unsubscribe, and the contract of a
-- transport that keeps one subscription for each handle.
use navlink.Base.{ℕ, ◌+◌, ◌-◌, ◌≡◌, Option}
use navlink.Base.{Comparable}
use navlink.Base.Result.{Result, ok, err}
use navlink.Base.Text.{GoString}
use navlink.Errors.{GoError}
use navlink.Session.Count.{one}

-- A state `W` of the broker side, and a type `U` of handles of subscriptions.
pub record Net (E W U : Type 0) : Type 0 where
  pub subscribe : W → GoString → W × Result (GoError E) U
  pub unsubscribe : W → U → W × Option (GoError E)

-- How often a handle is live, and how the operations change that. A failed Subscribe leaves nothing
-- behind; Unsubscribe ends the subscription of its handle.
pub record Keeps {E W U : Type 0} ⦃e : Comparable U⦄ (net : Net E W U) : Type 0 where
  pub live : W → U → ℕ
  pub subscribe-ok :
      (w : W) (f : GoString) (u : U)
      → (net.subscribe w f).1 ≡ ok u
      → (v : U) → live (net.subscribe w f).0 v ≡ live w v + one u v
  pub subscribe-err :
      (w : W) (f : GoString) (x : GoError E)
      → (net.subscribe w f).1 ≡ err x
      → (v : U) → live (net.subscribe w f).0 v ≡ live w v
  pub unsubscribe-live : (w : W) (u v : U) → live (net.unsubscribe w u).0 v ≡ live w v - one u v
