-- ===== src/Mqtt/Lifecycle/Stale.antt =====
-- internal/mqtt/transport.go Start: what a failed Start leaves behind.
use navlink.Base.{◌≡◌, refl, false, Option, none, some, if_cases, if◌then◌else◌, ap, ◌∙◌}
use navlink.Base.Text.{GoString}
use navlink.Errors.{Gerr, GoError}
use navlink.Mqtt.Wait.{Ctx, CtxErr, Token}
use navlink.Mqtt.Paho.{Paho, client_options, check_config}
use navlink.Mqtt.Dispatch.{shutdown_dispatch}
use navlink.Mqtt.Lifecycle.{
  Transport, shutdown, prepared, start_end, connect_client, start_checked, start,
}
use navlink.Mqtt.Lifecycle.Callbacks.{on_connect}

module _ {T H L M P W : Type 0} (paho : Paho T P W) where
  -- The client that Start makes and connects, and what Connect leaves.
  abbrev pub left_connecting : Transport T H L M P → W → W × Token
  left_connecting t w = let (w', p) = paho.new_client w (client_options t.cfg) in paho.connect w' p

module _ {E T H L M P W : Type 0} ⦃g : Gerr E⦄ (paho : Paho T P W) where
  -- What is left of a transport and of the world when Start has failed.
  pub record Abandoned (t : Transport T H L M P) (w : W)
      (r : Transport T H L M P × W × Option (GoError E)) : Type 0 where
    pub down : r.0.running ≡ false
    pub client : r.0.client ≡ none
    pub lanes : r.0.lanes.running ≡ false
    pub on_reconnect : r.0.on_reconnect ≡ t.on_reconnect
    pub unheard : (on_connect r.0).1 ≡ none
    pub world : r.1 ≡ (left_connecting paho t w).0

  abbrev Outcome : Transport T H L M P → W → Transport T H L M P × W × Option (GoError E) → Type 0
  Outcome t w r = (e : GoError E) → r.2 ≡ some e → Abandoned t w r

  start_end-Outcome :
      (t : Transport T H L M P) (w w' : W) (p : P) (e : Option (GoError E))
      (error : Option GoString)
      → w' ≡ (left_connecting paho t w).0
      → Outcome t w (start_end paho (prepared t p) w' e error)
  unfolding start_end prepared shutdown on_connect shutdown_dispatch
  start_end-Outcome t w w' p (some e) error same = λ _ _. record {
    down = refl;
    client = refl;
    lanes = refl;
    on_reconnect = refl;
    unheard = refl;
    world = same;
  }
  start_end-Outcome t w w' p none (some cause) same = λ _ _. record {
    down = refl;
    client = refl;
    lanes = refl;
    on_reconnect = refl;
    unheard = refl;
    world = same;
  }
  start_end-Outcome t w w' p none none same = λ e h. cc

  start_checked-Outcome :
      (t : Transport T H L M P) (ctx : Ctx) (first : Option CtxErr) (w : W) (e : Option (GoError E))
      → e ≡ none
      → Outcome t w (start_checked paho t ctx first w e)
  unfolding start_checked connect_client
  start_checked-Outcome t ctx first w (some e) valid = cc
  start_checked-Outcome t ctx first w none valid = start_end-Outcome t w _ _ _ _ refl

  -- A Start, of a transport that is not running and whose configuration is valid, that returns an
  -- error leaves the transport down, without a client, its lanes closed and its reconnect handler
  -- as it was, so that the next onConnect calls nothing; and it leaves the world as Connect left it,
  -- so the client it made is not disconnected.
  pub start-Abandoned :
      (t : Transport T H L M P) (ctx : Ctx) (first : Option CtxErr) (w : W) (e : GoError E)
      → t.running ≡ false
      → check_config {E = E} t.cfg ≡ none
      → (start paho t ctx first w).2 ≡ some e
      → Abandoned t w (start paho t ctx first w)
  unfolding start
  start-Abandoned t ctx first w e off valid =
      if_cases {A = Transport T H L M P × W × Option (GoError E)}
        (λ r. r.2 ≡ some e → Abandoned t w r) t.running (λ on. cc (off, on))
        (λ _. start_checked-Outcome t ctx first w (check_config t.cfg) valid e)

module _ {T H L M P W : Type 0} (E : Type 0) ⦃g : Gerr E⦄ (paho : Paho T P W) where
  abbrev Remembers : Transport T H L M P → Transport T H L M P × W × Option (GoError E) → Type 0
  Remembers t r =
      r.2 ≡ none → (r.0.was_connected ≡ t.was_connected) × (r.0.on_reconnect ≡ t.on_reconnect)

  start_end-Remembers :
      (t : Transport T H L M P) (w : W) (p : P) (e : Option (GoError E)) (error : Option GoString)
      → Remembers t (start_end paho (prepared t p) w e error)
  unfolding start_end prepared
  start_end-Remembers t w p (some e) error = λ h. cc
  start_end-Remembers t w p none (some cause) = λ h. cc
  start_end-Remembers t w p none none = λ h. (refl, refl)

  start_checked-Remembers :
      (t : Transport T H L M P) (ctx : Ctx) (first : Option CtxErr) (w : W) (e : Option (GoError E))
      → Remembers t (start_checked paho t ctx first w e)
  unfolding start_checked connect_client
  start_checked-Remembers t ctx first w (some e) = λ h. cc
  start_checked-Remembers t ctx first w none = start_end-Remembers t _ _ _ _

  start-Remembers :
      (t : Transport T H L M P) (ctx : Ctx) (first : Option CtxErr) (w : W)
      → Remembers t (start paho t ctx first w)
  unfolding start
  start-Remembers t ctx first w =
      if_cases {A = Transport T H L M P × W × Option (GoError E)} (Remembers t) t.running
        (λ on. λ h. cc) (λ off. start_checked-Remembers t ctx first w (check_config t.cfg))

  -- Whatever Start left of a transport: if the client of that Start connects before the next Start,
  -- the first connection of a next Start that succeeds counts as a reconnect, and the reconnect
  -- handler, if one is set, runs on it.
  pub on_connect-start :
      (t : Transport T H L M P) (ctx : Ctx) (first : Option CtxErr) (w : W)
      → (start {E = E} paho (on_connect t).0 ctx first w).2 ≡ none
      → (on_connect (start {E = E} paho (on_connect t).0 ctx first w).0).1 ≡ t.on_reconnect
  unfolding on_connect
  on_connect-start t ctx first w h =
      let (known, same) = start-Remembers (on_connect t).0 ctx first w h in
      ap (λ b. if b then r.0.on_reconnect else none) known ∙ same
    where
      r : Transport T H L M P × W × Option (GoError E)
      r = start {E = E} paho (on_connect t).0 ctx first w
