-- ===== src/Mqtt/Lifecycle/Machine.antt =====
-- internal/mqtt/transport.go: the transport as a machine of three phases, which forgets the client,
-- the lanes and the configuration.
use navlink.Base.{
  ◌≡◌, ◌≢◌, refl, sym, subst, Bool, true, false, Option, none, some, List, [], ◌∷◌, if_cases,
  if◌then◌else◌,
}
use navlink.Base.Text.{GoString}
use navlink.Errors.{Gerr, GoError}
use navlink.Mqtt.Wait.{Ctx, CtxErr}
use navlink.Mqtt.Paho.{MqttConfig, Paho, check_config}
use navlink.Mqtt.Lifecycle.{
  Transport, new_transport, shutdown, prepared, start_end, connect_client, start_checked, start,
  stop,
}
use navlink.Mqtt.Lifecycle.Callbacks.{
  Event, starts, stops, connects, loses, sets_on_reconnect, sets_on_connection_lost, Called,
  nothing, called_reconnect, called_lost, set_on_reconnect, set_on_connection_lost, on_connect,
  on_connection_lost, step, run, calls,
}
use navlink.Mqtt.Lifecycle.Sound.{Sound, new-Sound, step-Sound}

pub data Phase : Type 0 where
  down up stopped : Phase

-- `known` says that a connection was heard of.
pub record Link (H L : Type 0) : Type 0 where
  pub phase : Phase
  pub known : Bool
  pub on_reconnect : Option H
  pub on_lost : Option L

-- What a callback about a lost connection is in a phase.
abbrev heard_in : {L : Type 0} → Phase → Option L → Option L
heard_in down l = l
heard_in up l = l
heard_in stopped l = none

-- A move of the machine on an event, with what it calls.
pub data Move {H L : Type 0} (m : Link H L) : Event H L → Called H L → Link H L → Type 0 where
  opens :
      {ctx : Ctx} {first : Option CtxErr}
      → m.phase ≢ up
      → Move m (starts ctx first) nothing (record m { phase = up })
  fails :
      {ctx : Ctx} {first : Option CtxErr}
      → m.phase ≢ up
      → Move m (starts ctx first) nothing (record m { phase = down; known = false })
  refuses : {ctx : Ctx} {first : Option CtxErr} → Move m (starts ctx first) nothing m
  closes : m.phase ≡ up → Move m stops nothing (record m { phase = stopped; known = false })
  stays : m.phase ≢ up → Move m stops nothing m
  hears :
      Move m connects
        (called_reconnect (if m.known then m.on_reconnect else none))
        (record m { known = true })
  misses : Move m loses (called_lost (heard_in m.phase m.on_lost)) m
  sets_reconnect :
      (h : Option H) → Move m (sets_on_reconnect h) nothing (record m { on_reconnect = h })
  sets_lost : (l : Option L) → Move m (sets_on_connection_lost l) nothing (record m { on_lost = l })

pub data Moves {H L : Type 0}
    : Link H L → List (Event H L) → List (Called H L) → Link H L → Type 0 where
  halts : {m : Link H L} → Moves m [] [] m
  moves :
      {e : Event H L} {c : Called H L} {m next last : Link H L} {es : List (Event H L)}
      {cs : List (Called H L)}
      → Move m e c next
      → Moves next es cs last
      → Moves m (e ∷ es) (c ∷ cs) last

abbrev phase_of : Bool → Bool → Phase
phase_of true stopping = up
phase_of false true = stopped
phase_of false false = down

-- The view of a transport as the machine.
abbrev pub link : {T H L M P : Type 0} → Transport T H L M P → Link H L
link t = record {
  phase = phase_of t.running t.stopping;
  known = t.was_connected;
  on_reconnect = t.on_reconnect;
  on_lost = t.on_lost;
}

phase-ne-up : (running stopping : Bool) → running ≡ false → phase_of running stopping ≢ up
phase-ne-up true stopping h = cc
phase-ne-up false true h = cc
phase-ne-up false false h = cc

phase-eq-up : (running stopping : Bool) → running ≡ true → phase_of running stopping ≡ up
phase-eq-up true stopping h = refl
phase-eq-up false stopping h = cc

heard_when :
    {L : Type 0} (running stopping : Bool) (l : Option L)
    → (running ≡ true → stopping ≡ false)
    → (if stopping then none else l) ≡ heard_in (phase_of running stopping) l
heard_when true true l live = cc (live refl)
heard_when true false l live = refl
heard_when false true l live = refl
heard_when false false l live = refl

module _ {T H L M P W : Type 0} (E : Type 0) ⦃g : Gerr E⦄ (paho : Paho T P W) (ctx : Ctx)
    (first : Option CtxErr) where
  start_end-Move :
      (t : Transport T H L M P) (p : P) (w : W) (e : Option (GoError E)) (error : Option GoString)
      → t.running ≡ false
      → Move (link t) (starts ctx first) nothing (link (start_end paho (prepared t p) w e error).0)
  unfolding start_end prepared shutdown
  start_end-Move t p w (some e) error off = fails (phase-ne-up _ _ off)
  start_end-Move t p w none (some cause) off = fails (phase-ne-up _ _ off)
  start_end-Move t p w none none off = opens (phase-ne-up _ _ off)

  start_checked-Move :
      (t : Transport T H L M P) (w : W) (e : Option (GoError E))
      → t.running ≡ false
      → Move (link t) (starts ctx first) nothing (link (start_checked paho t ctx first w e).0)
  unfolding start_checked connect_client
  start_checked-Move t w (some e) off = refuses
  start_checked-Move t w none off = start_end-Move t _ _ _ _ off

  start-Move :
      (t : Transport T H L M P) (w : W)
      → Move (link t) (starts ctx first) nothing (link (start {E = E} paho t ctx first w).0)
  unfolding start
  start-Move t w =
      if_cases {A = Transport T H L M P × W × Option (GoError E)}
        (λ r. Move (link t) (starts ctx first) nothing (link r.0)) t.running (λ on. refuses)
        (λ off. start_checked-Move t w (check_config t.cfg) off)

module _ {T H L M P W : Type 0} (paho : Paho T P W) where
  stop-Move :
      (t : Transport T H L M P) (w : W) → Move (link t) stops nothing (link (stop paho t w).0)
  unfolding stop
  stop-Move t w =
      if_cases {A = Transport T H L M P × W} (λ r. Move (link t) stops nothing (link r.0)) t.running
        (λ on. closes (phase-eq-up _ _ on)) (λ off. stays (phase-ne-up _ _ off))

module _ {T H L M P W : Type 0} (E : Type 0) ⦃g : Gerr E⦄ (paho : Paho T P W) where
  step-Move :
      (t : Transport T H L M P) (w : W) (e : Event H L)
      → Sound t
      → Move (link t) e (step E paho t w e).2 (link (step E paho t w e).0)
  unfolding step on_connect on_connection_lost set_on_reconnect set_on_connection_lost
  step-Move t w (starts ctx first) s = start-Move E paho ctx first t w
  step-Move t w stops s = stop-Move paho t w
  step-Move t w connects s = hears
  step-Move t w loses s =
      subst (λ l. Move (link t) loses (called_lost l) (link t))
        (sym (heard_when t.running t.stopping t.on_lost s.live)) misses
  step-Move t w (sets_on_reconnect h) s = sets_reconnect h
  step-Move t w (sets_on_connection_lost l) s = sets_lost l

  run-Moves :
      (es : List (Event H L)) (t : Transport T H L M P) (w : W)
      → Sound t
      → Moves (link t) es (calls E paho t w es) (link (run E paho t w es).0)
  unfolding run calls
  run-Moves [] t w s = halts
  run-Moves (e ∷ es) t w s =
      moves (step-Move t w e s) (run-Moves es _ _ (step-Sound E paho t w e s))

module _ {T H L P W : Type 0} (E M : Type 0) ⦃g : Gerr E⦄ (paho : Paho T P W) where
  -- The transport refines the machine: whatever calls and callbacks there are from New on, the
  -- machine, from its phase `down` with no connection heard of, has moves on these events with the
  -- same callbacks, to the view of the transport. In it a Start opens, or fails, or is refused; a
  -- Stop closes one that is up; a connection calls the reconnect handler if one was heard of since
  -- the last Stop of one that was up or failed Start; and a lost one calls its handler unless stopped.
  pub run-new-Moves :
      (cfg : MqttConfig T H L) (w : W) (es : List (Event H L))
      → Moves
          (record {
            phase = down;
            known = false;
            on_reconnect = cfg.on_reconnect;
            on_lost = cfg.on_connection_lost;
          })
          es
          (calls E paho (new_transport {M = M} cfg) w es)
          (link (run E paho (new_transport {M = M} cfg) w es).0)
  unfolding new_transport
  run-new-Moves cfg w es = run-Moves E paho es (new_transport cfg) w (new-Sound cfg)
