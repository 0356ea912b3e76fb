-- ===== src/Client/Reconnect.antt =====
-- client.go handleReconnect: what is subscribed again, on a transport that has lost every subscription.
use navlink.Base.{
  ◌≡◌, refl, sym, subst, true, Option, none, some, List, [], ◌∷◌, ◌++◌, append_assoc, append-nil,
  if_cases,
}
use navlink.Base.Result.{Result, ok, err}
use navlink.Base.Text.{GoString}
use navlink.Errors.{Gerr, GoError}
use navlink.Topic.{wildcard}
use navlink.Topic.Channels
use navlink.Session.{Session, tracked_agvs, restore}
use navlink.Session
use navlink.Session.Tracked.{Keyed}
use navlink.Session.Listens.{IsOk, Listens, fleet_filters}
use navlink.Session.Restored.{Restored, restore-Restored}
use navlink.Client.{
  Transport, Client, wanted_filters, wanted_channels, subscription_filter, subscribe_filters,
  start_fleet, subscribe_after, subscribe_locked, restore_fleet, resubscribe, handle_reconnect,
}

-- The filters of a fleet session: the connections of all vehicles, and the channels of those tracked.
abbrev pub session_filters : {W U H : Type 0} → Option (Session W U H) → List GoString
session_filters none = []
session_filters (some s) =
    wildcard s.topics Channels.connection ∷ fleet_filters s.topics s.opts (tracked_agvs s)

-- A session, if there is one, that is started and has each vehicle under its own key.
abbrev pub IsReady : {W U H : Type 0} → Option (Session W U H) → Type 0
IsReady none = Unit
IsReady (some s) = (s.started ≡ true) × Keyed s.tracked

module _ {E W U H : Type 0} ⦃g : Gerr E⦄ (transport : Transport E W U)
    (up : Listens transport.net) where
  open up use {hears}

  -- No error, and the transport hears `fs`.
  abbrev pub Heard : List GoString → Client W U H × Option (GoError E) → Type 0
  Heard fs r = (r.1 ≡ none) × hears r.0.world fs

  subscribe_filters-Heard :
      (fs : List GoString) (c : Client W U H) (gs : List GoString)
      → hears c.world gs
      → Heard (gs ++ fs) (subscribe_filters transport c fs)
  unfolding subscribe_filters
  subscribe_filters-Heard [] c gs h = (refl, subst (hears c.world) (sym (append-nil gs)) h)
  subscribe_filters-Heard (f ∷ fs) c gs h =
      go
        (λ w u.
          subscribe_filters-Heard fs (record c { world = w; unsubs = c.unsubs ++ (u ∷ []) })
            (gs ++ (f ∷ [])))
        (transport.net.subscribe c.world f) (up.subscribe-hears c.world f gs h)
    where
      go :
          ((w : W) (u : U)
            → hears w (gs ++ (f ∷ []))
            → Heard ((gs ++ (f ∷ [])) ++ fs) (
                subscribe_filters transport
                  (record c { world = w; unsubs = c.unsubs ++ (u ∷ []) })
                  fs))
          → (r : W × Result (GoError E) U) → IsOk r.1 × hears r.0 (gs ++ (f ∷ []))
          → Heard (gs ++ (f ∷ fs)) (elim r.1 [
            | err e ↦ (record c { world = r.0 }, some e)
            | ok u ↦
                subscribe_filters transport
                  (record c { world = r.0; unsubs = c.unsubs ++ (u ∷ []) })
                  fs
          ])
      go rest (w, err e) a = absurd a.0
      go rest (w, ok u) a =
          let h = rest w u a.1 in (h.0, subst (hears _) (append_assoc gs (f ∷ []) fs) h.1)

  -- subscribeLocked, of a client whose session is started.
  started_fleet-Heard :
      (c : Client W U H) (s : Session W U H) (gs : List GoString)
      (q : Session W U H × Option (GoError E))
      → q ≡ (s, none)
      → hears s.world gs
      → Heard
          (gs ++ wanted_filters (record c { fleet = some s }))
          (subscribe_after transport (record c { fleet = some q.0; world = q.0.world }, q.1))
  unfolding subscribe_after wanted_filters wanted_channels subscription_filter
  started_fleet-Heard c s gs q same h =
      subst
        (λ (q : Session W U H × Option (GoError E)).
          Heard (gs ++ wanted_filters (record c { fleet = some s }))
            (subscribe_after transport (record c { fleet = some q.0; world = q.0.world }, q.1)))
        (sym same)
        (subscribe_filters-Heard (wanted_filters (record c { fleet = some s }))
          (record c { fleet = some s; world = s.world }) gs h)

  resubscribe-Heard :
      (c : Client W U H) (s : Session W U H) (q : Session W U H × Option (GoError E))
      (gs : List GoString)
      → Restored transport.net up s gs q
      → Heard
          (gs ++ wanted_filters (record c { fleet = some s }))
          (resubscribe transport (record c { fleet = some q.0; world = q.0.world }, q.1))
  unfolding resubscribe subscribe_locked start_fleet Session.start wanted_filters wanted_channels
      subscription_filter
  resubscribe-Heard c s (t, some e) gs r = absurd (cc r.fine)
  resubscribe-Heard c s (t, none) gs r =
      started_fleet-Heard (record c { world = t.world }) t gs (Session.start transport.net t)
        (if_cases {A = Session W U H × Option (GoError E)} (λ q. q ≡ (t, none)) t.started
          (λ _. refl) (λ off. absurd (cc (off, r.started))))
        r.heard

  restore_fleet-Heard :
      (c : Client W U H) (fleet : Option (Session W U H))
      → c.fleet ≡ fleet
      → IsReady fleet
      → hears c.world []
      → Heard
          (session_filters fleet ++ wanted_filters c)
          (resubscribe transport (restore_fleet transport c fleet))
  unfolding restore_fleet resubscribe subscribe_locked start_fleet subscribe_after wanted_filters
      wanted_channels subscription_filter
  restore_fleet-Heard c none here ready h =
      subst (λ f. Heard (wanted_filters c) (subscribe_after transport (start_fleet transport c f)))
        (sym here) (subscribe_filters-Heard (wanted_filters c) c [] h)
  restore_fleet-Heard c (some s) here ready h =
      subst
        (λ f.
          Heard (session_filters (some s) ++ wanted_filters (record c { fleet = f }))
            (resubscribe transport (restore_fleet transport c (some s))))
        (sym here)
        (resubscribe-Heard c (record s { world = c.world }) _ _
          (restore-Restored transport.net up (record s { world = c.world }) ready.0 ready.1 h))

  -- The reconnect handler of a started client, whose session, if it has one, is started, on a
  -- transport that is up and hears nothing: it reports no error, and what is subscribed afterwards is
  -- the filters of the session, then those that the client itself wants, and nothing else.
  pub handle_reconnect-Heard :
      (c : Client W U H)
      → c.started ≡ true
      → IsReady c.fleet
      → hears c.world []
      → Heard (session_filters c.fleet ++ wanted_filters c) (handle_reconnect transport c)
  unfolding handle_reconnect wanted_filters wanted_channels subscription_filter
  handle_reconnect-Heard c on ready h =
      if_cases {A = Client W U H × Option (GoError E)}
        (Heard (session_filters c.fleet ++ wanted_filters c)) c.started
        (λ _. restore_fleet-Heard (record c { unsubs = [] }) c.fleet refl ready h)
        (λ off. absurd (cc (on, off)))
