-- ===== src/Client/Retry.antt =====
-- client.go Start: what a Start that failed leaves for the next one.
use navlink.Base.{◌≡◌, refl, sym, ap, ◌∙◌, true, false, Option, none, some, arith, if_cases}
use navlink.Errors.{Gerr, GoError}
use navlink.Session.{Session}
use navlink.Session
use navlink.Client.{
  Transport, Client, wanted_filters, subscribe_filters, with_fleet, start_fleet, subscribe_after,
  subscribe_locked, subscribed, transport_up, start,
}
use navlink.Client.Lifecycle.{subscribe_filters-Subscribed}

module _ {E W U H : Type 0} ⦃g : Gerr E⦄ (transport : Transport E W U) where
  abbrev pub at_world : Client W U H → Session W U H → W → Client W U H
  at_world c s w = record c { fleet = some (record s { world = w }); world = w }

  start_fleet-started :
      (c : Client W U H) (s : Session W U H)
      → s.started ≡ true
      → start_fleet transport c (some s) ≡ (at_world c s c.world, none)
  unfolding start_fleet Session.start
  start_fleet-started c s up =
      if_cases {A = Session W U H × Option (GoError E)}
        (λ r. with_fleet transport c r ≡ (at_world c s c.world, none)) s.started (λ _. refl)
        (λ down. absurd (ground arith))

  start_of_stopped :
      (c : Client W U H) (w : W)
      → c.started ≡ false
      → transport.start c.world ≡ (w, none)
      → start transport c
        ≡ subscribed transport (subscribe_locked transport (record c { world = w }))
  unfolding start transport_up
  start_of_stopped c w down ready =
      if_cases {A = Client W U H × Option (GoError E)}
        (λ r. r ≡ transport_up transport c (transport.start c.world)) c.started
        (λ up. absurd (ground arith)) (λ _. refl)
      ∙ ap (transport_up transport c) ready

  -- subscribeLocked of a client whose session starts, or is started.
  subscribe_locked_of_fleet :
      (c : Client W U H) (s s₁ : Session W U H)
      → c.fleet ≡ some s
      → start_fleet transport c (some s) ≡ (record c { fleet = some s₁; world = s₁.world }, none)
      → let c₁ = record c { fleet = some s₁; world = s₁.world } in
        subscribe_locked transport c ≡ subscribe_filters transport c₁ (wanted_filters c₁)
  unfolding subscribe_locked subscribe_after
  subscribe_locked_of_fleet c s s₁ fleet began =
      ap (λ f. subscribe_after transport (start_fleet transport c f)) fleet
      ∙ ap (subscribe_after transport) began

  -- Start of a client whose session is started already calls Subscribe for the wanted filters only.
  start-wanted :
      (c : Client W U H) (s : Session W U H) (w : W)
      → c.started ≡ false
      → c.fleet ≡ some s
      → s.started ≡ true
      → transport.start c.world ≡ (w, none)
      → start transport c
        ≡ subscribed transport
            (subscribe_filters transport (at_world c s w) (wanted_filters (at_world c s w)))
  start-wanted c s w down fleet up ready =
      start_of_stopped c w down ready
      ∙ ap (subscribed transport) (
          subscribe_locked_of_fleet (record c { world = w }) s (record s { world = w }) fleet
            (start_fleet-started (record c { world = w }) s up))

  subscribed-failed :
      (r : Client W U H × Option (GoError E)) (e : GoError E)
      → (subscribed transport r).1 ≡ some e
      → ((subscribed transport r).0.fleet ≡ r.0.fleet)
        × ((subscribed transport r).0.started ≡ r.0.started)
  unfolding subscribed
  subscribed-failed (c, none) e h = cc
  subscribed-failed (c, some x) e h = (refl, refl)

  -- A Start that fails on a wanted filter, after the transport and the fleet session have started,
  -- returns the error and leaves the client stopped but the session started. The next Start, if the
  -- transport starts, makes the Subscribe calls for the wanted filters (factsheet and topic handlers)
  -- and no other: the connection wildcard is not subscribed again.
  pub start-retry :
      (c : Client W U H) (s s₁ : Session W U H) (w₁ w₂ : W) (e : GoError E)
      → c.started ≡ false
      → c.fleet ≡ some s
      → transport.start c.world ≡ (w₁, none)
      → Session.start transport.net (record s { world = w₁ }) ≡ (s₁, none)
      → s₁.started ≡ true
      → (start transport c).1 ≡ some e
      → let c' = (start transport c).0 in
        transport.start c'.world ≡ (w₂, none)
        → (c'.started ≡ false)
          × (start transport c'
              ≡ subscribed transport (
                  subscribe_filters transport
                    (at_world c' s₁ w₂)
                    (wanted_filters (at_world c' s₁ w₂))))
  unfolding start_fleet
  start-retry c s s₁ w₁ w₂ e down fleet up began s₁_up failed again =
      let c₁ : Client W U H = record c { fleet = some s₁; world = s₁.world } in
      let first =
        start_of_stopped c w₁ down up
        ∙ ap (subscribed transport) (
            subscribe_locked_of_fleet (record c { world = w₁ }) s s₁ fleet
              (ap (with_fleet transport (record c { world = w₁ })) began)) in
      let kept = subscribe_filters-Subscribed transport c₁ (wanted_filters c₁) in
      let (fleet', started') =
        subscribed-failed (subscribe_filters transport c₁ (wanted_filters c₁)) e
          (ap (λ r. r.1) (sym first) ∙ failed) in
      let down' = ap (λ r. r.0.started) first ∙ started' ∙ kept.started ∙ down in
      (
        down',
        start-wanted (start transport c).0 s₁ w₂ down'
            (ap (λ r. r.0.fleet) first ∙ fleet' ∙ kept.fleet) s₁_up again,
      )
