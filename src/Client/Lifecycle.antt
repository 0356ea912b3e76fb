-- ===== src/Client/Lifecycle.antt =====
-- client.go: what Start and Stop leave.
use navlink.Base.{
  ◌+◌, ◌≡◌, ◌≢◌, refl, sym, ◌∙◌, true, false, Option, none, some, List, [], ◌∷◌, ◌++◌, arith,
  if_cases, subst, append-nil, append_assoc,
}
use navlink.Base.Lists.{length, length-append}
use navlink.Base.Result.{Result, ok, err}
use navlink.Base.Text.{GoString}
use navlink.Errors.{Gerr, GoError, raise}
use navlink.Errors.Kinds.{client_already_started}
use navlink.Session.{Session}
use navlink.Session.Broker.{Net}
use navlink.Client.{
  Transport, Client, wanted_filters, wanted_channels, subscription_filter, subscribe_filters,
  start_fleet, subscribe_after, subscribe_locked, subscribed, transport_up, start, stop_started,
  stop, stop_fleet,
}

-- Subscribe of each filter in turn, from `w` to `w'`: each returns its handle, and none an error.
abbrev pub Subscribes : {E W U : Type 0} → Net E W U → W → List GoString → W → List U → Type 0
Subscribes net w [] w' [] = w ≡ w'
Subscribes {W = W} net w (f ∷ fs) w' (u ∷ us) =
    (w₁ : W) × (net.subscribe w f ≡ (w₁, ok u)) × Subscribes net w₁ fs w' us
Subscribes net w _ w' _ = ⊥

module _ {E W U H : Type 0} ⦃g : Gerr E⦄ (transport : Transport E W U) where
  -- The Subscribe calls change the transport and the handles only.
  pub record Subscribed (c : Client W U H) (fs : List GoString)
      (r : Client W U H × Option (GoError E)) : Type 0 where
    pub fleet : r.0.fleet ≡ c.fleet
    pub started : r.0.started ≡ c.started
    pub filters : wanted_filters r.0 ≡ wanted_filters c
    pub handles : r.1 ≡ none → length r.0.unsubs ≡ length c.unsubs + length fs

  pub subscribe_filters-Subscribed :
      (c : Client W U H) (fs : List GoString) → Subscribed c fs (subscribe_filters transport c fs)
  unfolding subscribe_filters wanted_filters wanted_channels subscription_filter
  subscribe_filters-Subscribed c [] = record {
    fleet = refl;
    started = refl;
    filters = refl;
    handles = λ _. omega arith;
  }
  subscribe_filters-Subscribed c (f ∷ fs) =
      go
        (λ w u.
          subscribe_filters-Subscribed (record c { world = w; unsubs = c.unsubs ++ (u ∷ []) }) fs)
        (transport.net.subscribe c.world f)
    where
      go :
          ((w : W) (u : U)
            → let c' = record c { world = w; unsubs = c.unsubs ++ (u ∷ []) } in
              Subscribed c' fs (subscribe_filters transport c' fs))
          → (r : W × Result (GoError E) U)
          → Subscribed c (f ∷ fs) (elim r.1 [
            | err e ↦ (record c { world = r.0 }, some e)
            | ok u ↦
                subscribe_filters transport
                  (record c { world = r.0; unsubs = c.unsubs ++ (u ∷ []) })
                  fs
          ])
      go rest (w, err e) = record {
        fleet = refl;
        started = refl;
        filters = refl;
        handles = λ e. cc;
      }
      go rest (w, ok u) = record {
        fleet = (rest w u).fleet;
        started = (rest w u).started;
        filters = (rest w u).filters;
        handles = λ e. omega (arith, (rest w u).handles e, length-append c.unsubs (u ∷ []));
      }

  -- New handles `us`, one for each filter of `fs`, which Subscribe returned.
  pub record Made (c : Client W U H) (fs : List GoString) (d : Client W U H) : Type 0 where
    pub us : List U
    pub added : d.unsubs ≡ c.unsubs ++ us
    pub made : Subscribes transport.net c.world fs d.world us

  subscribe_filters-Made :
      (c : Client W U H) (fs : List GoString)
      → (subscribe_filters transport c fs).1 ≡ none
      → Made c fs (subscribe_filters transport c fs).0
  unfolding subscribe_filters
  subscribe_filters-Made c [] fine = record {
    us = [];
    added = sym (append-nil c.unsubs);
    made = refl;
  }
  subscribe_filters-Made c (f ∷ fs) fine =
      go (λ w u. subscribe_filters-Made (record c { world = w; unsubs = c.unsubs ++ (u ∷ []) }) fs)
        (transport.net.subscribe c.world f) refl fine
    where
      after : W × Result (GoError E) U → Client W U H × Option (GoError E)
      after r = elim r.1 [
        | err e ↦ (record c { world = r.0 }, some e)
        | ok u ↦
            subscribe_filters transport (record c { world = r.0; unsubs = c.unsubs ++ (u ∷ []) }) fs
      ]

      go :
          ((w : W) (u : U)
            → let c' = record c { world = w; unsubs = c.unsubs ++ (u ∷ []) } in
              (subscribe_filters transport c' fs).1 ≡ none
              → Made c' fs (subscribe_filters transport c' fs).0)
          → (r : W × Result (GoError E) U) → transport.net.subscribe c.world f ≡ r
          → (after r).1 ≡ none
          → Made c (f ∷ fs) (after r).0
      go rest (w, err e) same fine = absurd (cc fine)
      go rest (w, ok u) same fine =
          let m = rest w u fine in
          record {
            us = u ∷ m.us;
            added = m.added ∙ append_assoc c.unsubs (u ∷ []) m.us;
            made = (w, same, m.made);
          }

  -- What Start did when it has no error: Connect, then the fleet session, then the Subscribe calls.
  pub record Up (c d : Client W U H) : Type 0 where
    pub started : d.started ≡ true
    pub w : W
    pub connected : transport.start c.world ≡ (w, none)
    pub fleet_up : (start_fleet transport (record c { world = w }) c.fleet).1 ≡ none
    pub subscribed :
        Made (start_fleet transport (record c { world = w }) c.fleet).0 (wanted_filters d) d
    pub before : (start_fleet transport (record c { world = w }) c.fleet).0.unsubs ≡ c.unsubs

  -- What Start does, by its error and by whether the client was started.
  pub record Starts (c : Client W U H) (r : Client W U H × Option (GoError E)) : Type 0 where
    pub refused : c.started ≡ true → r ≡ (c, some (raise client_already_started))
    pub up : c.started ≡ false → r.1 ≡ none → Up c r.0
    pub down : c.started ≡ false → r.1 ≢ none → r.0.started ≡ false

  start_fleet-keeps :
      (c : Client W U H) (fleet : Option (Session W U H))
      → let r = start_fleet transport c fleet in (r.0.unsubs ≡ c.unsubs) × (r.0.started ≡ c.started)
  unfolding start_fleet
  start_fleet-keeps c none = (refl, refl)
  start_fleet-keeps c (some s) = (refl, refl)

  -- subscribeLocked, after the session's start has given `q`.
  record After (q r : Client W U H × Option (GoError E)) : Type 0 where
    started : r.0.started ≡ q.0.started
    fine : r.1 ≡ none → q.1 ≡ none
    made : r.1 ≡ none → Made q.0 (wanted_filters r.0) r.0

  subscribe_after-After :
      (q : Client W U H × Option (GoError E)) → After q (subscribe_after transport q)
  unfolding subscribe_after
  subscribe_after-After (c, some e) = record {
    started = refl;
    fine = λ h. h;
    made = λ h. absurd (cc h);
  }
  subscribe_after-After (c, none) =
      let h = subscribe_filters-Subscribed c (wanted_filters c) in
      record {
        started = h.started;
        fine = λ _. refl;
        made = λ e.
            subst (λ fs. Made c fs (subscribe_filters transport c (wanted_filters c)).0)
              (sym h.filters) (subscribe_filters-Made c (wanted_filters c) e);
      }

  subscribed-Starts :
      (c : Client W U H) (w : W) (r : Client W U H × Option (GoError E))
      → c.started ≡ false
      → transport.start c.world ≡ (w, none)
      → After (start_fleet transport (record c { world = w }) c.fleet) r
      → Starts c (subscribed transport r)
  unfolding subscribed wanted_filters wanted_channels subscription_filter
  subscribed-Starts c w (d, some e) off connected a = record {
    refused = λ on. absurd (cc (on, off));
    up = λ _ e. absurd (cc e);
    down = λ _ _. a.started ∙ (start_fleet-keeps (record c { world = w }) c.fleet).1 ∙ off;
  }
  subscribed-Starts c w (d, none) off connected a = record {
    refused = λ on. absurd (cc (on, off));
    up = λ _ _.
        let m = a.made refl in
        record {
          started = refl;
          w = w;
          connected = connected;
          fleet_up = a.fine refl;
          subscribed = record { us = m.us; added = m.added; made = m.made };
          before = (start_fleet-keeps (record c { world = w }) c.fleet).0;
        };
    down = λ _ n. absurd (n refl);
  }

  transport_up-Starts :
      (c : Client W U H) (up : W × Option (GoError E))
      → transport.start c.world ≡ up
      → c.started ≡ false
      → Starts c (transport_up transport c up)
  unfolding transport_up subscribe_locked
  transport_up-Starts c (w, some e) same off = record {
    refused = λ on. absurd (cc (on, off));
    up = λ _ e. absurd (cc e);
    down = λ _ _. off;
  }
  transport_up-Starts c (w, none) same off =
      subscribed-Starts c w _ off same (subscribe_after-After _)

  pub start-Starts : (c : Client W U H) → Starts c (start transport c)
  unfolding start
  start-Starts c =
      if_cases {A = Client W U H × Option (GoError E)} (Starts c) c.started
        (λ on. record {
          refused = λ _. refl;
          up = λ off. absurd (cc (on, off));
          down = λ off. absurd (cc (on, off));
        })
        (λ off. transport_up-Starts c _ refl off)

  stop_fleet-stopped :
      (c : Client W U H) (fleet : Option (Session W U H))
      → c.started ≡ false
      → c.unsubs ≡ []
      → let c' = (stop_fleet transport c fleet).0 in (c'.started ≡ false) × (c'.unsubs ≡ [])
  unfolding stop_fleet
  stop_fleet-stopped c none off empty = (off, empty)
  stop_fleet-stopped c (some s) off empty = (off, empty)

  stop-off : (c : Client W U H) → (stop transport c).0.started ≡ false
  unfolding stop stop_started
  stop-off c =
      if_cases {A = Client W U H × Option (GoError E)} (λ r. r.0.started ≡ false) c.started
        (λ _. (stop_fleet-stopped (record c { started = false; unsubs = [] }) c.fleet refl refl).0)
        (λ off. off)

  -- After Stop the client is stopped, whatever errors there were, and a second Stop does nothing.
  pub stop-twice :
      (c : Client W U H)
      → let c' = (stop transport c).0 in (c'.started ≡ false) × (stop transport c' ≡ (c', none))
  unfolding stop
  stop-twice c =
      let off = stop-off c in
      (
        off,
        if_cases {A = Client W U H × Option (GoError E)} (λ r. r ≡ ((stop transport c).0, none))
            (stop transport c).0.started (λ on. absurd (cc (on, off))) (λ _. refl),
      )
