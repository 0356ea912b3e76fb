-- ===== src/Session/Effects.antt =====
-- internal/session/fleet.go: which vehicles a session tracks, and which hooks it calls.
use navlink.Base.{◌≡◌, ◌≢◌, ◌⊎◌, Bool, Option, none, ◌++◌}
use navlink.Base.Result.{Result}
use navlink.Base.Text.{GoString, string_eq}
use navlink.Base.Dict.{lookup}
use navlink.Errors.{GoError}
use navlink.Session.Broker.{Net}
use navlink.Session.{Agv, key, Session, online, offline, hook_calls}

-- The session tracks a vehicle.
abbrev pub IsTracked : {W U H : Type 0} → Session W U H → Agv → Type 0
IsTracked s agv = lookup (key agv) s.tracked ≢ none

module _ {E W U H : Type 0} (net : Net E W U) where
  -- What track does to the map and to the hooks, by its error and by whether the vehicle was tracked.
  pub record Tracks (s : Session W U H) (agv : Agv) (notify : Bool)
      (r : Session W U H × Option (GoError E)) : Type 0 where
    pub tracked : r.1 ≡ none → IsTracked r.0 agv
    pub others : (k : GoString) → k ≢ key agv → lookup k r.0.tracked ≡ lookup k s.tracked
    pub called :
        r.1 ≡ none
        → lookup (key agv) s.tracked ≡ none
        → r.0.calls ≡ s.calls ++ hook_calls notify online s.on_online agv
    pub quiet : ((r.1 ≢ none) ⊎ IsTracked s agv) → (r.0.calls ≡ s.calls) × (r.0.tracked ≡ s.tracked)

  -- The same of untrack: the entry goes whatever the unsubscribes report.
  pub record Untracks (s : Session W U H) (agv : Agv) (notify : Bool)
      (r : Session W U H × Option (GoError E)) : Type 0 where
    pub forgotten : lookup (key agv) r.0.tracked ≡ none
    pub others : (k : GoString) → k ≢ key agv → lookup k r.0.tracked ≡ lookup k s.tracked
    pub called : IsTracked s agv → r.0.calls ≡ s.calls ++ hook_calls notify offline s.on_offline agv
    pub quiet : lookup (key agv) s.tracked ≡ none → (r.0 ≡ s) × (r.1 ≡ none)
