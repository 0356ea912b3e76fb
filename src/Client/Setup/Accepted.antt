-- ===== src/Client/Setup/Accepted.antt =====
-- client.go New and internal/mqtt/transport.go Start: the two checks of a configuration.
use navlink.Base.{◌≡◌, refl, false, true, Option, none, some, ◌⊎◌, inl, inr, Bool, [], ◌∷◌}
use navlink.Base.Text.{GoString, is_blank, str_beq, string_eq}
use navlink.Errors.{Gerr}
use navlink.Config.{Config, LastWill, validate}
use navlink.Config.Laws.{WillPasses, validate_iff}
use navlink.Mqtt.Paho.{check_config, WillTaken, check_config-none}
use navlink.Client.Setup.{Settings, mqtt_config, will_of}

not_blank : (s : GoString) → is_blank s ≡ false → str_beq s [] ≡ false
unfolding is_blank str_beq
not_blank [] h = h
not_blank (c ∷ s) h = refl

will_of-WillTaken : (w : Option LastWill) → WillPasses w → WillTaken (will_of w)
will_of-WillTaken none h = tt
will_of-WillTaken (some w) h = h

built_in : {P : Type 0} (given : Bool) → given ≡ false → (given ≡ true) ⊎ P → P
built_in given off (inl on) = absurd (cc (on, off))
built_in given off (inr p) = p

-- A configuration that New accepts without a transport of its own passes the checks that Start of
-- the MQTT transport makes of what New hands it.
pub accepted-check_config :
    (E H L : Type 0) ⦃g : Gerr E⦄ {T : Type 0} (c : Config) (s : Settings T)
    → validate {E = E} c ≡ none
    → c.has_transport ≡ false
    → check_config {E = E} (mqtt_config {H = H} {L = L} c s) ≡ none
unfolding mqtt_config
accepted-check_config E H L c s accepted own =
    let p = (validate_iff E c).0 accepted in
    check_config-none (mqtt_config c s) (not_blank c.broker (built_in c.has_transport own p.broker))
      (not_blank c.client_id (built_in c.has_transport own p.client_id))
      (will_of-WillTaken c.will p.will)
