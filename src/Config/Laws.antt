-- ===== src/Config/Laws.antt =====
-- config.go: what a validated configuration guarantees.
use navlink.Base.{◌≤◌, ◌≡◌, ◌↔◌, ◌⊎◌, true, false, Option, none, some, arith}
use navlink.Base.Text.{is_blank}
use navlink.Errors.{Gerr}
use navlink.Config.{Config, LastWill, validate}

abbrev pub WillPasses : Option LastWill → Type 0
WillPasses none = Unit
WillPasses (some w) = (is_blank w.topic ≡ false) × (w.qos ≤ 2)

-- What New requires.
pub record Passes (c : Config) : Type 0 where
  pub interface : is_blank c.interface ≡ false
  pub version : is_blank c.version ≡ false
  pub broker : (c.has_transport ≡ true) ⊎ (is_blank c.broker ≡ false)
  pub client_id : (c.has_transport ≡ true) ⊎ (is_blank c.client_id ≡ false)
  pub will : WillPasses c.will

-- New accepts a configuration exactly if its interface and version are not blank, a built-in
-- transport has a broker and a client id, and a last will has a topic and a QoS of at most 2.
pub validate_iff : (E : Type 0) ⦃g : Gerr E⦄ (c : Config) → (validate {E = E} c ≡ none) ↔ Passes c
unfolding validate
validate_iff E c = ground arith
