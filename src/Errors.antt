-- ===== src/Errors.antt =====
-- internal/gerrors/code.go and the error values of the other packages. The package glitch/gerr,
-- whose *gerr.Error every coded error is, is a parameter: a type with the operations that the code
-- calls, `Gerr`.
pub mod Kinds
pub mod Sample
use navlink.Base.{ℕ, ◌≡◌, Bool, true, false, Option, none, some}
use navlink.Base.Text.{GoString}
use Kinds.{ErrorKind, kind_beq}

-- The values that the code attaches as metadata.
pub data Value : Type 0 where
  str : GoString → Value
  byte : ℕ → Value

-- What the code uses of gerr: the registered errors, With, Args, and errors.Is against a
-- registered error. With and Args add metadata and arguments, and keep what errors.Is looks at.
pub record Gerr (E : Type 0) : Type 0 where
  pub base : ErrorKind → E
  pub with_metadata : E → GoString → Value → E
  pub with_args : E → GoString → E
  pub matches : E → ErrorKind → Bool
  pub matches-base : (k j : ErrorKind) → matches (base k) j ≡ kind_beq k j
  pub matches-with_metadata :
      (e : E) (key : GoString) (value : Value) (j : ErrorKind)
      → matches (with_metadata e key value) j ≡ matches e j
  pub matches-with_args :
      (e : E) (a : GoString) (j : ErrorKind) → matches (with_args e a) j ≡ matches e j

-- The error values that the code makes or passes on. A *gerr.Error wraps no other error.
pub data GoError (E : Type 0) : Type 0 where
  coded : E → GoError E
  canceled : GoError E
  deadline_exceeded : GoError E
  attempted : GoError E → GoError E
  mqtt_attempted : GoError E → GoError E
  message : GoString → GoError E
  wrapped : GoString → GoError E → GoError E

module _ {E : Type 0} ⦃g : Gerr E⦄ where
  -- gerrors.X
  abbrev pub raise : ErrorKind → GoError E
  raise k = coded (g.base k)

  -- gerrors.NewXWithArgs(a), and X.Args(a)
  abbrev pub raise_args : ErrorKind → GoString → GoError E
  raise_args k a = coded (g.with_args (g.base k) a)

  -- gerrors.X.With(key, value)
  abbrev pub raise_with : ErrorKind → GoString → Value → GoError E
  raise_with k key value = coded (g.with_metadata (g.base k) key value)

  -- errors.Is(err, gerrors.X), along the chain of Unwrap
  unfoldable pub is_kind : ErrorKind → GoError E → Bool
  is_kind k (coded e) = g.matches e k
  is_kind k canceled = false
  is_kind k deadline_exceeded = false
  is_kind k (attempted e) = is_kind k e
  is_kind k (mqtt_attempted e) = is_kind k e
  is_kind k (message _) = false
  is_kind k (wrapped _ e) = is_kind k e

module _ {E : Type 0} where
  -- errors.Is(err, context.Canceled)
  unfoldable pub is_canceled : GoError E → Bool
  is_canceled (coded e) = false
  is_canceled canceled = true
  is_canceled deadline_exceeded = false
  is_canceled (attempted e) = is_canceled e
  is_canceled (mqtt_attempted e) = is_canceled e
  is_canceled (message _) = false
  is_canceled (wrapped _ e) = is_canceled e

  -- errors.Is(err, context.DeadlineExceeded)
  unfoldable pub is_deadline_exceeded : GoError E → Bool
  is_deadline_exceeded (coded e) = false
  is_deadline_exceeded canceled = false
  is_deadline_exceeded deadline_exceeded = true
  is_deadline_exceeded (attempted e) = is_deadline_exceeded e
  is_deadline_exceeded (mqtt_attempted e) = is_deadline_exceeded e
  is_deadline_exceeded (message _) = false
  is_deadline_exceeded (wrapped _ e) = is_deadline_exceeded e

  -- errors.As(err, &att) for *mqtt.AttemptedError, with what it wraps
  unfoldable pub as_mqtt_attempted : GoError E → Option (GoError E)
  as_mqtt_attempted (coded e) = none
  as_mqtt_attempted canceled = none
  as_mqtt_attempted deadline_exceeded = none
  as_mqtt_attempted (attempted e) = as_mqtt_attempted e
  as_mqtt_attempted (mqtt_attempted e) = some e
  as_mqtt_attempted (message _) = none
  as_mqtt_attempted (wrapped _ e) = as_mqtt_attempted e
