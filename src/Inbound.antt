-- ===== src/Inbound.antt =====
-- inbound.go, envelope.go and handlers.go: from a raw message to the handlers of the client. What
-- json.Unmarshal makes of a payload, IdentityMapper and the handlers are parameters; `X` is the state
-- that handlers and callbacks work on.
pub mod Policy
pub mod Registry
pub mod Pipeline
pub mod Timing
pub mod Topics
mod Examples
use navlink.Base.{ℕ, Bool, ◌||◌, ◌&&◌, not, Option, none, some, List, [], if◌then◌else◌, ◌==◌}
use navlink.Base.Text.{GoString, string_eq}
use navlink.Errors.{GoError}
use navlink.Topic.{ParsedTopic}
use navlink.Topic.Channels.{Channel}
use navlink.Topic.Channels
use Policy.{Identity, Disposition}

-- HeaderSummary
pub record HeaderSummary : Type 0 where
  pub header_id : ℕ
  pub timestamp : GoString
  pub version : GoString
  pub manufacturer : GoString
  pub serial_number : GoString

-- Envelope, without its two times; `V` is the type of the values in Meta, of which the disposition's
-- entry is left out, since `disposition` holds it.
pub record Envelope (V : Type 0) : Type 0 where
  pub agv : Identity
  pub topic : GoString
  pub channel : Channel
  pub raw : List ℕ
  pub header : HeaderSummary
  pub meta : List (GoString × V)
  pub robot_id : GoString
  pub disposition : Option Disposition

abbrev pub no_header : HeaderSummary
no_header = record {
  header_id = 0;
  timestamp = [];
  version = [];
  manufacturer = [];
  serial_number = [];
}

-- The envelope of a topic that Parse refuses.
abbrev pub bare_envelope : {V : Type 0} → GoString → List ℕ → Envelope V
bare_envelope topic raw = record {
  agv = record { manufacturer = []; serial_number = [] };
  topic = topic;
  channel = [];
  raw = raw;
  header = no_header;
  meta = [];
  robot_id = [];
  disposition = none;
}

abbrev pub identity_of : ParsedTopic → Identity
identity_of p = record { manufacturer = p.manufacturer; serial_number = p.serial_number }

-- cfg.IdentityMapper(…), if it is set
abbrev pub robot_of : Option (GoString → GoString → GoString) → ParsedTopic → GoString
robot_of none p = []
robot_of (some mapper) p = mapper p.manufacturer p.serial_number

-- The envelope of a parsed topic.
abbrev pub parsed_envelope :
    {V : Type 0}
    → Option (GoString → GoString → GoString)
    → ParsedTopic
    → GoString
    → List ℕ
    → Envelope V
parsed_envelope mapper p topic raw = record (bare_envelope topic raw) {
  agv = identity_of p;
  channel = p.channel;
  robot_id = robot_of mapper p;
}

-- The channels that have a typed handler.
abbrev pub is_typed : Channel → Bool
is_typed ch =
    ch == Channels.state
    || ch == Channels.connection
    || ch == Channels.visualization
    || ch == Channels.factsheet
