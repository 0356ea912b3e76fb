-- ===== src/Agv/Builder.antt =====
-- internal/outbound/builder.go: the defaults that are written into an outbound message.
use navlink.Base.{Option, none, some, if◌then◌else◌, ◌==◌, []}
use navlink.Base.Text.{GoString, string_eq}
use navlink.Agv.Messages.{Header, Order, InstantActions}

-- Builder, with its clock's reading in TimestampLayout.
pub record Builder : Type 0 where
  pub version : GoString
  pub now : GoString

-- NewBuilder, with what the system's clock reads.
unfoldable pub new_builder : GoString → GoString → Builder
new_builder version now = record { version = version; now = now }

-- SetClock, by what the new clock reads; a nil clock is ignored.
unfoldable pub set_clock : Builder → Option GoString → Builder
set_clock b none = b
set_clock b (some now) = record b { now = now }

-- ApplyHeader
apply_header : Builder → GoString → GoString → Header → Header
apply_header b manufacturer serial h = record h {
  manufacturer = if h.manufacturer == [] then manufacturer else h.manufacturer;
  serial_number = if h.serial_number == [] then serial else h.serial_number;
  version = b.version;
  timestamp = b.now;
}

-- PrepareOrder
unfoldable pub prepare_order : {R : Type 0} → Builder → GoString → GoString → Order R → Order R
unfolding apply_header
prepare_order b manufacturer serial o = record o {
  header = apply_header b manufacturer serial o.header;
}

-- PrepareInstantActions
unfoldable pub prepare_instant_actions :
    {V : Type 0} → Builder → GoString → GoString → InstantActions V → InstantActions V
unfolding apply_header
prepare_instant_actions b manufacturer serial ia = record ia {
  header = apply_header b manufacturer serial ia.header;
}
