-- ===== src/Topic/Examples.antt =====
-- topic/resolver.go: tests.
use navlink.Base.{◌≡◌, refl, ◌↔◌}
use navlink.Base.Result.{ok, err}
use navlink.Base.Text.{text, str_beq}
use navlink.Topic.{Resolver, ParsedTopic, want_5_segments, unknown_channel, wildcard, parse}
use navlink.Topic.Channels
use navlink.Topic.Laws.{IsTopic, parse_iff}

abbrev uagv : Resolver
uagv = record { interface = text "uagv"; version = text "v2" }

wildcard_test : wildcard uagv Channels.state ≡ text "uagv/v2/+/+/state"
unfolding wildcard
wildcard_test = refl

parse_test :
    parse uagv (text "uagv/v2/ACME/AGV-1/state")
    ≡ ok (record {
      interface = text "uagv";
      version = text "v2";
      manufacturer = text "ACME";
      serial_number = text "AGV-1";
      channel = Channels.state;
    })
unfolding parse str_beq
parse_test = refl

parse_errors :
    (parse uagv (text "uagv/v2/state") ≡ err (want_5_segments (text "uagv/v2/state")))
    × (parse uagv (text "a/b/c/d/e") ≡ err (unknown_channel (text "e") (text "a/b/c/d/e")))
unfolding parse str_beq
parse_errors = (refl, refl)

abbrev agv_1 : ParsedTopic
agv_1 = record {
  interface = text "uagv";
  version = text "v2";
  manufacturer = text "ACME";
  serial_number = text "AGV-1";
  channel = Channels.state;
}

parse_iff_example :
    (parse uagv (text "uagv/v2/ACME/AGV-1/state") ≡ ok agv_1)
    ↔ IsTopic agv_1 (text "uagv/v2/ACME/AGV-1/state")
parse_iff_example = parse_iff uagv (text "uagv/v2/ACME/AGV-1/state") agv_1
