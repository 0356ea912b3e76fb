-- ===== src/Topic.antt =====
-- topic/resolver.go: VDA5050 topics, built from and split into their five segments.
pub mod Channels
pub mod Laws
mod Examples
use navlink.Base.{Bool, ◌||◌, List, [], ◌∷◌, ◌++◌, if◌then◌else◌, ◌==◌}
use navlink.Base.Result.{Result, ok, err}
use navlink.Base.Text.{GoString, text, string_eq, split}
use Channels.{Channel}
use Channels

-- Resolver
pub record Resolver : Type 0 where
  pub interface : GoString
  pub version : GoString

pub record ParsedTopic : Type 0 where
  pub interface : GoString
  pub version : GoString
  pub manufacturer : GoString
  pub serial_number : GoString
  pub channel : Channel

-- The two errors of Parse, with what their messages name.
pub data ParseError : Type 0 where
  want_5_segments : GoString → ParseError
  unknown_channel : GoString → GoString → ParseError

-- Build
unfoldable pub build : Resolver → GoString → GoString → Channel → GoString
build r manufacturer serial ch =
    r.interface
    ++ (b'/' ∷ (r.version ++ (b'/' ∷ (manufacturer ++ (b'/' ∷ (serial ++ (b'/' ∷ ch)))))))

-- Wildcard
unfoldable pub wildcard : Resolver → Channel → GoString
unfolding build
wildcard r ch = build r (text "+") (text "+") ch

-- ValidChannel
pub valid_channel : Channel → Bool
valid_channel ch =
    ch == Channels.order
    || ch == Channels.instant_actions
    || ch == Channels.state
    || ch == Channels.visualization
    || ch == Channels.connection
    || ch == Channels.factsheet

-- Parse, of the segments
parse_parts : GoString → List GoString → Result ParseError ParsedTopic
parse_parts topic (i ∷ v ∷ m ∷ s ∷ ch ∷ []) =
    if valid_channel ch
    then ok
        (record { interface = i; version = v; manufacturer = m; serial_number = s; channel = ch })
    else err (unknown_channel ch topic)
parse_parts topic _ = err (want_5_segments topic)

-- Parse; the receiver's own interface and version are not looked at.
unfoldable pub parse : Resolver → GoString → Result ParseError ParsedTopic
unfolding parse_parts split valid_channel
parse r topic = parse_parts topic (split b'/' topic)
