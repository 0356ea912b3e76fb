-- ===== src/Inbound/Policy.antt =====
-- inbound_policy.go: HeaderSequencePolicy, the last accepted headerId of each vehicle and channel.
pub mod Watermark
use navlink.Base.{ℕ, Option, none, some, List, [], ◌∷◌, ◌++◌, if◌then◌else◌, ltb, ◌==◌, nat_eq}
use navlink.Base.Text.{GoString, string_eq}
use navlink.Base.Dict.{lookup, insert}
use navlink.Topic.Channels.{Channel}

-- InboundDisposition
pub data Disposition : Type 0 where
  accept stale duplicate : Disposition

-- Identity
pub record Identity : Type 0 where
  pub manufacturer : GoString
  pub serial_number : GoString

-- HeaderSequencePolicy
pub record HeaderSequencePolicy : Type 0 where
  pub last : List (GoString × ℕ)

-- The key of Classify: a zero character between the parts.
abbrev pub sequence_key : Identity → Channel → GoString
sequence_key agv channel = agv.manufacturer ++ (0 ∷ (agv.serial_number ++ (0 ∷ channel)))

-- NewHeaderSequencePolicy
unfoldable pub new_header_sequence_policy : HeaderSequencePolicy
new_header_sequence_policy = record { last = [] }

-- Classify, after the look into the map
classify_at : HeaderSequencePolicy → GoString → ℕ → Option ℕ → HeaderSequencePolicy × Disposition
classify_at p key header_id none = (record p { last = insert key header_id p.last }, accept)
classify_at p key header_id (some prev) =
    if header_id == prev
    then (p, duplicate)
    else if ltb header_id prev
    then (p, stale)
    else (record p { last = insert key header_id p.last }, accept)

-- Classify, of a policy that is not nil
unfoldable pub classify :
    HeaderSequencePolicy → Identity → Channel → ℕ → HeaderSequencePolicy × Disposition
unfolding classify_at
classify p agv channel header_id =
    classify_at p (sequence_key agv channel) header_id (lookup (sequence_key agv channel) p.last)
