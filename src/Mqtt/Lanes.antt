-- ===== src/Mqtt/Lanes.antt =====
-- internal/mqtt/classify.go: the lane of an inbound topic.
pub mod Laws
pub mod Visual
use navlink.Base.{Bool, true, false, ◌||◌, List, [], ◌∷◌, ◌++◌, if◌then◌else◌, ◌==◌}
use mathlib.Core.List.{reverse}
use navlink.Base.Text.{GoString, text, string_eq, split}

-- inboundLane
pub data Lane : Type 0 where
  lane_connection lane_agv lane_topic : Lane

-- The switch on the channel of classifyInbound, with the key manufacturer/serial.
lane_of : GoString → GoString → Lane × GoString
lane_of channel key =
    if channel == text "connection"
    then (lane_connection, key)
    else if channel == text "state"
        || channel == text "visualization"
        || channel == text "factsheet"
    then (lane_agv, key)
    else (lane_topic, [])

-- classifyInbound, of the segments from the last to the first; fewer than five are another topic.
classify_parts : List GoString → Lane × GoString
unfolding lane_of
classify_parts (channel ∷ sn ∷ mfr ∷ _ ∷ _ ∷ _) = lane_of channel (mfr ++ (b'/' ∷ sn))
classify_parts _ = (lane_topic, [])

-- classifyInbound
pub classify_inbound : GoString → Lane × GoString
unfolding classify_parts
classify_inbound topic = classify_parts (reverse (split b'/' topic))

droppable_parts : List GoString → Bool
droppable_parts (channel ∷ _ ∷ _ ∷ _ ∷ _ ∷ _) = channel == text "visualization"
droppable_parts _ = false

-- droppableTopic
pub droppable_topic : GoString → Bool
unfolding droppable_parts
droppable_topic topic = droppable_parts (reverse (split b'/' topic))
