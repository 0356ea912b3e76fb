-- ===== src/Mqtt/Lanes/Laws.antt =====
-- internal/mqtt/classify.go: where the topics go that topic/resolver.go parses.
use navlink.Base.{◌≡◌, ap, ◌∙◌, [], ◌∷◌, ◌==◌, ◌⊎◌, inl, inr}
use mathlib.Core.List.{reverse}
use navlink.Base.Result.{ok}
use navlink.Base.Text.{GoString, string_eq, str_beq, split}
use navlink.Topic.{Resolver, ParsedTopic, parse}
use navlink.Topic.Channels
use navlink.Topic.Laws.{IsTopic, resolver_of, parse_iff, split-build, valid_channel-Lacks}
use navlink.Session.{Agv, key}
use navlink.Mqtt.Lanes.{
  lane_connection, lane_agv, lane_topic, lane_of, classify_parts, classify_inbound, droppable_parts,
  droppable_topic,
}

-- The vehicle of a parsed topic.
abbrev pub vehicle : ParsedTopic → Agv
vehicle p = record { manufacturer = p.manufacturer; serial_number = p.serial_number }

-- The lane of each channel, with the key of the vehicle.
pub record Routes (t : GoString) (p : ParsedTopic) : Type 0 where
  pub connection :
      p.channel ≡ Channels.connection → classify_inbound t ≡ (lane_connection, key (vehicle p))
  pub agv :
      (p.channel ≡ Channels.state)
        ⊎ ((p.channel ≡ Channels.visualization) ⊎ (p.channel ≡ Channels.factsheet))
      → classify_inbound t ≡ (lane_agv, key (vehicle p))
  pub outbound :
      (p.channel ≡ Channels.order) ⊎ (p.channel ≡ Channels.instant_actions)
      → classify_inbound t ≡ (lane_topic, [])
  pub droppable : droppable_topic t ≡ (p.channel == Channels.visualization)

segments :
    (t : GoString) (p : ParsedTopic)
    → IsTopic p t
    → split b'/' t ≡ p.interface ∷ p.version ∷ p.manufacturer ∷ p.serial_number ∷ p.channel ∷ []
segments t p h = rw (← h.built) (
    split-build (resolver_of p) _ _ _ h.interface h.version h.manufacturer h.serial_number
      (valid_channel-Lacks p.channel h.channel))

classify_parsed :
    (t : GoString) (p : ParsedTopic)
    → IsTopic p t
    → classify_inbound t ≡ lane_of p.channel (key (vehicle p))
unfolding classify_inbound
classify_parsed t p h = ap (λ ps. classify_parts (reverse ps)) (segments t p h)

-- A topic that Parse accepts goes to the lane of its channel under the key that the fleet session has
-- for its vehicle: connection to the coalescing lane, state, visualization and factsheet to the
-- vehicle's queue, order and instantActions to the queue of other topics; only visualization may be
-- dropped.
pub parsed-Routes : (r : Resolver) (t : GoString) (p : ParsedTopic) → parse r t ≡ ok p → Routes t p
unfolding lane_of str_beq droppable_topic
parsed-Routes r t p h =
    let topic = (parse_iff r t p).0 h in
    let lane = classify_parsed t p topic in
    record {
      connection = λ e. lane ∙ ap (λ c. lane_of c (key (vehicle p))) e;
      agv = elim [
        | inl e ↦ lane ∙ ap (λ c. lane_of c (key (vehicle p))) e
        | inr (inl e) ↦ lane ∙ ap (λ c. lane_of c (key (vehicle p))) e
        | inr (inr e) ↦ lane ∙ ap (λ c. lane_of c (key (vehicle p))) e
      ];
      outbound = elim [
        | inl e ↦ lane ∙ ap (λ c. lane_of c (key (vehicle p))) e
        | inr e ↦ lane ∙ ap (λ c. lane_of c (key (vehicle p))) e
      ];
      droppable = ap (λ ps. droppable_parts (reverse ps)) (segments t p topic);
    }
