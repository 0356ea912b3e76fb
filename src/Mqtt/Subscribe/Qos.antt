-- ===== src/Mqtt/Subscribe/Qos.antt =====
-- internal/mqtt/transport.go subscribeQoS, on the filters that the client makes.
use navlink.Base.{◌≡◌, ap, subst, ◌++◌, ◌∷◌, append_assoc, arith, if◌then◌else◌, ◌==◌, nat_eq}
use navlink.Base.Text.{GoString, text, string_eq, str_beq, Lacks}
use navlink.Base.Suffix.{has_suffix, has_suffix-segment}
use navlink.Topic.{Resolver, build}
use navlink.Topic.Channels.{Channel}
use navlink.Topic.Channels
use navlink.Mqtt.Paho.{MqttConfig, subscribe_qos}

has_suffix-build :
    (r : Resolver) (m s : GoString) (ch : Channel)
    → Lacks b'/' ch
    → has_suffix (build r m s ch) (text "/visualization") ≡ str_beq ch Channels.visualization
unfolding build
has_suffix-build r m s ch h =
    subst (λ filter. has_suffix filter (text "/visualization") ≡ str_beq ch Channels.visualization)
      (simp append_assoc)
      (has_suffix-segment b'/' (r.interface ++ (b'/' ∷ (r.version ++ (b'/' ∷ (m ++ (b'/' ∷ s))))))
        Channels.visualization ch (ground arith) h)

-- A filter that the client builds for a channel is subscribed with the configured QoS, if that is
-- explicit; otherwise with 0 for visualization, and with the configured QoS, but at least 1, for
-- every other channel. The channel is one without a slash.
pub subscribe_qos-build :
    {T H L : Type 0} (cfg : MqttConfig T H L) (r : Resolver) (m s : GoString) (ch : Channel)
    → Lacks b'/' ch
    → subscribe_qos cfg (build r m s ch) ≡ (
        if cfg.qos_explicit
        then cfg.qos
        else if ch == Channels.visualization
        then 0
        else if cfg.qos == 0
        then 1
        else cfg.qos)
unfolding subscribe_qos
subscribe_qos-build cfg r m s ch h =
    ap
      (λ visualization.
        if cfg.qos_explicit
        then cfg.qos
        else if visualization
        then 0
        else if cfg.qos == 0
        then 1
        else cfg.qos)
      (has_suffix-build r m s ch h)
