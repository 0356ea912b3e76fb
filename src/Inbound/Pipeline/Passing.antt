-- ===== src/Inbound/Pipeline/Passing.antt =====
-- inbound.go: what a message has passed once its envelope was made and it goes to the handlers.
use navlink.Base.{
  ℕ, ◌≡◌, refl, sym, subst, ap, ◌∙◌, ◌⊎◌, inl, inr, true, Option, none, some, [], arith, Bool-cases,
}
use navlink.Base.Result.{Result, ok, err}
use navlink.Base.Text.{GoString, string_eq, str_beq_iff}
use navlink.Errors.{Gerr, GoError}
use navlink.Config.{strict_identity}
use navlink.Topic.{ParseError}
use navlink.Topic.Channels.{Channel}
use navlink.Inbound.Policy.{Identity, Disposition}
use navlink.Inbound.{HeaderSummary, Envelope, is_typed}
use navlink.Inbound.Pipeline.{
  delivered, Inlet, Json, check_identity, policy_with, apply_inbound_policy, decoded, by_channel,
  identified, with_header,
}

-- A header names no vehicle, or the vehicle of the topic.
abbrev pub SameVehicle : HeaderSummary → Identity → Type 0
SameVehicle h agv =
    ((h.manufacturer ≡ []) × (h.serial_number ≡ []))
    ⊎ ((h.manufacturer ≡ agv.manufacturer) × (h.serial_number ≡ agv.serial_number))

-- Envelopes of the same message.
abbrev pub Same : {V : Type 0} → Envelope V → Envelope V → Type 0
Same env₀ env₁ =
    (env₁.agv ≡ env₀.agv)
    × (env₁.channel ≡ env₀.channel)
    × (env₁.raw ≡ env₀.raw)
    × (env₁.topic ≡ env₀.topic)

only : {h k : HeaderSummary} → some h ≡ some k → h ≡ k
only e = cc

module _ {E V P M : Type 0} ⦃g : Gerr E⦄ (json : Json M) (parse_message : ParseError → GoString)
    (inlet : Inlet E V P) where
  check_identity-SameVehicle :
      (env : Envelope V)
      → check_identity json parse_message inlet env ≡ none
      → strict_identity inlet.cfg ≡ true
      → SameVehicle env.header env.agv
  unfolding check_identity
  check_identity-SameVehicle env h strict = ground (
    arith,
    str_beq_iff env.header.manufacturer [],
    str_beq_iff env.header.serial_number [],
    str_beq_iff env.header.manufacturer env.agv.manufacturer,
    str_beq_iff env.header.serial_number env.agv.serial_number,
  )

  -- What a delivered message has passed after its envelope `env₀` was made.
  pub record Passed (env₀ : Envelope V) (header : Option HeaderSummary) (env : Envelope V) (msg : M)
      : Type 0 where
    pub agv : env.agv ≡ env₀.agv
    pub channel : env.channel ≡ env₀.channel
    pub raw : env.raw ≡ env₀.raw
    pub topic : env.topic ≡ env₀.topic
    pub typed : is_typed env₀.channel ≡ true
    pub payload : json.payload env₀.channel env₀.raw ≡ ok msg
    pub identity :
        (h : HeaderSummary)
        → header ≡ some h
        → strict_identity inlet.cfg ≡ true
        → SameVehicle h env₀.agv

  decoded-delivered :
      (env₀ env : Envelope V) (msg : M) (r : Result GoString M)
      → decoded json parse_message inlet env₀ r ≡ delivered env msg
      → (env₀ ≡ env) × (r ≡ ok msg)
  unfolding decoded
  decoded-delivered env₀ env msg (ok m) h = (cc, cc)
  decoded-delivered env₀ env msg (err why) h = cc

  by_channel-delivered :
      (p : P) (env₀ env : Envelope V) (msg : M)
      → (by_channel json parse_message inlet (p, env₀)).1 ≡ delivered env msg
      → (env₀ ≡ env)
        × (is_typed env₀.channel ≡ true)
        × (json.payload env₀.channel env₀.raw ≡ ok msg)
  unfolding by_channel
  by_channel-delivered p env₀ env msg h = elim (Bool-cases (is_typed env₀.channel)) [
    | inl typed ↦
        let (same, payload) = decoded-delivered env₀ env msg _ (rw typed at h) in
        (same, typed, payload)
    | inr other ↦ absurd (ground arith)
  ]

  by_channel-Passed :
      (p : P) (env₀ env₁ env : Envelope V) (msg : M) (header : Option HeaderSummary)
      → Same env₀ env₁
      → (by_channel json parse_message inlet (p, env₁)).1 ≡ delivered env msg
      → ((h : HeaderSummary)
          → header ≡ some h
          → strict_identity inlet.cfg ≡ true
          → SameVehicle h env₀.agv)
      → Passed env₀ header env msg
  by_channel-Passed p env₀ env₁ env msg header (agv, channel, raw, topic) h identity =
      let (same, typed, payload) = by_channel-delivered p env₁ env msg h in
      record {
        agv = ap (λ e. e.agv) (sym same) ∙ agv;
        channel = ap (λ e. e.channel) (sym same) ∙ channel;
        raw = ap (λ e. e.raw) (sym same) ∙ raw;
        topic = ap (λ e. e.topic) (sym same) ∙ topic;
        typed = ap is_typed (sym channel) ∙ typed;
        payload =
            ap (λ c. json.payload c env₀.raw) (sym channel)
            ∙ ap (json.payload env₁.channel) (sym raw)
            ∙ payload;
        identity = identity;
      }

  policed-Passed :
      (policy : Option (P → Identity → Channel → ℕ → P × Option Disposition)) (p : P)
      (env₀ env₁ env : Envelope V) (msg : M) (header : Option HeaderSummary)
      → Same env₀ env₁
      → (by_channel json parse_message inlet (policy_with json parse_message inlet policy p env₁)).1
        ≡ delivered env msg
      → ((h : HeaderSummary)
          → header ≡ some h
          → strict_identity inlet.cfg ≡ true
          → SameVehicle h env₀.agv)
      → Passed env₀ header env msg
  unfolding policy_with
  policed-Passed none p env₀ env₁ env msg header same h identity =
      by_channel-Passed p env₀ env₁ env msg header same h identity
  policed-Passed (some classify) p env₀ env₁ env msg header same h identity =
      by_channel-Passed _ env₀ _ env msg header same h identity

  identified-Passed :
      (p : P) (env₀ env : Envelope V) (msg : M) (h : HeaderSummary) (checked : Option (GoError E))
      → check_identity json parse_message inlet (record env₀ { header = h }) ≡ checked
      → (identified json parse_message inlet p (record env₀ { header = h }) checked).1
        ≡ delivered env msg
      → Passed env₀ (some h) env msg
  unfolding identified apply_inbound_policy
  identified-Passed p env₀ env msg h none e d =
      policed-Passed inlet.policy p env₀ (record env₀ { header = h }) env msg (some h)
        (refl, refl, refl, refl) d
        (λ h' same strict.
          subst (λ x. SameVehicle x env₀.agv) (only same)
            (check_identity-SameVehicle (record env₀ { header = h }) e strict))
  identified-Passed p env₀ env msg h (some x) e d = cc

  pub with_header-Passed :
      (p : P) (env₀ env : Envelope V) (msg : M) (header : Option HeaderSummary)
      → (with_header json parse_message inlet p env₀ header).1 ≡ delivered env msg
      → Passed env₀ header env msg
  unfolding with_header
  with_header-Passed p env₀ env msg none d =
      by_channel-Passed p env₀ env₀ env msg none (refl, refl, refl, refl) d (λ h e. absurd (cc e))
  with_header-Passed p env₀ env msg (some h) d = identified-Passed p env₀ env msg h _ refl d
