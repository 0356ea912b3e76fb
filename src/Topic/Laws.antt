-- ===== src/Topic/Laws.antt =====
-- topic/resolver.go: Parse inverts Build, and accepts nothing else.
use navlink.Base.{◌≡◌, subst, ◌↔◌, ◌⊎◌, inl, inr, true, List, [], ◌∷◌, arith, Bool-cases}
use navlink.Base.Lists.{All}
use navlink.Base.Result.{ok, ok-injective}
use navlink.Base.Text.{
  GoString, str_beq, str_beq_iff, split, join, Lacks, split-append, split_single, join-split,
  split-Lacks,
}
use navlink.Topic.{Resolver, ParsedTopic, build, valid_channel, parse_parts, parse}
use navlink.Topic.Channels.{Channel}
use navlink.Topic.Channels

eq-Lacks : (ch name : Channel) → Lacks b'/' name → str_beq ch name ≡ true → Lacks b'/' ch
eq-Lacks ch name h e = rw ((str_beq_iff ch name).0 e) h

valid_channel_cases :
    (ch : Channel)
    → valid_channel ch ≡ true
    → (str_beq ch Channels.order ≡ true)
      ⊎ ((str_beq ch Channels.instant_actions ≡ true)
          ⊎ ((str_beq ch Channels.state ≡ true)
              ⊎ ((str_beq ch Channels.visualization ≡ true)
                  ⊎ ((str_beq ch Channels.connection ≡ true)
                      ⊎ (str_beq ch Channels.factsheet ≡ true)))))
unfolding valid_channel
valid_channel_cases ch h = ground arith

pub valid_channel-Lacks : (ch : Channel) → valid_channel ch ≡ true → Lacks b'/' ch
valid_channel-Lacks ch h = elim (valid_channel_cases ch h) [
  | inl e ↦ eq-Lacks ch Channels.order (omega arith) e
  | inr (inl e) ↦ eq-Lacks ch Channels.instant_actions (omega arith) e
  | inr (inr (inl e)) ↦ eq-Lacks ch Channels.state (omega arith) e
  | inr (inr (inr (inl e))) ↦ eq-Lacks ch Channels.visualization (omega arith) e
  | inr (inr (inr (inr (inl e)))) ↦ eq-Lacks ch Channels.connection (omega arith) e
  | inr (inr (inr (inr (inr e)))) ↦ eq-Lacks ch Channels.factsheet (omega arith) e
]

-- The resolver that a parsed topic was built with.
abbrev pub resolver_of : ParsedTopic → Resolver
resolver_of p = record { interface = p.interface; version = p.version }

-- Five segments without a slash, the last one a known channel.
pub record IsTopic (p : ParsedTopic) (t : GoString) : Type 0 where
  pub built : build (resolver_of p) p.manufacturer p.serial_number p.channel ≡ t
  pub interface : Lacks b'/' p.interface
  pub version : Lacks b'/' p.version
  pub manufacturer : Lacks b'/' p.manufacturer
  pub serial_number : Lacks b'/' p.serial_number
  pub channel : valid_channel p.channel ≡ true

pub split-build :
    (r : Resolver) (m s : GoString) (ch : Channel)
    → Lacks b'/' r.interface
    → Lacks b'/' r.version
    → Lacks b'/' m
    → Lacks b'/' s
    → Lacks b'/' ch
    → split b'/' (build r m s ch) ≡ r.interface ∷ r.version ∷ m ∷ s ∷ ch ∷ []
unfolding build
split-build r m s ch hi hv hm hs hc = rw (
  split-append _ r.interface _ hi,
  split-append _ r.version _ hv,
  split-append _ m _ hm,
  split-append _ s _ hs,
  split_single _ ch hc,
)

parse_complete : (r : Resolver) (p : ParsedTopic) (t : GoString) → IsTopic p t → parse r t ≡ ok p
unfolding parse
parse_complete r p t h = rw (
  ← h.built,
  split-build (resolver_of p) _ _ _ h.interface h.version h.manufacturer h.serial_number
      (valid_channel-Lacks p.channel h.channel),
  h.channel,
)

parse_parts_sound :
    (t : GoString) (parts : List GoString) (p : ParsedTopic)
    → All (Lacks b'/') parts
    → join b'/' parts ≡ t
    → parse_parts t parts ≡ ok p
    → IsTopic p t
unfolding parse_parts join build
parse_parts_sound t (i ∷ v ∷ m ∷ s ∷ ch ∷ []) p (hi, (hv, (hm, (hs, _)))) j e =
    elim (Bool-cases (valid_channel ch)) [
      | inl known ↦
          subst (λ q. IsTopic q t) (ok-injective (rw known at e))
            (record {
              built = j;
              interface = hi;
              version = hv;
              manufacturer = hm;
              serial_number = hs;
              channel = known;
            })
      | inr unknown ↦ ground arith
    ]
parse_parts_sound t _ p h j e = cc

-- Parse accepts a topic exactly when it is the Build of five slash-free segments that end in a
-- known channel, and returns those segments, whatever the receiver is.
pub parse_iff : (r : Resolver) (t : GoString) (p : ParsedTopic) → (parse r t ≡ ok p) ↔ IsTopic p t
unfolding parse
parse_iff r t p = (
  λ e. parse_parts_sound t (split b'/' t) p (split-Lacks b'/' t) (join-split b'/' t) e,
  parse_complete r p t,
)
