-- ===== src/Inbound/Policy/Watermark.antt =====
-- inbound_policy.go: a headerId is judged by the highest one that came before it.
use navlink.Base.{
  ℕ, ◌≡◌, refl, ◌∙◌, ap, Option, none, some, List, [], ◌∷◌, arith, if◌then◌else◌, ltb, ◌==◌, nat_eq,
}
use navlink.Base.Text.{GoString, string_eq, str_beq_iff}
use navlink.Base.Dict.{lookup, lookup-insert}
use navlink.Topic.Channels.{Channel}
use navlink.Inbound.Policy.{
  Disposition, accept, stale, duplicate, Identity, HeaderSequencePolicy, sequence_key,
  new_header_sequence_policy, classify_at, classify,
}

-- A message as the policy sees it.
pub record Seen : Type 0 where
  pub agv : Identity
  pub channel : Channel
  pub header_id : ℕ

-- The policy after some messages, the last one first.
unfoldable pub after : List Seen → HeaderSequencePolicy
after [] = new_header_sequence_policy
after (m ∷ before) = (classify (after before) m.agv m.channel m.header_id).0

abbrev pub higher : Option ℕ → ℕ → ℕ
higher none n = n
higher (some h) n = if ltb h n then n else h

-- The highest headerId under a key.
pub highest : GoString → List Seen → Option ℕ
highest key [] = none
highest key (m ∷ before) =
    let h = highest key before in
    if sequence_key m.agv m.channel == key then some (higher h m.header_id) else h

-- What the highest headerId so far says of the next one.
abbrev pub judge : Option ℕ → ℕ → Disposition
judge none n = accept
judge (some h) n = if n == h then duplicate else if ltb n h then stale else accept

classify_at-last :
    (p : HeaderSequencePolicy) (key : GoString) (n : ℕ) (found : Option ℕ) (j : GoString)
    → lookup key p.last ≡ found
    → lookup j (classify_at p key n found).0.last
      ≡ (if key == j then some (higher found n) else lookup j p.last)
unfolding classify_at
classify_at-last p key n none j e = ground (arith, lookup-insert key j n p.last, str_beq_iff key j)
classify_at-last p key n (some h) j e =
    ground (arith, lookup-insert key j n p.last, str_beq_iff key j)

last-highest :
    (before : List Seen) (key : GoString) → lookup key (after before).last ≡ highest key before
unfolding after highest classify new_header_sequence_policy lookup
last-highest [] key = refl
last-highest (m ∷ before) key =
    let k = sequence_key m.agv m.channel in
    classify_at-last (after before) k m.header_id _ key refl
    ∙ rw (last-highest before k, last-highest before key) (ground (arith, str_beq_iff k key))

-- The headerId of a message is new if it is above every earlier one of the same vehicle and channel,
-- a duplicate if it is the highest of them, and stale if it is below, whatever other messages came
-- in between. "The same" is the same key, which joins the three names by zero characters.
pub classify-judge :
    (before : List Seen) (agv : Identity) (channel : Channel) (n : ℕ)
    → (classify (after before) agv channel n).1
      ≡ judge (highest (sequence_key agv channel) before) n
unfolding classify
classify-judge before agv channel n =
    let key = sequence_key agv channel in
    judged (after before) key n _ ∙ ap (λ h. judge h n) (last-highest before key)
  where
    judged :
        (p : HeaderSequencePolicy) (key : GoString) (n : ℕ) (found : Option ℕ)
        → (classify_at p key n found).1 ≡ judge found n
    judged p key n none = refl
    judged p key n (some h) = ground arith
