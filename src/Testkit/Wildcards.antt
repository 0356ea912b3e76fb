-- ===== src/Testkit/Wildcards.antt =====
-- testkit/fake_broker.go matchFilter over topic/resolver.go Wildcard.
use navlink.Base.{
  ◌≡◌, ◌≢◌, refl, sym, ap, ◌∙◌, ◌↔◌, Bool, true, false, ◌||◌, List, [], ◌∷◌, arith, ◌==◌,
  if◌then◌else◌, nat_eq, nat_beq_iff,
}
use navlink.Base.Lists.{length, All}
use navlink.Base.Text.{
  GoString, text, string_eq, str_beq, str_beq_iff, split, join, join-split, split-Lacks, Lacks,
}
use navlink.Topic.{Resolver, build, wildcard}
use navlink.Topic.Channels.{Channel}
use navlink.Topic.Laws.{split-build}
use navlink.Testkit.Filters.{match_filter, match_parts}

-- A level of a filter that is no wildcard.
abbrev pub IsPlain : GoString → Type 0
IsPlain s = Lacks b'/' s × (s ≢ text "+") × (s ≢ text "#")

-- The topic of some vehicle, in one interface, version and channel.
abbrev pub IsVehicleTopic : Resolver → Channel → GoString → Type 0
IsVehicleTopic r ch t =
    (m : GoString) × (s : GoString) × Lacks b'/' m × Lacks b'/' s × (build r m s ch ≡ t)

abbrev levels : Resolver → Channel → List GoString
levels r ch = r.interface ∷ r.version ∷ text "+" ∷ text "+" ∷ ch ∷ []

-- One plain level of the loop of matchFilter.
plain_level :
    (f t : GoString) (rest : Bool)
    → IsPlain f
    → (if f == text "+" || f == text "#" then rest else if f == t then rest else false) ≡ true
    → (f ≡ t) × (rest ≡ true)
plain_level f t rest (_, plus, hash) h =
    ground (arith, str_beq_iff f (text "+"), str_beq_iff f (text "#"), str_beq_iff f t)

plain_level_same :
    (f : GoString) (rest : Bool)
    → rest ≡ true
    → (if f == text "+" || f == text "#" then rest else if f == f then rest else false) ≡ true
plain_level_same f rest h = ground (arith, str_beq_iff f f)

matched-IsVehicleTopic :
    (r : Resolver) (ch : Channel) (t : GoString) (parts : List GoString)
    → IsPlain r.interface
    → IsPlain r.version
    → IsPlain ch
    → All (Lacks b'/') parts
    → join b'/' parts ≡ t
    → length (levels r ch) ≡ length parts
    → match_parts (levels r ch) parts ≡ true
    → IsVehicleTopic r ch t
unfolding match_parts join build str_beq
matched-IsVehicleTopic r ch t (i ∷ v ∷ m ∷ s ∷ c ∷ []) pi pv pc (_, (_, (hm, (hs, _)))) j _ h =
    let (same_i, h₁) = plain_level r.interface i _ pi h in
    let (same_v, h₂) = plain_level r.version v _ pv h₁ in
    let (same_c, _) = plain_level ch c true pc h₂ in
    (
      m,
      s,
      hm,
      hs,
      ap (λ x. join b'/' (x ∷ r.version ∷ m ∷ s ∷ ch ∷ [])) same_i
          ∙ ap (λ x. join b'/' (i ∷ x ∷ m ∷ s ∷ ch ∷ [])) same_v
          ∙ ap (λ x. join b'/' (i ∷ v ∷ m ∷ s ∷ x ∷ [])) same_c
          ∙ j,
    )
matched-IsVehicleTopic r ch t _ pi pv pc all j n h = absurd (omega arith)

vehicle_topic-matches :
    (r : Resolver) (ch : Channel) (m s : GoString)
    → match_parts (levels r ch) (r.interface ∷ r.version ∷ m ∷ s ∷ ch ∷ []) ≡ true
unfolding match_parts str_beq
vehicle_topic-matches r ch m s =
    plain_level_same r.interface _ (plain_level_same r.version _ (plain_level_same ch true refl))

-- matchFilter, of the levels of both.
abbrev matching : List GoString → List GoString → Bool
matching fp tp = if length fp == length tp then match_parts fp tp else false

matching-true :
    (fp tp : List GoString)
    → matching fp tp ≡ true
    → (length fp ≡ length tp) × (match_parts fp tp ≡ true)
matching-true fp tp h = ground (arith, nat_beq_iff (length fp) (length tp))

-- Where the interface, the version and the channel are plain levels, the filter of Wildcard receives
-- on the in-process broker exactly the topics that Build makes of that interface, version and channel
-- for a manufacturer and a serial number without a slash.
pub match_filter-wildcard :
    (r : Resolver) (ch : Channel) (t : GoString)
    → IsPlain r.interface
    → IsPlain r.version
    → IsPlain ch
    → (match_filter (wildcard r ch) t ≡ true) ↔ IsVehicleTopic r ch t
unfolding match_filter wildcard
match_filter-wildcard r ch t pi pv pc =
    let filter =
      split-build r (text "+") (text "+") ch pi.0 pv.0 (ground arith) (ground arith) pc.0 in
    (
      λ h.
          let (n, all) =
            matching-true (levels r ch) (split b'/' t)
              (ap (λ fp. matching fp (split b'/' t)) (sym filter) ∙ h) in
          matched-IsVehicleTopic r ch t (split b'/' t) pi pv pc (split-Lacks b'/' t)
            (join-split b'/' t) n all,
      λ (m, s, hm, hs, built).
          ap (λ x. match_filter (wildcard r ch) x) (sym built)
          ∙ ap (λ fp. matching fp (split b'/' (build r m s ch))) filter
          ∙ ap (matching (levels r ch)) (split-build r m s ch pi.0 pv.0 hm hs pc.0)
          ∙ vehicle_topic-matches r ch m s,
    )
