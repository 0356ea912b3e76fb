-- ===== src/Mqtt/Lanes/Visual.antt =====
-- internal/mqtt/classify.go droppableTopic, by what the topic looks like.
use navlink.Base.{◌≤◌, ◌≡◌, ◌↔◌, refl, sym, ap, ◌∙◌, true, List, [], ◌∷◌, ◌++◌, arith}
use mathlib.Core.List.{reverse, reverse-cons, reverse-append, reverse-reverse}
use navlink.Base.Lists.{length-reverse, length}
use navlink.Base.Text.{GoString, text, string_eq, str_beq, str_beq_iff, split}
use navlink.Mqtt.Lanes.{droppable_parts, droppable_topic}

-- The last of at least five levels is "visualization".
pub record IsVisual (topic : GoString) : Type 0 where
  pub before : List GoString
  pub deep : 4 ≤ length before
  pub levels : split b'/' topic ≡ before ++ (text "visualization" ∷ [])

droppable_parts-levels :
    (ps : List GoString)
    → droppable_parts ps ≡ true
    → (rest : List GoString) × (ps ≡ text "visualization" ∷ rest) × (4 ≤ length rest)
unfolding droppable_parts
droppable_parts-levels (ch ∷ a ∷ b ∷ c ∷ d ∷ rest) h = (
  a ∷ b ∷ c ∷ d ∷ rest,
  ap (λ x. x ∷ (a ∷ b ∷ c ∷ d ∷ rest)) ((str_beq_iff ch (text "visualization")).0 h),
  omega arith,
)
droppable_parts-levels (_ ∷ _ ∷ _ ∷ _ ∷ []) h = absurd (cc h)
droppable_parts-levels (_ ∷ _ ∷ _ ∷ []) h = absurd (cc h)
droppable_parts-levels (_ ∷ _ ∷ []) h = absurd (cc h)
droppable_parts-levels (_ ∷ []) h = absurd (cc h)
droppable_parts-levels [] h = absurd (cc h)

droppable_parts_of_deep :
    (rest : List GoString) → 4 ≤ length rest → droppable_parts (text "visualization" ∷ rest) ≡ true
unfolding droppable_parts str_beq
droppable_parts_of_deep (a ∷ b ∷ c ∷ d ∷ rest) h = refl
droppable_parts_of_deep (_ ∷ _ ∷ _ ∷ []) h = absurd (omega arith)
droppable_parts_of_deep (_ ∷ _ ∷ []) h = absurd (omega arith)
droppable_parts_of_deep (_ ∷ []) h = absurd (omega arith)
droppable_parts_of_deep [] h = absurd (omega arith)

-- The topics of which a message may be thrown away.
pub droppable_topic_iff : (topic : GoString) → (droppable_topic topic ≡ true) ↔ IsVisual topic
unfolding droppable_topic
droppable_topic_iff topic = (to, of)
  where
    levels : List GoString
    levels = split b'/' topic

    to : droppable_parts (reverse levels) ≡ true → IsVisual topic
    to h =
        let (rest, same, deep) = droppable_parts-levels (reverse levels) h in
        record {
          before = reverse rest;
          deep = omega (arith, length-reverse rest);
          levels =
              sym (reverse-reverse levels)
              ∙ ap (λ l. reverse l) same
              ∙ reverse-cons (text "visualization") rest;
        }

    of : IsVisual topic → droppable_parts (reverse levels) ≡ true
    of v =
        ap (λ l. droppable_parts (reverse l)) v.levels
        ∙ ap (λ l. droppable_parts l) (reverse-append v.before (text "visualization" ∷ []))
        ∙ droppable_parts_of_deep (reverse v.before)
            (omega (arith, length-reverse v.before, v.deep))
