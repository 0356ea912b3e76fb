-- ===== src/Bus/Order.antt =====
-- internal/bus/memory.go: the subscribers of an event, in the order of registration.
use navlink.Base.{
  ℕ, ◌+◌, ◌≤◌, ◌≡◌, ◌≢◌, refl, sym, ap, subst, ◌∙◌, true, Option, some, List, [], ◌∷◌, ◌++◌, arith,
  if_cases, nat_eq, nat_beq, if◌then◌else◌,
}
use navlink.Base.Lists.{All, All-append}
use navlink.Base.Text.{GoString, string_eq, str_beq, str_beq_iff}
use navlink.Base.Dict.{lookup, insert, lookup-insert}
use navlink.Bus.{
  Subscription, Memory, or_none, subscribers, subscribe, remove_id, has_id, unsubscribe,
}

module _ {D : Type 0} where
  -- The subscribers of an event after its list was written.
  subscribers-insert :
      (m : List (GoString × List (Subscription D))) (event read : GoString)
      (list : List (Subscription D))
      → or_none (lookup read (insert event list m))
        ≡ (if str_beq event read then list else or_none (lookup read m))
  subscribers-insert m event read list =
      ap or_none (lookup-insert event read list m)
      ∙ if_cases {A = Option (List (Subscription D))}
          (λ o. or_none o ≡ (if str_beq event read then list else or_none (lookup read m)))
          (str_beq event read) (λ e. rw e) (λ e. rw e)

  -- No identifier is ahead of the counter.
  abbrev pub IsCounted : Memory D → Type 0
  IsCounted m = (event : GoString) → All (λ s. s.id ≤ m.next_id) (subscribers m event)

  All-remove_id :
      (P : Subscription D → Type 0) (id : ℕ) (list : List (Subscription D))
      → All P list
      → All P (remove_id id list)
  unfolding remove_id
  All-remove_id P id [] h = h
  All-remove_id P id (s ∷ list) (p, h) =
      if_cases {A = List (Subscription D)} (All P) (nat_beq s.id id) (λ _. h)
        (λ _. (p, All-remove_id P id list h))

  All-weaken :
      (n : ℕ) (list : List (Subscription D))
      → All (λ s. s.id ≤ n) list
      → All (λ s. s.id ≤ n + 1) list
  All-weaken n [] h = tt
  All-weaken n (s ∷ list) (p, h) = (omega arith, All-weaken n list h)

  pub subscribe-IsCounted :
      (m : Memory D) (event : GoString) (h : D)
      → IsCounted m
      → IsCounted (subscribe m event (some h)).0
  unfolding subscribe
  subscribe-IsCounted m event h c read =
      subst (All (λ s. s.id ≤ m.next_id + 1)) (sym (subscribers-insert m.subs event read _)) (
        if_cases {A = List (Subscription D)} (All (λ s. s.id ≤ m.next_id + 1)) (str_beq event read)
          (λ _.
            All-append _ (subscribers m event) _ (All-weaken m.next_id _ (c event))
              (omega arith, tt))
          (λ _. All-weaken m.next_id _ (c read)))

  pub unsubscribe-IsCounted :
      (m : Memory D) (event : GoString) (id : ℕ) → IsCounted m → IsCounted (unsubscribe m event id)
  unfolding unsubscribe
  unsubscribe-IsCounted m event id c =
      if_cases {A = Memory D} IsCounted (has_id id (subscribers m event))
        (λ _ read.
          subst (All (λ s. s.id ≤ m.next_id)) (sym (subscribers-insert m.subs event read _)) (
            if_cases {A = List (Subscription D)} (All (λ s. s.id ≤ m.next_id)) (str_beq event read)
              (λ _. All-remove_id _ id (subscribers m event) (c event)) (λ _. c read)))
        (λ _. c)

  remove_id-last :
      (n : ℕ) (h : D) (list : List (Subscription D))
      → All (λ s. s.id ≤ n) list
      → (remove_id (n + 1) (list ++ (record { id = n + 1; h = h } ∷ [])) ≡ list)
        × (has_id (n + 1) (list ++ (record { id = n + 1; h = h } ∷ [])) ≡ true)
  unfolding remove_id has_id
  remove_id-last n h [] c = (ground arith, ground arith)
  remove_id-last n h (s ∷ list) (p, c) =
      let (removed, found) = remove_id-last n h list c in
      (ground (arith, removed), ground (arith, found))

  -- The subscribers after a Subscribe, and after an Unsubscribe that finds its entry.
  pub subscribers-subscribe :
      (m : Memory D) (event read : GoString) (h : D)
      → subscribers (subscribe m event (some h)).0 read ≡ (
          if str_beq event read
          then subscribers m event ++ (record { id = m.next_id + 1; h = h } ∷ [])
          else subscribers m read)
  unfolding subscribe
  subscribers-subscribe m event read h = subscribers-insert m.subs event read _

  subscribers-unsubscribe :
      (m : Memory D) (event read : GoString) (id : ℕ) (list : List (Subscription D))
      → has_id id (subscribers m event) ≡ true
      → remove_id id (subscribers m event) ≡ list
      → subscribers (unsubscribe m event id) read
        ≡ (if str_beq event read then list else subscribers m read)
  unfolding unsubscribe
  subscribers-unsubscribe m event read id list found removed =
      if_cases {A = Memory D}
        (λ m'. subscribers m' read ≡ (if str_beq event read then list else subscribers m read))
        (has_id id (subscribers m event))
        (λ _.
          subscribers-insert m.subs event read (remove_id id (subscribers m event))
          ∙ ap (λ l. if str_beq event read then l else subscribers m read) removed)
        (λ no. absurd (cc (no, found)))

  -- An `if` on the equality of two names, by cases.
  pub if_same :
      (event read : GoString) (P : List (Subscription D) → Type 0) {a b : List (Subscription D)}
      → (event ≡ read → P a)
      → (event ≢ read → P b)
      → P (if str_beq event read then a else b)
  if_same event read P same other =
      if_cases {A = List (Subscription D)} P (str_beq event read)
        (λ e. same ((str_beq_iff event read).0 e))
        (λ n. other (λ e. cc ((str_beq_iff event read).1 e, n)))

  -- On a bus whose identifiers are not ahead of its counter, taking back a subscription that was just
  -- made leaves for every event the subscribers, in order, that there were before.
  pub unsubscribe-subscribe :
      (m : Memory D) (event read : GoString) (h : D)
      → IsCounted m
      → subscribers (unsubscribe (subscribe m event (some h)).0 event (m.next_id + 1)) read
        ≡ subscribers m read
  unsubscribe-subscribe m event read h c =
      let new : Subscription D = record { id = m.next_id + 1; h = h } in
      let m' = (subscribe m event (some h)).0 in
      let list = subscribers-subscribe m event event h ∙ rw ((str_beq_iff event event).1 refl) in
      let (removed, found) = remove_id-last m.next_id h (subscribers m event) (c event) in
      subscribers-unsubscribe m' event read (m.next_id + 1) (subscribers m event)
        (ap (has_id (m.next_id + 1)) list ∙ found) (ap (remove_id (m.next_id + 1)) list ∙ removed)
      ∙ if_same event read (λ l. l ≡ subscribers m read) (λ e. ap (subscribers m) e)
          (λ other.
            subscribers-subscribe m event read h
            ∙ if_same event read (λ l. l ≡ subscribers m read) (λ e. absurd (other e)) (λ _. refl))
