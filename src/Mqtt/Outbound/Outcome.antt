-- ===== src/Mqtt/Outbound/Outcome.antt =====
-- publish.go ClassifyPublish over internal/mqtt/transport.go Publish: what an outcome says of the
-- packet.
use navlink.Base.{◌≡◌, refl, ◌≢◌, ◌↔◌, ◌⊎◌, inl, inr, Bool, true, Option, none, some, arith}
use navlink.Base.Text.{GoString}
use navlink.Errors.{
  Gerr, GoError, canceled, deadline_exceeded, raise, is_kind, is_canceled, is_deadline_exceeded,
  as_mqtt_attempted,
}
use navlink.Errors.Kinds.{timeout_error, mqtt_transport_not_running}
use navlink.Publish.{
  PublishOutcome, accepted, not_started, uncertain, classify_publish, mark_attempted, was_attempted,
}
use navlink.Mqtt.Wait.{
  Ctx, CtxErr, is_canceled as ctx_canceled, past_deadline, ctx_error, Token, wait_token,
}
use navlink.Mqtt.Outbound.{
  Packet, Call, attempted_wait, adapt_publish, rejected, publish_result, adapted_publish,
}

module _ (E : Type 0) ⦃g : Gerr E⦄ where
  abbrev outcome : Option (GoError E) → PublishOutcome
  outcome e = classify_publish (adapt_publish e)

  -- The errors of waitToken.
  abbrev WaitError : GoError E → Type 0
  WaitError e = (e ≡ canceled) ⊎ ((e ≡ deadline_exceeded) ⊎ (e ≡ raise timeout_error))

  wait_token_errors :
      (ctx : Ctx) (token : Token) (ctx_first : Option CtxErr) (e : GoError E)
      → wait_token ctx token ctx_first ≡ some e
      → WaitError e
  unfolding wait_token
  wait_token_errors ctx token ctx_first e h = ground arith

  classify-attempted_timeout : outcome (attempted_wait (some (raise timeout_error))) ≡ uncertain
  unfolding classify_publish adapt_publish attempted_wait is_kind mark_attempted as_mqtt_attempted
  classify-attempted_timeout = simp g.matches-base

  classify-waited : (e : GoError E) → WaitError e → outcome (attempted_wait (some e)) ≡ uncertain
  unfolding classify_publish adapt_publish attempted_wait is_kind mark_attempted as_mqtt_attempted
  classify-waited e (inl h) = rw h
  classify-waited e (inr (inl h)) = rw h
  classify-waited e (inr (inr h)) = rw h classify-attempted_timeout

  classify-refused : outcome (some (raise mqtt_transport_not_running)) ≡ not_started
  unfolding classify_publish adapt_publish is_kind as_mqtt_attempted
  classify-refused = simp g.matches-base

  classify-ctx : (c : CtxErr) → outcome (some (ctx_error c)) ≡ not_started
  unfolding classify_publish adapt_publish is_kind as_mqtt_attempted is_canceled
      is_deadline_exceeded was_attempted
  classify-ctx ctx_canceled = refl
  classify-ctx past_deadline = refl

  classify-rejected : (pkt : Packet) (cause : GoString) → outcome (rejected pkt cause) ≡ not_started
  unfolding classify_publish adapt_publish is_kind as_mqtt_attempted rejected
  classify-rejected pkt cause = simp (g.matches-with_metadata, g.matches-base)

  classify-sent : outcome none ≡ accepted
  unfolding classify_publish adapt_publish
  classify-sent = refl

  -- The outcome once the packet is handed over, by what the wait and the token came to.
  outcome-publish_result :
      (pkt : Packet) (wait : Option (GoError E)) (error : Option GoString)
      → ((e : GoError E) → wait ≡ some e → WaitError e)
      → ((outcome (publish_result pkt wait error) ≡ accepted) ↔ ((wait ≡ none) × (error ≡ none)))
        × ((outcome (publish_result pkt wait error) ≡ uncertain) ↔ (wait ≢ none))
        × ((outcome (publish_result pkt wait error) ≡ not_started)
            ↔ ((wait ≡ none) × (error ≢ none)))
  unfolding publish_result
  outcome-publish_result pkt none none h = ground (arith, classify-sent)
  outcome-publish_result pkt none (some cause) h = ground (arith, classify-rejected pkt cause)
  outcome-publish_result pkt (some e) error h = ground (arith, classify-waited e (h e refl))

-- The packet was handed to the paho client.
abbrev pub Handed : Bool → Bool → Call → Type 0
Handed running has_client call = (running ≡ true) × (has_client ≡ true) × (call.entry.error ≡ none)

Handed-cases :
    (running has_client : Bool) (call : Call)
    → Handed running has_client call ⊎ ¬ Handed running has_client call
Handed-cases running has_client call = ground arith

module _ (E : Type 0) {P : Type 0} ⦃g : Gerr E⦄ (client_publish : P → Packet → P × Token)
    (running has_client : Bool) (call : Call) (p : P) (pkt : Packet) where
  -- What the wait for the token came to.
  abbrev pub waited : Option (GoError E)
  waited = wait_token call.waiting (client_publish p pkt).1 call.ctx_first

  abbrev pub published : P × Option (GoError E)
  published = adapted_publish client_publish running has_client call p pkt

  published_refused :
      ¬ Handed running has_client call
      → (published.0 ≡ p) × (classify_publish published.1 ≡ not_started)
  unfolding adapted_publish
  published_refused h = ground (
    arith,
    classify-refused E ⦃g = g⦄,
    classify-ctx E ⦃g = g⦄ ctx_canceled,
    classify-ctx E ⦃g = g⦄ past_deadline,
  )

  published-Handed :
      Handed running has_client call
      → published ≡ (
        (client_publish p pkt).0,
        adapt_publish (publish_result pkt waited (client_publish p pkt).1.error),
      )
  unfolding adapted_publish
  published-Handed h = ground arith

  waited-WaitError : (e : GoError E) → waited ≡ some e → WaitError E ⦃g = g⦄ e
  waited-WaitError e h = wait_token_errors E call.waiting _ call.ctx_first e h

  -- ClassifyPublish of what the MQTT transport's Publish returns says exactly what became of the
  -- packet. Accepted: it was handed to the client, the wait ended well and the token has no error.
  -- Uncertain: it was handed over and the wait failed (timeout, cancel, deadline). NotStarted: it
  -- was never handed over and the client's state is as before, or the token reports an error.
  pub publish_outcomes :
      ((classify_publish published.1 ≡ accepted) ↔ (
        Handed running has_client call × (waited ≡ none) × ((client_publish p pkt).1.error ≡ none)))
      × ((classify_publish published.1 ≡ uncertain)
          ↔ (Handed running has_client call × (waited ≢ none)))
      × ((classify_publish published.1 ≡ not_started) ↔ (
          ((¬ Handed running has_client call) × (published.0 ≡ p))
          ⊎ (Handed running has_client call
              × (waited ≡ none)
              × ((client_publish p pkt).1.error ≢ none))))
  publish_outcomes = elim (Handed-cases running has_client call) [
    | inl h ↦
        let (a, u, n) =
          outcome-publish_result E ⦃g = g⦄ pkt waited (client_publish p pkt).1.error
            waited-WaitError in
        rw (published-Handed h) (ground arith)
    | inr h ↦ let (same, e) = published_refused h in ground arith
  ]
