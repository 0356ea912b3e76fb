-- ===== src/Agv/Handle/Delivery.antt =====
-- agv.go: a publish is either refused before the transport is called, or handed to it once.
use navlink.Base.{
  false, ℕ, ◌≤◌, ◌≡◌, ◌⊎◌, inl, inr, true, Option, none, some, List, arith, ltb, Bool-cases,
  Option-cases,
}
use navlink.Base.Result.{ok, err, Result-cases}
use navlink.Base.Text.{GoString, text}
use navlink.Errors.{Gerr, GoError, raise, raise_with, byte, is_kind}
use navlink.Errors.Kinds.{client_not_started, qos_not_supported}
use navlink.Config.{publish_qos}
use navlink.Topic.{build}
use navlink.Publish.{classify_publish, not_started, validate_publish_qos}
use navlink.Agv.Messages.{PublishOptions}
use navlink.Agv.Validation.Laws.{IsRefusal}
use navlink.Agv.Handle.{
  Handle, Sent, Method, zero_result, addressed, refuse, transmit, publish_message,
}

module _ (E : Type 0) ⦃g : Gerr E⦄ where
  classify-IsRefusal :
      (e : GoError E) → IsRefusal E (some e) → classify_publish (some e) ≡ not_started
  unfolding classify_publish
  classify-IsRefusal e h = ground arith

  classify-not_running : classify_publish {E = E} (some (raise client_not_started)) ≡ not_started
  unfolding classify_publish is_kind
  classify-not_running = simp g.matches-base

  classify-qos :
      (q : ℕ)
      → classify_publish {E = E} (some (raise_with qos_not_supported (text "qos") (byte q)))
        ≡ not_started
  unfolding classify_publish is_kind
  classify-qos q = simp (g.matches-with_metadata, g.matches-base)

module _ {E T M : Type 0} ⦃g : Gerr E⦄
    (transport_publish : T → GoString → List ℕ → PublishOptions → T × Option (GoError E))
    (method : Method E M) (a : Handle) where
  -- The message passed every check, and its wire form went to the transport.
  pub record Delivered (t : T) (m : M) (s : Sent E T M) : Type 0 where
    pub started : a.started ≡ true
    pub passed : method.check m ≡ none
    pub qos : publish_qos a.cfg ≤ 2
    pub payload : List ℕ
    pub marshalled : method.marshal (method.prepare m) ≡ ok payload
    pub message : s.message ≡ some (method.prepare m)
    pub result : s.result ≡ method.identify (method.prepare m) (addressed a method.channel payload)
    pub called :
        transport_publish t
          (build a.topics a.manufacturer a.serial method.channel)
          payload
          (record { qos = publish_qos a.cfg; retain = false })
        ≡ (s.transport, s.error)

  -- The message was stopped: the transport is as it was, the result is empty, and the error says that
  -- nothing was started, unless encoding the message failed.
  pub record Refused (t : T) (m : M) (s : Sent E T M) : Type 0 where
    pub transport : s.transport ≡ t
    pub result : s.result ≡ zero_result
    pub error : GoError E
    pub returned : s.error ≡ some error
    pub outcome :
        (classify_publish (some error) ≡ not_started)
        ⊎ (method.marshal (method.prepare m) ≡ err error)

  -- The checks of a method report nothing but failed validation.
  abbrev pub Refuses : Type 0
  Refuses = (m : M) → IsRefusal E ⦃g = g⦄ (method.check m)

  Refused-refuse :
      (t : T) (m : M) (s : Sent E T M) (m' : Option M) (e : GoError E)
      → s ≡ refuse transport_publish method a t m' e
      → ((classify_publish (some e) ≡ not_started) ⊎ (method.marshal (method.prepare m) ≡ err e))
      → Refused t m s
  unfolding refuse
  Refused-refuse t m s m' e same h = record {
    transport = rw same;
    result = rw same;
    error = e;
    returned = rw same;
    outcome = h;
  }

  Delivered-transmit :
      (t : T) (m : M) (s : Sent E T M) (payload : List ℕ)
      → a.started ≡ true
      → method.check m ≡ none
      → publish_qos a.cfg ≤ 2
      → method.marshal (method.prepare m) ≡ ok payload
      → s
        ≡ transmit transport_publish method a t
            (method.prepare m)
            (addressed a method.channel payload)
      → Delivered t m s
  unfolding transmit
  Delivered-transmit t m s payload started passed qos marshalled same = record {
    started = started;
    passed = passed;
    qos = qos;
    payload = payload;
    marshalled = marshalled;
    message = rw same;
    result = rw same;
    called = rw same;
  }

  abbrev sent : T → M → Sent E T M
  sent t m = publish_message transport_publish method a t (some m)

  pub publish_message_cases :
      (t : T) (m : M) → Refuses → Delivered t m (sent t m) ⊎ Refused t m (sent t m)
  unfolding publish_message
  publish_message_cases t m refuses = elim (Bool-cases a.started) [
    | inr stopped ↦ inr (
        Refused-refuse t m _ (some m) (raise client_not_started) (ground arith)
          (inl (classify-not_running E ⦃g = g⦄)))
    | inl started ↦ elim (Option-cases (method.check m)) [
      | inr (e, refused) ↦ inr (
          Refused-refuse t m _ (some m) e (ground arith)
            (inl (classify-IsRefusal E ⦃g = g⦄ e (rw refused at (refuses m)))))
      | inl passed ↦ elim (Result-cases (method.marshal (method.prepare m))) [
        | inr (e, broken) ↦
            inr (Refused-refuse t m _ (some (method.prepare m)) e (ground arith) (inr broken))
        | inl (payload, marshalled) ↦ elim (Bool-cases (ltb 2 (publish_qos a.cfg))) [
          | inl bad ↦ inr (
              Refused-refuse t m _ (some (method.prepare m))
                (raise_with qos_not_supported (text "qos") (byte (publish_qos a.cfg)))
                (unfold validate_publish_qos in (ground arith))
                (inl (classify-qos E ⦃g = g⦄ (publish_qos a.cfg))))
          | inr good ↦ inl (
              Delivered-transmit t m _ payload started passed (ground arith) marshalled
                (unfold validate_publish_qos in (ground arith)))
        ]
      ]
    ]
  ]
