-- ===== src/Testkit/Recording/Transparent.antt =====
-- testkit/recording.go: what a user of the transport sees, and what the recorder has.
use navlink.Base.{
  ℕ, zero, suc, ◌≡◌, refl, ap, sym, ◌∙◌, Option, none, some, List, [], ◌∷◌, ◌++◌, map, append_assoc,
  append-nil,
}
use navlink.Base.Result.{Result, ok, err}
use navlink.Base.Lists.{map-append}
use navlink.Base.Text.{GoString}
use navlink.Errors.{GoError}
use navlink.Agv.Messages.{PublishOptions}
use navlink.Testkit.{PublishedMessage}
use navlink.Testkit.Recording.{
  ByteTransport, Recorder, new_recorder, record_publish, subscribed_with, record_subscribe,
  record_unsubscribe, record_start, record_stop, recording_transport,
}

-- The calls of a user, who unsubscribes by the place of a handle among those that were returned.
pub data Op : Type 0 where
  starts stops : Op
  publishes : GoString → List ℕ → PublishOptions → Op
  subscribes : GoString → Op
  unsubscribes : ℕ → Op

nth : {A : Type 0} → ℕ → List A → Option A
nth n [] = none
nth zero (x ∷ xs) = some x
nth (suc n) (x ∷ xs) = nth n xs

module _ {E W U : Type 0} (t : ByteTransport E W U) where
  keep_handle : List U → W × Result (GoError E) U → (W × List U) × Option (GoError E)
  keep_handle us (w, err e) = ((w, us), some e)
  keep_handle us (w, ok u) = ((w, us ++ (u ∷ [])), none)

  unsubscribe_found : W → List U → Option U → (W × List U) × Option (GoError E)
  unsubscribe_found w us none = ((w, us), none)
  unsubscribe_found w us (some u) = let (w', e) = t.unsubscribe w u in ((w', us), e)

  -- One call, with the handles that the user has.
  unfoldable pub step : W × List U → Op → (W × List U) × Option (GoError E)
  unfolding keep_handle unsubscribe_found nth
  step (w, us) starts = let (w', e) = t.start w in ((w', us), e)
  step (w, us) stops = let (w', e) = t.stop w in ((w', us), e)
  step (w, us) (publishes topic payload opts) =
      let (w', e) = t.publish w topic payload opts in ((w', us), e)
  step (w, us) (subscribes filter) = keep_handle us (t.subscribe w filter)
  step (w, us) (unsubscribes n) = unsubscribe_found w us (nth n us)

  -- A sequence of calls, with the errors that they return.
  unfoldable pub run : W × List U → List Op → (W × List U) × List (Option (GoError E))
  unfolding step
  run x [] = (x, [])
  run x (op ∷ ops) = let (x', e) = step x op in let (x'', es) = run x' ops in (x'', e ∷ es)

-- The messages that a sequence of calls publishes.
pub messages : List Op → List PublishedMessage
messages [] = []
messages (publishes topic payload opts ∷ ops) =
    record { topic = topic; payload = payload; opts = opts } ∷ messages ops
messages (starts ∷ ops) = messages ops
messages (stops ∷ ops) = messages ops
messages (subscribes _ ∷ ops) = messages ops
messages (unsubscribes _ ∷ ops) = messages ops

module _ {W U : Type 0} where
  -- The user's side of a recorded state.
  abbrev pub plain : (W × Recorder) × List (U × GoString) → W × List U
  plain ((w, rec), us) = (w, map (λ u. u.0) us)

  -- The recorder has the filters of the handles that were returned.
  abbrev pub Listed : (W × Recorder) × List (U × GoString) → Type 0
  Listed ((w, rec), us) = rec.subscribed ≡ map (λ u. u.1) us

module _ {E W U : Type 0} (inner : ByteTransport E W U) where
  -- What a recorded call, from `x`, is to the call on the inner transport.
  record Matches (x : (W × Recorder) × List (U × GoString)) (new : List PublishedMessage)
      (r : ((W × Recorder) × List (U × GoString)) × Option (GoError E))
      (s : (W × List U) × Option (GoError E)) : Type 0 where
    user : plain r.0 ≡ s.0
    answer : r.1 ≡ s.1
    published : r.0.0.1.published ≡ x.0.1.published ++ new
    listed : Listed x → Listed r.0

  subscribed-Matches :
      (w : W) (rec : Recorder) (us : List (U × GoString)) (filter : GoString)
      (r : W × Result (GoError E) U)
      → Matches
          ((w, rec), us)
          []
          (keep_handle (recording_transport inner) us (subscribed_with inner rec filter r))
          (keep_handle inner (map (λ u. u.0) us) r)
  unfolding keep_handle subscribed_with
  subscribed-Matches w rec us filter (w', err e) = record {
    user = refl;
    answer = refl;
    published = sym (append-nil rec.published);
    listed = λ h. h;
  }
  subscribed-Matches w rec us filter (w', ok u) = record {
    user = ap (λ vs. (w', vs)) (map-append (λ v. v.0) us ((u, filter) ∷ []));
    answer = refl;
    published = sym (append-nil rec.published);
    listed =
        λ h. ap (λ l. l ++ (filter ∷ [])) h ∙ sym (map-append (λ v. v.1) us ((u, filter) ∷ []));
  }

  unsubscribed-Matches :
      (w : W) (rec : Recorder) (us : List (U × GoString)) (n : ℕ) (vs : List (U × GoString))
      → Matches
          ((w, rec), us)
          []
          (unsubscribe_found (recording_transport inner) (w, rec) us (nth n vs))
          (unsubscribe_found inner w (map (λ u. u.0) us) (nth n (map (λ u. u.0) vs)))
  unfolding unsubscribe_found nth recording_transport record_unsubscribe
  unsubscribed-Matches w rec us n [] = record {
    user = refl;
    answer = refl;
    published = sym (append-nil rec.published);
    listed = λ h. h;
  }
  unsubscribed-Matches w rec us zero ((u, filter) ∷ vs) = record {
    user = refl;
    answer = refl;
    published = sym (append-nil rec.published);
    listed = λ h. h;
  }
  unsubscribed-Matches w rec us (suc n) (v ∷ vs) = unsubscribed-Matches w rec us n vs

  step-Matches :
      (w : W) (rec : Recorder) (us : List (U × GoString)) (op : Op)
      → Matches
          ((w, rec), us)
          (messages (op ∷ []))
          (step (recording_transport inner) ((w, rec), us) op)
          (step inner (w, map (λ u. u.0) us) op)
  unfolding step messages recording_transport record_start record_stop record_publish
      record_subscribe
  step-Matches w rec us starts = record {
    user = refl;
    answer = refl;
    published = sym (append-nil rec.published);
    listed = λ h. h;
  }
  step-Matches w rec us stops = record {
    user = refl;
    answer = refl;
    published = sym (append-nil rec.published);
    listed = λ h. h;
  }
  step-Matches w rec us (publishes topic payload opts) = record {
    user = refl;
    answer = refl;
    published = refl;
    listed = λ h. h;
  }
  step-Matches w rec us (subscribes filter) =
      subscribed-Matches w rec us filter (inner.subscribe w filter)
  step-Matches w rec us (unsubscribes n) = unsubscribed-Matches w rec us n us

  messages-cons :
      (op : Op) (ops : List Op) → messages (op ∷ []) ++ messages ops ≡ messages (op ∷ ops)
  unfolding messages
  messages-cons starts ops = refl
  messages-cons stops ops = refl
  messages-cons (publishes topic payload opts) ops = refl
  messages-cons (subscribes filter) ops = refl
  messages-cons (unsubscribes n) ops = refl

  -- What a recorded sequence of calls is to the sequence on the inner transport.
  pub record Recorded (x : (W × Recorder) × List (U × GoString)) (ops : List Op) : Type 0 where
    pub user : plain (run (recording_transport inner) x ops).0 ≡ (run inner (plain x) ops).0
    pub answers : (run (recording_transport inner) x ops).1 ≡ (run inner (plain x) ops).1
    pub published :
        (run (recording_transport inner) x ops).0.0.1.published ≡ x.0.1.published ++ messages ops
    pub listed : Listed x → Listed (run (recording_transport inner) x ops).0

  run-all : (ops : List Op) (x : (W × Recorder) × List (U × GoString)) → Recorded x ops
  unfolding run messages
  run-all [] x = record {
    user = refl;
    answers = refl;
    published = sym (append-nil x.0.1.published);
    listed = λ h. h;
  }
  run-all (op ∷ ops) ((w, rec), us) =
      let x' = (step (recording_transport inner) ((w, rec), us) op).0 in
      let first = step inner (w, map (λ u. u.0) us) op in
      let m = step-Matches w rec us op in
      let r = run-all ops x' in
      record {
        user = r.user ∙ ap (λ y. (run inner y ops).0) m.user;
        answers =
            ap (λ e. e ∷ (run (recording_transport inner) x' ops).1) m.answer
            ∙ ap (λ es. first.1 ∷ es) (r.answers ∙ ap (λ y. (run inner y ops).1) m.user);
        published =
            r.published
            ∙ ap (λ l. l ++ messages ops) m.published
            ∙ append_assoc rec.published (messages (op ∷ [])) (messages ops)
            ∙ ap (λ l. rec.published ++ l) (messages-cons op ops);
        listed = λ h. r.listed (m.listed h);
      }

  -- A recording transport is transparent, whatever calls are made through it: the inner transport,
  -- the user's handles and the errors that the calls return are those of the same calls on the inner
  -- transport alone. A new recorder then has every message that was handed to Publish, in order and
  -- also when it failed, and the filter of every Subscribe that returned a handle, in order.
  pub recording-Recorded :
      (ops : List Op) (w : W)
      → Recorded ((w, new_recorder), []) ops
        × Listed (run (recording_transport inner) ((w, new_recorder), []) ops).0
  recording-Recorded ops w = let r = run-all ops ((w, new_recorder), []) in (r, r.listed refl)
