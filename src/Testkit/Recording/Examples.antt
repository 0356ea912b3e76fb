-- ===== src/Testkit/Recording/Examples.antt =====
-- testkit/recording.go: tests, over a transport that refuses the filter "b".
use navlink.Base.{ℕ, suc, ◌+◌, ◌≡◌, refl, false, none, some, List, [], ◌∷◌, if◌then◌else◌, ◌==◌}
use navlink.Base.Result.{ok, err}
use navlink.Base.Text.{text, string_eq, str_beq}
use navlink.Errors.{message}
use navlink.Errors.Kinds.{ErrorKind}
use navlink.Testkit.Recording.{ByteTransport, new_recorder, recording_transport, pass_callback}
use navlink.Testkit.Recording.Transparent.{
  Op, starts, publishes, subscribes, unsubscribes, step, run, Recorded, Listed, recording-Recorded,
}

abbrev inner : ByteTransport ErrorKind ℕ ℕ
inner = record {
  start = λ w. (w, none);
  stop = λ w. (w, none);
  publish = λ w topic payload opts. (w, some (message (text "no")));
  subscribe =
      λ w filter. if filter == text "b" then (w, err (message (text "b"))) else (suc w, ok w);
  unsubscribe = λ w u. (w, none);
  connected = none;
}

abbrev ops : List Op
ops =
    starts
    ∷ subscribes (text "a")
    ∷ subscribes (text "b")
    ∷ publishes (text "t") [] (record { qos = 0; retain = false })
    ∷ unsubscribes 0
    ∷ []

recording-Recorded_example :
    Recorded inner ((0, new_recorder), []) ops
    × Listed (run (recording_transport inner) ((0, new_recorder), []) ops).0
recording-Recorded_example = recording-Recorded inner ops 0

recording_test : (run (recording_transport inner) ((0, new_recorder), []) ops).0.0.1 ≡ record {
  published =
      record { topic = text "t"; payload = []; opts = record { qos = 0; retain = false } } ∷ [];
  subscribed = text "a" ∷ [];
  unsubscribed = text "a" ∷ [];
}
unfolding run step recording_transport str_beq
recording_test = refl

connected_test : (recording_transport inner).connected ≡ some (λ _. false)
unfolding recording_transport
connected_test = refl

-- A setter of the inner transport gets the callback; without one nothing happens.
callback_test :
    (pass_callback inner {F = ℕ} (some (λ w f. w + f)) (1, new_recorder) 4 ≡ (5, new_recorder))
    × (pass_callback inner {F = ℕ} none (1, new_recorder) 4 ≡ (1, new_recorder))
unfolding pass_callback
callback_test = (refl, refl)
