-- ===== src/Testkit/Recording.antt =====
-- testkit/recording.go: a transport that records what goes through it.
pub mod Transparent
mod Examples
use navlink.Base.{ℕ, Bool, false, Option, none, some, List, [], ◌∷◌, ◌++◌}
use navlink.Base.Result.{Result, ok, err}
use navlink.Base.Text.{GoString}
use navlink.Errors.{GoError}
use navlink.Agv.Messages.{PublishOptions}
use navlink.Testkit.{PublishedMessage}

-- navlink.Transport, over a state `W` and handles `U`. `connected` is ConnectionStatus, which a
-- transport may lack.
pub record ByteTransport (E W U : Type 0) : Type 0 where
  pub start : W → W × Option (GoError E)
  pub stop : W → W × Option (GoError E)
  pub publish : W → GoString → List ℕ → PublishOptions → W × Option (GoError E)
  pub subscribe : W → GoString → W × Result (GoError E) U
  pub unsubscribe : W → U → W × Option (GoError E)
  pub connected : Option (W → Bool)

-- Recorder; Published and SubscribedFilters are its first two fields.
pub record Recorder : Type 0 where
  pub published : List PublishedMessage
  pub subscribed : List GoString
  pub unsubscribed : List GoString

abbrev pub new_recorder : Recorder
new_recorder = record { published = []; subscribed = []; unsubscribed = [] }

-- NewRecordingTransport: the recorder that is given, or a new one.
abbrev pub given_recorder : Option Recorder → Recorder
given_recorder none = new_recorder
given_recorder (some rec) = rec

module _ {E W U : Type 0} (inner : ByteTransport E W U) where
  -- Publish: recorded whatever the inner transport returns.
  record_publish :
      W × Recorder → GoString → List ℕ → PublishOptions → (W × Recorder) × Option (GoError E)
  record_publish (w, rec) topic payload opts =
      let entry : PublishedMessage = record { topic = topic; payload = payload; opts = opts } in
      let (w', e) = inner.publish w topic payload opts in
      ((w', record rec { published = rec.published ++ (entry ∷ []) }), e)

  subscribed_with :
      Recorder
      → GoString
      → W × Result (GoError E) U
      → (W × Recorder) × Result (GoError E) (U × GoString)
  subscribed_with rec filter (w, err e) = ((w, rec), err e)
  subscribed_with rec filter (w, ok u) =
      ((w, record rec { subscribed = rec.subscribed ++ (filter ∷ []) }), ok (u, filter))

  -- Subscribe: recorded when it succeeds. The handle holds the filter.
  record_subscribe : W × Recorder → GoString → (W × Recorder) × Result (GoError E) (U × GoString)
  unfolding subscribed_with
  record_subscribe (w, rec) filter = subscribed_with rec filter (inner.subscribe w filter)

  -- The Unsubscribe of a subscription: recorded before it is made.
  record_unsubscribe : W × Recorder → U × GoString → (W × Recorder) × Option (GoError E)
  record_unsubscribe (w, rec) (u, filter) =
      let (w', e) = inner.unsubscribe w u in
      ((w', record rec { unsubscribed = rec.unsubscribed ++ (filter ∷ []) }), e)

  -- Start and Stop
  record_start : W × Recorder → (W × Recorder) × Option (GoError E)
  record_start (w, rec) = let (w', e) = inner.start w in ((w', rec), e)

  record_stop : W × Recorder → (W × Recorder) × Option (GoError E)
  record_stop (w, rec) = let (w', e) = inner.stop w in ((w', rec), e)

  connected_with : Option (W → Bool) → W × Recorder → Bool
  connected_with none (w, rec) = false
  connected_with (some f) (w, rec) = f w

  -- Connected
  record_connected : W × Recorder → Bool
  unfolding connected_with
  record_connected x = connected_with inner.connected x

  -- SetOnReconnect and SetOnConnectionLost: the callback goes to the inner transport, whose setter is
  -- `set`, if it has one.
  pub pass_callback : {F : Type 0} → Option (W → F → W) → W × Recorder → F → W × Recorder
  pass_callback none x f = x
  pass_callback (some set) (w, rec) f = (set w f, rec)

  -- RecordingTransport
  pub recording_transport : ByteTransport E (W × Recorder) (U × GoString)
  unfolding record_publish record_subscribe record_unsubscribe record_start record_stop
      record_connected
  recording_transport = record {
    start = record_start;
    stop = record_stop;
    publish = record_publish;
    subscribe = record_subscribe;
    unsubscribe = record_unsubscribe;
    connected = some record_connected;
  }
