-- ===== src/Mqtt/Lifecycle/Examples.antt =====
-- internal/mqtt/transport.go: tests. The world lists what the paho client was asked to do, and its
-- tokens complete after one second.
use navlink.Base.{ℕ, ◌≡◌, refl, true, false, none, some, List, [], ◌∷◌, ltb, nat_eq}
use navlink.Base.Result.{ok}
use navlink.Base.Text.{GoString, text, string_eq, str_beq}
use navlink.Errors.Kinds.{ErrorKind, timeout_error}
use navlink.Errors.{coded}
use navlink.Errors.Sample.{kind_gerr}
use navlink.Mqtt.Wait.{Ctx, Token, token_wait, wait_token}
use navlink.Mqtt.Paho.{MqttConfig, Paho, client_options, check_config}
use navlink.Mqtt.Lifecycle.{
  Transport, new_transport, start, stop, connected, connect_client, start_checked, prepared,
  start_end, shutdown,
}
use navlink.Mqtt.Lifecycle.Callbacks.{
  Event, starts, stops, connects, loses, nothing, reconnect, lost, on_connect, on_connection_lost,
  step, run, calls,
}
use navlink.Mqtt.Lifecycle.Sound.{Sound, run-new-Sound}
use navlink.Mqtt.Lifecycle.Machine.{Moves, link, down, run-new-Moves}
use navlink.Mqtt.Lifecycle.Stale.{Abandoned, start-Abandoned, on_connect-start}
use navlink.Mqtt.Subscribe.{subscribe}
use navlink.Mqtt.Subscribe.Guarded.{Guarded, subscribe-Guarded}

abbrev slow : Token
slow = record { wait_timeout = λ t. ltb 1_000_000_000 t; error = none }

abbrev sample_paho : Paho ℕ ℕ (List GoString)
sample_paho = record {
  new_client = λ w _. (w, 7);
  connect = λ w _. (text "connect" ∷ w, slow);
  disconnect = λ w _ _. text "disconnect" ∷ w;
  is_connected = λ _ _. true;
  subscribe = λ w _ filter _. (filter ∷ w, slow);
  unsubscribe = λ w _ filter. (w, slow);
}

abbrev sample_config : MqttConfig ℕ ℕ ℕ
sample_config = record {
  broker = text "tcp://b:1883";
  client_id = text "c";
  username = [];
  password = [];
  qos = 0;
  qos_explicit = false;
  keep_alive = 0;
  connect_timeout = 0;
  clean_session = true;
  auto_reconnect = true;
  tls = none;
  will = none;
  inbound_queue_size = 0;
  on_connection_lost = some 5;
  on_reconnect = some 9;
}

abbrev fresh : Transport ℕ ℕ ℕ ℕ ℕ
fresh = new_transport sample_config

abbrev patient : Ctx
patient = record { error = none; time_left = none }

-- half a second
abbrev hasty : Ctx
hasty = record { error = none; time_left = some 500_000_000 }

-- The second connection is a reconnect; a connection lost after Stop is not reported.
abbrev day : List (Event ℕ ℕ)
day = starts patient none ∷ connects ∷ loses ∷ connects ∷ stops ∷ loses ∷ []

day_calls :
    calls ErrorKind sample_paho fresh [] day
    ≡ nothing ∷ nothing ∷ lost 5 ∷ reconnect 9 ∷ nothing ∷ nothing ∷ []
unfolding new_transport start stop start_checked connect_client prepared start_end check_config
    wait_token token_wait str_beq on_connect on_connection_lost step calls client_options
day_calls = refl

day_world : (run ErrorKind sample_paho fresh [] day).1 ≡ text "disconnect" ∷ text "connect" ∷ []
unfolding new_transport start stop start_checked connect_client prepared start_end check_config
    wait_token token_wait str_beq on_connect on_connection_lost step run client_options
day_world = refl

connected_test : connected sample_paho fresh [] ≡ false
unfolding connected new_transport
connected_test = refl

-- A client of a Start that ran out of time connects late; the first connection of the next Start
-- then calls the reconnect handler.
late_calls :
    calls ErrorKind sample_paho fresh []
      (starts hasty none ∷ connects ∷ starts patient none ∷ connects ∷ [])
    ≡ nothing ∷ nothing ∷ nothing ∷ reconnect 9 ∷ []
unfolding new_transport start start_checked connect_client prepared start_end shutdown check_config
    wait_token token_wait str_beq on_connect step calls client_options
late_calls = refl

run-new-Sound_example :
    Sound (run ErrorKind sample_paho (new_transport {M = ℕ} sample_config) [] day).0
run-new-Sound_example = run-new-Sound ErrorKind sample_paho sample_config [] day

run-new-Moves_example :
    Moves
      (record { phase = down; known = false; on_reconnect = some 9; on_lost = some 5 })
      day
      (calls ErrorKind sample_paho (new_transport {M = ℕ} sample_config) [] day)
      (link (run ErrorKind sample_paho (new_transport {M = ℕ} sample_config) [] day).0)
run-new-Moves_example = run-new-Moves ErrorKind ℕ sample_paho sample_config [] day

start-Abandoned_example :
    Abandoned {E = ErrorKind} sample_paho fresh [] (start sample_paho fresh hasty none [])
unfolding new_transport start start_checked connect_client prepared start_end check_config
    wait_token token_wait str_beq client_options
start-Abandoned_example =
    start-Abandoned sample_paho fresh hasty none [] (coded timeout_error) refl refl refl

on_connect-start_example :
    (on_connect (start {E = ErrorKind} sample_paho (on_connect fresh).0 patient none []).0).1
    ≡ some 9
unfolding new_transport start start_checked connect_client prepared start_end check_config
    wait_token token_wait str_beq on_connect client_options
on_connect-start_example = on_connect-start ErrorKind sample_paho fresh patient none [] refl

abbrev no_args : GoString → GoString → GoString
no_args filter cause = filter

abbrev open_transport : Transport ℕ ℕ ℕ ℕ ℕ
open_transport = (start {E = ErrorKind} sample_paho fresh patient none []).0

subscribe-Guarded_example :
    Guarded ErrorKind no_args sample_paho patient none [] (text "a/b") open_transport
subscribe-Guarded_example =
    subscribe-Guarded ErrorKind no_args sample_paho patient none [] (text "a/b") open_transport

subscribe_test :
    (subscribe {E = ErrorKind} sample_paho open_transport patient none [] (text "a/b")).1
    ≡ ok (text "a/b")
unfolding new_transport start start_checked connect_client prepared start_end check_config
    wait_token token_wait str_beq subscribe client_options
subscribe_test = refl

-- The client has the filter although Subscribe ran out of time.
subscribe_late_test :
    (subscribe {E = ErrorKind} sample_paho open_transport hasty none [] (text "a/b")).0
    ≡ text "a/b" ∷ []
unfolding new_transport start start_checked connect_client prepared start_end check_config
    wait_token token_wait str_beq subscribe client_options
subscribe_late_test = refl
