-- ===== src/Inbound/Pipeline/Returns.antt =====
-- inbound.go: which errors onRawMessage returns.
use navlink.Base.{◌≡◌, refl, Option, none, some}
use navlink.Errors.{GoError}
use navlink.Inbound.{Envelope}
use navlink.Inbound.Pipeline.{
  Fate, reported, ignored, delivered, Sinks, invoke, finish_handler, act,
}

module _ {E V M X : Type 0} (sinks : Sinks E V M X) where
  -- An error of a handler or of the bus, with the message that it was given.
  pub record HandlerFailed (x : X) (fate : Fate E V M) (e : GoError E) : Type 0 where
    pub env : Envelope V
    pub msg : M
    pub delivered_to : fate ≡ delivered env msg
    pub returned : (invoke sinks x env msg).1 ≡ some e
    pub told : (act sinks x fate).0 ≡ sinks.report_handler (invoke sinks x env msg).0 env e

  finish_handler-error :
      (env : Envelope V) (r : X × Option (GoError E)) (e : GoError E)
      → (finish_handler sinks env r).1 ≡ some e
      → (r.1 ≡ some e) × ((finish_handler sinks env r).0 ≡ sinks.report_handler r.0 env e)
  unfolding finish_handler
  finish_handler-error env (x, none) e h = cc
  finish_handler-error env (x, some e') e h = (h, cc)

  -- onRawMessage returns an error only if a handler, or the bus, returned it for a delivered message,
  -- and then OnHandlerError hears of it once; a message that cannot be decoded returns none.
  pub act-HandlerFailed :
      (x : X) (fate : Fate E V M) (e : GoError E)
      → (act sinks x fate).1 ≡ some e
      → HandlerFailed x fate e
  unfolding act
  act-HandlerFailed x (reported env why) e h = cc
  act-HandlerFailed x (ignored env) e h = cc
  act-HandlerFailed x (delivered env msg) e h =
      let (returned, told) = finish_handler-error env (invoke sinks x env msg) e h in
      record { env = env; msg = msg; delivered_to = refl; returned = returned; told = told }
