-- ===== src/Inbound/Timing.antt =====
-- inbound_timing.go, inbound_drop.go and Envelope.QueueWait in envelope.go. A time is nanoseconds
-- since some instant, and `none` the zero time.
use navlink.Base.{ℕ, ◌-◌, Bool, Option, none, some, List, [], ◌∷◌, ◌++◌, if◌then◌else◌, ltb, leb}
use navlink.Base.Text.{GoString, text}
use navlink.Mqtt.Dispatch.{Standing, stored, queued, closed, discarded, backpressured}

-- InboundSlowCause
pub data InboundSlowCause : Type 0 where
  inbound_slow_queue inbound_slow_handler : InboundSlowCause

-- InboundSlowCause.String; the causes are the two constants.
unfoldable pub slow_cause_string : InboundSlowCause → GoString
slow_cause_string inbound_slow_queue = text "queue"
slow_cause_string inbound_slow_handler = text "handler"

-- InboundDropReason
pub data InboundDropReason : Type 0 where
  inbound_dropped inbound_backpressured : InboundDropReason

-- InboundDropReason.String
unfoldable pub drop_reason_string : InboundDropReason → GoString
drop_reason_string inbound_dropped = text "dropped"
drop_reason_string inbound_backpressured = text "backpressured"

-- What OnInboundDrop hears of a call of enqueue, through mapInboundDrop.
unfoldable pub map_inbound_drop : Bool → Standing → Option InboundDropReason
map_inbound_drop is_set stored = none
map_inbound_drop is_set queued = none
map_inbound_drop is_set closed = none
map_inbound_drop is_set discarded = if is_set then some inbound_dropped else none
map_inbound_drop is_set backpressured = if is_set then some inbound_backpressured else none

-- contextWithInboundReceivedAt: what the context carries after it.
unfoldable pub with_received_at : Option ℕ → Option ℕ → Option ℕ
with_received_at carried none = carried
with_received_at carried (some t) = some t

-- envelopeTimes, at the time `now`, of a context that carries a time or none.
unfoldable pub envelope_times : ℕ → Option ℕ → Option ℕ × Option ℕ
envelope_times now none = (some now, some now)
envelope_times now (some t) = (some t, some now)

-- QueueWait: a difference below 0 is 0.
unfoldable pub queue_wait : Option ℕ → Option ℕ → ℕ
queue_wait none dispatched = 0
queue_wait (some r) none = 0
queue_wait (some r) (some d) = d - r

report_if : Bool → InboundSlowCause → ℕ → List (InboundSlowCause × ℕ)
report_if b cause d = if b then (cause, d) ∷ [] else []

handler_report : ℕ → ℕ → Option ℕ → List (InboundSlowCause × ℕ)
unfolding report_if
handler_report now threshold none = []
handler_report now threshold (some d) =
    report_if (leb threshold (now - d)) inbound_slow_handler (now - d)

-- noteInbound, at the time `now`: the calls of OnSlowInbound, if it is set and SlowInbound is above 0.
unfoldable pub note_inbound : Bool → ℕ → ℕ → Option ℕ → Option ℕ → List (InboundSlowCause × ℕ)
unfolding report_if handler_report
note_inbound is_set threshold now received dispatched =
    if is_set
    then if ltb 0 threshold
      then report_if (leb threshold (queue_wait received dispatched)) inbound_slow_queue
          (queue_wait received dispatched)
        ++ handler_report now threshold dispatched
      else []
    else []
