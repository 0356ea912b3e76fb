-- ===== src/Mqtt/Wait.antt =====
-- internal/mqtt/wait.go: waiting for a paho token under a context.
use navlink.Base.{
  ℕ, ◌≤◌, ◌<◌, ◌*◌, ◌^◌, ◌≡◌, Bool, true, false, Option, none, some, if◌then◌else◌, ltb, arith,
}
use navlink.Base.Text.{GoString}
use navlink.Errors.{Gerr, GoError, canceled, deadline_exceeded, raise}
use navlink.Errors.Kinds.{timeout_error}

-- Why a context is done.
pub data CtxErr : Type 0 where
  is_canceled past_deadline : CtxErr

abbrev pub ctx_error : {E : Type 0} → CtxErr → GoError E
ctx_error is_canceled = canceled
ctx_error past_deadline = deadline_exceeded

-- A context as a call sees it: ctx.Err() when the call reads it, and the time left to its deadline
-- in nanoseconds, if it has one (0 if the deadline has passed).
pub record Ctx : Type 0 where
  pub error : Option CtxErr
  pub time_left : Option ℕ

-- A paho token: whether WaitTimeout sees it complete within the given time, and Error() after that.
pub record Token : Type 0 where
  pub wait_timeout : ℕ → Bool
  pub error : Option GoString

-- defaultTokenWait, 30 seconds
abbrev pub default_token_wait : ℕ
default_token_wait = 30 * 10 ^ 9

-- The time that WaitTimeout is given; `none` when the deadline has passed.
unfoldable pub token_wait : Option ℕ → Option ℕ
token_wait none = some default_token_wait
token_wait (some d) =
    if ltb 0 d then (if ltb d default_token_wait then some d else some default_token_wait) else none

module _ {E : Type 0} ⦃g : Gerr E⦄ where
  -- The select: `ctx_first` is what the context was done with, if that came first.
  select_wait : Option CtxErr → Bool → Option (GoError E)
  select_wait (some e) completed = some (ctx_error e)
  select_wait none true = none
  select_wait none false = some (raise timeout_error)

  timed_wait : Token → Option CtxErr → Option ℕ → Option (GoError E)
  timed_wait token ctx_first none = some deadline_exceeded
  timed_wait token ctx_first (some t) = select_wait ctx_first (token.wait_timeout t)

  wait_from : Option CtxErr → Option ℕ → Token → Option CtxErr → Option (GoError E)
  wait_from (some e) time_left token ctx_first = some (ctx_error e)
  wait_from none time_left token ctx_first = timed_wait token ctx_first (token_wait time_left)

  -- waitToken
  unfoldable pub wait_token : Ctx → Token → Option CtxErr → Option (GoError E)
  unfolding select_wait timed_wait wait_from token_wait
  wait_token ctx token ctx_first = wait_from ctx.error ctx.time_left token ctx_first

-- The wait given to the token is at most 30 seconds, at most the time left, and never 0.
pub token_wait_bounds :
    (left : Option ℕ) (t : ℕ)
    → token_wait left ≡ some t
    → (0 < t) × (t ≤ default_token_wait) × ((d : ℕ) → left ≡ some d → t ≤ d)
unfolding token_wait
token_wait_bounds none t h = (ground arith, ground arith, λ d e. cc)
token_wait_bounds (some c) t h = (ground arith, ground arith, λ d e. ground arith)
