-- ===== src/Retry.antt =====
-- proxy.go: `callUpstream`, the upstream call with its retries, and `queueWait`. Durations are
-- nanoseconds in Go's int64. What the network, the clock and `encoding/json` answer is a parameter.
pub mod Bounds
use qoder_model_gateway.Base.{
  ℕ, zero, suc, ◌+◌, ◌-◌, ◌*◌, ◌/◌, ◌%◌, ◌^◌, ◌≤◌, ◌<◌, ◌≡◌, refl, sym, ap, ◌∙◌, ◌≢◌, ◌↔◌, ◌⊎◌, inl,
  inr, Bool, true, false, not, ◌&&◌, ◌||◌, Option, none, some, List, [], ◌∷◌, ◌++◌, map, append-nil,
  append_assoc, arith, ltb, leb, ◌==◌, if◌then◌else◌, ltb→lt, lt→ltb, leb→le, ==_iff, Bool-cases,
  Option-cases, is_some, ◌>>=◌, length, get_elem?, take, drop, replicate, is_nil, get_last?,
  length-append, take-append-drop, length-take, length-drop, length-replicate, take-append_exact,
  drop-append_exact, All, All-append, Text, codes, text_eq, text_eq_iff, text_eq_refl, has_prefix,
  trim_prefix, has_prefix-append, has_suffix, trim_suffix, join, is_space, trim_left, trim_right,
  trim_space,
}
use qoder_model_gateway.Base.Int.{ℤ, pos, negsuc, leb_ℤ, ltb_ℤ, wrap64, mul64}

abbrev pub max_attempts : ℕ
max_attempts = 4

abbrev pub second : ℕ
second = 1_000_000_000

abbrev pub max_wait : ℤ
max_wait = pos (30 * second)

unfoldable pub retryable_status : ℕ → Bool
retryable_status code = (code == 408) || ((code == 429) || (leb 500 code && ltb code 600))

pub record Queue : Type 0 where
  pub is_queued : Bool
  pub wait_time : ℤ

-- The body of an overload answer, as `queueWait` decodes it.
pub record Overload : Type 0 where
  pub code : Text
  pub retry_after_ms : ℤ
  pub queue : Option Queue

-- The first positive value, or two seconds.
abbrev pub or_else : ℤ → ℤ → ℤ
or_else a b = if leb_ℤ a (pos 0) then b else a

unfoldable pub millis : ℤ → ℤ
millis ms = mul64 ms (pos 1_000_000)

abbrev pub is_queued : Overload → Option ℤ
is_queued o = elim o.queue [ none ↦ none | some q ↦ if q.is_queued then some q.wait_time else none ]

unfoldable pub queue_wait : Option Overload → Option ℤ
queue_wait none = none
queue_wait (some o) = elim (is_queued o) [
  | some w ↦ some (millis (or_else w (or_else o.retry_after_ms (pos 2000))))
  | none ↦
      if text_eq o.code (codes "10605")
      then some (millis (or_else o.retry_after_ms (pos 2000)))
      else none
]

pub record Response : Type 0 where
  pub status : ℕ
  pub retry_after : Text
  pub body : Text

pub data Attempt : Type 0 where
  transport_error : Text → Attempt
  answered : Response → Attempt

-- What the surroundings answer: the upstream at each attempt, whether the forced refresh works,
-- whether the sleep after an attempt runs to its end, and the decoders.
pub record World : Type 0 where
  pub upstream : ℕ → Attempt
  pub refresh_ok : Bool
  pub sleep_ok : ℕ → Bool
  pub overload : Text → Option Overload
  pub parse_seconds : Text → Option ℤ

pub data Action : Type 0 where
  call : ℕ → Action
  sleep : ℤ → Action
  refresh : Action

pub data Result : Type 0 where
  reply : Response → Result
  failed : Text → Result
  cancelled unreachable : Result

-- The part of a body that `io.LimitReader(resp.Body, 8192)` lets through.
unfoldable pub read_limited : Text → Text
read_limited = take 8192

-- `errorResponse`, with the part of the body that was read.
unfoldable pub error_response : Response → Response
error_response r = record r { body = read_limited r.body }

-- `1 << (attempt - 1)` seconds.
unfoldable pub backoff : ℕ → ℤ
backoff attempt = pos (2 ^ (attempt - 1) * second)

unfoldable pub cap_wait : ℤ → ℤ
cap_wait w = if ltb_ℤ max_wait w then max_wait else w

-- What to do after one attempt.
pub data Next : Type 0 where
  return : Result → Next
  again_after : ℤ → Next
  refresh_token : Next

module _ (w : World) where
  unfoldable pub header_wait : Response → ℕ → ℤ
  header_wait r attempt =
      if is_nil r.retry_after
      then backoff attempt
      else elim (w.parse_seconds r.retry_after) [ none ↦ backoff attempt | some d ↦ d ]

  unfoldable pub retry_wait : Response → ℕ → Option ℤ → ℤ
  retry_wait r attempt queued = cap_wait (elim queued [ none ↦ header_wait r attempt | some d ↦ d ])

  unfoldable pub after_response : ℕ → Response → Next
  after_response attempt r =
      let queued = queue_wait (w.overload (read_limited r.body)) in
      if r.status == 200
      then return (reply r)
      else if r.status == 401
      then (if attempt == 1 then refresh_token else return (reply (error_response r)))
      else if retryable_status r.status || is_some queued
      then (if leb max_attempts attempt
          then return (reply (error_response r))
          else again_after (retry_wait r attempt queued))
      else return (reply (error_response r))

  unfoldable pub after_attempt : ℕ → Attempt → Next
  after_attempt attempt (transport_error e) =
      if ltb attempt max_attempts then again_after (pos (attempt * second)) else return (failed e)
  after_attempt attempt (answered r) = after_response attempt r

  abbrev refused : Attempt → Result
  refused (transport_error e) = failed e
  refused (answered r) = reply (error_response r)

  -- The loop, on the number of attempts that are left; the log holds what was done.
  unfoldable pub call_from : ℕ → ℕ → List Action → Result × List Action
  call_from zero attempt log = (unreachable, log)
  call_from (suc left) attempt log =
      let now = w.upstream attempt in
      let called = log ++ call attempt ∷ [] in
      elim (after_attempt attempt now) [
        | return r ↦ (r, called)
        | again_after d ↦ elim (w.sleep_ok attempt) [
          | true ↦ call_from left (suc attempt) (called ++ sleep d ∷ [])
          | false ↦ (cancelled, called ++ sleep d ∷ [])
        ]
        | refresh_token ↦ elim w.refresh_ok [
          | true ↦ call_from left (suc attempt) (called ++ refresh ∷ [])
          | false ↦ (refused now, called ++ refresh ∷ [])
        ]
      ]

  unfoldable pub call_upstream : Result × List Action
  call_upstream = call_from max_attempts 1 []
