-- ===== src/Api/Throttler.antt =====
-- src/entsoe_pipeline/api/client_side_throttler.py: `ThrottledSession`. Time is counted in whole ticks
-- from a start at which no request was sent, and `time.sleep(d)` returns `d` or more ticks later.
-- What the session's lock guards is one step, so the sends of all threads are one sequence.
pub mod Pacing
use entsoe_pipeline.Prelude.{
  ℕ, ◌+◌, ◌-◌, ◌≤◌, ◌≡◌, Bool, Option, none, some, List, [], ◌∷◌, Text, text, has_substring, ltb,
  ◌||◌, if◌then◌else◌, arith,
}
use entsoe_pipeline.Api.Counter.{ApiRequestCounter, increment}

pub record ThrottledSession : Type 0 where
  pub min_interval : ℕ
  pub last_request_time : ℕ
  pub counter : ApiRequestCounter

-- What the clock does at one send: it shows `now` when the lock is taken, and runs on for `slack`
-- ticks besides what is slept, until it is read again.
pub record Clock : Type 0 where
  pub now : ℕ
  pub slack : ℕ

-- An `elapsed` below zero, which a clock set back gives, waits longer than the interval.
unfoldable pub sleep_time : ℕ → ThrottledSession → ℕ
sleep_time now s =
    if ltb now (s.last_request_time + s.min_interval)
    then (s.last_request_time + s.min_interval) - now
    else 0

unfoldable pub wait_if_needed : Clock → ThrottledSession → ThrottledSession
unfolding sleep_time
wait_if_needed t s = record s { last_request_time = t.now + sleep_time t.now s + t.slack }

pub record PreparedRequest : Type 0 where
  pub url : Text
  -- the body, decoded; empty where there is none
  pub body : Text

abbrev pub is_fms : PreparedRequest → Bool
is_fms r = has_substring r.url (text "fms.tp")

unfoldable pub env_of : PreparedRequest → Text
env_of r = if has_substring r.url (text "tp-iop") then text "IOP" else text "PROD"

unfoldable pub category_of : PreparedRequest → Text
category_of r =
    if has_substring r.url (text "TP_Legacy_Publications")
      || has_substring r.body (text "TP_Legacy_Publications")
    then text "TP_Legacy_Publications"
    else text "TP_export"

-- The session as it is when the request goes out by `super().send`.
unfoldable pub send : Clock → PreparedRequest → ThrottledSession → ThrottledSession
unfolding wait_if_needed env_of category_of increment
send t r s =
    if is_fms r
    then record (wait_if_needed t s) { counter = increment (env_of r) (category_of r) s.counter }
    else s

-- The sends of a run, each with its clock.
unfoldable pub sends : List (Clock × PreparedRequest) → ThrottledSession → ThrottledSession
unfolding send
sends [] s = s
sends ((t, r) ∷ rest) s = sends rest (send t r s)
