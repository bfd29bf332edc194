-- ===== src/Api/Throttler/Pacing.antt =====
-- The pace of the requests to the FMS, and the counts of them.
use native.Mathlib.Nat.{suc-mul, zero-mul, zero-add}
use entsoe_pipeline.Prelude.{
  ℕ, ◌+◌, ◌*◌, ◌≤◌, ◌≡◌, refl, ◌∙◌, max, false, List, [], ◌∷◌, length, filter, Bool-cases, inl, inr,
  if◌then◌else◌, arith,
}
use entsoe_pipeline.Api.Counter.{requests, requests-increment}
use entsoe_pipeline.Api.Throttler.{
  ThrottledSession, Clock, PreparedRequest, is_fms, env_of, category_of, sleep_time, wait_if_needed,
  send, sends,
}

abbrev pub fms_requests : List (Clock × PreparedRequest) → ℕ
fms_requests run = length (filter (λ (_, r). is_fms r) run)

send_other :
    (t : Clock) (r : PreparedRequest) (s : ThrottledSession) → is_fms r ≡ false → send t r s ≡ s
unfolding send
send_other t r s h = rw (h, send) refl

send_min_interval :
    (t : Clock) (r : PreparedRequest) (s : ThrottledSession)
    → (send t r s).min_interval ≡ s.min_interval
unfolding send wait_if_needed
send_min_interval t r s = elim (Bool-cases (is_fms r)) [
  | inl h ↦ rw (h, send) refl
  | inr h ↦ rw (h, send) refl
]

-- A request to the FMS goes out when both the clock shows it and the interval since the last one is
-- over, and a request to another host leaves the session as it was.
pub send_last_request_time :
    (t : Clock) (r : PreparedRequest) (s : ThrottledSession)
    → (send t r s).last_request_time ≡ (
        if is_fms r
        then max t.now (s.last_request_time + s.min_interval) + t.slack
        else s.last_request_time)
unfolding send wait_if_needed sleep_time
send_last_request_time t r s = elim (Bool-cases (is_fms r)) [
  | inl h ↦ rw (h, send) (ground arith)
  | inr h ↦ rw (h, send) refl
]

send_counts :
    (t : Clock) (r : PreparedRequest) (s : ThrottledSession)
    → requests (send t r s).counter ≡ requests s.counter + fms_requests ((t, r) ∷ [])
unfolding send
send_counts t r s = elim (Bool-cases (is_fms r)) [
  | inl h ↦ rw (h, send) (omega (arith, requests-increment (env_of r) (category_of r) s.counter))
  | inr h ↦ rw (h, send) (omega arith)
]

fms_requests-first :
    (t : Clock) (r : PreparedRequest) (run : List (Clock × PreparedRequest)) (m last : ℕ)
    → fms_requests ((t, r) ∷ run) * m + last
      ≡ fms_requests run * m + ((if is_fms r then m else 0) + last)
fms_requests-first t r run m last = elim (Bool-cases (is_fms r)) [
  | inl h ↦ rw h (omega (arith, suc-mul (fms_requests run) m))
  | inr h ↦ rw h (omega arith)
]

send_pace :
    (t : Clock) (r : PreparedRequest) (s : ThrottledSession)
    → (if is_fms r then s.min_interval else 0) + s.last_request_time
      ≤ (send t r s).last_request_time
send_pace t r s = ground (arith, send_last_request_time t r s)

-- However the threads interleave and whatever the clock shows when each send begins, from the last
-- request before a run to the last one of the run there is at least one whole interval for each
-- request to the FMS. The counters grow by one for each of those, and the interval stays what it was.
pub sends_pace :
    (run : List (Clock × PreparedRequest)) (s : ThrottledSession)
    → (fms_requests run * s.min_interval + s.last_request_time ≤ (sends run s).last_request_time)
      × (requests (sends run s).counter ≡ requests s.counter + fms_requests run)
      × ((sends run s).min_interval ≡ s.min_interval)
unfolding sends
sends_pace [] s = (simp (zero-mul, zero-add) (omega arith), omega arith, refl)
sends_pace ((t, r) ∷ run) s =
    let (pace, counts, same) = sends_pace run (send t r s) in
    let kept = rw send_min_interval at pace in
    (
      omega (
        arith,
        kept,
        send_pace t r s,
        fms_requests-first t r run s.min_interval s.last_request_time,
      ),
      ground (arith, counts, send_counts t r s),
      same ∙ send_min_interval t r s,
    )
