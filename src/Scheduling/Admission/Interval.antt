-- ===== src/Scheduling/Admission/Interval.antt =====
-- Admitted calls keep the interval, and a deferred call is admitted when it is retried.
use ai_investment_manager.Prelude.{
  ℕ, ◌+◌, ◌≤◌, ◌<◌, ◌≡◌, some, ok, arith, Bool-cases, ltb, ltb→lt, not_ltb→le, inl, inr, refl,
}
use ai_investment_manager.Kernel.{Time, seconds}
use ai_investment_manager.Scheduling.Admission.{
  Admission, admitted, deferred, decide_analysis_call_admission,
}

-- What a decision says, given the last admitted call: an admission is at the requested instant,
-- after the interval; a deferral names an instant after the request, at which the call is admitted,
-- and at no earlier instant after the request is it.
abbrev pub Decides : Time → Time → ℕ → Admission → Type 0
Decides requested last interval (admitted t) = (t ≡ requested) × (last + seconds interval ≤ t)
Decides requested last interval (deferred t) =
    (requested < t)
    × (decide_analysis_call_admission t (some last) interval ≡ ok (admitted t))
    × ((u : Time)
        → requested ≤ u
        → u < t
        → decide_analysis_call_admission u (some last) interval ≡ ok (deferred t))

decide_early :
    (u last : Time) (interval : ℕ)
    → last ≤ u
    → u < last + seconds interval
    → decide_analysis_call_admission u (some last) interval
      ≡ ok (deferred (last + seconds interval))
unfolding decide_analysis_call_admission
decide_early u last interval h k = ground arith

decide_late :
    (u last : Time) (interval : ℕ)
    → last + seconds interval ≤ u
    → decide_analysis_call_admission u (some last) interval ≡ ok (admitted u)
unfolding decide_analysis_call_admission
decide_late u last interval h = ground arith

-- For every request at or after the last admitted call there is a decision. A call is admitted as
-- it was requested, when the interval after the last call is over; a deferred call is given the
-- first instant at which it will be admitted.
pub decide_total :
    (requested last : Time) (interval : ℕ)
    → last ≤ requested
    → (a : Admission) × (decide_analysis_call_admission requested (some last) interval ≡ ok a)
      × Decides requested last interval a
decide_total requested last interval h =
    elim (Bool-cases (ltb requested (last + seconds interval))) [
      | inl early ↦
          let e : requested < last + seconds interval = ltb→lt _ _ early in
          (
            deferred (last + seconds interval),
            decide_early requested last interval h e,
            (
              e,
              decide_late (last + seconds interval) last interval (omega arith),
              λ u from below. decide_early u last interval (omega arith) below,
            ),
          )
      | inr late ↦
          let e : last + seconds interval ≤ requested = not_ltb→le _ _ late in
          (admitted requested, decide_late requested last interval e, (refl, e))
    ]
