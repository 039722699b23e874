-- ===== src/Scheduling/Admission.antt =====
-- scheduling/models.py: `decide_analysis_call_admission`, the global interval between calls.
pub mod Interval
use ai_investment_manager.Prelude.{
  ℕ, ◌+◌, max, Bool, false, Option, none, some, ltb, if◌then◌else◌, Result, ok, raise_if, ◌>>=◌,
  ◌>>◌,
}
use ai_investment_manager.Kernel.{Time, seconds}
use ai_investment_manager.Scheduling.Event.{Error, clock_skew}

-- `AnalysisCallAdmission`: exactly one of the two times.
pub data Admission : Type 0 where
  admitted : Time → Admission
  deferred : Time → Admission

last_after : Option Time → Time → Bool
last_after none requested_at = false
last_after (some t) requested_at = ltb requested_at t

retry_at : Time → Option Time → ℕ → Time
retry_at requested_at none interval = requested_at
retry_at requested_at (some last) interval = max requested_at (last + seconds interval)

-- The interval is not negative in the policy, so its test is left out.
unfoldable pub decide_analysis_call_admission : Time → Option Time → ℕ → Result Error Admission
unfolding last_after retry_at
decide_analysis_call_admission requested_at last interval = do
  raise_if (last_after last requested_at) clock_skew
  ok (
      if ltb requested_at (retry_at requested_at last interval)
      then deferred (retry_at requested_at last interval)
      else admitted requested_at)
