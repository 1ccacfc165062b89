-- ===== src/Engine/Loop.antt =====
-- pipeline.py: `PipelineEngine.run`.
use apcore_python.Prelude.{
  ℕ, zero, suc, Bool, true, false, not, ◌&&◌, Option, none, some, List, [], str_eq, any, length,
  get_elem?,
}
use apcore_python.Engine.{CallState, StepTrace, PipelineStep}
use apcore_python.Engine.Turn.{
  declared_steps, Setup, Running, PipelineError, Turn, go_on, stops, raises, turn,
}

-- How a run ends: it returns at the end of the steps or where `run_until` says so, or raises.
-- `out_of_fuel` is no end.
pub data Ending : Type 0 where
  finished stopped out_of_fuel : Ending
  error : PipelineError → Ending

pub record Report : Type 0 where
  pub ending : Ending
  pub running : Running
  pub success : Bool

abbrev pub report : Ending → Bool → Running → Report
report ending success r = record { ending = ending; running = r; success = success }

abbrev pub aborted : StepTrace → Bool
aborted t = str_eq t.result.action "abort" && not t.skipped

-- What follows a round, where `go` is the rest of the loop.
abbrev pub follow : (ℕ → Running → Report) → Turn → Report
follow go (go_on j next) = go j next
follow go (stops last) = report stopped true last
follow go (raises e last) = report (error e) false last

abbrev pub at_step : (ℕ → Running → Report) → Setup → ℕ → Running → Option PipelineStep → Report
at_step go setup i r none = report finished (not (any aborted r.trace)) r
at_step go setup i r (some step) = follow go (turn setup i step r)

-- `while i < len(steps)`, on fuel
unfoldable pub run_from : ℕ → List PipelineStep → Setup → ℕ → Running → Report
run_from zero steps setup i r = report out_of_fuel false r
run_from (suc fuel) steps setup i r =
    at_step (run_from fuel steps setup) setup i r (get_elem? steps i)

abbrev pub start : CallState → Running
start s = record { state = s; trace = []; step_outputs = []; unavailable = [] }

abbrev pub indexed : List PipelineStep → Setup → Setup
indexed steps setup = record setup { declared = declared_steps steps }

-- `PipelineEngine.run`: a round for each step and one for the test that ends the loop
unfoldable pub run : List PipelineStep → Setup → CallState → Report
run steps setup s = run_from (suc (length steps)) steps (indexed steps setup) 0 (start s)
