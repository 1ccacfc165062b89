-- ===== src/Engine/Tests.antt =====
-- pipeline.py: `PipelineEngine.run` on a small strategy.

use apcore_python.Engine.Entries.{trace_names}
use mathlib.Core.Path.{subst}
use apcore_python.Prelude.{
  codes, ◌≡◌, refl, Bool, true, false, none, some, List, [], ◌∷◌, String, str_eq,
}
use apcore_python.Strategy.{Step}
use apcore_python.Engine.{
  module_timeout, invoke_on_step_error, recovers, invoke_after_step, raised, invoke_before_step,
  Body, execute_step, PipelineContext, StepResult, CallState, Outcome, returned, failed,
  PipelineStep, StepMiddleware, other_value,
}
use apcore_python.Engine.Turn.{step_error, result_of, Setup, settle, turn}
use apcore_python.Engine.Loop.{finished, error, run_from, run}
use apcore_python.Acl.Values.{null}
use apcore_python.Engine.Ends.{run-Ended, Ended}
use apcore_python.Engine.Bodies.{run-dry_run, run-Breaks, with_bodies, if_impure, at_once}
use apcore_python.Engine.DryRun.{run-EndsDry, EndsDry}
use apcore_python.Engine.Denied.{run-Denied, Denied}

abbrev idle : CallState
idle = record { output = none; preflight_errors = []; rest = null }

abbrev answers : StepResult → Body
answers result = record {
  execute = λ ctx. (ctx.state, returned result);
  takes_ms = λ ctx. 5;
  cancelled_at = λ limit ctx. ctx.state;
}

abbrev throws : Body
throws = record {
  execute = λ ctx. (ctx.state, failed (raised "ACLDeniedError" "denied"));
  takes_ms = λ ctx. 5;
  cancelled_at = λ limit ctx. ctx.state;
}

abbrev declare : String → Step
declare name = record {
  id = 0;
  name = name;
  removable = true;
  replaceable = true;
  requires = [];
  provides = name ∷ [];
}

abbrev step_with : String → Body → Bool → PipelineStep
step_with name body pure = record {
  declared = declare name;
  match_modules = none;
  ignore_errors = false;
  pure = pure;
  timeout_ms = 0;
  body = body;
}

abbrev lookup_step : PipelineStep
lookup_step = step_with "module_lookup" (answers (result_of "continue")) true

abbrev acl_step : PipelineStep
acl_step = step_with "acl_check" throws true

abbrev execute_module : PipelineStep
execute_module = step_with "execute" (answers (result_of "continue")) false

abbrev jump : PipelineStep
jump = step_with "jump" (answers (record (result_of "skip_to") { skip_to = some "execute" })) true

abbrev slow : PipelineStep
slow = record (step_with "slow" (answers (result_of "continue")) false) { timeout_ms = 3 }

abbrev calling : Bool → List StepMiddleware → Setup
calling dry_run mws = record {
  declared = [];
  step_middlewares = mws;
  module_id = codes "a.b";
  dry_run = dry_run;
  run_until = none;
}

abbrev broken_hook : StepMiddleware
broken_hook = record {
  before_step = some (λ name p. (p.context.state, some (raised "KeyError" "x")));
  after_step = none;
  on_step_error = some (λ name p exc. (p.context.state, recovers other_value));
}

abbrev denied_steps : List PipelineStep
denied_steps = lookup_step ∷ acl_step ∷ execute_module ∷ []

denied_call :
    (run denied_steps (calling false []) idle).ending
    ≡ error (step_error "acl_check" (raised "ACLDeniedError" "denied"))
unfolding run run_from turn settle invoke_before_step invoke_after_step invoke_on_step_error
denied_call = refl

dry_call :
    trace_names (run denied_steps (calling true []) idle).running.trace
    ≡ "module_lookup" ∷ "acl_check" ∷ "execute" ∷ []
unfolding run run_from turn settle invoke_before_step invoke_after_step invoke_on_step_error
dry_call = refl

skipping : (run (jump ∷ acl_step ∷ execute_module ∷ []) (calling false []) idle).ending ≡ finished
unfolding run run_from turn settle invoke_before_step invoke_after_step invoke_on_step_error
skipping = refl

too_slow :
    (run (slow ∷ []) (calling false []) idle).ending
    ≡ error (step_error "slow" (module_timeout (codes "a.b") 3))
unfolding run run_from turn settle invoke_before_step invoke_after_step invoke_on_step_error
too_slow = refl

run-Ended_example :
    Ended
      ("module_lookup" ∷ "acl_check" ∷ "execute" ∷ [])
      (run denied_steps (calling false []) idle).ending
      (run denied_steps (calling false []) idle).running.trace
run-Ended_example = run-Ended denied_steps (calling false []) idle

run-dry_run_example :
    run (with_bodies (if_impure (λ step. throws)) denied_steps) (calling true []) idle
    ≡ run denied_steps (calling true []) idle
run-dry_run_example = run-dry_run (λ step. throws) denied_steps (calling true []) idle refl

-- A dry run of the same steps, where a middleware breaks in its `before_step`.
run-EndsDry_example :
    EndsDry (broken_hook ∷ []) (run denied_steps (calling true (broken_hook ∷ [])) idle).ending
run-EndsDry_example = run-EndsDry denied_steps (calling true (broken_hook ∷ [])) idle refl

run-Breaks_example :
    run (with_bodies (λ step. throws) denied_steps) (calling false (broken_hook ∷ [])) idle
    ≡ run denied_steps (calling false (broken_hook ∷ [])) idle
run-Breaks_example =
    run-Breaks (λ step. throws) denied_steps (calling false (broken_hook ∷ [])) idle
      (at_once (λ name p. (raised "KeyError" "x", refl)))

run-Denied_example :
    Denied
      (run denied_steps (calling false []) idle)
      (run (lookup_step ∷ acl_step ∷ step_with "execute" throws false ∷ []) (calling false []) idle)
run-Denied_example =
    run-Denied (lookup_step ∷ []) acl_step (execute_module ∷ [])
      (step_with "execute" throws false ∷ []) (calling false []) idle refl tt (refl, refl)
      (λ ctx. tt) (never, tt) refl
  where
    never :
        (ctx : PipelineContext) (result : StepResult)
        → (execute_step lookup_step ctx).1 ≡ returned result
        → str_eq result.action "skip_to" ≡ false
    never ctx result e = subst (λ o. not_skip o ≡ false) e refl
      where
        not_skip : Outcome → Bool
        not_skip (returned result) = str_eq result.action "skip_to"
        not_skip (failed exc) = false
