-- ===== src/Engine/Turn.antt =====
-- pipeline.py: one round of the loop of `PipelineEngine.run`.
use apcore_python.Prelude.{
  ℕ, suc, ◌-◌, Bool, true, false, not, ◌&&◌, Option, none, some, List, [], ◌∷◌, ◌++◌, String,
  str_eq, Text, any, among, leb, drop, take, assign, is_some, if◌then◌else◌,
}
use apcore_python.Strategy.{Step, name_to_idx}
use apcore_python.Engine.{
  StepResult, Exception, timeout_error, module_timeout, chain_error, CallState, PipelineContext,
  Outcome, returned, failed, PipelineStep, StepTrace, Outputs, PipelineState, Recovery, step_result,
  dictionary, other_value, StepMiddleware, invoke_before_step, reversed, invoke_after_step,
  invoke_on_step_error, invoke_step_cleanup_hooks, any_match, execute_step,
}

-- What is the same in every round: the names and capabilities of the strategy's steps, from which
-- `_name_to_idx` is built, its step middlewares, the fixed part of the context, and the predicate in
-- force.
pub record Setup : Type 0 where
  pub declared : List Step
  pub step_middlewares : List StepMiddleware
  pub module_id : Text
  pub dry_run : Bool
  pub run_until : Option (PipelineState → Bool)

-- What changes from round to round: the call's state and the loop's variables.
pub record Running : Type 0 where
  pub state : CallState
  pub trace : List StepTrace
  pub step_outputs : Outputs
  pub unavailable : List String

-- `PipelineStepError` carries the step and the cause; a chain error is raised as it is.
pub data PipelineError : Type 0 where
  step_error : String → Exception → PipelineError
  chain : Exception → PipelineError
  abort_error : String → List String → PipelineError
  step_not_found : Option String → PipelineError

-- A round goes on at an index, returns as `run_until` says, or raises.
pub data Turn : Type 0 where
  go_on : ℕ → Running → Turn
  stops : Running → Turn
  raises : PipelineError → Running → Turn

abbrev pub declared_steps : List PipelineStep → List Step
declared_steps [] = []
declared_steps (step ∷ steps) = step.declared ∷ declared_steps steps

abbrev pub context_of : Setup → CallState → PipelineContext
context_of setup s = record { module_id = setup.module_id; dry_run = setup.dry_run; state = s }

abbrev pub state_of : Setup → String → Running → PipelineState
state_of setup name r = record {
  step_name = name;
  outputs = r.step_outputs;
  context = context_of setup r.state;
}

abbrev pub result_of : String → StepResult
result_of action = record { action = action; skip_to = none; confidence = none; alternatives = [] }

abbrev pub entry : String → StepResult → Option String → StepTrace
entry name result reason = record {
  name = name;
  result = result;
  skipped = false;
  decision_point = is_some result.confidence;
  skip_reason = reason;
}

abbrev pub skipped_entry : Option String → Step → StepTrace
skipped_entry reason step = record {
  name = step.name;
  result = result_of "continue";
  skipped = true;
  decision_point = false;
  skip_reason = reason;
}

abbrev pub add_trace : StepTrace → Running → Running
add_trace t r = record r { trace = r.trace ++ t ∷ [] }

-- `unavailable.update(step.provides)`
abbrev pub lose : Step → Running → Running
lose step r = record r { unavailable = r.unavailable ++ step.provides }

abbrev pub except : List String → List String → List String
except gone [] = []
except gone (key ∷ keys) = if among key gone then except gone keys else key ∷ except gone keys

-- `unavailable.difference_update(step.provides)`
abbrev pub regain : Step → Running → Running
regain step r = record r { unavailable = except step.provides r.unavailable }

abbrev pub lose_if : Bool → Step → Running → Running
lose_if dry_run step r = if dry_run then lose step r else r

-- the loop over the steps between a skip and its target
abbrev pub skip_over : Bool → List Step → Running → Running
skip_over dry_run [] r = r
skip_over dry_run (step ∷ steps) r =
    skip_over dry_run steps (add_trace (skipped_entry none step) (lose_if dry_run step r))

abbrev pub skip_found : Setup → ℕ → Option String → Option ℕ → Running → Turn
skip_found setup i target none r = raises (step_not_found target) r
skip_found setup i target (some j) r =
    if leb j i
    then raises (step_not_found target) r
    else go_on j (skip_over setup.dry_run (take (j - suc i) (drop (suc i) setup.declared)) r)

-- `result.action == "skip_to"`
abbrev pub skip_to_target : Setup → ℕ → Option String → Running → Turn
skip_to_target setup i none r = raises (step_not_found none) r
skip_to_target setup i (some target) r =
    skip_found setup i (some target) (name_to_idx target setup.declared) r

-- a clean continue
abbrev pub advance : Setup → ℕ → PipelineStep → Running → Turn
advance setup i step r = elim setup.run_until [
  | none ↦ go_on (suc i) r
  | some predicate ↦
      if predicate (state_of setup step.declared.name r) then stops r else go_on (suc i) r
]

-- what a recorded result does
unfoldable pub settle : Setup → ℕ → PipelineStep → StepResult → Running → Turn
settle setup i step result r =
    if str_eq result.action "abort"
    then if setup.dry_run
      then go_on (suc i) (lose step.declared r)
      else raises (abort_error step.declared.name result.alternatives) r
    else if str_eq result.action "skip_to"
    then skip_to_target setup i result.skip_to r
    else advance setup i step (if setup.dry_run then regain step.declared r else r)

-- the trace entry, `after_step` and the snapshot of the output
abbrev pub record_result : Setup → PipelineStep → StepResult → Running → Running
record_result setup step result r =
    let traced = add_trace (entry step.declared.name result none) r in
    let s =
      invoke_after_step (reversed setup.step_middlewares) step.declared.name
        (state_of setup step.declared.name traced) result in
    record traced {
      state = s;
      step_outputs = assign str_eq step.declared.name s.output r.step_outputs;
    }

abbrev pub complete : Setup → ℕ → PipelineStep → StepResult → Running → Turn
complete setup i step result r = settle setup i step result (record_result setup step result r)

abbrev pub raise_failure : Setup → PipelineStep → Exception → PipelineError
raise_failure setup step timeout_error =
    step_error step.declared.name (module_timeout setup.module_id step.timeout_ms)
raise_failure setup step (chain_error cause) = chain (chain_error cause)
raise_failure setup step exc = step_error step.declared.name exc

abbrev pub coerced : Recovery → Running → StepResult × Running
coerced (step_result result) r = (result, r)
coerced (dictionary d) r =
    (result_of "continue", record r { state = record (r.state) { output = some d } })
coerced other_value r = (result_of "continue", r)

abbrev pub recovered_or_raised :
    Setup → ℕ → PipelineStep → Exception → Option Recovery → Running → Turn
recovered_or_raised setup i step exc (some value) r =
    complete setup i step (coerced value r).0 (coerced value r).1
recovered_or_raised setup i step exc none r =
    if step.ignore_errors
    then go_on (suc i)
        (add_trace (entry step.declared.name (result_of "continue") (some "error_ignored")) r)
    else raises (raise_failure setup step exc)
        (add_trace (entry step.declared.name (result_of "abort") none) r)

abbrev pub preflight : PipelineStep → Exception → Running → Running
preflight step exc r = record r {
  state = record (r.state) {
    preflight_errors = assign str_eq step.declared.name exc (r.state.preflight_errors);
  };
}

-- the state and the recovery that the `on_step_error` hooks leave
abbrev pub ask_recovery : Setup → PipelineStep → Exception → Running → CallState × Option Recovery
ask_recovery setup step exc r =
    invoke_on_step_error (reversed setup.step_middlewares) step.declared.name
      (state_of setup step.declared.name r) exc

-- the `except` clause around the body
abbrev pub on_failure : Setup → ℕ → PipelineStep → Exception → Running → Turn
on_failure setup i step exc r =
    if setup.dry_run
    then go_on (suc i) (
        add_trace (entry step.declared.name (result_of "abort") none)
          (preflight step exc (lose step.declared r)))
    else recovered_or_raised setup i step exc (ask_recovery setup step exc r).1
        (record r { state = (ask_recovery setup step exc r).0 })

abbrev pub after_body : Setup → ℕ → PipelineStep → CallState × Outcome → Running → Turn
after_body setup i step (s, returned result) r =
    complete setup i step result (record r { state = s })
after_body setup i step (s, failed exc) r = on_failure setup i step exc (record r { state = s })

-- a `before_step` failure is terminal
abbrev pub entered :
    Setup → ℕ → PipelineStep → CallState × Option (Exception × List StepMiddleware) → Running → Turn
entered setup i step (s, none) r =
    after_body setup i step (execute_step step (context_of setup s)) (record r { state = s })
entered setup i step (s, some (exc, executed)) r =
    let broken : Running = record r { state = s } in
    let cleaned =
      invoke_step_cleanup_hooks (reversed executed) step.declared.name
        (state_of setup step.declared.name broken) (chain_error exc) in
    raises (chain (chain_error exc))
      (add_trace (entry step.declared.name (result_of "abort") none) (record r { state = cleaned }))

abbrev pub filtered_out : Option (List Text) → Text → Bool
filtered_out none module_id = false
filtered_out (some patterns) module_id = not (any_match patterns module_id)

-- a provider of something that the step requires failed or was skipped
abbrev pub misses : Setup → PipelineStep → Running → Bool
misses setup step r = setup.dry_run && any (λ key. among key r.unavailable) step.declared.requires

unfoldable pub turn : Setup → ℕ → PipelineStep → Running → Turn
turn setup i step r =
    if filtered_out step.match_modules setup.module_id
    then go_on (suc i) (
        add_trace (skipped_entry (some "no_match") step.declared)
          (lose_if setup.dry_run step.declared r))
    else if setup.dry_run && not step.pure
    then go_on (suc i)
        (add_trace (skipped_entry (some "dry_run") step.declared) (lose step.declared r))
    else if misses setup step r
    then go_on (suc i)
        (add_trace (skipped_entry (some "missing_dependency") step.declared) (lose step.declared r))
    else entered setup i step
        (invoke_before_step setup.step_middlewares step.declared.name
          (state_of setup step.declared.name r) [])
        r
