-- ===== src/Engine.antt =====
-- pipeline.py: the data of a pipeline run and the hooks of the step middlewares. A step's body and a
-- middleware's hook are code of the steps and of the host: arbitrary functions of what they see,
-- that give the state of the call they leave and what they return or raise. Of a context `module_id`
-- and `dry_run` are fixed when it is made; the rest is the call's state. Durations and the texts
-- for people are left out.
use apcore_python.Prelude.{
  ℕ, Bool, true, false, not, ◌&&◌, Option, none, some, List, [], ◌∷◌, ◌++◌, String, Text, any, ltb,
  if◌then◌else◌,
}
use apcore_python.Pattern.{match_pattern}
use apcore_python.Acl.Values.{Value}
use apcore_python.Strategy.{Step}
pub mod Turn
pub mod Loop
pub mod Entries
pub mod Cases
pub mod Trace
pub mod Ends
pub mod Bodies
pub mod Denial
pub mod Denied
pub mod DryRun
mod Tests

pub record StepResult : Type 0 where
  pub action : String
  pub skip_to : Option String
  pub confidence : Option Value
  pub alternatives : List String

-- `raised` holds the class and the message.
pub data Exception : Type 0 where
  raised : String → String → Exception
  timeout_error : Exception
  module_timeout : Text → ℕ → Exception
  chain_error : Exception → Exception

-- What the steps and the hooks may change of a `PipelineContext`: `rest` stands for the fields that
-- the engine does not read.
pub record CallState : Type 0 where
  pub output : Option Value
  pub preflight_errors : List (String × Exception)
  pub rest : Value

pub record PipelineContext : Type 0 where
  pub module_id : Text
  pub dry_run : Bool
  pub state : CallState

pub data Outcome : Type 0 where
  returned : StepResult → Outcome
  failed : Exception → Outcome

-- `execute`, the time it takes, and what it has done to the state when it is cancelled at a limit
pub record Body : Type 0 where
  pub execute : PipelineContext → CallState × Outcome
  pub takes_ms : PipelineContext → ℕ
  pub cancelled_at : ℕ → PipelineContext → CallState

pub record PipelineStep : Type 0 where
  pub declared : Step
  pub match_modules : Option (List Text)
  pub ignore_errors : Bool
  pub pure : Bool
  pub timeout_ms : ℕ
  pub body : Body

pub record StepTrace : Type 0 where
  pub name : String
  pub result : StepResult
  pub skipped : Bool
  pub decision_point : Bool
  pub skip_reason : Option String

abbrev pub Outputs : Type 0
Outputs = List (String × Option Value)

pub record PipelineState : Type 0 where
  pub step_name : String
  pub outputs : Outputs
  pub context : PipelineContext

-- What `on_step_error` may return to recover: a `StepResult`, a dictionary, or another value.
pub data Recovery : Type 0 where
  step_result : StepResult → Recovery
  dictionary : Value → Recovery
  other_value : Recovery

pub data Answer : Type 0 where
  declines fails : Answer
  recovers : Recovery → Answer

-- A hook that is not defined is `none`; an exception is `some` behind the state.
pub record StepMiddleware : Type 0 where
  pub before_step : Option (String → PipelineState → CallState × Option Exception)
  pub after_step : Option (String → PipelineState → StepResult → CallState × Option Exception)
  pub on_step_error : Option (String → PipelineState → Exception → CallState × Answer)

-- The hooks share the context, so each sees what the ones before it left.
abbrev pub with_state : PipelineState → CallState → PipelineState
with_state p s = record p { context = record (p.context) { state = s } }

abbrev pub call_before : StepMiddleware → String → PipelineState → CallState × Option Exception
call_before mw name p = elim mw.before_step [ none ↦ (p.context.state, none) | some fn ↦ fn name p ]

abbrev pub call_after :
    StepMiddleware → String → PipelineState → StepResult → CallState × Option Exception
call_after mw name p result = elim mw.after_step [
  | none ↦ (p.context.state, none)
  | some fn ↦ fn name p result
]

abbrev pub call_on_error : StepMiddleware → String → PipelineState → Exception → CallState × Answer
call_on_error mw name p exc = elim mw.on_step_error [
  | none ↦ (p.context.state, declines)
  | some fn ↦ fn name p exc
]

-- The state, and the exception with the middlewares that were entered.
abbrev pub Entry : Type 0
Entry = CallState × Option (Exception × List StepMiddleware)

-- What follows a `before_step`, where `go` is the rest of the loop.
abbrev pub unless_raised :
    (CallState → Entry) → List StepMiddleware → CallState × Option Exception → Entry
unless_raised go executed (s, none) = go s
unless_raised go executed (s, some exc) = (s, some (exc, executed))

-- `_invoke_before_step`
unfoldable pub invoke_before_step :
    List StepMiddleware → String → PipelineState → List StepMiddleware → Entry
invoke_before_step [] name p executed = (p.context.state, none)
invoke_before_step (mw ∷ mws) name p executed =
    unless_raised (λ s. invoke_before_step mws name (with_state p s) (executed ++ mw ∷ []))
      (executed ++ mw ∷ []) (call_before mw name p)

abbrev pub reversed : List StepMiddleware → List StepMiddleware
reversed [] = []
reversed (mw ∷ mws) = reversed mws ++ mw ∷ []

-- the loop of `_invoke_step_mw_hook` for `after_step`, over the reversed list
unfoldable pub invoke_after_step :
    List StepMiddleware → String → PipelineState → StepResult → CallState
invoke_after_step [] name p result = p.context.state
invoke_after_step (mw ∷ mws) name p result =
    invoke_after_step mws name (with_state p (call_after mw name p result).0) result

-- What follows an `on_step_error`, where `go` is the rest of the loop.
abbrev pub unless_recovered :
    (CallState → CallState × Option Recovery) → CallState × Answer → CallState × Option Recovery
unless_recovered go (s, declines) = go s
unless_recovered go (s, fails) = go s
unless_recovered go (s, recovers value) = (s, some value)

-- the loop of `_invoke_on_step_error`, over the reversed list: the first recovery
unfoldable pub invoke_on_step_error :
    List StepMiddleware → String → PipelineState → Exception → CallState × Option Recovery
invoke_on_step_error [] name p exc = (p.context.state, none)
invoke_on_step_error (mw ∷ mws) name p exc =
    unless_recovered (λ s. invoke_on_step_error mws name (with_state p s) exc)
      (call_on_error mw name p exc)

-- the loop of `_invoke_step_cleanup_hooks`, over the reversed list
unfoldable pub invoke_step_cleanup_hooks :
    List StepMiddleware → String → PipelineState → Exception → CallState
invoke_step_cleanup_hooks [] name p exc = p.context.state
invoke_step_cleanup_hooks (mw ∷ mws) name p exc =
    invoke_step_cleanup_hooks mws name (with_state p (call_on_error mw name p exc).0) exc

abbrev pub any_match : List Text → Text → Bool
any_match patterns module_id = any (λ p. match_pattern p module_id) patterns

-- `asyncio.wait_for(step.execute(ctx), timeout)` where there is a limit
abbrev pub execute_step : PipelineStep → PipelineContext → CallState × Outcome
execute_step step ctx =
    if ltb 0 step.timeout_ms && ltb step.timeout_ms (step.body.takes_ms ctx)
    then (step.body.cancelled_at step.timeout_ms ctx, failed timeout_error)
    else step.body.execute ctx
