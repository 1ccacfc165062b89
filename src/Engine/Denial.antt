-- ===== src/Engine/Denial.antt =====
-- pipeline.py: that a step which refuses ends the run.

use mathlib.Core.Path.{subst}
use apcore_python.Prelude.{
  All, either_case, ℕ, suc, ◌≡◌, refl, inl, inr, Bool, true, false, Option, none, some, List, [],
  ◌∷◌, ◌++◌, String, str_eq, arith, if◌then◌else◌, either_way,
}
use apcore_python.Engine.{
  declines, unless_recovered, with_state, Answer, invoke_on_step_error, reversed, execute_step,
  PipelineContext, StepResult, Exception, CallState, Outcome, returned, failed, PipelineStep,
  PipelineState, StepMiddleware,
}
use apcore_python.Engine.Turn.{
  regain, state_of, filtered_out, Setup, Running, Turn, go_on, stops, raises, settle, turn,
}
use apcore_python.Engine.Cases.{turn_cases, PassesBy, Given, by_body, by_recovery}

-- On every context the body fails or answers "abort".
abbrev pub Refusal : Outcome → Type 0
Refusal (failed exc) = Unit
Refusal (returned result) = str_eq result.action "abort" ≡ true

abbrev pub Refuses : PipelineStep → Type 0
Refuses step = (ctx : PipelineContext) → Refusal (execute_step step ctx).1

abbrev pub NeverSkips : PipelineStep → Type 0
NeverSkips step =
    (ctx : PipelineContext) (result : StepResult)
    → (execute_step step ctx).1 ≡ returned result
    → str_eq result.action "skip_to" ≡ false

-- No middleware has an `on_step_error`.
abbrev pub NoHandlers : List StepMiddleware → Type 0
NoHandlers mws = All (λ mw. mw.on_step_error ≡ none) mws

NoHandlers-append :
    (mws : List StepMiddleware) (mw : StepMiddleware)
    → NoHandlers mws
    → mw.on_step_error ≡ none
    → NoHandlers (mws ++ mw ∷ [])
NoHandlers-append [] mw h e = (e, tt)
NoHandlers-append (m ∷ mws) mw (h, hs) e = (h, NoHandlers-append mws mw hs e)

NoHandlers-reversed : (mws : List StepMiddleware) → NoHandlers mws → NoHandlers (reversed mws)
NoHandlers-reversed [] h = h
NoHandlers-reversed (mw ∷ mws) (h, hs) =
    NoHandlers-append (reversed mws) mw (NoHandlers-reversed mws hs) h

invoke_on_step_error-NoHandlers :
    (mws : List StepMiddleware) (name : String) (p : PipelineState) (exc : Exception)
    → NoHandlers mws
    → (invoke_on_step_error mws name p exc).1 ≡ none
unfolding invoke_on_step_error
invoke_on_step_error-NoHandlers [] name p exc h = refl
invoke_on_step_error-NoHandlers (mw ∷ mws) name p exc (h, hs) =
    declined mw.on_step_error h
      (λ s. invoke_on_step_error-NoHandlers mws name (with_state p s) exc hs)
  where
    declined :
        (hook : Option (String → PipelineState → Exception → CallState × Answer))
        → hook ≡ none
        → ((s : CallState) → (invoke_on_step_error mws name (with_state p s) exc).1 ≡ none)
        → (unless_recovered
            (λ s. invoke_on_step_error mws name (with_state p s) exc)
            (elim hook as (λ _. CallState × Answer) [
              | none ↦ (p.context.state, declines)
              | some fn ↦ fn name p exc
            ])).1
          ≡ none
    declined none e ih = ih p.context.state
    declined (some fn) e ih = ground arith

from_body :
    (setup : Setup) (step : PipelineStep) (result : StepResult)
    → NoHandlers setup.step_middlewares
    → Given setup step result
    → (ctx : PipelineContext) × ((execute_step step ctx).1 ≡ returned result)
from_body setup step result h (by_body ctx e) = (ctx, e)
from_body setup step result h (by_recovery exc r value e) =
    let declined =
      invoke_on_step_error-NoHandlers (reversed setup.step_middlewares) step.declared.name
        (state_of setup step.declared.name r) exc (NoHandlers-reversed setup.step_middlewares h) in
    ground (arith, e, declined)

-- A round goes on at the next index, if it goes on.
abbrev pub AtMostNext : ℕ → Turn → Type 0
AtMostNext i (go_on j r) = j ≡ suc i
AtMostNext i (stops r) = Unit
AtMostNext i (raises e r) = Unit

abbrev pub Halts : Turn → Type 0
Halts (go_on j r) = false ≡ true
Halts (stops r) = false ≡ true
Halts (raises e r) = Unit

settle-AtMostNext :
    (setup : Setup) (i : ℕ) (step : PipelineStep) (result : StepResult) (r : Running)
    → str_eq result.action "skip_to" ≡ false
    → AtMostNext i (settle setup i step result r)
unfolding settle
settle-AtMostNext setup i step result r no_skip =
    either_way (AtMostNext i) (str_eq result.action "abort")
      (either_way (AtMostNext i) setup.dry_run refl tt)
      (either_case (AtMostNext i) (str_eq result.action "skip_to")
        (λ skip. ground (arith, skip, no_skip))
        (λ _. go setup.run_until (if setup.dry_run then regain step.declared r else r)))
  where
    go :
        (run_until : Option (PipelineState → Bool)) (r : Running)
        → AtMostNext i (elim run_until as (λ _. Turn) [
          | none ↦ go_on (suc i) r
          | some predicate ↦
              if predicate (state_of setup step.declared.name r) then stops r else go_on (suc i) r
        ])
    go none r = refl
    go (some predicate) r = either_way (AtMostNext i) (predicate _) tt refl

settle-Halts :
    (setup : Setup) (i : ℕ) (step : PipelineStep) (result : StepResult) (r : Running)
    → setup.dry_run ≡ false
    → str_eq result.action "abort" ≡ true
    → Halts (settle setup i step result r)
unfolding settle
settle-Halts setup i step result r wet abort =
    either_case Halts (str_eq result.action "abort")
      (λ _. either_case Halts setup.dry_run (λ dry. ground (arith, dry, wet)) (λ _. tt))
      (λ no_abort. ground (arith, abort, no_abort))

pub turn-AtMostNext :
    (setup : Setup) (i : ℕ) (step : PipelineStep) (r : Running)
    → NoHandlers setup.step_middlewares
    → NeverSkips step
    → AtMostNext i (turn setup i step r)
turn-AtMostNext setup i step r h never =
    turn_cases setup i step r.trace (AtMostNext i) (λ why entry named s same. refl)
      (λ e why entry named s same. tt)
      (λ result given entry named s same.
        let (ctx, e) = from_body setup step result h given in
        settle-AtMostNext setup i step result s (never ctx result e))
      r refl

-- A gate is run on every module, and its failure is not ignored.
abbrev pub IsGate : Setup → PipelineStep → Type 0
IsGate setup step =
    (filtered_out step.match_modules setup.module_id ≡ false) × (step.ignore_errors ≡ false)

pub turn-Halts :
    (setup : Setup) (i : ℕ) (step : PipelineStep) (r : Running)
    → setup.dry_run ≡ false
    → NoHandlers setup.step_middlewares
    → IsGate setup step
    → Refuses step
    → Halts (turn setup i step r)
turn-Halts setup i step r wet h (kept, fatal) refuses =
    turn_cases setup i step r.trace Halts (λ why entry named s same. not_passed why)
      (λ e why entry named s same. tt)
      (λ result given entry named s same.
        let (ctx, e) = from_body setup step result h given in
        settle-Halts setup i step result s wet (subst Refusal e (refuses ctx)))
      r refl
  where
    not_passed : PassesBy setup step → false ≡ true
    not_passed (inl out) = ground (arith, out, kept)
    not_passed (inr (inl dry)) = ground (arith, dry, wet)
    not_passed (inr (inr ignored)) = ground (arith, ignored, fatal)
