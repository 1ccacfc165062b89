-- ===== src/Engine/DryRun.antt =====
-- pipeline.py: what a dry run may raise.

use mathlib.Core.Path.{subst}
use apcore_python.Prelude.{
  either_case, ℕ, zero, suc, ◌≡◌, refl, sym, inl, inr, Bool, true, false, Option, none, some, List,
  String, str_eq, arith, length, get_elem?, leb, if◌then◌else◌, either_way,
}
use apcore_python.Strategy.{name_to_idx}
use apcore_python.Engine.{
  chain_error, Exception, StepMiddleware, StepResult, CallState, PipelineStep, PipelineState,
}
use apcore_python.Engine.Turn.{
  regain, chain, PipelineError, state_of, Setup, Running, Turn, go_on, stops, raises, skip_found,
  skip_to_target, settle, turn,
}
use apcore_python.Engine.Loop.{
  at_step, indexed, follow, start, Ending, finished, stopped, out_of_fuel, error, run_from, run,
}
use apcore_python.Engine.Cases.{RaisedBefore, turn_cases}
use apcore_python.Engine.Turn.{step_error, chain, abort_error, step_not_found}

-- No failure and no answer of a step's body: what a `before_step` raised, or a skip to nowhere.
abbrev pub NotOfBody : List StepMiddleware → PipelineError → Type 0
NotOfBody mws (step_error name exc) = false ≡ true
NotOfBody mws (chain exc) =
    (cause : Exception) × ((exc ≡ chain_error cause) × RaisedBefore cause mws)
NotOfBody mws (abort_error name alternatives) = false ≡ true
NotOfBody mws (step_not_found target) = Unit

abbrev pub EndsDry : List StepMiddleware → Ending → Type 0
EndsDry mws finished = Unit
EndsDry mws stopped = Unit
EndsDry mws out_of_fuel = Unit
EndsDry mws (error e) = NotOfBody mws e

abbrev TurnsDry : Setup → Turn → Type 0
TurnsDry setup (go_on j r) = Unit
TurnsDry setup (stops r) = Unit
TurnsDry setup (raises e r) = NotOfBody setup.step_middlewares e

settle-TurnsDry :
    (setup : Setup) (i : ℕ) (step : PipelineStep) (result : StepResult) (r : Running)
    → setup.dry_run ≡ true
    → TurnsDry setup (settle setup i step result r)
unfolding settle
settle-TurnsDry setup i step result r dry =
    either_way (TurnsDry setup) (str_eq result.action "abort")
      (either_case (TurnsDry setup) setup.dry_run (λ _. tt) (λ wet. ground (arith, dry, wet)))
      (either_way (TurnsDry setup) (str_eq result.action "skip_to") (skip result.skip_to)
        (go setup.run_until (if setup.dry_run then regain step.declared r else r)))
  where
    skip : (target : Option String) → TurnsDry setup (skip_to_target setup i target r)
    skip none = tt
    skip (some target) = found (name_to_idx target setup.declared)
      where
        found : (index : Option ℕ) → TurnsDry setup (skip_found setup i (some target) index r)
        found none = tt
        found (some k) = either_way (TurnsDry setup) (leb k i) tt tt

    go :
        (run_until : Option (PipelineState → Bool)) (r : Running)
        → TurnsDry setup (elim run_until as (λ _. Turn) [
          | none ↦ go_on (suc i) r
          | some predicate ↦
              if predicate (state_of setup step.declared.name r) then stops r else go_on (suc i) r
        ])
    go none r = tt
    go (some predicate) r = either_way (TurnsDry setup) (predicate _) tt tt

turn-TurnsDry :
    (setup : Setup) (i : ℕ) (step : PipelineStep) (r : Running)
    → setup.dry_run ≡ true
    → TurnsDry setup (turn setup i step r)
turn-TurnsDry setup i step r dry =
    turn_cases setup i step r.trace (TurnsDry setup) (λ why entry named s same. tt)
      (λ e why entry named s same. elim why [
        | inl (wet, fatal) ↦ ground (arith, dry, wet)
        | inr (exc, (chained, raised)) ↦
            subst (NotOfBody setup.step_middlewares) (sym chained) (exc, (refl, raised))
      ])
      (λ result given entry named s same. settle-TurnsDry setup i step result s dry) r refl

run_from-EndsDry :
    (fuel : ℕ) (steps : List PipelineStep) (setup : Setup) (i : ℕ) (r : Running)
    → setup.dry_run ≡ true
    → EndsDry setup.step_middlewares (run_from fuel steps setup i r).ending
unfolding run_from
run_from-EndsDry zero steps setup i r dry = tt
run_from-EndsDry (suc fuel) steps setup i r dry =
    at (get_elem? steps i) (λ k later. run_from-EndsDry fuel steps setup k later dry)
  where
    Again : Type 0
    Again =
        (k : ℕ) (later : Running)
        → EndsDry setup.step_middlewares (run_from fuel steps setup k later).ending

    then_follow :
        (next : Turn)
        → Again
        → TurnsDry setup next
        → EndsDry setup.step_middlewares (follow (run_from fuel steps setup) next).ending
    then_follow (go_on k later) again t = again k later
    then_follow (stops last) again t = tt
    then_follow (raises e last) again t = t

    at :
        (found : Option PipelineStep)
        → Again
        → EndsDry setup.step_middlewares
            (at_step (run_from fuel steps setup) setup i r found).ending
    at none again = tt
    at (some step) again =
        then_follow (turn setup i step r) again (turn-TurnsDry setup i step r dry)

-- A dry run never raises what a step's body failed with or answered: all it may raise is the chain
-- error of an exception that the `before_step` of one of the step middlewares raised, and that the
-- target of a skip is not found.
pub run-EndsDry :
    (steps : List PipelineStep) (setup : Setup) (s : CallState)
    → setup.dry_run ≡ true
    → EndsDry setup.step_middlewares (run steps setup s).ending
unfolding run
run-EndsDry steps setup s dry =
    run_from-EndsDry (suc (length steps)) steps (indexed steps setup) 0 (start s) dry
