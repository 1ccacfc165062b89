-- ===== src/Engine/Trace.antt =====
-- pipeline.py: what one round of `PipelineEngine.run` adds to the trace.
use apcore_python.Prelude.{
  ℕ, suc, ◌<◌, ◌≡◌, refl, sym, Bool, Option, none, some, [], ◌∷◌, ◌++◌, str_eq, arith, length,
  get_elem?, if◌then◌else◌, either_way,
}
use apcore_python.Engine.{StepResult, PipelineStep, StepTrace, PipelineState}
use apcore_python.Engine.Turn.{state_of, Setup, Running, Turn, go_on, stops, advance, settle, turn}
use apcore_python.Engine.Entries.{Traced, Sound, skip_to_target-Sound, Traced-next}
use apcore_python.Engine.Cases.{turn_cases}
use mathlib.Core.Path.{subst}

advance-Sound :
    (setup : Setup) (i : ℕ) (step : PipelineStep) (r : Running)
    → i < length setup.declared
    → Traced setup (suc i) r.trace
    → Sound setup i (advance setup i step r)
advance-Sound setup i step r lt t = go setup.run_until
  where
    go :
        (run_until : Option (PipelineState → Bool))
        → Sound setup i (elim run_until as (λ _. Turn) [
          | none ↦ go_on (suc i) r
          | some predicate ↦
              if predicate (state_of setup step.declared.name r) then stops r else go_on (suc i) r
        ])
    go none = (omega arith, (omega (arith, lt), t))
    go (some predicate) =
        either_way (Sound setup i) (predicate _) t (omega arith, (omega (arith, lt), t))

settle-Sound :
    (setup : Setup) (i : ℕ) (step : PipelineStep) (result : StepResult) (r : Running)
    → i < length setup.declared
    → Traced setup (suc i) r.trace
    → Sound setup i (settle setup i step result r)
unfolding settle
settle-Sound setup i step result r lt t =
    either_way (Sound setup i) (str_eq result.action "abort")
      (either_way (Sound setup i) setup.dry_run (omega arith, (omega (arith, lt), t)) t)
      (either_way (Sound setup i) (str_eq result.action "skip_to")
        (skip_to_target-Sound setup i result.skip_to r t)
        (advance-Sound setup i step _ lt
          (either_way (λ (r : Running). Traced setup (suc i) r.trace) setup.dry_run t t)))

pub turn-Sound :
    (setup : Setup) (i : ℕ) (step : PipelineStep) (r : Running)
    → get_elem? setup.declared i ≡ some step.declared
    → i < length setup.declared
    → Traced setup i r.trace
    → Sound setup i (turn setup i step r)
turn-Sound setup i step r at lt t =
    turn_cases setup i step r.trace (Sound setup i)
      (λ why entry named s same. (omega arith, (omega (arith, lt), next entry named s same)))
      (λ e why entry named s same. next entry named s same)
      (λ result given entry named s same. settle-Sound setup i step result s lt (
        subst (Traced setup (suc i)) (sym same)
          (Traced-next setup i step.declared r.trace entry at t named)))
      r refl
  where
    next :
        (entry : StepTrace)
        → entry.name ≡ step.declared.name
        → (s : Running) → s.trace ≡ r.trace
        → Traced setup (suc i) (s.trace ++ entry ∷ [])
    next entry named s same =
        subst (λ trace. Traced setup (suc i) (trace ++ entry ∷ [])) (sym same)
          (Traced-next setup i step.declared r.trace entry at t named)
