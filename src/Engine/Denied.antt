-- ===== src/Engine/Denied.antt =====
-- pipeline.py: that nothing behind a step which refuses can run.

use apcore_python.Engine.Ends.{length-declared_steps}
use mathlib.Core.Path.{subst}
use apcore_python.Prelude.{
  All, ℕ, zero, suc, ◌≤◌, ◌<◌, ◌≡◌, ◌⊎◌, refl, sym, ap, ◌∙◌, inl, inr, true, false, some, List, [],
  ◌∷◌, ◌++◌, arith, length, get_elem?,
}
use apcore_python.Engine.{CallState, PipelineStep}
use apcore_python.Engine.Turn.{Setup, Running, Turn, go_on, stops, raises, declared_steps, turn}
use apcore_python.Engine.Loop.{
  at_step, follow, indexed, start, Ending, finished, stopped, out_of_fuel, error, Report, run_from,
  run,
}
use apcore_python.Engine.Denial.{
  Refuses, NeverSkips, NoHandlers, IsGate, turn-AtMostNext, turn-Halts, AtMostNext, Halts,
}

-- Where two strategies agree up to the gate, they have the same step there: one in front of the
-- gate, or the gate.
abbrev Place : List PipelineStep → PipelineStep → ℕ → PipelineStep → Type 0
Place front gate i step =
    ((i < length front) × (All NeverSkips front → NeverSkips step)) ⊎ (step ≡ gate)

get_elem?-front :
    (front : List PipelineStep) (gate : PipelineStep) (back other : List PipelineStep) (i : ℕ)
    → i ≤ length front
    → (step : PipelineStep) × ((get_elem? (front ++ gate ∷ back) i ≡ some step)
        × ((get_elem? (front ++ gate ∷ other) i ≡ some step) × Place front gate i step))
get_elem?-front [] gate back other zero le = (gate, (refl, (refl, inr refl)))
get_elem?-front [] gate back other (suc i) le = absurd (omega (arith, le))
get_elem?-front (s ∷ front) gate back other zero le =
    (s, (refl, (refl, inl (omega arith, λ never. never.0))))
get_elem?-front (s ∷ front) gate back other (suc i) le =
    let (step, (here, (there, place))) =
      get_elem?-front front gate back other i (omega (arith, le)) in
    (
      step,
      (
        here,
        (
          there,
          elim place [
            | inl (lt, each) ↦ inl (omega (arith, lt), λ never. each (never.1))
            | inr e ↦ inr e
          ],
        ),
      ),
    )

abbrev pub Unfinished : Ending → Type 0
Unfinished finished = false ≡ true
Unfinished stopped = Unit
Unfinished out_of_fuel = Unit
Unfinished (error e) = Unit

-- Two runs are one, and it does not get to the end of the steps.
abbrev pub Denied : Report → Report → Type 0
Denied a b = (a ≡ b) × Unfinished a.ending

module _ (front : List PipelineStep) (gate : PipelineStep) (back other : List PipelineStep)
    (setup : Setup) (wet : setup.dry_run ≡ false) (no_handlers : NoHandlers setup.step_middlewares)
    (is_gate : IsGate setup gate) (refuses : Refuses gate) (never : All NeverSkips front) where
  halted :
      (go go' : ℕ → Running → Report) (next : Turn)
      → Halts next
      → Denied (follow go next) (follow go' next)
  halted go go' (go_on j r) h = ground arith
  halted go go' (stops r) h = (refl, tt)
  halted go go' (raises e r) h = (refl, tt)

  advanced :
      (go go' : ℕ → Running → Report) (i : ℕ) (next : Turn)
      → AtMostNext i next
      → ((r : Running) → Denied (go (suc i) r) (go' (suc i) r))
      → Denied (follow go next) (follow go' next)
  advanced go go' i (go_on j r) one again =
      subst (λ j. Denied (go j r) (go' j r)) (sym one) (again r)
  advanced go go' i (stops r) one again = (refl, tt)
  advanced go go' i (raises e r) one again = (refl, tt)

  run_from-Denied :
      (fuel i : ℕ) (r : Running)
      → i ≤ length front
      → Denied
          (run_from fuel (front ++ gate ∷ back) setup i r)
          (run_from fuel (front ++ gate ∷ other) setup i r)
  unfolding run_from
  run_from-Denied zero i r le = (refl, tt)
  run_from-Denied (suc fuel) i r le =
      let (step, (here, (there, place))) = get_elem?-front front gate back other i le in
      let go = run_from fuel (front ++ gate ∷ back) setup in
      let go' = run_from fuel (front ++ gate ∷ other) setup in
      subst
        (λ found.
          Denied (at_step go setup i r found)
            (at_step go' setup i r (get_elem? (front ++ gate ∷ other) i)))
        (sym here)
        (subst (λ found. Denied (at_step go setup i r (some step)) (at_step go' setup i r found))
          (sym there)
          (elim place [
            | inl (lt, each) ↦
                advanced go go' i (turn setup i step r)
                  (turn-AtMostNext setup i step r no_handlers (each never))
                  (λ later. run_from-Denied fuel (suc i) later (omega (arith, lt)))
            | inr at_gate ↦ halted go go' (turn setup i step r) (
                subst (λ step. Halts (turn setup i step r)) (sym at_gate)
                  (turn-Halts setup i gate r wet no_handlers is_gate refuses))
          ]))

declared_steps-append :
    (front back other : List PipelineStep)
    → declared_steps back ≡ declared_steps other
    → declared_steps (front ++ back) ≡ declared_steps (front ++ other)
declared_steps-append [] back other e = e
declared_steps-append (s ∷ front) back other e =
    ap (λ ds. s.declared ∷ ds) (declared_steps-append front back other e)

-- A step that refuses ends the run, as the checks of access and approval do. Outside a dry run, let
-- one step be run on the module whose call it is, not ignore errors, and on every context fail or
-- answer "abort"; let no step in front of it skip ahead and no step middleware define
-- `on_step_error`. Then the run does not get to the end of the steps, and whatever the steps behind
-- that step do makes no difference to it: with others there that are declared the same the run is the
-- same.
pub run-Denied :
    (front : List PipelineStep) (gate : PipelineStep) (back other : List PipelineStep)
    (setup : Setup) (s : CallState)
    → setup.dry_run ≡ false
    → NoHandlers setup.step_middlewares
    → IsGate setup gate
    → Refuses gate
    → All NeverSkips front
    → declared_steps back ≡ declared_steps other
    → Denied (run (front ++ gate ∷ back) setup s) (run (front ++ gate ∷ other) setup s)
unfolding run
run-Denied front gate back other setup s wet h is_gate refuses never e =
    let same =
      declared_steps-append front (gate ∷ back) (gate ∷ other) (ap (λ ds. gate.declared ∷ ds) e) in
    let lengths : length (front ++ gate ∷ back) ≡ length (front ++ gate ∷ other) =
      sym (length-declared_steps (front ++ gate ∷ back))
      ∙ ap length same
      ∙ length-declared_steps (front ++ gate ∷ other) in
    subst
      (λ n. Denied (run (front ++ gate ∷ back) setup s) (
        run_from (suc n) (front ++ gate ∷ other) (indexed (front ++ gate ∷ other) setup) 0
          (start s)))
      lengths
      (subst
        (λ ds. Denied (run (front ++ gate ∷ back) setup s) (
          run_from (suc (length (front ++ gate ∷ back))) (front ++ gate ∷ other)
            (record setup { declared = ds }) 0 (start s)))
        same
        (run_from-Denied front gate back other (indexed (front ++ gate ∷ back) setup) wet h is_gate
          refuses never (suc (length (front ++ gate ∷ back))) 0 (start s) (omega arith)))
