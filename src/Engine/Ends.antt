-- ===== src/Engine/Ends.antt =====
-- pipeline.py: that every run ends, and what its trace holds then.
use apcore_python.Prelude.{
  ℕ, zero, suc, ◌+◌, ◌≤◌, ◌<◌, ◌≡◌, refl, sym, ◌∙◌, true, false, Option, none, some, List, [], ◌∷◌,
  String, arith, length, get_elem?, take,
}
use apcore_python.Strategy.{Step, names_of}
use apcore_python.Engine.{CallState, PipelineStep, StepTrace}
use apcore_python.Engine.Turn.{Setup, Running, Turn, go_on, stops, raises, declared_steps, turn}
use apcore_python.Engine.Loop.{
  at_step, follow, indexed, start, report, Ending, finished, stopped, out_of_fuel, error, Report,
  run_from, run,
}
use apcore_python.Engine.Entries.{trace_names, step_names, Traced, Sound}
use apcore_python.Engine.Trace.{turn-Sound}
use mathlib.Core.Path.{subst}

length-names_of : (steps : List Step) → length (names_of steps) ≡ length steps
length-names_of [] = refl
length-names_of (s ∷ steps) = rw (length-names_of steps)

pub length-declared_steps :
    (steps : List PipelineStep) → length (declared_steps steps) ≡ length steps
length-declared_steps [] = refl
length-declared_steps (s ∷ steps) = rw (length-declared_steps steps)

declared_at :
    (steps : List PipelineStep) (i : ℕ) (step : PipelineStep)
    → get_elem? steps i ≡ some step
    → (get_elem? (declared_steps steps) i ≡ some step.declared)
      × (i < length (declared_steps steps))
declared_at [] i step e = ground arith
declared_at (s ∷ steps) zero step e = (ground arith, omega arith)
declared_at (s ∷ steps) (suc i) step e =
    let (same, lt) = declared_at steps i step e in (same, omega (arith, lt))

all_taken :
    (steps : List PipelineStep) (i : ℕ)
    → get_elem? steps i ≡ none
    → take i (names_of (declared_steps steps)) ≡ names_of (declared_steps steps)
all_taken [] zero e = refl
all_taken [] (suc i) e = refl
all_taken (s ∷ steps) zero e = ground arith
all_taken (s ∷ steps) (suc i) e = rw (all_taken steps i e)

-- How a run may end: not out of fuel, and with an entry for each step that it came to.
abbrev pub Ended : List String → Ending → List StepTrace → Type 0
Ended names finished trace = trace_names trace ≡ names
Ended names stopped trace =
    (n : ℕ) × ((n < length names) × (trace_names trace ≡ take (suc n) names))
Ended names (error e) trace =
    (n : ℕ) × ((n < length names) × (trace_names trace ≡ take (suc n) names))
Ended names out_of_fuel trace = false ≡ true

abbrev EndsAs : Setup → Report → Type 0
EndsAs setup report = Ended (step_names setup) report.ending report.running.trace

run_from-Ended :
    (fuel : ℕ) (steps : List PipelineStep) (setup : Setup) (i : ℕ) (r : Running)
    → setup.declared ≡ declared_steps steps
    → length setup.declared < fuel + i
    → i ≤ length setup.declared
    → Traced setup i r.trace
    → EndsAs setup (run_from fuel steps setup i r)
unfolding run_from
run_from-Ended zero steps setup i r index enough le t = absurd (omega (arith, enough, le))
run_from-Ended (suc fuel) steps setup i r index enough le t =
    at (get_elem? steps i) refl (λ j later. run_from-Ended fuel steps setup j later index)
  where
    Again : Type 0
    Again =
        (j : ℕ) (later : Running)
        → length setup.declared < fuel + j
        → j ≤ length setup.declared
        → Traced setup j later.trace
        → EndsAs setup (run_from fuel steps setup j later)

    then_follow :
        (next : Turn)
        → Again
        → Sound setup i next
        → i < length setup.declared
        → EndsAs setup (follow (run_from fuel steps setup) next)
    then_follow (go_on j later) again (up, (bound, traced)) lt =
        again j later (omega (arith, enough, up)) bound traced
    then_follow (stops last) again traced lt = (i, (rw (length-names_of setup.declared) lt, traced))
    then_follow (raises e last) again traced lt =
        (i, (rw (length-names_of setup.declared) lt, traced))

    at :
        (found : Option PipelineStep)
        → get_elem? steps i ≡ found
        → Again
        → EndsAs setup (at_step (run_from fuel steps setup) setup i r found)
    at none here again =
        t ∙ subst (λ ds. take i (names_of ds) ≡ names_of ds) (sym index) (all_taken steps i here)
    at (some step) here again =
        let (same, lt) : (get_elem? setup.declared i ≡ some step.declared)
            × (i < length setup.declared) =
          subst (λ ds. (get_elem? ds i ≡ some step.declared) × (i < length ds)) (sym index)
            (declared_at steps i step here) in
        then_follow (turn setup i step r) again (turn-Sound setup i step r same lt t) lt

-- Every run ends, and its trace is exact. A run that returns at the end of the steps has one entry
-- for each step of the strategy, in their order, so no step is passed over silently; a run that
-- `run_until` stops or that raises has one for each step up to the one it was at. Skipped steps
-- have entries too.
pub run-Ended :
    (steps : List PipelineStep) (setup : Setup) (s : CallState)
    → Ended
        (names_of (declared_steps steps))
        (run steps setup s).ending
        (run steps setup s).running.trace
unfolding run
run-Ended steps setup s =
    run_from-Ended (suc (length steps)) steps (indexed steps setup) 0 (start s) refl
      (omega (arith, length-declared_steps steps)) (omega arith) refl
