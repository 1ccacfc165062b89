-- ===== src/Engine/Bodies.antt =====
-- pipeline.py: when what the bodies of steps do makes no difference to a run.
use apcore_python.Prelude.{
  is_some, ℕ, zero, suc, ◌≡◌, ◌⊎◌, refl, ap, ◌∙◌, inl, inr, not, ◌&&◌, true, Option, none, some,
  List, [], ◌∷◌, ◌++◌, String, arith, length, get_elem?, if◌then◌else◌, Bool-cases,
}
use apcore_python.Strategy.{Step}
use apcore_python.Engine.{
  unless_raised, with_state, Entry, call_before, Body, invoke_before_step, Exception, CallState,
  PipelineStep, PipelineState, StepMiddleware,
}
use apcore_python.Engine.Turn.{
  skipped_entry, lose, misses, add_trace, state_of, filtered_out, Setup, Running, Turn, go_on,
  stops, raises, declared_steps, entered, turn, lose_if,
}
use apcore_python.Engine.Loop.{at_step, follow, indexed, start, run_from, run}

-- Steps with other bodies; all that is declared of them is kept.
abbrev pub with_body : (PipelineStep → Body) → PipelineStep → PipelineStep
with_body other step = record step { body = other step }

abbrev pub with_bodies : (PipelineStep → Body) → List PipelineStep → List PipelineStep
with_bodies other [] = []
with_bodies other (step ∷ steps) = with_body other step ∷ with_bodies other steps

abbrev found_with : (PipelineStep → Body) → Option PipelineStep → Option PipelineStep
found_with other none = none
found_with other (some step) = some (with_body other step)

get_elem?-with_bodies :
    (other : PipelineStep → Body) (steps : List PipelineStep) (i : ℕ)
    → get_elem? (with_bodies other steps) i ≡ found_with other (get_elem? steps i)
get_elem?-with_bodies other [] i = refl
get_elem?-with_bodies other (s ∷ steps) zero = refl
get_elem?-with_bodies other (s ∷ steps) (suc i) = get_elem?-with_bodies other steps i

pub declared_steps-with_bodies :
    (other : PipelineStep → Body) (steps : List PipelineStep)
    → declared_steps (with_bodies other steps) ≡ declared_steps steps
declared_steps-with_bodies other [] = refl
declared_steps-with_bodies other (s ∷ steps) = rw (declared_steps-with_bodies other steps)

length-with_bodies :
    (other : PipelineStep → Body) (steps : List PipelineStep)
    → length (with_bodies other steps) ≡ length steps
length-with_bodies other [] = refl
length-with_bodies other (s ∷ steps) = rw (length-with_bodies other steps)

-- The other bodies make no difference to any round.
abbrev SameTurns : (PipelineStep → Body) → Setup → Type 0
SameTurns other setup =
    (i : ℕ) (step : PipelineStep) (r : Running)
    → turn setup i (with_body other step) r ≡ turn setup i step r

run_from-with_bodies :
    (fuel : ℕ) (other : PipelineStep → Body) (steps : List PipelineStep) (setup : Setup) (i : ℕ)
    (r : Running)
    → SameTurns other setup
    → run_from fuel (with_bodies other steps) setup i r ≡ run_from fuel steps setup i r
unfolding run_from
run_from-with_bodies zero other steps setup i r same = refl
run_from-with_bodies (suc fuel) other steps setup i r same =
    ap (at_step (run_from fuel (with_bodies other steps) setup) setup i r)
      (get_elem?-with_bodies other steps i)
    ∙ at (get_elem? steps i) (λ k later. run_from-with_bodies fuel other steps setup k later same)
  where
    Again : Type 0
    Again =
        (k : ℕ) (later : Running)
        → run_from fuel (with_bodies other steps) setup k later ≡ run_from fuel steps setup k later

    then_follow :
        (next : Turn)
        → Again
        → follow (run_from fuel (with_bodies other steps) setup) next
          ≡ follow (run_from fuel steps setup) next
    then_follow (go_on k later) again = again k later
    then_follow (stops last) again = refl
    then_follow (raises e last) again = refl

    at :
        (found : Option PipelineStep)
        → Again
        → at_step (run_from fuel (with_bodies other steps) setup) setup i r (found_with other found)
          ≡ at_step (run_from fuel steps setup) setup i r found
    at none again = refl
    at (some step) again =
        ap (follow (run_from fuel (with_bodies other steps) setup)) (same i step r)
        ∙ then_follow (turn setup i step r) again

pub run-with_bodies :
    (other : PipelineStep → Body) (steps : List PipelineStep) (setup : Setup) (s : CallState)
    → ((declared : List Step) → SameTurns other (record setup { declared = declared }))
    → run (with_bodies other steps) setup s ≡ run steps setup s
unfolding run
run-with_bodies other steps setup s same = rw (length-with_bodies other steps) (
    rw (declared_steps-with_bodies other steps) (
      run_from-with_bodies (suc (length steps)) other steps (indexed steps setup) 0 (start s)
        (same (declared_steps steps))))

-- The other body where the step is impure.
abbrev pub if_impure : (PipelineStep → Body) → PipelineStep → Body
if_impure other step = if step.pure then step.body else other step

turn_dry :
    (other : PipelineStep → Body) (setup : Setup) (i : ℕ) (step : PipelineStep) (r : Running)
    → setup.dry_run ≡ true
    → turn setup i (with_body (if_impure other) step) r ≡ turn setup i step r
unfolding turn
turn_dry other setup i step r dry = elim (Bool-cases step.pure) [
  | inl pure ↦
      let same : if_impure other step ≡ step.body = ground arith in
      ap (λ body. turn setup i (record step { body = body }) r) same
  | inr impure ↦ ground arith
]

-- A dry run does not depend on what impure steps do: with any other bodies for them it is the same
-- run, with the same state, trace and ending.
pub run-dry_run :
    (other : PipelineStep → Body) (steps : List PipelineStep) (setup : Setup) (s : CallState)
    → setup.dry_run ≡ true
    → run (with_bodies (if_impure other) steps) setup s ≡ run steps setup s
run-dry_run other steps setup s dry =
    run-with_bodies (if_impure other) steps setup s
      (λ declared i step r. turn_dry other (record setup { declared = declared }) i step r dry)

-- One of the middlewares raises in every `before_step`.
pub data Breaks : List StepMiddleware → Type 0 where
  at_once :
      {mw : StepMiddleware} {mws : List StepMiddleware}
      → ((name : String) (p : PipelineState)
          → (exc : Exception) × ((call_before mw name p).1 ≡ some exc))
      → Breaks (mw ∷ mws)
  later_on : {mw : StepMiddleware} {mws : List StepMiddleware} → Breaks mws → Breaks (mw ∷ mws)

unless_raised-some :
    (go : CallState → Entry) (executed : List StepMiddleware)
    (called : CallState × Option Exception)
    → ((s : CallState) → is_some (go s).1 ≡ true) ⊎ (is_some called.1 ≡ true)
    → is_some (unless_raised go executed called).1 ≡ true
unless_raised-some go executed (s, none) (inl rest) = rest s
unless_raised-some go executed (s, none) (inr raised) = ground arith
unless_raised-some go executed (s, some exc) _ = refl

invoke_before_step-Breaks :
    {mws : List StepMiddleware}
    → Breaks mws
    → (name : String) (p : PipelineState) (executed : List StepMiddleware)
    → is_some (invoke_before_step mws name p executed).1 ≡ true
unfolding invoke_before_step
invoke_before_step-Breaks (at_once {mw} {mws} broken) name p executed =
    let passed = executed ++ mw ∷ [] in
    unless_raised-some (λ s. invoke_before_step mws name (with_state p s) passed) passed
      (call_before mw name p) (inr (ap is_some (broken name p).1))
invoke_before_step-Breaks (later_on {mw} {mws} broken) name p executed =
    let passed = executed ++ mw ∷ [] in
    unless_raised-some (λ s. invoke_before_step mws name (with_state p s) passed) passed
      (call_before mw name p)
      (inl (λ s. invoke_before_step-Breaks broken name (with_state p s) passed))

entered-Breaks :
    (other : PipelineStep → Body) (setup : Setup) (i : ℕ) (step : PipelineStep)
    (before : CallState × Option (Exception × List StepMiddleware)) (r : Running)
    → is_some before.1 ≡ true
    → entered setup i (with_body other step) before r ≡ entered setup i step before r
entered-Breaks other setup i step (s, some (exc, executed)) r broken = refl
entered-Breaks other setup i step (s, none) r broken = ground arith

turn-Breaks :
    (other : PipelineStep → Body) (setup : Setup) (i : ℕ) (step : PipelineStep) (r : Running)
    → Breaks setup.step_middlewares
    → turn setup i (with_body other step) r ≡ turn setup i step r
unfolding turn
turn-Breaks other setup i step r broken =
    let state = state_of setup step.declared.name r in
    let before = invoke_before_step setup.step_middlewares step.declared.name state [] in
    let same =
      entered-Breaks other setup i step before r
        (invoke_before_step-Breaks broken step.declared.name state []) in
    ap
      (λ t.
        if filtered_out step.match_modules setup.module_id
        then go_on (suc i) (
            add_trace (skipped_entry (some "no_match") step.declared)
              (lose_if setup.dry_run step.declared r))
        else if setup.dry_run && not step.pure
        then go_on (suc i)
            (add_trace (skipped_entry (some "dry_run") step.declared) (lose step.declared r))
        else if misses setup step r
        then go_on (suc i) (
            add_trace (skipped_entry (some "missing_dependency") step.declared)
              (lose step.declared r))
        else t)
      same

-- Where a step middleware raises in `before_step`, no body of a step runs: with any other bodies it
-- is the same run, whatever the `on_step_error` hooks answer.
pub run-Breaks :
    (other : PipelineStep → Body) (steps : List PipelineStep) (setup : Setup) (s : CallState)
    → Breaks setup.step_middlewares
    → run (with_bodies other steps) setup s ≡ run steps setup s
run-Breaks other steps setup s broken =
    run-with_bodies other steps setup s (λ declared i step r.
      turn-Breaks other (record setup { declared = declared }) i step r broken)
