-- ===== src/Engine/Cases.antt =====
-- pipeline.py: all that a round of `PipelineEngine.run` may do, and the entry that it adds.
use apcore_python.Prelude.{
  ◌∙◌, either_case, ℕ, suc, ◌≡◌, ◌⊎◌, refl, ap, inl, inr, not, ◌&&◌, true, false, Option, none,
  some, List, [], ◌∷◌, ◌++◌, arith, either_way,
}
use apcore_python.Engine.{
  with_state, unless_raised, call_before, PipelineState, String, invoke_before_step, chain_error,
  execute_step, PipelineContext, StepResult, Exception, CallState, Outcome, returned, failed,
  PipelineStep, StepTrace, Recovery, StepMiddleware, step_result, dictionary, other_value,
}
use apcore_python.Engine.Turn.{
  state_of, chain, preflight, context_of, lose, entry, ask_recovery, PipelineError, misses,
  add_trace, record_result, filtered_out, Setup, Running, Turn, go_on, raises, settle, complete,
  recovered_or_raised, on_failure, after_body, entered, turn, lose_if, coerced,
}

-- Why a round may leave its step without a result: the patterns, the dry run, `ignore_errors`.
abbrev pub PassesBy : Setup → PipelineStep → Type 0
PassesBy setup step =
    (filtered_out step.match_modules setup.module_id ≡ true)
    ⊎ ((setup.dry_run ≡ true) ⊎ (step.ignore_errors ≡ true))

-- One of the middlewares raised this in its `before_step`, at some state of the call.
pub data RaisedBefore (exc : Exception) : List StepMiddleware → Type 0 where
  here :
      {mw : StepMiddleware} {mws : List StepMiddleware} (name : String) (p : PipelineState)
      → (call_before mw name p).1 ≡ some exc
      → RaisedBefore exc (mw ∷ mws)
  there :
      {mw : StepMiddleware} {mws : List StepMiddleware}
      → RaisedBefore exc mws
      → RaisedBefore exc (mw ∷ mws)

-- What `_invoke_before_step` raises comes from a `before_step`.
invoke_before_step-RaisedBefore :
    (mws : List StepMiddleware) (name : String) (p : PipelineState) (executed : List StepMiddleware)
    (exc : Exception) (seen : List StepMiddleware)
    → (invoke_before_step mws name p executed).1 ≡ some (exc, seen)
    → RaisedBefore exc mws
unfolding invoke_before_step
invoke_before_step-RaisedBefore [] name p executed exc seen e = ground (arith, e)
invoke_before_step-RaisedBefore (mw ∷ mws) name p executed exc seen e =
    go (call_before mw name p) refl e (λ s.
      invoke_before_step-RaisedBefore mws name (with_state p s) (executed ++ mw ∷ []) exc seen)
  where
    go :
        (called : CallState × Option Exception)
        → call_before mw name p ≡ called
        → (unless_raised
            (λ s. invoke_before_step mws name (with_state p s) (executed ++ mw ∷ []))
            (executed ++ mw ∷ [])
            called).1
          ≡ some (exc, seen)
        → ((s : CallState)
            → (invoke_before_step mws name (with_state p s) (executed ++ mw ∷ [])).1
              ≡ some (exc, seen)
            → RaisedBefore exc mws)
        → RaisedBefore exc (mw ∷ mws)
    go (s, none) a e rest = there (rest s e)
    go (s, some cause) a e rest = here name p (ap (λ c. c.1) a ∙ cc e)

-- Why a round raises before there is a result: a failure that nothing tolerates, outside a dry run,
-- or a `before_step` that raised.
abbrev pub RaisesFor : Setup → PipelineStep → PipelineError → Type 0
RaisesFor setup step e =
    ((setup.dry_run ≡ false) × (step.ignore_errors ≡ false))
    ⊎ ((exc : Exception) × ((e ≡ chain (chain_error exc))
          × RaisedBefore exc setup.step_middlewares))

-- Where a result comes from: the body, or a recovery of a failure outside a dry run.
pub data Given (setup : Setup) (step : PipelineStep) : StepResult → Type 0 where
  by_body :
      {result : StepResult} (ctx : PipelineContext)
      → (execute_step step ctx).1 ≡ returned result
      → Given setup step result
  by_recovery :
      {result : StepResult} (exc : Exception) (r : Running) (value : Recovery)
      → (ask_recovery setup step exc r).1 ≡ some value
      → Given setup step result

-- A property of what a round does holds if it holds where the step is passed by, where the round
-- raises with the step's entry, and where a given result is settled.
module _ (setup : Setup) (i : ℕ) (step : PipelineStep) (trace : List StepTrace) (P : Turn → Type 0)
    (passes : PassesBy setup step
      → (t : StepTrace) → t.name ≡ step.declared.name
      → (r : Running) → r.trace ≡ trace
      → P (go_on (suc i) (add_trace t r)))
    (raising : (e : PipelineError)
      → RaisesFor setup step e
      → (t : StepTrace) → t.name ≡ step.declared.name
      → (r : Running) → r.trace ≡ trace
      → P (raises e (add_trace t r)))
    (settling : (result : StepResult)
      → Given setup step result
      → (t : StepTrace) → t.name ≡ step.declared.name
      → (r : Running) → r.trace ≡ trace ++ t ∷ []
      → P (settle setup i step result r)) where
  completing :
      (result : StepResult) (r : Running)
      → Given setup step result
      → r.trace ≡ trace
      → P (complete setup i step result r)
  completing result r given e =
      settling result given (entry step.declared.name result none) refl
        (record_result setup step result r)
        (ap (λ trace. trace ++ entry step.declared.name result none ∷ []) e)

  recovering :
      setup.dry_run ≡ false
      → (exc : Exception) (recovery : Option Recovery) (asked r : Running)
      → (ask_recovery setup step exc asked).1 ≡ recovery
      → r.trace ≡ trace
      → P (recovered_or_raised setup i step exc recovery r)
  recovering wet exc (some (step_result result)) asked r given e =
      completing result r (by_recovery exc asked _ given) e
  recovering wet exc (some (dictionary d)) asked r given e =
      completing _ (coerced (dictionary d) r).1 (by_recovery exc asked _ given) e
  recovering wet exc (some other_value) asked r given e =
      completing _ r (by_recovery exc asked _ given) e
  recovering wet exc none asked r given e =
      either_case P step.ignore_errors (λ ignored. passes (inr (inr ignored)) _ refl r e)
        (λ fatal. raising _ (inl (wet, fatal)) _ refl r e)

  failing : (exc : Exception) (r : Running) → r.trace ≡ trace → P (on_failure setup i step exc r)
  failing exc r e =
      either_case P setup.dry_run
        (λ dry. passes (inr (inl dry)) _ refl (preflight step exc (lose step.declared r)) e)
        (λ wet.
          recovering wet exc _ r (record r { state = (ask_recovery setup step exc r).0 }) refl e)

  entering :
      (before : CallState × Option (Exception × List StepMiddleware)) (r : Running)
      → ((exc : Exception) (executed : List StepMiddleware)
          → before.1 ≡ some (exc, executed)
          → RaisedBefore exc setup.step_middlewares)
      → r.trace ≡ trace
      → P (entered setup i step before r)
  entering (s, none) r from e = body (execute_step step (context_of setup s)) refl
    where
      body :
          (ran : CallState × Outcome)
          → execute_step step (context_of setup s) ≡ ran
          → P (after_body setup i step ran (record r { state = s }))
      body (s', returned result) ran =
          completing result (record r { state = s' }) (by_body _ (ap (λ p. p.1) ran)) e
      body (s', failed exc) ran = failing exc (record r { state = s' }) e
  entering (s, some (exc, executed)) r from e =
      raising _ (inr (exc, (refl, from exc executed refl))) _ refl (record r { state = _ }) e

  pub turn_cases : (r : Running) → r.trace ≡ trace → P (turn setup i step r)
  unfolding turn
  turn_cases r e =
      either_case P (filtered_out step.match_modules setup.module_id)
        (λ out.
          passes (inl out) _ refl (lose_if setup.dry_run step.declared r)
            (either_way (λ (r : Running). r.trace ≡ trace) setup.dry_run e e))
        (λ kept.
          either_case P (setup.dry_run && not step.pure)
            (λ dry. passes (inr (inl (ground arith))) _ refl (lose step.declared r) e)
            (λ runs.
              either_case P (misses setup step r)
                (λ lacking. passes (inr (inl (ground arith))) _ refl (lose step.declared r) e)
                (λ ready.
                  entering _ r
                    (invoke_before_step-RaisedBefore setup.step_middlewares step.declared.name
                      (state_of setup step.declared.name r) [])
                    e)))
