-- ===== src/Delivery/Window.antt =====
-- events/circuit_breaker.py: how often a subscriber that fails is called.
use apcore_python.Prelude.{
  ℕ, suc, ◌+◌, ◌-◌, ◌≤◌, ◌<◌, ◌≡◌, refl, ap, ◌∙◌, inl, inr, Bool, true, false, Option, none, some,
  List, [], ◌∷◌, leb, length, All, arith, if◌then◌else◌, Bool-cases,
}
use apcore_python.Delivery.{
  Elapsed, CircuitBreaker, closed, open_circuit, CircuitEvent, circuit_opened, new_circuit,
  check_recovery, on_failure, on_event,
}

-- Events that come one after the other, by when each delivery begins and ends; each fails. How often the
-- subscriber is called:
abbrev pub calls : ℕ → Elapsed → List (ℕ × ℕ) → CircuitBreaker → ℕ
calls threshold window [] c = 0
calls threshold window ((now, ended) ∷ times) c =
    let result = on_event threshold window now ended false c in
    (if result.0 then 1 else 0) + calls threshold window times result.1.0

-- All of them fall into one recovery window.
abbrev pub WithinWindow : ℕ → ℕ → List (ℕ × ℕ) → Type 0
WithinWindow start span times =
    All (λ (time : ℕ × ℕ). (time.0 < start + span) × (start ≤ time.1)) times

-- The window of so many units of time is not over early, as the rounding of the floats is less than a
-- unit.
abbrev pub NeverEarly : ℕ → Elapsed → Type 0
NeverEarly span window = (failed_at now : ℕ) → now < failed_at + span → window failed_at now ≡ false

abbrev pub at_least_one : ℕ → ℕ
at_least_one threshold = if leb threshold 1 then 1 else threshold

abbrev pub capped : ℕ → ℕ → ℕ
capped n cap = if leb n cap then n else cap

abbrev opened : ℕ → ℕ → CircuitBreaker
opened failures failed_at = record {
  state = open_circuit;
  consecutive_failures = failures;
  last_failure_at = some failed_at;
}

on_event-rejects :
    (threshold : ℕ) (window : Elapsed) (now ended failures failed_at : ℕ)
    → window failed_at now ≡ false
    → on_event threshold window now ended false (opened failures failed_at)
      ≡ (false, (opened failures failed_at, none))
unfolding on_event check_recovery
on_event-rejects threshold window now ended failures failed_at early = ground (arith, early)

calls-opened :
    (threshold : ℕ) (window : Elapsed) (span start failures failed_at : ℕ) (times : List (ℕ × ℕ))
    → NeverEarly span window
    → start ≤ failed_at
    → WithinWindow start span times
    → calls threshold window times (opened failures failed_at) ≡ 0
calls-opened threshold window span start failures failed_at [] n s w = refl
calls-opened threshold window span start failures failed_at ((now, ended) ∷ times) n s
      (here, rest) =
    ap
      (λ (result : Bool × (CircuitBreaker × Option CircuitEvent)).
        (if result.0 then 1 else 0) + calls threshold window times result.1.0)
      (on_event-rejects threshold window now ended failures failed_at
        (n failed_at now (ground arith)))
    ∙ ground (arith, calls-opened threshold window span start failures failed_at times n s rest)

abbrev counting : ℕ → Option ℕ → CircuitBreaker
counting failures last = record {
  state = closed;
  consecutive_failures = failures;
  last_failure_at = last;
}

on_event-counts :
    (threshold : ℕ) (window : Elapsed) (now ended failures : ℕ) (last : Option ℕ)
    → leb threshold (suc failures) ≡ false
    → on_event threshold window now ended false (counting failures last)
      ≡ (true, (counting (suc failures) (some ended), none))
unfolding on_event check_recovery on_failure
on_event-counts threshold window now ended failures last below = ground (arith, below)

on_event-opens :
    (threshold : ℕ) (window : Elapsed) (now ended failures : ℕ) (last : Option ℕ)
    → leb threshold (suc failures) ≡ true
    → on_event threshold window now ended false (counting failures last)
      ≡ (true, (opened (suc failures) ended, some circuit_opened))
unfolding on_event check_recovery on_failure
on_event-opens threshold window now ended failures last reached = ground (arith, reached)

calls-counting :
    (threshold : ℕ) (window : Elapsed) (span start failures : ℕ) (last : Option ℕ)
    (times : List (ℕ × ℕ))
    → NeverEarly span window
    → failures < at_least_one threshold
    → WithinWindow start span times
    → calls threshold window times (counting failures last)
      ≡ capped (length times) (at_least_one threshold - failures)
calls-counting threshold window span start failures last [] n f w = ground arith
calls-counting threshold window span start failures last ((now, ended) ∷ times) n f (here, rest) =
    elim (Bool-cases (leb threshold (suc failures))) [
      | inl reached ↦
          ap after (on_event-opens threshold window now ended failures last reached)
          ∙ ground (
            arith,
            reached,
            calls-opened threshold window span start (suc failures) ended times n here.1 rest,
          )
      | inr below ↦
          ap after (on_event-counts threshold window now ended failures last below)
          ∙ ground (
            arith,
            below,
            calls-counting threshold window span start (suc failures) (some ended) times n
                (ground arith) rest,
          )
    ]
  where
    after : Bool × (CircuitBreaker × Option CircuitEvent) → ℕ
    after result = (if result.0 then 1 else 0) + calls threshold window times result.1.0

-- Of events that come one after the other, all within one recovery window, a subscriber that fails at
-- each is called for the first ones only, as many as the threshold says and at least one, if the
-- window, whose test is one of floats, is not over early.
pub calls-capped :
    (threshold : ℕ) (window : Elapsed) (span start : ℕ) (times : List (ℕ × ℕ))
    → NeverEarly span window
    → WithinWindow start span times
    → calls threshold window times new_circuit ≡ capped (length times) (at_least_one threshold)
calls-capped threshold window span start times n w =
    calls-counting threshold window span start 0 none times n (ground arith) w ∙ ground arith
