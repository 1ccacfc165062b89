-- ===== src/Delivery/Told.antt =====
-- events/circuit_breaker.py: what the circuit's events tell, with deliveries that overlap.
use apcore_python.Prelude.{
  ℕ, suc, ◌≡◌, refl, Bool, true, false, not, ◌&&◌, ◌||◌, Option, none, some, List, [], ◌∷◌, leb,
  ltb, ◌==◌, is_some, arith, either_case,
}
use apcore_python.Delivery.{
  Elapsed, CircuitBreaker, CircuitState, closed, open_circuit, half_open, CircuitEvent,
  circuit_opened, circuit_closed, new_circuit, is_closed, is_open, is_half_open, is_over,
  check_recovery, on_success, on_failure, opens,
}

-- The events of a circuit, the last one in front.
abbrev pub with_event : Option CircuitEvent → List CircuitEvent → List CircuitEvent
with_event none told = told
with_event (some e) told = e ∷ told

-- Deliveries begin and end in any order: each looks at the circuit when it begins and reports its outcome
-- when it ends.
pub data Reached (threshold : ℕ) (window : Elapsed)
    : CircuitBreaker → List CircuitEvent → Type 0 where
  at_first : Reached threshold window new_circuit []
  begins :
      {c : CircuitBreaker} {told : List CircuitEvent} (now : ℕ)
      → Reached threshold window c told
      → Reached threshold window (check_recovery window now c) told
  succeeds :
      {c : CircuitBreaker} {told : List CircuitEvent}
      → Reached threshold window c told
      → Reached threshold window (on_success c).0 (with_event (on_success c).1 told)
  fails :
      {c : CircuitBreaker} {told : List CircuitEvent} (now : ℕ)
      → Reached threshold window c told
      → Reached threshold window
          (on_failure threshold now c).0
          (with_event (on_failure threshold now c).1 told)

-- Whether the circuit is closed, by its last event.
abbrev pub told_closed : List CircuitEvent → Bool
told_closed [] = true
told_closed (circuit_opened ∷ told) = false
told_closed (circuit_closed ∷ told) = true

-- A closing is told of a circuit that was told to be open.
abbrev pub in_turn : List CircuitEvent → Bool
in_turn [] = true
in_turn (circuit_opened ∷ told) = in_turn told
in_turn (circuit_closed ∷ told) = not (told_closed told) && in_turn told

abbrev pub Holds : ℕ → CircuitBreaker → List CircuitEvent → Type 0
Holds threshold c told =
    (is_closed c.state ≡ told_closed told)
    × (in_turn told ≡ true)
    × ((is_closed c.state || is_some c.last_failure_at) ≡ true)
    × ((not (is_closed c.state)
          || (c.consecutive_failures == 0)
          || ltb c.consecutive_failures threshold)
        ≡ true)

open_alone : (state : CircuitState) → is_open state ≡ true → is_closed state ≡ false
open_alone closed e = ground (arith, e)
open_alone open_circuit e = refl
open_alone half_open e = refl

half_open_alone : (state : CircuitState) → is_half_open state ≡ true → is_closed state ≡ false
half_open_alone closed e = ground (arith, e)
half_open_alone open_circuit e = refl
half_open_alone half_open e = refl

check_recovery-Holds :
    (threshold : ℕ) (window : Elapsed) (now : ℕ) (c : CircuitBreaker) (told : List CircuitEvent)
    → Holds threshold c told
    → Holds threshold (check_recovery window now c) told
unfolding check_recovery
check_recovery-Holds threshold window now c told (state, order, last, few) =
    either_case (λ d. Holds threshold d told)
      (is_open c.state && is_over window now c.last_failure_at)
      (λ e.
        let apart : is_closed c.state ≡ false = open_alone c.state (ground arith) in
        (ground (arith, apart, state), order, ground (arith, apart, last), refl))
      (λ e. (state, order, last, few))

on_success-Holds :
    (threshold : ℕ) (c : CircuitBreaker) (told : List CircuitEvent)
    → Holds threshold c told
    → Holds threshold (on_success c).0 (with_event (on_success c).1 told)
unfolding on_success
on_success-Holds threshold c told (state, order, last, few) =
    either_case
      (λ (d : CircuitBreaker × Option CircuitEvent). Holds threshold d.0 (with_event d.1 told))
      (is_half_open c.state)
      (λ e.
        let apart : is_closed c.state ≡ false = half_open_alone c.state e in
        (refl, ground (arith, apart, state, order), refl, refl))
      (λ e. (state, order, last, ground arith))

on_failure-Holds :
    (threshold now : ℕ) (c : CircuitBreaker) (told : List CircuitEvent)
    → Holds threshold c told
    → Holds threshold
        (on_failure threshold now c).0
        (with_event (on_failure threshold now c).1 told)
unfolding on_failure
on_failure-Holds threshold now c told (state, order, last, few) =
    either_case
      (λ (d : CircuitBreaker × Option CircuitEvent). Holds threshold d.0 (with_event d.1 told))
      (opens threshold c) (λ e. (refl, order, refl, refl))
      (λ e. (state, order, ground arith, below (is_closed c.state) (is_half_open c.state) e))
  where
    below :
        (shut half : Bool)
        → (half || (shut && leb threshold (suc c.consecutive_failures))) ≡ false
        → (not shut
            || (suc c.consecutive_failures == 0)
            || ltb (suc c.consecutive_failures) threshold)
          ≡ true
    below shut half e = ground (arith, e)

-- However deliveries overlap: the circuit's last event tells whether it is closed, `circuit_closed`
-- follows only on `circuit_opened`, a circuit that is not closed knows when a delivery failed last, and
-- a closed one counts no failure or fewer than the threshold.
pub Reached-Holds :
    {threshold : ℕ} {window : Elapsed} {c : CircuitBreaker} {told : List CircuitEvent}
    → Reached threshold window c told
    → Holds threshold c told
Reached-Holds at_first = (refl, refl, refl, refl)
Reached-Holds {threshold} {window} (begins {c} {told} now r) =
    check_recovery-Holds threshold window now c told (Reached-Holds r)
Reached-Holds {threshold} (succeeds {c} {told} r) =
    on_success-Holds threshold c told (Reached-Holds r)
Reached-Holds {threshold} (fails {c} {told} now r) =
    on_failure-Holds threshold now c told (Reached-Holds r)
