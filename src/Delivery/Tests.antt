-- ===== src/Delivery/Tests.antt =====
-- events/circuit_breaker.py: a subscriber that fails.
use apcore_python.Prelude.{◌+◌, ℕ, ◌≡◌, refl, some, List, [], ◌∷◌, length, arith}
use apcore_python.Delivery.{
  leb, Elapsed, CircuitBreaker, open_circuit, circuit_opened, new_circuit, on_success, on_failure,
}
use apcore_python.Delivery.Told.{Reached, at_first, fails, Holds, Reached-Holds}
use apcore_python.Delivery.Window.{NeverEarly, calls, at_least_one, capped, calls-capped}

abbrev failed_once : CircuitBreaker
failed_once = record { state = open_circuit; consecutive_failures = 1; last_failure_at = some 10 }

-- A delivery that began in time succeeds after the circuit has opened: it stays open and forgets the
-- failures.
late_success : (on_success failed_once).0 ≡ record failed_once { consecutive_failures = 0 }
unfolding on_success
late_success = refl

-- 50 units of time, in exact numbers
abbrev fifty : Elapsed
fifty failed_at now = leb (failed_at + 50) now

fifty-NeverEarly : NeverEarly 50 fifty
fifty-NeverEarly failed_at now early = ground (arith, early)

failing : Reached 1 fifty failed_once (circuit_opened ∷ [])
unfolding on_failure
failing = fails 10 at_first

Reached-Holds_example : Holds 1 failed_once (circuit_opened ∷ [])
Reached-Holds_example = Reached-Holds failing

-- When the events begin and end.
abbrev times : List (ℕ × ℕ)
times = (0, 5) ∷ (6, 9) ∷ (10, 12) ∷ (40, 41) ∷ []

calls-capped_example : calls 2 fifty times new_circuit ≡ capped (length times) (at_least_one 2)
calls-capped_example = calls-capped 2 fifty 50 5 times fifty-NeverEarly (
  (omega arith, omega arith),
  ((omega arith, omega arith), ((omega arith, omega arith), ((omega arith, omega arith), tt))),
)
