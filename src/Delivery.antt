-- ===== src/Delivery.antt =====
-- events/circuit_breaker.py: the circuit in front of a subscriber to events. Times are milliseconds.
-- The subscriber is its outcome: whether the event was delivered in time. The payload of the circuit's
-- own events is left out.
use apcore_python.Prelude.{
  ℕ, suc, ◌+◌, Bool, true, false, ◌&&◌, ◌||◌, Option, none, some, leb, if◌then◌else◌,
}
pub mod Told
pub mod Window
mod Tests

pub data CircuitState : Type 0 where
  closed open_circuit half_open : CircuitState

pub data CircuitEvent : Type 0 where
  circuit_opened circuit_closed : CircuitEvent

pub record CircuitBreaker : Type 0 where
  pub state : CircuitState
  pub consecutive_failures : ℕ
  pub last_failure_at : Option ℕ

abbrev pub new_circuit : CircuitBreaker
new_circuit = record { state = closed; consecutive_failures = 0; last_failure_at = none }

abbrev pub is_closed : CircuitState → Bool
is_closed closed = true
is_closed _ = false

abbrev pub is_open : CircuitState → Bool
is_open open_circuit = true
is_open _ = false

abbrev pub is_half_open : CircuitState → Bool
is_half_open half_open = true
is_half_open _ = false

-- The comparison `elapsed_ms >= recovery_window_ms` of the float that is the time from a failure to now
abbrev pub Elapsed : Type 0
Elapsed = ℕ → ℕ → Bool

abbrev pub is_over : Elapsed → ℕ → Option ℕ → Bool
is_over window now none = false
is_over window now (some failed_at) = window failed_at now

unfoldable pub check_recovery : Elapsed → ℕ → CircuitBreaker → CircuitBreaker
check_recovery window now c =
    if is_open c.state && is_over window now c.last_failure_at
    then record c { state = half_open }
    else c

unfoldable pub on_success : CircuitBreaker → CircuitBreaker × Option CircuitEvent
on_success c =
    if is_half_open c.state
    then (record c { state = closed; consecutive_failures = 0 }, some circuit_closed)
    else (record c { consecutive_failures = 0 }, none)

abbrev pub opens : ℕ → CircuitBreaker → Bool
opens threshold c =
    is_half_open c.state || (is_closed c.state && leb threshold (suc c.consecutive_failures))

unfoldable pub on_failure : ℕ → ℕ → CircuitBreaker → CircuitBreaker × Option CircuitEvent
on_failure threshold now c =
    if opens threshold c
    then (
      record {
        state = open_circuit;
        consecutive_failures = suc c.consecutive_failures;
        last_failure_at = some now;
      },
      some circuit_opened,
    )
    else (
      record c { consecutive_failures = suc c.consecutive_failures; last_failure_at = some now },
      none,
    )

abbrev pub settled : ℕ → ℕ → Bool → CircuitBreaker → CircuitBreaker × Option CircuitEvent
settled threshold ended delivered c =
    if delivered then on_success c else on_failure threshold ended c

-- `on_event`, where nothing else happens between its begin and its end; with whether the subscriber is
-- called
unfoldable pub on_event :
    ℕ → Elapsed → ℕ → ℕ → Bool → CircuitBreaker → Bool × (CircuitBreaker × Option CircuitEvent)
on_event threshold window now ended delivered c =
    let checked = check_recovery window now c in
    if is_open checked.state
    then (false, (checked, none))
    else (true, settled threshold ended delivered checked)
