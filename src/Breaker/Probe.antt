-- ===== src/Breaker/Probe.antt =====
-- middleware/circuit_breaker.py: while a probe is in flight.
use apcore_python.Prelude.{ℕ, ◌≡◌, true, arith}
use apcore_python.Breaker.{
  half_open, CircuitRecord, Settings, maybe_transition_to_half_open, before, on_error, get_state,
  admitted, circuit_open_error, circuit_breaker_open,
}

-- The hooks that report no outcome of the module: a request, a look at the state, and an error that
-- the breaker takes for its own rejection.
pub data Silent (settings : Settings) : CircuitRecord → CircuitRecord → Type 0 where
  none_yet : {r : CircuitRecord} → Silent settings r r
  asked :
      {r s : CircuitRecord} (now : ℕ)
      → Silent settings (before settings now r).0 s
      → Silent settings r s
  observed :
      {r s : CircuitRecord} (now : ℕ)
      → Silent settings (get_state settings now r).0 s
      → Silent settings r s
  rejected :
      {r s : CircuitRecord} (now : ℕ)
      → Silent settings (on_error settings now circuit_breaker_open r).0 s
      → Silent settings r s

abbrev pub Probing : CircuitRecord → Type 0
Probing r = (r.state ≡ half_open) × (r.probe_in_flight ≡ true)

before-Probing :
    (settings : Settings) (now : ℕ) (r : CircuitRecord)
    → Probing r
    → before settings now r ≡ (r, circuit_open_error)
unfolding before maybe_transition_to_half_open
before-Probing settings now r p = ground arith

get_state-Probing :
    (settings : Settings) (now : ℕ) (r : CircuitRecord)
    → Probing r
    → (get_state settings now r).0 ≡ r
unfolding get_state maybe_transition_to_half_open
get_state-Probing settings now r p = ground arith

admitted-Probing :
    (settings : Settings) (now : ℕ) (r : CircuitRecord)
    → (before settings now r).1 ≡ admitted half_open
    → Probing (before settings now r).0
unfolding before maybe_transition_to_half_open
admitted-Probing settings now r e = ground arith

Silent-Probing :
    (settings : Settings) {r s : CircuitRecord} → Silent settings r s → Probing r → Probing s
Silent-Probing settings none_yet p = p
Silent-Probing settings {r = r} (asked now steps) p =
    Silent-Probing settings steps (rw (before-Probing settings now r p) (p))
Silent-Probing settings {r = r} (observed now steps) p =
    Silent-Probing settings steps (rw (get_state-Probing settings now r p) (p))
Silent-Probing settings (rejected now steps) p =
    Silent-Probing settings steps (unfold on_error in p)

-- Once a probe is let through, every other request is rejected, at any time, until the probe's
-- outcome is reported or the circuit is reset. An error that is itself a `CircuitBreakerOpenError`,
-- raised by the probed module from a breaker further down, is no report: after it the circuit goes
-- on rejecting, with no recovery by time.
pub one_probe :
    (settings : Settings) (now later : ℕ) (r s : CircuitRecord)
    → (before settings now r).1 ≡ admitted half_open
    → Silent settings (before settings now r).0 s
    → before settings later s ≡ (s, circuit_open_error)
one_probe settings now later r s e steps =
    before-Probing settings later s
      (Silent-Probing settings steps (admitted-Probing settings now r e))
