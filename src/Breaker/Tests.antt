-- ===== src/Breaker/Tests.antt =====
-- middleware/circuit_breaker.py: examples.
use apcore_python.Prelude.{◌+◌, ◌*◌, ◌≡◌, refl, true, false, some, [], ◌∷◌, codes, leb}
use apcore_python.Breaker.{
  half_open, open_circuit, CircuitRecord, new_record, Settings, before, after, on_error, Key,
  Circuits, admitted, circuit_open_error, other_error, maybe_transition_to_half_open,
  circuit_breaker_open, circuit_closed, circuit_opened,
}
use apcore_python.Breaker.Machine.{failed, start, next, WellFormed, Reachable-WellFormed, recovery}
use apcore_python.Breaker.Probe.{none_yet, rejected, one_probe}

-- half of the samples are errors
abbrev settings : Settings
settings = record {
  reaches_threshold = λ errors samples. leb samples (2 * errors);
  is_over = λ opened_at now. leb (opened_at + 1000) now;
  window_size = 4;
  min_samples = 2;
}

abbrev opened : CircuitRecord
opened = record {
  state = open_circuit;
  window = true ∷ false ∷ [];
  opened_at = some 500;
  probe_in_flight = false;
}

abbrev two_errors : CircuitRecord
two_errors = (on_error settings 8 other_error (on_error settings 7 other_error new_record).0).0

Reachable-WellFormed_example : WellFormed settings two_errors
Reachable-WellFormed_example = Reachable-WellFormed settings two_errors (
    next (next start (failed 7 other_error new_record))
      (failed 8 other_error (on_error settings 7 other_error new_record).0))

opens_at_two : two_errors.state ≡ open_circuit
unfolding on_error
opens_at_two = refl

recovery_example :
    let ask = before settings 2000 opened in
    let ok = after settings ask.0 in
    let bad = on_error settings 3000 other_error ask.0 in
    (ask.1 ≡ admitted half_open)
    × (ok ≡ (new_record, some circuit_closed))
    × (bad.0.state ≡ open_circuit)
    × (bad.0.opened_at ≡ some 3000)
    × (bad.1 ≡ some circuit_opened)
recovery_example = recovery settings 2000 3000 500 opened refl refl refl

probe_admitted : (before settings 2000 opened).1 ≡ admitted half_open
unfolding before maybe_transition_to_half_open
probe_admitted = refl

one_probe_example :
    before settings 90000
      (on_error settings 2500 circuit_breaker_open (before settings 2000 opened).0).0
    ≡ (
      (on_error settings 2500 circuit_breaker_open (before settings 2000 opened).0).0,
      circuit_open_error,
    )
one_probe_example =
    one_probe settings 2000 90000 opened
      (on_error settings 2500 circuit_breaker_open (before settings 2000 opened).0).0 probe_admitted
      (rejected 2500 none_yet)

abbrev mine : Key
mine = (codes "m", codes "a")

abbrev other : Key
other = (codes "m", codes "")

abbrev circuits : Circuits
circuits = (other, opened) ∷ []
