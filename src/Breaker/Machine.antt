-- ===== src/Breaker/Machine.antt =====
-- middleware/circuit_breaker.py: the hooks as the steps of a machine, and what holds of a record
-- that the hooks have reached.
use apcore_python.Prelude.{
  ℕ, ◌-◌, ◌≤◌, ◌≡◌, ◌≢◌, refl, ◌↔◌, ◌⊎◌, Bool, true, false, some, List, [], ◌∷◌, ◌++◌, arith,
  length, length-drop, is_some,
}
use apcore_python.Breaker.{
  closed, open_circuit, half_open, CircuitRecord, new_record, Settings, trim,
  maybe_transition_to_half_open, reset, admit, before, after, on_error, get_state, admitted,
  circuit_open_error, ModuleError, other_error, circuit_opened, circuit_closed,
}

-- One call of a hook on a record, whatever its result.
pub data Step (settings : Settings) : CircuitRecord → CircuitRecord → Type 0 where
  asked : (now : ℕ) (r : CircuitRecord) → Step settings r (before settings now r).0
  succeeded : (r : CircuitRecord) → Step settings r (after settings r).0
  failed :
      (now : ℕ) (e : ModuleError) (r : CircuitRecord)
      → Step settings r (on_error settings now e r).0
  observed : (now : ℕ) (r : CircuitRecord) → Step settings r (get_state settings now r).0
  was_reset : (r : CircuitRecord) → Step settings r (reset r)

pub data Reachable (settings : Settings) : CircuitRecord → Type 0 where
  start : Reachable settings new_record
  next : {r s : CircuitRecord} → Reachable settings r → Step settings r s → Reachable settings s

-- The window holds at most `window_size` outcomes, an open circuit has the time at which it opened,
-- and a probe is in flight only in a half-open circuit.
abbrev pub WellFormed : Settings → CircuitRecord → Type 0
WellFormed settings r =
    (length r.window ≤ settings.window_size)
    × (r.state ≡ open_circuit → is_some r.opened_at ≡ true)
    × (r.probe_in_flight ≡ true → r.state ≡ half_open)

length-trim : (n : ℕ) (window : List Bool) → length (trim n window) ≤ n
length-trim n window = omega (arith, length-drop (length window - n) window)

new_record-WellFormed : (settings : Settings) → WellFormed settings new_record
new_record-WellFormed settings = (omega arith, (λ e. cc), (λ e. cc))

transition-WellFormed :
    (settings : Settings) (now : ℕ) (r : CircuitRecord)
    → WellFormed settings r
    → WellFormed settings (maybe_transition_to_half_open settings now r)
unfolding maybe_transition_to_half_open
transition-WellFormed settings now r w = ground arith

admit-WellFormed :
    (settings : Settings) (r : CircuitRecord)
    → WellFormed settings r
    → WellFormed settings (admit r).0
admit-WellFormed settings r w = ground arith

before-WellFormed :
    (settings : Settings) (now : ℕ) (r : CircuitRecord)
    → WellFormed settings r
    → WellFormed settings (before settings now r).0
unfolding before
before-WellFormed settings now r w =
    admit-WellFormed settings (maybe_transition_to_half_open settings now r)
      (transition-WellFormed settings now r w)

after-WellFormed :
    (settings : Settings) (r : CircuitRecord)
    → WellFormed settings r
    → WellFormed settings (after settings r).0
unfolding after
after-WellFormed settings r w =
    ground (arith, length-trim settings.window_size (r.window ++ true ∷ []))

on_error-WellFormed :
    (settings : Settings) (now : ℕ) (e : ModuleError) (r : CircuitRecord)
    → WellFormed settings r
    → WellFormed settings (on_error settings now e r).0
unfolding on_error
on_error-WellFormed settings now e r w =
    ground (arith, length-trim settings.window_size (r.window ++ false ∷ []))

reset-WellFormed : (settings : Settings) (r : CircuitRecord) → WellFormed settings (reset r)
unfolding reset
reset-WellFormed settings r = new_record-WellFormed settings

Step-WellFormed :
    (settings : Settings) {r s : CircuitRecord}
    → Step settings r s
    → WellFormed settings r
    → WellFormed settings s
Step-WellFormed settings (asked now r) w = before-WellFormed settings now r w
Step-WellFormed settings (succeeded r) w = after-WellFormed settings r w
Step-WellFormed settings (failed now e r) w = on_error-WellFormed settings now e r w
Step-WellFormed settings (observed now r) w =
    unfold get_state in transition-WellFormed settings now r w
Step-WellFormed settings (was_reset r) w = reset-WellFormed settings r

-- In every record that calls of the hooks reach, in any order and at any times, the window holds at
-- most `window_size` outcomes, an open circuit has the time at which it opened, and a probe is in
-- flight only in a half-open circuit.
pub Reachable-WellFormed :
    (settings : Settings) (r : CircuitRecord) → Reachable settings r → WellFormed settings r
Reachable-WellFormed settings _ start = new_record-WellFormed settings
Reachable-WellFormed settings r (next reached step) =
    Step-WellFormed settings step (Reachable-WellFormed settings _ reached)

abbrev pub Due : Settings → ℕ → CircuitRecord → Type 0
Due settings now r =
    (opened : ℕ) × ((r.opened_at ≡ some opened) × (settings.is_over opened now ≡ true))

-- `before` lets a call through just in a closed circuit, in a half-open one with no probe in flight,
-- and in an open one whose recovery window is over.
pub before-admits_iff :
    (settings : Settings) (now : ℕ) (r : CircuitRecord)
    → ((before settings now r).1 ≢ circuit_open_error) ↔ (
        (r.state ≡ closed)
        ⊎ (((r.state ≡ half_open) × (r.probe_in_flight ≡ false))
            ⊎ ((r.state ≡ open_circuit) × Due settings now r)))
unfolding before maybe_transition_to_half_open
before-admits_iff settings now r = ground arith

before-due :
    (settings : Settings) (now opened : ℕ) (r : CircuitRecord)
    → r.state ≡ open_circuit
    → r.opened_at ≡ some opened
    → settings.is_over opened now ≡ true
    → before settings now r ≡ (
      record {
        state = half_open;
        window = r.window;
        opened_at = some opened;
        probe_in_flight = true;
      },
      admitted half_open,
    )
unfolding before maybe_transition_to_half_open
before-due settings now opened r e f due = ground arith

-- An open circuit whose recovery window is over, by the comparison of floats that the settings hold,
-- lets one call through as a probe. When the probe succeeds the circuit closes with an empty window and
-- says so; when it fails the circuit is open from that time on and says so.
pub recovery :
    (settings : Settings) (now later opened : ℕ) (r : CircuitRecord)
    → r.state ≡ open_circuit
    → r.opened_at ≡ some opened
    → settings.is_over opened now ≡ true
    → let asked = before settings now r in
      let ok = after settings asked.0 in
      let bad = on_error settings later other_error asked.0 in
      (asked.1 ≡ admitted half_open)
      × (ok ≡ (new_record, some circuit_closed))
      × (bad.0.state ≡ open_circuit)
      × (bad.0.opened_at ≡ some later)
      × (bad.1 ≡ some circuit_opened)
unfolding before after on_error maybe_transition_to_half_open
recovery settings now later opened r e f due =
    rw (before-due settings now opened r e f due) ((refl, refl, refl, refl, refl))
