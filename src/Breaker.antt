-- ===== src/Breaker.antt =====
-- middleware/circuit_breaker.py: the rolling-window circuit breaker. Time is in microseconds, as in
-- a `datetime`. The locks make each hook one step.
use apcore_python.Prelude.{
  ℕ, ◌+◌, ◌-◌, ◌*◌, Bool, true, false, not, ◌&&◌, ◌||◌, Option, none, some, List, [], ◌∷◌, ◌++◌,
  Text, text_eq, length, drop, leb, ltb, if◌then◌else◌,
}
pub mod Machine
pub mod Probe
pub mod History
pub mod Circuits
mod Tests

pub data CircuitBreakerState : Type 0 where
  closed open_circuit half_open : CircuitBreakerState

-- In the window `true` is a success and `false` an error.
pub record CircuitRecord : Type 0 where
  pub state : CircuitBreakerState
  pub window : List Bool
  pub opened_at : Option ℕ
  pub probe_in_flight : Bool

abbrev pub new_record : CircuitRecord
new_record = record { state = closed; window = []; opened_at = none; probe_in_flight = false }

-- `reaches_threshold errors samples` is the comparison `errors / samples >= open_threshold` of the
-- floats, `is_over opened_at now` the comparison `elapsed_ms >= recovery_window_ms` of the float that
-- is the time between the two in milliseconds.
pub record Settings : Type 0 where
  pub reaches_threshold : ℕ → ℕ → Bool
  pub is_over : ℕ → ℕ → Bool
  pub window_size : ℕ
  pub min_samples : ℕ

-- `__init__`: none where it raises `ValueError`. A negative recovery window and a threshold outside
-- [0, 1] give no such comparison.
unfoldable pub new_settings : (ℕ → ℕ → Bool) → (ℕ → ℕ → Bool) → ℕ → ℕ → Option Settings
new_settings reaches_threshold is_over window_size min_samples =
    if ltb window_size 1
    then none
    else if ltb min_samples 1
    then none
    else some (record {
      reaches_threshold = reaches_threshold;
      is_over = is_over;
      window_size = window_size;
      min_samples = if ltb window_size min_samples then window_size else min_samples;
    })

abbrev pub count_errors : List Bool → ℕ
count_errors [] = 0
count_errors (true ∷ window) = count_errors window
count_errors (false ∷ window) = count_errors window + 1

-- `_trim`: `popleft` while there are more than `window_size`
abbrev pub trim : ℕ → List Bool → List Bool
trim window_size window = drop (length window - window_size) window

unfoldable pub maybe_transition_to_half_open : Settings → ℕ → CircuitRecord → CircuitRecord
maybe_transition_to_half_open settings now circuit = elim circuit.state [
  | open_circuit ↦ elim circuit.opened_at [
    | none ↦ circuit
    | some opened_at ↦
        if settings.is_over opened_at now
        then record circuit { state = half_open; probe_in_flight = false }
        else circuit
  ]
  | _ ↦ circuit
]

unfoldable pub reset : CircuitRecord → CircuitRecord
reset circuit = record { state = closed; window = []; opened_at = none; probe_in_flight = false }

-- `before` lets the call through or raises `CircuitBreakerOpenError`, and writes the state to the
-- context.
pub data Admission : Type 0 where
  admitted : CircuitBreakerState → Admission
  circuit_open_error : Admission

abbrev pub admit : CircuitRecord → CircuitRecord × Admission
admit circuit = elim circuit.state [
  | open_circuit ↦ (circuit, circuit_open_error)
  | half_open ↦
      if circuit.probe_in_flight
      then (circuit, circuit_open_error)
      else (record circuit { probe_in_flight = true }, admitted half_open)
  | closed ↦ (circuit, admitted closed)
]

unfoldable pub before : Settings → ℕ → CircuitRecord → CircuitRecord × Admission
unfolding maybe_transition_to_half_open
before settings now circuit = admit (maybe_transition_to_half_open settings now circuit)

pub data CircuitEvent : Type 0 where
  circuit_opened circuit_closed : CircuitEvent

unfoldable pub after : Settings → CircuitRecord → CircuitRecord × Option CircuitEvent
after settings circuit =
    let window = trim settings.window_size (circuit.window ++ true ∷ []) in
    elim circuit.state [
      | half_open ↦ (
        record { state = closed; window = []; opened_at = none; probe_in_flight = false },
        some circuit_closed,
      )
      | _ ↦ (record circuit { window = window }, none)
    ]

-- An error of the module: the breaker's own rejection, or any other.
pub data ModuleError : Type 0 where
  circuit_breaker_open other_error : ModuleError

abbrev pub opens : Settings → CircuitBreakerState → List Bool → Bool
opens settings half_open window = true
opens settings closed window =
    leb settings.min_samples (length window)
    && settings.reaches_threshold (count_errors window) (length window)
opens settings open_circuit window = false

unfoldable pub on_error :
    Settings → ℕ → ModuleError → CircuitRecord → CircuitRecord × Option CircuitEvent
on_error settings now circuit_breaker_open circuit = (circuit, none)
on_error settings now other_error circuit =
    let window = trim settings.window_size (circuit.window ++ false ∷ []) in
    if opens settings circuit.state window
    then (
      record {
        state = open_circuit;
        window = window;
        opened_at = some now;
        probe_in_flight = false;
      },
      some circuit_opened,
    )
    else (record circuit { window = window }, none)

-- The records by key, the module's id and the caller's, which is the empty text where it is `None`.
abbrev pub Key : Type 0
Key = Text × Text

abbrev pub same_key : Key → Key → Bool
same_key (m, c) (m', c') = text_eq m m' && text_eq c c'

abbrev pub Circuits : Type 0
Circuits = List (Key × CircuitRecord)

-- `_get_record`, with the record that it creates where there is none
unfoldable pub get_record : Key → Circuits → CircuitRecord
get_record key [] = new_record
get_record key ((k, circuit) ∷ circuits) =
    if same_key k key then circuit else get_record key circuits

-- the change of the shared record in place
unfoldable pub put_record : Key → CircuitRecord → Circuits → Circuits
put_record key new [] = (key, new) ∷ []
put_record key new ((k, circuit) ∷ circuits) =
    if same_key k key then (k, new) ∷ circuits else (k, circuit) ∷ put_record key new circuits

-- A hook of the middleware: its step on the record of its key.
unfoldable pub on_circuit {ℓ} :
    {A : Type ℓ} → Key → (CircuitRecord → CircuitRecord × A) → Circuits → Circuits × A
unfolding get_record put_record
on_circuit key step circuits =
    let (circuit, result) = step (get_record key circuits) in
    (put_record key circuit circuits, result)

unfoldable pub get_state : Settings → ℕ → CircuitRecord → CircuitRecord × CircuitBreakerState
unfolding maybe_transition_to_half_open
get_state settings now circuit =
    let after_transition = maybe_transition_to_half_open settings now circuit in
    (after_transition, after_transition.state)
