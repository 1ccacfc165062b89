-- ===== src/Breaker/History.antt =====
-- middleware/circuit_breaker.py: a circuit against the history of outcomes since it closed.
use apcore_python.Prelude.{ℕ, ◌≤◌, ◌≡◌, Bool, true, false, none, List, [], ◌∷◌, length}
use apcore_python.Breaker.{
  closed, CircuitRecord, Settings, after, on_error, other_error, count_errors,
}

-- The report of one outcome of the module.
abbrev pub report : Settings → CircuitRecord → ℕ × Bool → CircuitRecord
report settings r (now, true) = (after settings r).0
report settings r (now, false) = (on_error settings now other_error r).0

abbrev pub report_all : Settings → CircuitRecord → List (ℕ × Bool) → CircuitRecord
report_all settings r [] = r
report_all settings r (outcome ∷ outcomes) =
    report_all settings (report settings r outcome) outcomes

abbrev pub outcomes_of : List (ℕ × Bool) → List Bool
outcomes_of [] = []
outcomes_of ((now, ok) ∷ rest) = ok ∷ outcomes_of rest

-- a closed record with a window
abbrev closed_with : List Bool → CircuitRecord
closed_with window = record {
  state = closed;
  window = window;
  opened_at = none;
  probe_in_flight = false;
}

-- The errors among the recent outcomes reach the threshold.
abbrev pub Overloaded : Settings → List Bool → Type 0
Overloaded settings recent =
    (settings.min_samples ≤ length recent)
    × (settings.reaches_threshold (count_errors recent) (length recent) ≡ true)
