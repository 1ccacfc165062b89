-- ===== src/Registry/Draining.antt =====
-- registry/registry.py: executions under way, and `safe_unregister`, which waits for them. The wait
-- for the event is the caller's; what stands before and after it is here.
use apcore_python.Prelude.{
  ℕ, ◌+◌, ◌-◌, Bool, true, false, not, Option, none, some, List, ◌∷◌, Text, text_eq, leb, get,
  assign, discard, is_some, if◌then◌else◌,
}
use apcore_python.Conflicts.{is_in}
use apcore_python.Registry.{Registry, drop_text}

abbrev pub or_else : ℕ → Option ℕ → ℕ
or_else n none = n
or_else n (some m) = m

-- `self._ref_counts.get(module_id, 0)`
abbrev pub ref_count : Text → Registry → ℕ
ref_count module_id r = or_else 0 (get text_eq module_id r.ref_counts)

-- The entry of `acquire`: `none` is `ModuleNotFoundError`.
unfoldable pub acquire : Text → Registry → Option Registry
acquire module_id r =
    if is_in module_id r.draining
    then none
    else if not (is_some (get text_eq module_id r.modules))
    then none
    else some (record r {
      ref_counts = assign text_eq module_id (ref_count module_id r + 1) r.ref_counts;
    })

-- `event.set()`, where there is an event
abbrev pub set_event : Text → List (Text × Bool) → List (Text × Bool)
set_event module_id events =
    if is_some (get text_eq module_id events) then assign text_eq module_id true events else events

abbrev pub left_of : Text → Registry → ℕ
left_of module_id r = or_else 1 (get text_eq module_id r.ref_counts) - 1

-- `release`, and the exit of `acquire`
unfoldable pub release : Text → Registry → Registry
release module_id r =
    if leb (left_of module_id r) 0
    then record r {
      ref_counts = discard text_eq module_id r.ref_counts;
      drain_events = set_event module_id r.drain_events;
    }
    else record r { ref_counts = assign text_eq module_id (left_of module_id r) r.ref_counts }

abbrev pub is_draining : Text → Registry → Bool
is_draining module_id r = is_in module_id r.draining

-- `safe_unregister` up to the wait: `none` where there is no such module
unfoldable pub start_drain : Text → Registry → Option Registry
start_drain module_id r =
    if not (is_some (get text_eq module_id r.modules))
    then none
    else if leb (ref_count module_id r) 0
    then some (record r { draining = module_id ∷ r.draining })
    else some (record r {
      draining = module_id ∷ r.draining;
      drain_events = assign text_eq module_id false r.drain_events;
    })

-- after the wait, under the lock; `unregister` follows outside it
unfoldable pub end_drain : Text → Registry → Registry
end_drain module_id r = record r {
  draining = drop_text module_id r.draining;
  ref_counts = discard text_eq module_id r.ref_counts;
  drain_events = discard text_eq module_id r.drain_events;
}
