-- ===== src/Registry/Tests.antt =====
-- registry/registry.py: a registry of a few modules.
use apcore_python.Prelude.{
  leb, not, text_eq, get, ◌≤◌, [], ◌∷◌, ◌≡◌, refl, true, false, none, some, Text, codes, is_some,
}
use apcore_python.Pattern.{split}
use apcore_python.Conflicts.{detect_id_conflicts}
use apcore_python.ModuleIds.{validate_module_id, matches_id_pattern}
use apcore_python.Store.{add, get_latest, resolve, has as store_has}
use apcore_python.Version.Select.{select_best_version}
use apcore_python.Registry.{
  Registry, empty_registry, start_register, begin_register, fail_register, publish, duplicate,
  effective_version,
}
use apcore_python.Registry.Steps.{Reached, at_first, then_step, publishes}
use apcore_python.Registry.Agreement.{Consistent}
use apcore_python.Registry.Consistent.{Reached-Consistent}
use apcore_python.Registry.Draining.{acquire, release, ref_count, start_drain, end_drain}
use apcore_python.Registry.Drained.{at_once, released, event_of, Meanwhile-Drains}

abbrev send : Text
send = codes "mail.send"

abbrev one : Registry
one = publish send (effective_version none none) 7 empty_registry

valid_send : validate_module_id false send ≡ none
unfolding validate_module_id matches_id_pattern split
valid_send = refl

history_of_one : Reached one
history_of_one = then_step at_first (publishes send none none 7 empty_registry valid_send)

twice : (start_register send false true one).1 ≡ some duplicate
unfolding start_register validate_module_id matches_id_pattern split begin_register
    detect_id_conflicts publish add get_latest resolve select_best_version store_has
twice = refl

-- While one registration of an ID is in `on_load`, a versioned one of the same ID fails in its own and
-- takes the mark away; then a third is accepted, though the first is still under way.
mark_lost :
    (start_register send false true
      (fail_register send
        (start_register send true true (start_register send false true empty_registry).0).0).0).1
    ≡ none
unfolding start_register validate_module_id matches_id_pattern split begin_register
    detect_id_conflicts fail_register store_has
mark_lost = refl

Reached-Consistent_example : Consistent one
Reached-Consistent_example = Reached-Consistent history_of_one

-- One execution of a module, then a drain of it.
abbrev busy : Registry
busy = record one { ref_counts = (send, 1) ∷ [] }

abbrev draining : Registry
draining = record busy { draining = send ∷ []; drain_events = (send, false) ∷ [] }

begun : acquire send one ≡ some busy
unfolding acquire publish add
begun = refl

drain_begun : start_drain send busy ≡ some draining
unfolding start_drain publish add
drain_begun = refl

-- When the mark is gone and `unregister` has not run yet, an execution begins again.
acquired_after_drain : is_some (acquire send (end_drain send (release send draining))) ≡ true
unfolding acquire release end_drain publish add
acquired_after_drain = refl

Meanwhile-Drains_example :
    (acquire send (release send draining) ≡ none)
    × (ref_count send (release send draining) ≤ ref_count send busy)
    × (get text_eq send (release send draining).drain_events
        ≡ event_of (not (leb (ref_count send busy) 0)) send (release send draining))
unfolding publish
Meanwhile-Drains_example = Meanwhile-Drains send busy refl drain_begun (released send at_once)
