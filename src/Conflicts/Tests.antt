-- ===== src/Conflicts/Tests.antt =====
-- registry/conflicts.py: examples.
use apcore_python.Prelude.{◌≡◌, refl, none, some, List, [], ◌∷◌, Text, codes}
use apcore_python.Conflicts.{detect_id_conflicts, duplicate_id, reserved_word, case_collision}

abbrev registered : List Text
registered = codes "orders.get" ∷ []

abbrev reserved : List Text
reserved = codes "system" ∷ []

in_use : detect_id_conflicts (codes "orders.get") registered reserved none ≡ some duplicate_id
unfolding detect_id_conflicts
in_use = refl

system_word : detect_id_conflicts (codes "system.x") registered reserved none ≡ some reserved_word
unfolding detect_id_conflicts
system_word = refl

other_case : detect_id_conflicts (codes "Orders.Get") registered reserved none ≡ some case_collision
unfolding detect_id_conflicts
other_case = refl

other_case_by_map :
    detect_id_conflicts
      (codes "Orders.Get")
      registered
      reserved
      (some ((codes "orders.get", codes "orders.get") ∷ []))
    ≡ some case_collision
unfolding detect_id_conflicts
other_case_by_map = refl
