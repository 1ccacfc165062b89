-- ===== src/Registry/Registering.antt =====
-- registry/registry.py: which registrations are accepted.
use apcore_python.Prelude.{◌≡◌, Bool, true, false, none, some, Text, if◌then◌else◌}
use apcore_python.Conflicts.{is_in}
use apcore_python.ModuleIds.{validate_module_id}
use apcore_python.Registry.{Registry, Begun, has, duplicate}

abbrev tested : Bool → Bool → Registry → Registry → Begun
tested flying clashing r s =
    if flying then (r, some duplicate) else if clashing then (r, some duplicate) else (s, none)

abbrev pub Accepts : Text → Bool → Registry → Type 0
Accepts module_id valid r =
    (validate_module_id false module_id ≡ none)
    × ((valid ≡ true) × ((is_in module_id r.in_flight ≡ false) × (has module_id r ≡ false)))
