-- ===== src/Registry.antt =====
-- registry/registry.py: which modules are registered, and how they come and go. A object is the
-- number of its object. What `on_load`, `on_unload`, the streaming check and a host's validator do is
-- their own: of them the registry takes an outcome. Metadata, schemas, events and files are left
-- out. IDs are texts of ASCII characters.
use apcore_python.Prelude.{
  ℕ, ◌+◌, ◌-◌, Bool, true, false, not, ◌&&◌, ◌||◌, Option, none, some, List, [], ◌∷◌, ◌++◌, Text,
  codes, text_eq, any, all, length, ltb, leb, ◌==◌, get, assign, discard, keys, is_some,
  if◌then◌else◌,
}
use apcore_python.Pattern.{split, dot, first}
use apcore_python.ModuleIds.{IdFault, reserved_words, validate_module_id, is_ephemeral}
use apcore_python.Conflicts.{
  lower, is_in, detect_id_conflicts, ConflictType, duplicate_id, reserved_word, case_collision,
}
use apcore_python.Store.{
  VersionedStore, Resolved, picked, bad_hint, add, get_latest, resolve, remove_all,
}
use apcore_python.Store.{has as store_has}
pub mod Steps
pub mod Agreement
pub mod Publishing
pub mod Removing
pub mod Consistent
pub mod Registering
pub mod Draining
pub mod Drained
mod Tests

pub record Registry : Type 0 where
  pub modules : List (Text × ℕ)
  pub lowercase_map : List (Text × Text)
  pub versioned : VersionedStore ℕ
  pub in_flight : List Text
  pub draining : List Text
  pub ref_counts : List (Text × ℕ)
  pub drain_events : List (Text × Bool)

abbrev pub empty_registry : Registry
empty_registry = record {
  modules = [];
  lowercase_map = [];
  versioned = [];
  in_flight = [];
  draining = [];
  ref_counts = [];
  drain_events = [];
}

pub data RegisterError : Type 0 where
  invalid_id : IdFault → RegisterError
  ephemeral_internal rejected duplicate load_failed : RegisterError

-- `version or module.version or DEFAULT_MODULE_VERSION`
abbrev pub or_version : Option Text → Text → Text
or_version none other = other
or_version (some []) other = other
or_version (some (c ∷ version)) other = c ∷ version

abbrev pub effective_version : Option Text → Option Text → Text
effective_version version own = or_version version (or_version own (codes "1.0.0"))

-- a conflict with the severity of an error
abbrev pub is_error : Option ConflictType → Bool
is_error none = false
is_error (some case_collision) = false
is_error (some _) = true

abbrev pub clashes : List Text → Text → Registry → Bool
clashes words module_id r =
    is_error (detect_id_conflicts module_id (keys r.modules) words (some r.lowercase_map))

abbrev pub mark : Text → Registry → Registry
mark module_id r = record r { in_flight = module_id ∷ r.in_flight }

abbrev pub drop_text : Text → List Text → List Text
drop_text text [] = []
drop_text text (other ∷ texts) =
    let rest = drop_text text texts in if text_eq other text then rest else other ∷ rest

-- `self._in_flight.discard(module_id)`
abbrev pub unmark : Text → Registry → Registry
unmark module_id r = record r { in_flight = drop_text module_id r.in_flight }

abbrev pub Begun : Type 0
Begun = Registry × Option RegisterError

-- phase 1 of `register`, under the lock
unfoldable pub begin_register : Text → Bool → Registry → Begun
unfolding detect_id_conflicts store_has
begin_register module_id is_versioned r =
    if not is_versioned && is_in module_id r.in_flight
    then (r, some duplicate)
    else if not (is_versioned && store_has module_id r.versioned)
        && clashes reserved_words module_id r
    then (r, some duplicate)
    else (if is_versioned then r else mark module_id r, none)

-- `register` up to the end of phase 1, where `valid` says that the streaming check and the host's
-- validator found nothing
unfoldable pub start_register : Text → Bool → Bool → Registry → Begun
unfolding validate_module_id begin_register
start_register module_id is_versioned valid r = elim (validate_module_id false module_id) [
  | some fault ↦ (r, some (invalid_id fault))
  | none ↦ if valid then begin_register module_id is_versioned r else (r, some rejected)
]

-- `on_load` raised
unfoldable pub fail_register : Text → Registry → Begun
fail_register module_id r = (unmark module_id r, some load_failed)

abbrev pub point_to : Text → Option ℕ → Registry → Registry
point_to module_id none r = r
point_to module_id (some object) r = record r {
  modules = assign text_eq module_id object r.modules;
}

abbrev pub note_lower : Text → Registry → Registry
note_lower module_id r = record r {
  lowercase_map = assign text_eq (lower module_id) module_id r.lowercase_map;
}

-- phase 3 of `register`, under the lock
unfoldable pub publish : Text → Text → ℕ → Registry → Registry
unfolding add get_latest
publish module_id version object r =
    let stored = add module_id version object r.versioned in
    note_lower module_id (
      point_to module_id (get_latest module_id stored)
        (record (unmark module_id r) { versioned = stored }))

-- `register_internal`, with the same phases; only the reserved words are allowed
unfoldable pub start_internal : Text → Bool → Registry → Begun
unfolding validate_module_id detect_id_conflicts
start_internal module_id valid r =
    if is_ephemeral module_id
    then (r, some ephemeral_internal)
    else elim (validate_module_id true module_id) [
      | some fault ↦ (r, some (invalid_id fault))
      | none ↦
          if not valid
          then (r, some rejected)
          else if is_in module_id r.in_flight || clashes [] module_id r
          then (r, some duplicate)
          else (mark module_id r, none)
    ]

unfoldable pub publish_internal : Text → ℕ → Registry → Registry
publish_internal module_id object r =
    note_lower module_id (point_to module_id (some object) (unmark module_id r))

-- `unregister`: the registry that is left, and whether there was such a object
unfoldable pub unregister : Text → Registry → Registry × Bool
unfolding remove_all
unregister module_id r = if not (is_some (get text_eq module_id r.modules)) then (r, false) else (
  record {
    modules = discard text_eq module_id r.modules;
    lowercase_map = discard text_eq (lower module_id) r.lowercase_map;
    versioned = (remove_all module_id r.versioned).0;
    in_flight = r.in_flight;
    draining = drop_text module_id r.draining;
    ref_counts = discard text_eq module_id r.ref_counts;
    drain_events = discard text_eq module_id r.drain_events;
  },
  true,
)

-- `has`
unfoldable pub has : Text → Registry → Bool
has module_id r = is_some (get text_eq module_id r.modules)

-- A module, none, or `ModuleNotFoundError`; or the hint is malformed.
pub data Lookup : Type 0 where
  found : Option ℕ → Lookup
  module_not_found malformed_hint : Lookup

abbrev pub or_primary : Option ℕ → Option ℕ → Lookup
or_primary none primary = found primary
or_primary (some object) primary = found (some object)

abbrev pub hinted : Text → Registry → Resolved ℕ → Lookup
hinted module_id r bad_hint = malformed_hint
hinted module_id r (picked (some object)) = found (some object)
hinted module_id r (picked none) =
    if is_some (get text_eq module_id r.modules) && not (store_has module_id r.versioned)
    then module_not_found
    else found none

-- `get`
unfoldable pub look_up : Text → Option Text → Registry → Lookup
unfolding get_latest resolve store_has
look_up module_id hint r = if text_eq module_id [] then module_not_found else elim hint [
  | some h ↦ hinted module_id r (resolve module_id (some h) r.versioned)
  | none ↦ or_primary (get_latest module_id r.versioned) (get text_eq module_id r.modules)
]
