-- ===== src/Registry/Steps.antt =====
-- registry/registry.py: what may happen to a registry. Each step holds the lock; `on_load` runs between
-- the steps, so registrations interleave.
use apcore_python.Prelude.{ℕ, ◌≡◌, Bool, true, false, Option, none, Text}
use apcore_python.ModuleIds.{validate_module_id}
use apcore_python.Registry.{
  Registry, empty_registry, start_register, fail_register, publish, effective_version,
  start_internal, publish_internal, unregister,
}

-- A publication is of an ID that was validated when its registration started.
pub data Step : Registry → Registry → Type 0 where
  starts :
      (module_id : Text) (is_versioned valid : Bool) (r : Registry)
      → Step r (start_register module_id is_versioned valid r).0
  starts_internal :
      (module_id : Text) (valid : Bool) (r : Registry) → Step r (start_internal module_id valid r).0
  fails : (module_id : Text) (r : Registry) → Step r (fail_register module_id r).0
  publishes :
      (module_id : Text) (version own : Option Text) (object : ℕ) (r : Registry)
      → validate_module_id false module_id ≡ none
      → Step r (publish module_id (effective_version version own) object r)
  publishes_internal :
      (module_id : Text) (object : ℕ) (r : Registry)
      → validate_module_id true module_id ≡ none
      → Step r (publish_internal module_id object r)
  unregisters : (module_id : Text) (r : Registry) → Step r (unregister module_id r).0

pub data Reached : Registry → Type 0 where
  at_first : Reached empty_registry
  then_step : {r s : Registry} → Reached r → Step r s → Reached s
