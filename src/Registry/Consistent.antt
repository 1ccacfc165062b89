-- ===== src/Registry/Consistent.antt =====
-- registry/registry.py: the maps of a registry agree, whatever happens.
use apcore_python.Prelude.{
  ℕ, ◌≡◌, refl, sym, ap, ◌∙◌, inr, Bool, true, false, not, ◌&&◌, ◌||◌, Option, none, some, [], ◌∷◌,
  Text, text_eq, get, is_some, arith, if◌then◌else◌, either_way,
}
use apcore_python.Conflicts.{is_in}
use apcore_python.Store.{get_latest}
use apcore_python.Store.{has as store_has}
use apcore_python.Store.Latest.{get_latest-has}
use apcore_python.ModuleIds.{is_ephemeral, reserved_words, IdFault, validate_module_id}
use apcore_python.ModuleIds.Valid.{validate_module_id-valid}
use apcore_python.Registry.{
  module_not_found, mark, duplicate, rejected, clashes, invalid_id, Begun, Registry, start_register,
  begin_register, fail_register, effective_version, start_internal, publish_internal, has, look_up,
  found, or_primary,
}
use apcore_python.Registry.Steps.{
  Step, starts, starts_internal, fails, publishes, publishes_internal, unregisters, Reached,
  at_first, then_step,
}
use apcore_python.Registry.Agreement.{Consistent}
use apcore_python.Registry.Publishing.{put_in, publish-Consistent}
use apcore_python.Registry.Removing.{unregister-Consistent}

effective_version-named :
    (version own : Option Text) → text_eq (effective_version version own) [] ≡ false
effective_version-named none none = refl
effective_version-named none (some []) = refl
effective_version-named none (some (c ∷ own)) = refl
effective_version-named (some []) none = refl
effective_version-named (some []) (some []) = refl
effective_version-named (some []) (some (c ∷ own)) = refl
effective_version-named (some (c ∷ version)) own = refl

start_register-Consistent :
    (module_id : Text) (is_versioned valid : Bool) (r : Registry)
    → Consistent r
    → Consistent (start_register module_id is_versioned valid r).0
unfolding start_register begin_register
start_register-Consistent module_id is_versioned valid r c = go (validate_module_id false module_id)
  where
    Fine : Begun → Type 0
    Fine b = Consistent b.0

    begun : Fine (begin_register module_id is_versioned r)
    begun = either_way Fine (not is_versioned && is_in module_id r.in_flight) c (
        either_way Fine
          (not (is_versioned && store_has module_id r.versioned)
            && clashes reserved_words module_id r)
          c (either_way Consistent is_versioned c c))

    go :
        (fault : Option IdFault)
        → Fine (elim fault as (λ _. Begun) [
          | some fault ↦ (r, some (invalid_id fault))
          | none ↦ if valid then begin_register module_id is_versioned r else (r, some rejected)
        ])
    go (some fault) = c
    go none = either_way Fine valid begun c

start_internal-Consistent :
    (module_id : Text) (valid : Bool) (r : Registry)
    → Consistent r
    → Consistent (start_internal module_id valid r).0
unfolding start_internal
start_internal-Consistent module_id valid r c =
    either_way Fine (is_ephemeral module_id) c (go (validate_module_id true module_id))
  where
    Fine : Begun → Type 0
    Fine b = Consistent b.0

    go :
        (fault : Option IdFault)
        → Fine (elim fault as (λ _. Begun) [
          | some fault ↦ (r, some (invalid_id fault))
          | none ↦
              if not valid
              then (r, some rejected)
              else if is_in module_id r.in_flight || clashes [] module_id r
              then (r, some duplicate)
              else (mark module_id r, none)
        ])
    go (some fault) = c
    go none =
        either_way Fine (not valid) c
          (either_way Fine (is_in module_id r.in_flight || clashes [] module_id r) c c)

Step-Consistent : {r s : Registry} → Step r s → Consistent r → Consistent s
unfolding fail_register publish_internal
Step-Consistent (starts module_id is_versioned valid r) c =
    start_register-Consistent module_id is_versioned valid r c
Step-Consistent (starts_internal module_id valid r) c =
    start_internal-Consistent module_id valid r c
Step-Consistent (fails module_id r) c = c
Step-Consistent (publishes module_id version own object r valid) c =
    let (_, (low, _)) = validate_module_id-valid false module_id valid in
    publish-Consistent module_id (effective_version version own) object r low
      (effective_version-named version own) c
Step-Consistent (publishes_internal module_id object r valid) c =
    let (_, (low, _)) = validate_module_id-valid true module_id valid in
    put_in module_id object r.versioned r low c (λ k h. inr h) c.named
Step-Consistent (unregisters module_id r) c = unregister-Consistent module_id r c

-- However registrations, failures of `on_load` and removals interleave, the lower-case map has each
-- registered ID, which is in lower case, and nothing else, every ID with a version is registered,
-- and no version is empty.
pub Reached-Consistent : {r : Registry} → Reached r → Consistent r
unfolding store_has
Reached-Consistent at_first = record {
  cased = λ k. refl;
  stored = λ k h. ground (arith, h);
  named = λ k. tt;
  lowered = λ k h. ground (arith, h);
}
Reached-Consistent (then_step reached step) = Step-Consistent step (Reached-Consistent reached)

-- In every such registry `get` without a hint finds a module just where `has` says that the ID is
-- registered, for an ID that is not empty.
pub look_up-has :
    {r : Registry} (module_id : Text)
    → Reached r
    → text_eq module_id [] ≡ false
    → (o : Option ℕ) × ((look_up module_id none r ≡ found o) × (is_some o ≡ has module_id r))
unfolding look_up has
look_up-has {r} module_id reached e =
    let c = Reached-Consistent reached in
    let (o, (same, right)) =
      go (get_latest module_id r.versioned) (get text_eq module_id r.modules) (λ h.
        c.stored module_id (sym (get_latest-has module_id r.versioned (c.named module_id)) ∙ h)) in
    (
      o,
      (
        ap
              (λ b.
                if b
                then module_not_found
                else or_primary (get_latest module_id r.versioned)
                    (get text_eq module_id r.modules))
              e
            ∙ same,
        right,
      ),
    )
  where
    go :
        (latest primary : Option ℕ)
        → (is_some latest ≡ true → is_some primary ≡ true)
        → (o : Option ℕ) × ((or_primary latest primary ≡ found o) × (is_some o ≡ is_some primary))
    go none primary h = (primary, (refl, refl))
    go (some newest) primary h = (some newest, (refl, sym (h refl)))
