-- ===== src/Registry/Publishing.antt =====
-- registry/registry.py: publishing a module keeps the maps in agreement.
use mathlib.Core.Path.{subst}
use apcore_python.Prelude.{
  ℕ, ◌≡◌, ◌⊎◌, refl, sym, ap, ◌∙◌, inl, inr, Bool, true, false, Option, none, some, [], ◌∷◌, Text,
  text_eq, text_eq_iff, get, assign, get-assign, is_some, arith, if◌then◌else◌, either_way,
  Bool-cases,
}
use apcore_python.Conflicts.{lower}
use apcore_python.Store.{VersionedStore, Versions, versions_of, add, get_latest, not_empty}
use apcore_python.Store.{has as store_has}
use apcore_python.Store.Latest.{Named, get_latest-has}
use apcore_python.Registry.{unmark, Registry, publish, point_to, note_lower}
use apcore_python.Registry.Agreement.{Consistent}

Named-assign :
    (version : Text) (object : ℕ) (versions : Versions ℕ)
    → text_eq version [] ≡ false
    → Named versions
    → Named (assign text_eq version object versions)
Named-assign version object [] e n = (e, tt)
Named-assign version object ((w, x) ∷ versions) e (n, ns) =
    either_way (λ (vs : Versions ℕ). Named vs) (text_eq w version) (n, ns)
      (n, Named-assign version object versions e ns)

Named-add :
    (module_id version : Text) (object : ℕ) (store : VersionedStore ℕ)
    → text_eq version [] ≡ false
    → ((k : Text) → Named (versions_of (get text_eq k store)))
    → (k : Text) → Named (versions_of (get text_eq k (add module_id version object store)))
unfolding add
Named-add module_id version object store e named k =
    subst (λ (o : Option (Versions ℕ)). Named (versions_of o))
      (sym (
        get-assign text_eq text_eq_iff module_id k
          (assign text_eq version object (versions_of (get text_eq module_id store))) store))
      (either_way (λ (o : Option (Versions ℕ)). Named (versions_of o)) (text_eq module_id k)
        (Named-assign version object (versions_of (get text_eq module_id store)) e
          (named module_id))
        (named k))

store_has-add :
    (module_id version : Text) (object : ℕ) (store : VersionedStore ℕ) (k : Text)
    → store_has k (add module_id version object store)
      ≡ (if text_eq module_id k then true else store_has k store)
unfolding add store_has
store_has-add module_id version object store k =
    ap (λ o. not_empty (versions_of o))
      (get-assign text_eq text_eq_iff module_id k
        (assign text_eq version object (versions_of (get text_eq module_id store))) store)
    ∙ go (text_eq module_id k)
  where
    filled : (versions : Versions ℕ) → not_empty (assign text_eq version object versions) ≡ true
    filled [] = refl
    filled ((w, x) ∷ versions) =
        either_way (λ (vs : Versions ℕ). not_empty vs ≡ true) (text_eq w version) refl refl

    go :
        (b : Bool)
        → not_empty (
            versions_of (
              if b
              then some (assign text_eq version object (versions_of (get text_eq module_id store)))
              else get text_eq k store))
          ≡ (if b then true else not_empty (versions_of (get text_eq k store)))
    go true = filled (versions_of (get text_eq module_id store))
    go false = refl

-- Of a registry whose maps agree, with a module put in.
pub put_in :
    (module_id : Text) (object : ℕ) (stored : VersionedStore ℕ) (r : Registry)
    → lower module_id ≡ module_id
    → Consistent r
    → ((k : Text)
        → store_has k stored ≡ true
        → (text_eq module_id k ≡ true) ⊎ (store_has k r.versioned ≡ true))
    → ((k : Text) → Named (versions_of (get text_eq k stored)))
    → Consistent
        (note_lower module_id (point_to module_id (some object) (record r { versioned = stored })))
put_in module_id object stored r low c fresh named = record {
  cased = λ k. ap (λ id. get text_eq k (assign text_eq id module_id r.lowercase_map)) low ∙ cases k;
  stored = λ k h.
      ground
        (arith, get-assign text_eq text_eq_iff module_id k object r.modules, fresh k h, c.stored k);
  named = named;
  lowered = λ k h. elim (Bool-cases (text_eq module_id k)) [
    | inl here ↦ subst (λ (id : Text). lower id ≡ id) ((text_eq_iff module_id k).0 here) low
    | inr there ↦ c.lowered k (
        sym (
          ap is_some (
            get-assign text_eq text_eq_iff module_id k object r.modules
            ∙ ap (λ b. if b then some object else get text_eq k r.modules) there))
        ∙ h)
  ];
}
  where
    cases :
        (k : Text)
        → get text_eq k (assign text_eq module_id module_id r.lowercase_map) ≡ (
            if is_some (get text_eq k (assign text_eq module_id object r.modules))
            then some k
            else none)
    cases k = ground (
      arith,
      get-assign text_eq text_eq_iff module_id k module_id r.lowercase_map,
      get-assign text_eq text_eq_iff module_id k object r.modules,
      c.cased k,
      text_eq_iff module_id k,
    )

pub publish-Consistent :
    (module_id version : Text) (object : ℕ) (r : Registry)
    → lower module_id ≡ module_id
    → text_eq version [] ≡ false
    → Consistent r
    → Consistent (publish module_id version object r)
unfolding publish
publish-Consistent module_id version object r low e c =
    go (get_latest module_id kept) (get_latest-has module_id kept (named module_id))
  where
    kept : VersionedStore ℕ
    kept = add module_id version object r.versioned

    named : (k : Text) → Named (versions_of (get text_eq k kept))
    named = Named-add module_id version object r.versioned e c.named

    has_it : store_has module_id kept ≡ true
    has_it =
        store_has-add module_id version object r.versioned module_id
        ∙ ap (λ b. if b then true else store_has module_id r.versioned)
            ((text_eq_iff module_id module_id).1 refl)

    split_has :
        (k : Text)
        → store_has k kept ≡ true
        → (text_eq module_id k ≡ true) ⊎ (store_has k r.versioned ≡ true)
    split_has k h = elim (Bool-cases (text_eq module_id k)) [
      | inl here ↦ inl here
      | inr there ↦ inr (
          sym (
            store_has-add module_id version object r.versioned k
            ∙ ap (λ b. if b then true else store_has k r.versioned) there)
          ∙ h)
    ]

    go :
        (latest : Option ℕ)
        → is_some latest ≡ store_has module_id kept
        → Consistent (
            note_lower module_id
              (point_to module_id latest (record (unmark module_id r) { versioned = kept })))
    go none e' = ground (arith, e', has_it)
    go (some newest) e' = put_in module_id newest kept r low c split_has named
