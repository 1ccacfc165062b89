-- ===== src/Registry/Removing.antt =====
-- registry/registry.py: removing a module keeps the maps in agreement.
use mathlib.Core.Path.{subst}
use apcore_python.Prelude.{
  ℕ, ◌≡◌, sym, ap, ◌∙◌, inl, inr, Bool, true, false, not, Option, none, some, Text, text_eq,
  text_eq_iff, get, discard, get-discard, is_some, arith, if◌then◌else◌, either_way, either_case,
  Bool-cases,
}
use apcore_python.Conflicts.{lower}
use apcore_python.Store.{Versions, versions_of, remove_all, not_empty}
use apcore_python.Store.{has as store_has}
use apcore_python.Store.Latest.{Named}
use apcore_python.Registry.{Registry, unregister}
use apcore_python.Registry.Agreement.{Agree, Consistent}

-- Without one of its modules.
taken_out :
    (module_id : Text) (r : Registry)
    → lower module_id ≡ module_id
    → Consistent r
    → Agree
        (discard text_eq module_id r.modules)
        (discard text_eq (lower module_id) r.lowercase_map)
        (remove_all module_id r.versioned).0
unfolding remove_all
taken_out module_id r low c = record {
  cased = λ k. ap (λ id. get text_eq k (discard text_eq id r.lowercase_map)) low ∙ cases k;
  stored = λ k h. elim (Bool-cases (text_eq module_id k)) [
    | inl here ↦ ground (arith, gone k here, h)
    | inr there ↦ ground (
      arith,
      get-discard text_eq text_eq_iff module_id k r.modules,
      there,
      c.stored k (sym (other k there) ∙ h),
    )
  ];
  named = λ k.
      subst (λ (o : Option (Versions ℕ)). Named (versions_of o))
        (sym (get-discard text_eq text_eq_iff module_id k r.versioned))
        (either_way (λ (o : Option (Versions ℕ)). Named (versions_of o)) (text_eq module_id k) tt
          (c.named k));
  lowered =
      λ k h. c.lowered k (ground (arith, get-discard text_eq text_eq_iff module_id k r.modules, h));
}
  where
    cases :
        (k : Text)
        → get text_eq k (discard text_eq module_id r.lowercase_map)
          ≡ (if is_some (get text_eq k (discard text_eq module_id r.modules)) then some k else none)
    cases k = ground (
      arith,
      get-discard text_eq text_eq_iff module_id k r.lowercase_map,
      get-discard text_eq text_eq_iff module_id k r.modules,
      c.cased k,
    )

    gone :
        (k : Text)
        → text_eq module_id k ≡ true
        → store_has k (discard text_eq module_id r.versioned) ≡ false
    gone k here =
        unfold store_has in
        ap (λ o. not_empty (versions_of o))
          (get-discard text_eq text_eq_iff module_id k r.versioned
            ∙ ap (λ b. if b then none else get text_eq k r.versioned) here)

    other :
        (k : Text)
        → text_eq module_id k ≡ false
        → store_has k (discard text_eq module_id r.versioned) ≡ store_has k r.versioned
    other k there =
        unfold store_has in
        ap (λ o. not_empty (versions_of o))
          (get-discard text_eq text_eq_iff module_id k r.versioned
            ∙ ap (λ b. if b then none else get text_eq k r.versioned) there)

pub unregister-Consistent :
    (module_id : Text) (r : Registry) → Consistent r → Consistent (unregister module_id r).0
unfolding unregister
unregister-Consistent module_id r c =
    either_case (λ (u : Registry × Bool). Consistent u.0)
      (not (is_some (get text_eq module_id r.modules))) (λ absent. c)
      (λ there. taken_out module_id r (c.lowered module_id (ground (arith, there))) c)
