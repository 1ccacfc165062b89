-- ===== src/Acl/Resolving.antt =====
-- acl.py `_resolve_conditions`, `_matches_rule`: what becomes of a rule when the handlers of its
-- conditions can answer less.
use apcore_python.Prelude.{
  not, ℕ, ◌+◌, ◌≡◌, refl, inl, inr, Bool, true, false, Option, none, some, List, [], ◌∷◌, ◌++◌,
  arith, if◌then◌else◌, String, Text, Bool-cases, is_some,
}
use apcore_python.Acl.Values.{
  Value, list, dict, Items, nil, cons, Fields, end, field, Context, ConditionOutcome, unsatisfied,
  unevaluable,
}
use apcore_python.Acl.Rules.{Rule}
use apcore_python.Acl.Handlers.{Handler, Registry, validate_arguments_condition}
use apcore_python.Acl.Conditions.{
  Way, sync, async, resolve, outcome_of, evaluate_condition, evaluate_conditions, precheck_fields,
  precheck_or, precheck_elements, precheck_not, precheck_conditions, ConditionPath, Fault, key,
  index, dispatch_faults, key_faults, argument_faults, resolvable,
}
use apcore_python.Acl.Information.{Refines, Refines-conditions}
use apcore_python.Acl.Check.{
  matches_rule, resolve_conditions, settle, when_conditional, precheck_patterns, match_patterns,
  list_of,
}

-- The second lookup finds a handler where the first does, and it answers at least as much.
abbrev HandlerRefines : Way → Option Handler → Option Handler → Type 0
HandlerRefines way none b = Unit
HandlerRefines way (some h) none = ⊥
HandlerRefines way (some h) (some k) =
    (value : Value) (context : Context)
    → Refines (outcome_of way (h value context)) (outcome_of way (k value context))

pub record AnswersMore (way : Way) (few more : Registry) : Type 0 where
  pub at_key : (name : String) → HandlerRefines way (resolve few way name) (resolve more way name)

append-eq-nil {ℓ} : {A : Type ℓ} (xs ys : List A) → xs ++ ys ≡ [] → (xs ≡ []) × (ys ≡ [])
append-eq-nil [] ys h = (refl, h)
append-eq-nil (x ∷ xs) ys h = cc

resolvable-eq :
    (registry : Registry) (way : Way) (name : String)
    → resolvable registry way name ≡ is_some (resolve registry way name)
unfolding resolve
resolvable-eq registry sync name = refl
resolvable-eq registry async name = ground arith

Refines-tests :
    (faulty called targeted : Bool) {x y : ConditionOutcome}
    → Refines x y
    → Refines
        (if faulty
          then unevaluable
          else if not called
          then unsatisfied
          else if not targeted
          then unsatisfied
          else x)
        (if faulty
          then unevaluable
          else if not called
          then unsatisfied
          else if not targeted
          then unsatisfied
          else y)
Refines-tests true called targeted r = inl refl
Refines-tests false false targeted r = inr refl
Refines-tests false true false r = inr refl
Refines-tests false true true r = r

module _ (way : Way) (few more : Registry) (h : AnswersMore way few more) where
  evaluate_condition-Refines :
      (name : String) (value : Value) (context : Context)
      → Refines
          (evaluate_condition few way name value context)
          (evaluate_condition more way name value context)
  unfolding evaluate_condition
  evaluate_condition-Refines name value context =
      go (resolve few way name) (resolve more way name) (h.at_key name)
    where
      go :
          (a b : Option Handler)
          → HandlerRefines way a b
          → Refines
              (elim a [
                | none ↦ unevaluable
                | some handler ↦ outcome_of way (handler value context)
              ])
              (elim b [
                | none ↦ unevaluable
                | some handler ↦ outcome_of way (handler value context)
              ])
      go none b r = inl refl
      go (some p) none r = absurd r
      go (some p) (some q) r = r value context

  still_resolvable :
      (name : String) → resolvable few way name ≡ true → resolvable more way name ≡ true
  still_resolvable name e = rw (resolvable-eq more way name) (
      go (resolve few way name) (resolve more way name) (h.at_key name)
        (rw (resolvable-eq few way name) at e))
    where
      go : (a b : Option Handler) → HandlerRefines way a b → is_some a ≡ true → is_some b ≡ true
      go none b r s = cc
      go (some p) none r s = absurd r
      go (some p) (some q) r s = refl

  key_faults-clean :
      (name : String) (path : ConditionPath)
      → key_faults few way name path ≡ []
      → key_faults more way name path ≡ []
  key_faults-clean name path e = elim (Bool-cases (resolvable few way name)) [
    | inl found ↦ rw (still_resolvable name found)
    | inr lost ↦ cc (rw lost at e)
  ]

  dispatch-clean :
      (name : String) (a b c d a' b' d' : List Fault)
      → (a ≡ [] → a' ≡ [])
      → (b ≡ [] → b' ≡ [])
      → (d ≡ [] → d' ≡ [])
      → dispatch_faults name a b c d ≡ []
      → dispatch_faults name a' b' c d' ≡ []
  dispatch-clean name a b c d a' b' d' f g k e = ground arith

  append-clean :
      (xs ys xs' ys' : List Fault)
      → (xs ≡ [] → xs' ≡ [])
      → (ys ≡ [] → ys' ≡ [])
      → xs ++ ys ≡ []
      → xs' ++ ys' ≡ []
  append-clean xs ys xs' ys' f g e = let (x, y) = append-eq-nil xs ys e in rw (f x, g y)

  -- What the precheck accepts with few handlers it accepts with more.
  mutual
    unfolding precheck_fields

    clean_fields :
        (fs : Fields) (prefix : ConditionPath)
        → precheck_fields few way fs prefix ≡ []
        → precheck_fields more way fs prefix ≡ []
    clean_fields end prefix e = refl
    clean_fields (field name value rest) prefix e =
        let path = prefix ++ key name ∷ [] in
        append-clean _ _ _ _
          (dispatch-clean name (precheck_or few way value path) (precheck_not few way value path)
            (argument_faults path (validate_arguments_condition value))
            (key_faults few way name path) (precheck_or more way value path)
            (precheck_not more way value path) (key_faults more way name path) (clean_or value path)
            (clean_not value path) (key_faults-clean name path))
          (clean_fields rest prefix) e

    clean_or :
        (value : Value) (path : ConditionPath)
        → precheck_or few way value path ≡ []
        → precheck_or more way value path ≡ []
    clean_or (list elements) path e = clean_elements elements 0 path e
    clean_or _ path e = cc

    clean_elements :
        (vs : Items) (i : ℕ) (path : ConditionPath)
        → precheck_elements few way vs i path ≡ []
        → precheck_elements more way vs i path ≡ []
    clean_elements nil i path e = refl
    clean_elements (cons (dict sub) rest) i path e =
        append-clean (precheck_fields few way sub (path ++ index i ∷ []))
          (precheck_elements few way rest (i + 1) path)
          (precheck_fields more way sub (path ++ index i ∷ []))
          (precheck_elements more way rest (i + 1) path) (clean_fields sub (path ++ index i ∷ []))
          (clean_elements rest (i + 1) path) e
    clean_elements (cons _ rest) i path e = cc

    clean_not :
        (value : Value) (path : ConditionPath)
        → precheck_not few way value path ≡ []
        → precheck_not more way value path ≡ []
    clean_not (dict sub) path e = clean_fields sub path e
    clean_not _ path e = cc

  clean_conditions :
      (conditions : Value)
      → precheck_conditions few way conditions ≡ []
      → precheck_conditions more way conditions ≡ []
  unfolding precheck_conditions
  clean_conditions (dict fs) e = clean_fields fs [] e
  clean_conditions _ e = e

  resolve_conditions-Refines :
      (conditions : Value) (context : Option Context)
      → Refines
          (resolve_conditions few way conditions context)
          (resolve_conditions more way conditions context)
  unfolding resolve_conditions
  resolve_conditions-Refines conditions context =
      go (precheck_conditions few way conditions) (precheck_conditions more way conditions) context
        (clean_conditions conditions)
    where
      f : Context → ConditionOutcome
      f c = evaluate_conditions (evaluate_condition few way) c conditions

      g : Context → ConditionOutcome
      g c = evaluate_conditions (evaluate_condition more way) c conditions

      go :
          (a b : List Fault) (context : Option Context)
          → (a ≡ [] → b ≡ [])
          → Refines (settle a context f) (settle b context g)
      go (fault ∷ a) b context k = inl refl
      go [] (fault ∷ b) context k = cc (k refl)
      go [] [] none k = inr refl
      go [] [] (some c) k =
          Refines-conditions (evaluate_condition few way) (evaluate_condition more way) c
            (λ name value. evaluate_condition-Refines name value c) conditions

  -- One rule: with more handlers its outcome is the same, or it had none.
  pub matches_rule-Refines :
      (rule : Rule) (caller target : Text) (context : Option Context)
      → Refines
          (matches_rule few way rule caller target context)
          (matches_rule more way rule caller target context)
  unfolding matches_rule
  matches_rule-Refines rule caller target context =
      Refines-tests (precheck_patterns rule) (match_patterns (list_of rule.callers) caller context)
        (match_patterns (list_of rule.targets) target context) (go rule.conditions)
    where
      go :
          (conditions : Option Value)
          → Refines
              (when_conditional conditions (λ v. resolve_conditions few way v context))
              (when_conditional conditions (λ v. resolve_conditions more way v context))
      go none = inr refl
      go (some v) = resolve_conditions-Refines v context
