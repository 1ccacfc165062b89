-- ===== src/Acl/BothWays.antt =====
-- acl.py: `check` and `async_check` where there is nothing asynchronous.
use mathlib.Core.Path.{subst}
use apcore_python.Prelude.{
  ℕ, ◌+◌, ◌≡◌, refl, inl, inr, false, not, Option, none, some, List, [], ◌∷◌, ◌++◌, arith, String,
  str_eq, Text, Bool-cases, if◌then◌else◌,
}
use apcore_python.Acl.Values.{
  Value, list, dict, Items, nil, cons, Fields, end, field, lookup, Context, ConditionOutcome,
  unevaluable, unsatisfied,
}
use apcore_python.Acl.Rules.{Rule}
use apcore_python.Acl.Handlers.{Answer, returned, raised, suspended, Handler, Registry}
use apcore_python.Acl.Conditions.{
  sync, async, resolve, outcome_of, evaluate_condition, evaluate_conditions, precheck_fields,
  precheck_or, precheck_elements, precheck_not, precheck_conditions, ConditionPath, key, index,
  key_faults,
}
use apcore_python.Acl.Check.{
  matches_rule, resolve_conditions, settle, when_conditional, scan_rules, finalize_check, Acl,
  check, check_access, async_check, async_check_access, legacy, effective_caller, match_patterns,
  precheck_patterns, list_of,
}

-- A registry with no async handlers.
abbrev pub only_sync : List (String × Handler) → Registry
only_sync handlers = record { condition_handlers = handlers; async_condition_handlers = [] }

abbrev pub Immediate : Answer → Type 0
Immediate (suspended result) = ⊥
Immediate _ = Unit

-- No registered handler suspends.
abbrev pub AllImmediate : List (String × Handler) → Type 0
AllImmediate handlers =
    (name : String) (handler : Handler) (value : Value) (context : Context)
    → lookup name handlers ≡ some handler
    → Immediate (handler value context)

some-injective : {x y : Handler} → some x ≡ some y → x ≡ y
some-injective e = cc

AllImmediate-cons :
    (k : String) (h : Handler) (rest : List (String × Handler))
    → ((value : Value) (context : Context) → Immediate (h value context))
    → AllImmediate rest
    → AllImmediate ((k, h) ∷ rest)
AllImmediate-cons k h rest immediate others name handler value context e =
    elim (Bool-cases (str_eq k name)) [
      | inl same ↦
          subst (λ f. Immediate (f value context)) (some-injective (rw (same) at e))
            (immediate value context)
      | inr different ↦ others name handler value context (rw (different) at e)
    ]

abbrev pub EachImmediate : List (String × Handler) → Type 0
EachImmediate [] = Unit
EachImmediate ((k, h) ∷ rest) =
    ((value : Value) (context : Context) → Immediate (h value context)) × EachImmediate rest

pub AllImmediate-of_EachImmediate :
    (handlers : List (String × Handler)) → EachImmediate handlers → AllImmediate handlers
AllImmediate-of_EachImmediate [] each = λ name handler value context e. cc
AllImmediate-of_EachImmediate ((k, h) ∷ rest) (immediate, others) =
    AllImmediate-cons k h rest immediate (AllImmediate-of_EachImmediate rest others)

outcome_of-way : (a : Answer) → Immediate a → outcome_of async a ≡ outcome_of sync a
outcome_of-way (returned o) i = refl
outcome_of-way raised i = refl
outcome_of-way (suspended r) i = absurd i

module _ (handlers : List (String × Handler)) where
  key_faults-way :
      (name : String) (path : ConditionPath)
      → key_faults (only_sync handlers) async name path
        ≡ key_faults (only_sync handlers) sync name path
  key_faults-way name path = ground arith

  mutual
    unfolding precheck_fields

    fields-way :
        (fs : Fields) (prefix : ConditionPath)
        → precheck_fields (only_sync handlers) async fs prefix
          ≡ precheck_fields (only_sync handlers) sync fs prefix
    fields-way end prefix = refl
    fields-way (field name value rest) prefix = cc (
      or-way value (prefix ++ key name ∷ []),
      not-way value (prefix ++ key name ∷ []),
      key_faults-way name (prefix ++ key name ∷ []),
      fields-way rest prefix,
    )

    or-way :
        (value : Value) (path : ConditionPath)
        → precheck_or (only_sync handlers) async value path
          ≡ precheck_or (only_sync handlers) sync value path
    or-way (list elements) path = elements-way elements 0 path
    or-way _ path = refl

    elements-way :
        (vs : Items) (i : ℕ) (path : ConditionPath)
        → precheck_elements (only_sync handlers) async vs i path
          ≡ precheck_elements (only_sync handlers) sync vs i path
    elements-way nil i path = refl
    elements-way (cons (dict sub) rest) i path =
        cc (fields-way sub (path ++ index i ∷ []), elements-way rest (i + 1) path)
    elements-way (cons v rest) i path = cc (elements-way rest (i + 1) path)

    not-way :
        (value : Value) (path : ConditionPath)
        → precheck_not (only_sync handlers) async value path
          ≡ precheck_not (only_sync handlers) sync value path
    not-way (dict sub) path = fields-way sub path
    not-way _ path = refl

  precheck-way :
      (conditions : Value)
      → precheck_conditions (only_sync handlers) async conditions
        ≡ precheck_conditions (only_sync handlers) sync conditions
  unfolding precheck_conditions
  precheck-way (dict fs) = fields-way fs []
  precheck-way _ = refl

  module _ (immediate : AllImmediate handlers) where
    leaf-way :
        (name : String) (value : Value) (context : Context)
        → evaluate_condition (only_sync handlers) async name value context
          ≡ evaluate_condition (only_sync handlers) sync name value context
    unfolding evaluate_condition resolve
    leaf-way name value context = go (lookup name handlers) refl
      where
        go :
            (found : Option Handler)
            → lookup name handlers ≡ found
            → elim found as (λ _. ConditionOutcome) [
              | none ↦ unevaluable
              | some handler ↦ outcome_of async (handler value context)
            ]
              ≡ elim found as (λ _. ConditionOutcome) [
                | none ↦ unevaluable
                | some handler ↦ outcome_of sync (handler value context)
              ]
        go none e = refl
        go (some handler) e =
            outcome_of-way (handler value context) (immediate name handler value context e)

    leaves :
        evaluate_condition (only_sync handlers) async ≡ evaluate_condition (only_sync handlers) sync
    leaves = λ i name value context. leaf-way name value context i

    rule-way :
        (rule : Rule) (caller target : Text) (context : Option Context)
        → matches_rule (only_sync handlers) async rule caller target context
          ≡ matches_rule (only_sync handlers) sync rule caller target context
    unfolding matches_rule resolve_conditions
    rule-way rule caller target context = λ i.
        if precheck_patterns rule
        then unevaluable
        else if not (match_patterns (list_of rule.callers) caller context)
        then unsatisfied
        else if not (match_patterns (list_of rule.targets) target context)
        then unsatisfied
        else when_conditional rule.conditions
            (λ v. settle (precheck-way v i) context (λ c. evaluate_conditions (leaves i) c v))

    -- Where no async handler is registered and no handler suspends, `async_check` answers what
    -- `check` answers.
    pub async_check-eq-check :
        (acl : Acl) (caller : Option Text) (target : Text) (context : Option Context)
        → async_check (only_sync handlers) acl caller target context
          ≡ check (only_sync handlers) acl caller target context
    unfolding async_check check async_check_access check_access
    async_check-eq-check acl caller target context = λ i. legacy (
        finalize_check acl.rules acl.default_effect (
          scan_rules (λ rule. rule-way rule (effective_caller caller) target context i) 0 false
            acl.rules))
