-- ===== src/Acl/Conditions.antt =====
-- acl.py: the evaluation of a `conditions` tree on either path, and its precheck. The sync and the
-- async functions of the source are the same code with another handler lookup, so both are one
-- function here that takes the lookup. The diagnostics for the log and the audit entry
-- are left out.
use apcore_python.Prelude.{
  ℕ, ◌+◌, Bool, true, false, ◌||◌, Option, none, some, List, [], ◌∷◌, ◌++◌, String, str_eq, is_some,
  if◌then◌else◌,
}
use apcore_python.Acl.Values.{
  Value, list, dict, Items, nil, cons, Fields, end, field, lookup, Context, ConditionOutcome,
  satisfied, unsatisfied, unevaluable,
}
use apcore_python.Acl.Handlers.{
  Answer, returned, raised, suspended, Handler, Registry, validate_arguments_condition,
}

-- the path of `check` and that of `async_check`
pub data Way : Type 0 where
  sync async : Way

-- `a or b` on two lookups
abbrev or_else : Option Handler → Option Handler → Option Handler
or_else none b = b
or_else (some h) b = some h

unfoldable pub resolve : Registry → Way → String → Option Handler
resolve registry sync key = lookup key registry.condition_handlers
resolve registry async key =
    or_else (lookup key registry.async_condition_handlers) (lookup key registry.condition_handlers)

-- An awaitable that suspends is an answer only where it is awaited.
abbrev pub outcome_of : Way → Answer → ConditionOutcome
outcome_of way (returned outcome) = outcome
outcome_of way raised = unevaluable
outcome_of sync (suspended result) = unevaluable
outcome_of async (suspended none) = unevaluable
outcome_of async (suspended (some outcome)) = outcome

-- A key with its value at the call, for the keys that are not compound operators.
abbrev pub Leaf : Type 0
Leaf = String → Value → Context → ConditionOutcome

unfoldable pub evaluate_condition : Registry → Way → Leaf
unfolding resolve
evaluate_condition registry way key value context = elim (resolve registry way key) [
  | none ↦ unevaluable
  | some handler ↦ outcome_of way (handler value context)
]

abbrev pub pending : Bool → ConditionOutcome → ConditionOutcome
pending saw_unevaluable otherwise = if saw_unevaluable then unevaluable else otherwise

-- `_NotHandler`, on the outcome of its child
abbrev pub negate : ConditionOutcome → ConditionOutcome
negate satisfied = unsatisfied
negate unsatisfied = satisfied
negate unevaluable = unevaluable

-- The outcome of one key: the compound operators by their own code, any other by its handler.
abbrev pub dispatch :
    String → ConditionOutcome → ConditionOutcome → ConditionOutcome → ConditionOutcome
dispatch key or_outcome not_outcome leaf_outcome =
    if str_eq key "$or" then or_outcome else if str_eq key "$not" then not_outcome else leaf_outcome

module _ (leaf : Leaf) (context : Context) where
  unfoldable mutual
    -- the loop of `_evaluate_conditions`
    pub evaluate_fields : Fields → Bool → ConditionOutcome
    evaluate_fields end saw = pending saw satisfied
    evaluate_fields (field key value rest) saw =
        elim (dispatch key (evaluate_or value) (evaluate_not value) (leaf key value context)) [
          | unsatisfied ↦ unsatisfied
          | unevaluable ↦ evaluate_fields rest true
          | satisfied ↦ evaluate_fields rest saw
        ]

    -- `_OrHandler`
    pub evaluate_or : Value → ConditionOutcome
    evaluate_or (list elements) = evaluate_elements elements false
    evaluate_or _ = unevaluable

    pub evaluate_elements : Items → Bool → ConditionOutcome
    evaluate_elements nil saw = pending saw unsatisfied
    evaluate_elements (cons (dict sub) rest) saw = elim (evaluate_fields sub false) [
      | satisfied ↦ satisfied
      | unevaluable ↦ evaluate_elements rest true
      | unsatisfied ↦ evaluate_elements rest saw
    ]
    evaluate_elements (cons _ rest) saw = evaluate_elements rest true

    -- `_NotHandler`
    pub evaluate_not : Value → ConditionOutcome
    evaluate_not (dict sub) = negate (evaluate_fields sub false)
    evaluate_not _ = unevaluable

unfoldable pub evaluate_conditions : Leaf → Context → Value → ConditionOutcome
unfolding evaluate_fields
evaluate_conditions leaf context (dict fields) = evaluate_fields leaf context fields false
evaluate_conditions leaf context _ = unevaluable

-- Where a fault sits: a key, an index of a `$or`, or a predicate of `arguments`.
pub data PathStep : Type 0 where
  key : String → PathStep
  index : ℕ → PathStep

abbrev pub ConditionPath : Type 0
ConditionPath = List PathStep

pub record Fault : Type 0 where
  pub path : ConditionPath
  pub key_name : Option String
  pub sync_resolvable : Bool
  pub async_resolvable : Bool

abbrev pub structural : ConditionPath → Option String → Fault
structural path name = record {
  path = path;
  key_name = name;
  sync_resolvable = false;
  async_resolvable = false;
}

abbrev argument_fault_path : ConditionPath → Option String → ConditionPath
argument_fault_path path none = path
argument_fault_path path (some predicate) = path ++ key predicate ∷ []

abbrev pub argument_faults : ConditionPath → List (Option String) → List Fault
argument_faults path [] = []
argument_faults path (suffix ∷ rest) =
    structural (argument_fault_path path suffix) (some "arguments") ∷ argument_faults path rest

abbrev pub in_sync : Registry → String → Bool
in_sync registry name = is_some (lookup name registry.condition_handlers)

abbrev pub in_async : Registry → String → Bool
in_async registry name =
    in_sync registry name || is_some (lookup name registry.async_condition_handlers)

abbrev pub resolvable : Registry → Way → String → Bool
resolvable registry sync name = in_sync registry name
resolvable registry async name = in_async registry name

abbrev pub key_faults : Registry → Way → String → ConditionPath → List Fault
key_faults registry way name path =
    if resolvable registry way name
    then []
    else record {
      path = path;
      key_name = some name;
      sync_resolvable = in_sync registry name;
      async_resolvable = in_async registry name;
    }
      ∷ []

abbrev pub dispatch_faults : String → List Fault → List Fault → List Fault → List Fault → List Fault
dispatch_faults name or_faults not_faults arguments_faults others =
    if str_eq name "$or"
    then or_faults
    else if str_eq name "$not"
    then not_faults
    else if str_eq name "arguments"
    then arguments_faults
    else others

module _ (registry : Registry) (way : Way) where
  unfoldable mutual
    pub precheck_fields : Fields → ConditionPath → List Fault
    precheck_fields end prefix = []
    precheck_fields (field name value rest) prefix =
        let path = prefix ++ key name ∷ [] in
        dispatch_faults name (precheck_or value path) (precheck_not value path)
          (argument_faults path (validate_arguments_condition value))
          (key_faults registry way name path)
        ++ precheck_fields rest prefix

    pub precheck_or : Value → ConditionPath → List Fault
    precheck_or (list elements) path = precheck_elements elements 0 path
    precheck_or _ path = structural path (some "$or") ∷ []

    pub precheck_elements : Items → ℕ → ConditionPath → List Fault
    precheck_elements nil i path = []
    precheck_elements (cons (dict sub) rest) i path =
        precheck_fields sub (path ++ index i ∷ []) ++ precheck_elements rest (i + 1) path
    precheck_elements (cons _ rest) i path =
        structural (path ++ index i ∷ []) none ∷ precheck_elements rest (i + 1) path

    pub precheck_not : Value → ConditionPath → List Fault
    precheck_not (dict sub) path = precheck_fields sub path
    precheck_not _ path = structural path (some "$not") ∷ []

unfoldable pub precheck_conditions : Registry → Way → Value → List Fault
unfolding precheck_fields
precheck_conditions registry way (dict fields) = precheck_fields registry way fields []
precheck_conditions registry way _ = structural [] none ∷ []
