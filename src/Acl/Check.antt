-- ===== src/Acl/Check.antt =====
-- acl.py: matching a rule, the scan of `check_access` and `async_check_access`, and the decision.
-- Logging and the audit entry are left out.
use apcore_python.Prelude.{
  ℕ, ◌+◌, Bool, true, false, not, ◌&&◌, ◌||◌, Option, none, some, List, [], ◌∷◌, Text, codes,
  str_eq, text_eq, any, if◌then◌else◌,
}
use apcore_python.Pattern.{match_pattern}
use apcore_python.Acl.Values.{Value, Context, ConditionOutcome, satisfied, unsatisfied, unevaluable}
use apcore_python.Acl.Rules.{
  Effect, allow, deny, Approval, required, PatternField, patterns, not_a_list, Rule, or_token,
  not_token, pattern_array_fault, accepted, rejected, RuleError, validate_effect,
}
use apcore_python.Acl.Handlers.{Registry}
use apcore_python.Acl.Conditions.{
  Way, sync, async, evaluate_condition, evaluate_conditions, precheck_conditions, Fault,
}

abbrev pub external : Text
external = codes "@external"

abbrev pub system : Text
system = codes "@system"

abbrev is_system : Option Context → Bool
is_system none = false
is_system (some context) = elim context.identity [
  | none ↦ false
  | some identity ↦ str_eq identity.type "system"
]

unfoldable pub match_one : Text → Text → Option Context → Bool
match_one pattern value context =
    if text_eq pattern external
    then text_eq value external
    else if text_eq pattern system
    then is_system context
    else match_pattern pattern value

abbrev match_not : List Text → Text → Option Context → Bool
match_not [] value context = false
match_not (pattern ∷ _) value context = not (match_one pattern value context)

unfoldable pub match_patterns : List Text → Text → Option Context → Bool
unfolding match_one
match_patterns [] value context = false
match_patterns (first ∷ operands) value context =
    if text_eq first or_token
    then any (λ p. match_one p value context) operands
    else if text_eq first not_token
    then match_not operands value context
    else any (λ p. match_one p value context) (first ∷ operands)

abbrev field_faulty : PatternField → Bool
field_faulty not_a_list = true
field_faulty (patterns ps) = elim (pattern_array_fault (patterns ps)) [
  | none ↦ false
  | some fault ↦ true
]

-- `bool(_precheck_patterns(rule))`
abbrev pub precheck_patterns : Rule → Bool
precheck_patterns rule = field_faulty rule.callers || field_faulty rule.targets

abbrev pub list_of : PatternField → List Text
list_of (patterns ps) = ps
list_of not_a_list = []

abbrev pub settle : List Fault → Option Context → (Context → ConditionOutcome) → ConditionOutcome
settle (fault ∷ faults) context evaluate = unevaluable
settle [] none evaluate = unsatisfied
settle [] (some context) evaluate = evaluate context

-- `_resolve_conditions`, and the end of `_matches_rule_async`
unfoldable pub resolve_conditions : Registry → Way → Value → Option Context → ConditionOutcome
resolve_conditions registry way conditions context =
    settle (precheck_conditions registry way conditions) context
      (λ c. evaluate_conditions (evaluate_condition registry way) c conditions)

abbrev pub when_conditional : Option Value → (Value → ConditionOutcome) → ConditionOutcome
when_conditional none resolve = satisfied
when_conditional (some conditions) resolve = resolve conditions

unfoldable pub matches_rule :
    Registry → Way → Rule → Text → Text → Option Context → ConditionOutcome
matches_rule registry way rule caller target context =
    if precheck_patterns rule
    then unevaluable
    else if not (match_patterns (list_of rule.callers) caller context)
    then unsatisfied
    else if not (match_patterns (list_of rule.targets) target context)
    then unsatisfied
    else when_conditional rule.conditions (λ v. resolve_conditions registry way v context)

abbrev pub is_deny : Effect → Bool
is_deny deny = true
is_deny _ = false

abbrev pub is_allow : Effect → Bool
is_allow allow = true
is_allow _ = false

abbrev pub is_required : Approval → Bool
is_required required = true
is_required _ = false

abbrev pub unevaluable_rule_takes_effect : Rule → Bool
unevaluable_rule_takes_effect rule = is_deny rule.effect

abbrev pub raises_pending_approval : Rule → Bool
raises_pending_approval rule = is_allow rule.effect && is_required rule.approval

pub record Scan : Type 0 where
  pub matched : Option (ℕ × Rule)
  pub pending_approval : Bool

-- The loop over the rules, from index `i`.
unfoldable pub scan_rules : (Rule → ConditionOutcome) → ℕ → Bool → List Rule → Scan
scan_rules outcome i pending [] = record { matched = none; pending_approval = pending }
scan_rules outcome i pending (rule ∷ rules) = elim (outcome rule) [
  | satisfied ↦ record { matched = some (i, rule); pending_approval = pending }
  | unevaluable ↦ elim (unevaluable_rule_takes_effect rule) [
    | true ↦ record { matched = some (i, rule); pending_approval = pending }
    | false ↦ scan_rules outcome (i + 1) (pending || raises_pending_approval rule) rules
  ]
  | unsatisfied ↦ scan_rules outcome (i + 1) pending rules
]

pub data Reason : Type 0 where
  rule_match default_effect no_rules : Reason

pub record AccessDecision : Type 0 where
  pub access : Effect
  pub approval_required : Bool
  pub matched_rule_index : Option ℕ
  pub reason : Reason

-- A decision, or the `ACLRuleError` for an effect outside the set.
pub data Outcome : Type 0 where
  decided : AccessDecision → Outcome
  error : RuleError → Outcome

abbrev no_match_reason : List Rule → Reason
no_match_reason [] = no_rules
no_match_reason (_ ∷ _) = default_effect

abbrev pub decide : Effect → Bool → Bool → Option ℕ → Reason → AccessDecision
decide access own pending index reason = record {
  access = access;
  approval_required = is_allow access && (own || pending);
  matched_rule_index = index;
  reason = reason;
}

unfoldable pub finalize_check : List Rule → Effect → Scan → Outcome
unfolding validate_effect
finalize_check rules effect scan = elim scan.matched [
  | none ↦ decided (decide effect false scan.pending_approval none (no_match_reason rules))
  | some (i, rule) ↦ elim (validate_effect rule.effect) [
    | rejected e ↦ error e
    | accepted ↦
        decided
          (decide rule.effect (is_required rule.approval) scan.pending_approval (some i) rule_match)
  ]
]

pub record Acl : Type 0 where
  pub rules : List Rule
  pub default_effect : Effect

abbrev pub effective_caller : Option Text → Text
effective_caller none = external
effective_caller (some caller) = caller

abbrev pub access_by : Registry → Way → Acl → Option Text → Text → Option Context → Outcome
access_by registry way acl caller target context = finalize_check acl.rules acl.default_effect (
    scan_rules (λ rule. matches_rule registry way rule (effective_caller caller) target context) 0
      false acl.rules)

unfoldable pub check_access : Registry → Acl → Option Text → Text → Option Context → Outcome
unfolding scan_rules finalize_check
check_access registry = access_by registry sync

unfoldable pub async_check_access : Registry → Acl → Option Text → Text → Option Context → Outcome
unfolding scan_rules finalize_check
async_check_access registry = access_by registry async

pub data Answered : Type 0 where
  answer : Bool → Answered
  rule_error : RuleError → Answered

unfoldable pub as_legacy_boolean : AccessDecision → Bool
as_legacy_boolean d = is_allow d.access && not d.approval_required

abbrev pub legacy : Outcome → Answered
legacy (decided d) = answer (as_legacy_boolean d)
legacy (error e) = rule_error e

unfoldable pub check : Registry → Acl → Option Text → Text → Option Context → Answered
unfolding check_access as_legacy_boolean
check registry acl caller target context = legacy (check_access registry acl caller target context)

unfoldable pub async_check : Registry → Acl → Option Text → Text → Option Context → Answered
unfolding async_check_access as_legacy_boolean
async_check registry acl caller target context =
    legacy (async_check_access registry acl caller target context)
