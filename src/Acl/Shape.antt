-- ===== src/Acl/Shape.antt =====
-- acl.py `_pattern_array_fault` and `_validate_rule`: the rules that the doors take.
use apcore_python.Prelude.{
  ◌≤◌, ◌≡◌, ◌≢◌, refl, ◌↔◌, ◌⊎◌, false, none, List, [], ◌∷◌, arith, All, Text, text_eq_iff, any,
  length,
}
use apcore_python.Pattern.{is_empty}
use apcore_python.Acl.Rules.{
  Effect, allow, deny, Approval, required, not_required, PatternField, patterns, not_a_list, Rule,
  or_token, not_token, is_operator, pattern_array_fault, accepted, validate_rule, validate_effect,
  validate_approval, validate_pattern_array,
}

-- A pattern that is not empty and no operator.
abbrev pub Plain : Text → Type 0
Plain pattern = (is_empty pattern ≡ false) × (pattern ≢ or_token) × (pattern ≢ not_token)

-- Plain patterns, at least one; or `$or` and at least one plain pattern; or `$not` and just one.
abbrev pub WellShaped : PatternField → Type 0
WellShaped not_a_list = Unit
WellShaped (patterns []) = ⊥
WellShaped (patterns (first ∷ operands)) =
    All Plain operands
    × (Plain first
        ⊎ (((first ≡ or_token) × (1 ≤ length operands))
            ⊎ ((first ≡ not_token) × (length operands ≡ 1))))

Plain-iff :
    (operands : List Text)
    → ((any is_empty operands ≡ false) × (any is_operator operands ≡ false)) ↔ All Plain operands
Plain-iff [] = ((λ e. tt), λ a. (refl, refl))
Plain-iff (p ∷ operands) =
    ground (arith, Plain-iff operands, text_eq_iff p or_token, text_eq_iff p not_token)

fault_iff : (field : PatternField) → (pattern_array_fault field ≡ none) ↔ WellShaped field
unfolding pattern_array_fault
fault_iff not_a_list = ((λ e. tt), λ w. refl)
fault_iff (patterns []) = ((λ e. cc), λ w. absurd w)
fault_iff (patterns (first ∷ operands)) =
    ground (arith, Plain-iff operands, text_eq_iff first or_token, text_eq_iff first not_token)

abbrev pub ClosedEffect : Effect → Type 0
ClosedEffect effect = (effect ≡ allow) ⊎ (effect ≡ deny)

abbrev pub ApprovalFits : Approval → Effect → Type 0
ApprovalFits approval effect = (approval ≡ not_required) ⊎ ((approval ≡ required) × (effect ≢ deny))

effect_iff : (effect : Effect) → (validate_effect effect ≡ accepted) ↔ ClosedEffect effect
unfolding validate_effect
effect_iff effect = ground arith

approval_iff :
    (approval : Approval) (effect : Effect)
    → (validate_approval approval effect ≡ accepted) ↔ ApprovalFits approval effect
unfolding validate_approval
approval_iff approval effect = ground arith

-- `_validate_rule` accepts a rule just where its effect is `allow` or `deny`, its approval is
-- `not_required`, or `required` on a rule that does not deny, and its callers and targets, where
-- they are lists, are plain patterns, at least one, or `$or` and at least one, or `$not` and one.
pub validate_rule-accepts_iff :
    (rule : Rule)
    → (validate_rule rule ≡ accepted) ↔ (
        ClosedEffect rule.effect
        × ApprovalFits rule.approval rule.effect
        × WellShaped rule.callers
        × WellShaped rule.targets)
unfolding validate_rule validate_pattern_array
validate_rule-accepts_iff rule = ground (
  arith,
  effect_iff rule.effect,
  approval_iff rule.approval rule.effect,
  fault_iff rule.callers,
  fault_iff rule.targets,
)
