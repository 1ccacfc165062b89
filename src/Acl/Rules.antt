-- ===== src/Acl/Rules.antt =====
-- acl.py: `ACLRule`, its pattern arrays, and the checks at the doors (`_validate_rule`). The texts
-- of the error messages are left out.
use apcore_python.Prelude.{
  ℕ, Bool, not, ◌&&◌, ◌||◌, Option, none, some, List, [], ◌∷◌, String, Text, codes, text_eq, any,
  length, ◌==◌, if◌then◌else◌,
}
use apcore_python.Pattern.{is_empty}
use apcore_python.Acl.Values.{Value}

-- `effect` and `approval` are strings in the source; `other_…` is any string outside the set.
pub data Effect : Type 0 where
  allow deny : Effect
  other_effect : String → Effect

pub data Approval : Type 0 where
  required not_required : Approval
  other_approval : String → Approval

-- `callers` and `targets` as they may stand on the dataclass: a list of strings, or anything else.
pub data PatternField : Type 0 where
  patterns : List Text → PatternField
  not_a_list : PatternField

pub record Rule : Type 0 where
  pub callers : PatternField
  pub targets : PatternField
  pub effect : Effect
  pub conditions : Option Value
  pub approval : Approval

abbrev pub or_token : Text
or_token = codes "$or"

abbrev pub not_token : Text
not_token = codes "$not"

abbrev pub is_operator : Text → Bool
is_operator pattern = text_eq pattern or_token || text_eq pattern not_token

pub data PatternFault : Type 0 where
  no_operand empty_pattern stray_operator or_without_operand not_without_operand : PatternFault
  not_with_operands : ℕ → PatternFault

abbrev head_fault : Text → List Text → Option PatternFault
head_fault first operands =
    if text_eq first or_token && (length operands == 0)
    then some or_without_operand
    else if text_eq first not_token && not (length operands == 1)
    then (if length operands == 0
        then some not_without_operand
        else some (not_with_operands (length operands)))
    else none

unfoldable pub pattern_array_fault : PatternField → Option PatternFault
pattern_array_fault not_a_list = none
pattern_array_fault (patterns []) = some no_operand
pattern_array_fault (patterns (first ∷ operands)) =
    if any is_empty (first ∷ operands)
    then some empty_pattern
    else if any is_operator operands
    then some stray_operator
    else head_fault first operands

-- Which check raised `ACLRuleError`.
pub data RuleError : Type 0 where
  invalid_effect invalid_approval approval_on_deny : RuleError
  invalid_callers invalid_targets : PatternFault → RuleError

pub data Checked : Type 0 where
  accepted : Checked
  rejected : RuleError → Checked

infixl 5 ◌>>◌
abbrev ◌>>◌ : Checked → Checked → Checked
accepted >> next = next
rejected e >> next = rejected e

unfoldable pub validate_effect : Effect → Checked
validate_effect allow = accepted
validate_effect deny = accepted
validate_effect (other_effect s) = rejected invalid_effect

unfoldable pub validate_approval : Approval → Effect → Checked
validate_approval (other_approval s) effect = rejected invalid_approval
validate_approval required deny = rejected approval_on_deny
validate_approval required _ = accepted
validate_approval not_required effect = accepted

unfoldable pub validate_pattern_array : PatternField → (PatternFault → RuleError) → Checked
unfolding pattern_array_fault
validate_pattern_array field error = elim (pattern_array_fault field) [
  | none ↦ accepted
  | some fault ↦ rejected (error fault)
]

unfoldable pub validate_rule : Rule → Checked
unfolding validate_effect validate_approval validate_pattern_array
validate_rule rule = do
  validate_effect rule.effect
  validate_approval rule.approval rule.effect
  validate_pattern_array rule.callers invalid_callers
  validate_pattern_array rule.targets invalid_targets
