-- ===== src/Policy.antt =====
-- policy.py: execution-time governance overrides (`ExecutionPolicy.resolve` and `_match`).
use apcore_python.Prelude.{
  ℕ, ◌+◌, ◌*◌, Bool, true, false, not, ◌&&◌, ◌||◌, Option, none, some, List, [], ◌∷◌, String, Text,
  ltb, leb, ◌==◌, if◌then◌else◌,
}
use apcore_python.Pattern.{match_pattern, calculate_specificity}
pub mod Winner
pub mod Gate
mod Tests

pub record PolicyRule : Type 0 where
  pub pattern : Text
  pub requires_approval : Option Bool
  pub destructive : Option Bool
  pub reason : Option String

-- `x is True`
abbrev pub is_true : Option Bool → Bool
is_true (some true) = true
is_true _ = false

abbrev pub restrictiveness : PolicyRule → Bool × Bool
restrictiveness rule = (is_true rule.requires_approval, is_true rule.destructive)

-- `a > b` on the tuples of `_restrictiveness`
abbrev pub stricter : Bool × Bool → Bool × Bool → Bool
stricter (true, _) (false, _) = true
stricter (false, _) (true, _) = false
stricter (_, b) (_, d) = b && not d

-- `best` and `best_score`; none where they are `None` and -1
abbrev pub Best : Type 0
Best = Option (PolicyRule × ℕ)

abbrev pub consider : PolicyRule → ℕ → Best → Best
consider rule score none = some (rule, score)
consider rule score (some (best, best_score)) =
    if ltb best_score score
    then some (rule, score)
    else if (score == best_score) && stricter (restrictiveness rule) (restrictiveness best)
    then some (rule, best_score)
    else some (best, best_score)

-- the loop of `_match`
unfoldable pub match_loop : Text → Best → List PolicyRule → Best
match_loop module_id best [] = best
match_loop module_id best (rule ∷ rules) =
    match_loop module_id
      (if match_pattern rule.pattern module_id
        then consider rule (calculate_specificity rule.pattern) best
        else best)
      rules

abbrev pub rule_of : Best → Option PolicyRule
rule_of none = none
rule_of (some (rule, score)) = some rule

unfoldable pub match_rule : List PolicyRule → Text → Option PolicyRule
unfolding match_loop
match_rule rules module_id = rule_of (match_loop module_id none rules)

-- What `resolve` reads of a module's annotations.
pub record Annotations : Type 0 where
  pub requires_approval : Bool
  pub destructive : Bool

abbrev pub read_annotation_bool : Option Annotations → (Annotations → Bool) → Bool
read_annotation_bool none read = false
read_annotation_bool (some annotations) read = read annotations

pub record PolicyDecision : Type 0 where
  pub module_id : Text
  pub requires_approval : Bool
  pub destructive : Bool
  pub needs_approval : Bool
  pub rule : Option PolicyRule
  pub overridden : Bool

pub record ExecutionPolicy : Type 0 where
  pub rules : List PolicyRule
  pub gate_destructive : Bool
  pub strict : Bool

-- the override of the rule, where there is a rule and it has one
abbrev pub effective : Bool → Option PolicyRule → (PolicyRule → Option Bool) → Bool
effective base none override = base
effective base (some rule) override = elim (override rule) [ none ↦ base | some value ↦ value ]

-- `a != b`
abbrev pub differs : Bool → Bool → Bool
differs true b = not b
differs false b = b

unfoldable pub resolve : ExecutionPolicy → Text → Option Annotations → PolicyDecision
unfolding match_rule
resolve policy module_id annotations =
    let base_requires_approval = read_annotation_bool annotations (λ a. a.requires_approval) in
    let base_destructive = read_annotation_bool annotations (λ a. a.destructive) in
    let rule = match_rule policy.rules module_id in
    let requires_approval = effective base_requires_approval rule (λ r. r.requires_approval) in
    let destructive = effective base_destructive rule (λ r. r.destructive) in
    record {
      module_id = module_id;
      requires_approval = requires_approval;
      destructive = destructive;
      needs_approval = requires_approval || (policy.gate_destructive && destructive);
      rule = rule;
      overridden =
          differs requires_approval base_requires_approval || differs destructive base_destructive;
    }
