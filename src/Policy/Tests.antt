-- ===== src/Policy/Tests.antt =====
-- policy.py: examples.
use apcore_python.Prelude.{◌≡◌, refl, true, false, Option, none, some, [], ◌∷◌, codes}
use apcore_python.Policy.{PolicyRule, ExecutionPolicy, Annotations, match_rule, resolve}
use apcore_python.Pattern.{match_pattern, calculate_specificity}
use apcore_python.Policy.Winner.{Winner, Wins, match_rule-wins}
use apcore_python.Policy.Gate.{Relaxes, resolve-relaxed}

abbrev broad : PolicyRule
broad = record {
  pattern = codes "orders.*";
  requires_approval = some true;
  destructive = none;
  reason = none;
}

abbrev narrow : PolicyRule
narrow = record {
  pattern = codes "orders.list";
  requires_approval = some false;
  destructive = none;
  reason = none;
}

abbrev policy : ExecutionPolicy
policy = record { rules = broad ∷ narrow ∷ []; gate_destructive = true; strict = false }

abbrev approved : Option Annotations
approved = some (record { requires_approval = true; destructive = false })

match_rule-wins_example :
    Winner
      (codes "orders.list")
      (broad ∷ narrow ∷ [])
      (match_rule (broad ∷ narrow ∷ []) (codes "orders.list"))
match_rule-wins_example = match_rule-wins (broad ∷ narrow ∷ []) (codes "orders.list")

narrow_wins : match_rule (broad ∷ narrow ∷ []) (codes "orders.list") ≡ some narrow
unfolding match_rule match_pattern calculate_specificity
narrow_wins = refl

no_approval : (resolve policy (codes "orders.list") approved).needs_approval ≡ false
unfolding resolve match_rule match_pattern calculate_specificity
no_approval = refl

resolve-relaxed_example :
    (rule : PolicyRule) × (Wins (codes "orders.list") policy.rules rule × Relaxes rule)
resolve-relaxed_example = resolve-relaxed policy (codes "orders.list") approved refl no_approval

no_rule : match_rule policy.rules (codes "users.get") ≡ none
unfolding match_rule match_pattern calculate_specificity
no_rule = refl
