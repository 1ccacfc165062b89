-- ===== src/Acl/Store.antt =====
-- acl.py: the doors by which rules enter an ACL, `__init__` and `add_rule`. `load` and `reload`
-- construct through the same `__init__`; the warnings and the audit sink are left out.
use apcore_python.Prelude.{List, [], ◌∷◌}
use apcore_python.Acl.Rules.{
  Effect, Rule, RuleError, Checked, accepted, rejected, validate_effect, validate_rule,
}
use apcore_python.Acl.Check.{Acl}

pub data Built : Type 0 where
  built : Acl → Built
  not_built : RuleError → Built

-- `for i, rule in enumerate(rules): _validate_rule(rule)`
unfoldable pub validate_all : List Rule → Checked
validate_all [] = accepted
validate_all (rule ∷ rules) = elim (validate_rule rule) [
  | accepted ↦ validate_all rules
  | rejected e ↦ rejected e
]

unfoldable pub new_acl : List Rule → Effect → Built
unfolding validate_all validate_effect
new_acl rules default_effect = elim (validate_effect default_effect) [
  | rejected e ↦ not_built e
  | accepted ↦ elim (validate_all rules) [
    | rejected e ↦ not_built e
    | accepted ↦ built (record { rules = rules; default_effect = default_effect })
  ]
]

-- `add_rule` with a rule that stands
unfoldable pub add_rule : Rule → Acl → Built
add_rule rule acl = elim (validate_rule rule) [
  | rejected e ↦ not_built e
  | accepted ↦ built (record acl { rules = rule ∷ acl.rules })
]
