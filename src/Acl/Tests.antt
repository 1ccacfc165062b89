-- ===== src/Acl/Tests.antt =====
-- acl.py: examples.
use apcore_python.Prelude.{
  ◌≡◌, ◌≢◌, refl, sym, ◌∙◌, ◌↔◌, ◌⊎◌, Bool, true, false, Option, none, some, [], ◌∷◌, codes, All,
}
use apcore_python.Pattern.{match_pattern}
use apcore_python.Acl.Values.{
  Value, list, dict, str, cons, nil, field, end, Context, unsatisfied, unevaluable,
}
use apcore_python.Acl.Rules.{
  Rule, allow, deny, not_required, patterns, validate_rule, Effect, pattern_array_fault,
  validate_effect,
}
use apcore_python.Acl.Handlers.{
  answer_or_raise, roles, Registry, builtin_registry, builtin_handlers,
}
use apcore_python.Acl.Conditions.{sync, async, resolve, precheck_conditions}
use apcore_python.Acl.Check.{
  Acl, check, async_check, answer, match_patterns, matches_rule, resolve_conditions,
}
use apcore_python.Acl.Store.{built, new_acl, add_rule, validate_all}
use apcore_python.Acl.Resolving.{AnswersMore}
use apcore_python.Acl.FailSafe.{HasEffect, check-fails_safe}
use apcore_python.Acl.Allowing.{AllowedByRule, AllPass, outcome_in, check-allows_iff}
use apcore_python.Acl.BothWays.{Immediate, AllImmediate, AllImmediate-of_EachImmediate}
use apcore_python.Acl.Doors.{constructed, Sound, Installed-Sound, check-answers, add_rule-denies}

-- `{"roles": ["admin"]}`
abbrev for_admins : Value
for_admins = dict (field "roles" (list (cons (str "admin") nil)) end)

abbrev everyone : Effect → Option Value → Rule
everyone effect conditions = record {
  callers = patterns (codes "*" ∷ []);
  targets = patterns (codes "orders.*" ∷ []);
  effect = effect;
  conditions = conditions;
  approval = not_required;
}

abbrev acl : Acl
acl = record {
  rules = everyone allow (some for_admins) ∷ everyone allow none ∷ [];
  default_effect = deny;
}

abbrev context : Context
context = record {
  identity = some (record { type = "user"; roles = "admin" ∷ [] });
  call_chain = [];
  projection = none;
}

abbrev no_handlers : Registry
no_handlers = record { condition_handlers = []; async_condition_handlers = [] }

more : AnswersMore sync no_handlers builtin_registry
more = record { at_key = λ name. unfold resolve in tt }

async_more : AnswersMore async no_handlers builtin_registry
async_more = record { at_key = λ name. unfold resolve in tt }

effects : All HasEffect acl.rules
unfolding validate_effect
effects = (refl, (refl, tt))

unresolved : check no_handlers acl none (codes "orders.get") (some context) ≡ answer true
unfolding check matches_rule match_patterns match_pattern resolve_conditions precheck_conditions
    pattern_array_fault
unresolved = refl

check-fails_safe_example :
    check builtin_registry acl none (codes "orders.get") (some context) ≡ answer true
check-fails_safe_example =
    check-fails_safe no_handlers builtin_registry acl none (codes "orders.get") (some context) more
      effects unresolved

async_unresolved :
    async_check no_handlers acl none (codes "orders.get") (some context) ≡ answer true
unfolding async_check matches_rule match_patterns match_pattern resolve_conditions
    precheck_conditions pattern_array_fault
async_unresolved = refl

check-allows_iff_example :
    let f = outcome_in builtin_registry none (codes "orders.get") (some context) in
    (check builtin_registry acl none (codes "orders.get") (some context) ≡ answer true)
    ↔ (AllowedByRule f acl.rules ⊎ (AllPass f acl.rules × (deny ≡ allow)))
check-allows_iff_example =
    check-allows_iff builtin_registry acl none (codes "orders.get") (some context)

acl_stands : new_acl acl.rules deny ≡ built acl
unfolding new_acl validate_all validate_rule
acl_stands = refl

Installed-Sound_example : Sound acl
Installed-Sound_example = Installed-Sound acl (constructed acl.rules deny acl acl_stands)

check-answers_example :
    (b : Bool) × (check no_handlers acl none (codes "orders.get") (some context) ≡ answer b)
check-answers_example =
    check-answers no_handlers acl none (codes "orders.get") (some context)
      (constructed acl.rules deny acl acl_stands)

abbrev stricter_acl : Acl
stricter_acl = record acl { rules = everyone deny (some for_admins) ∷ acl.rules }

deny_added : add_rule (everyone deny (some for_admins)) acl ≡ built stricter_acl
unfolding add_rule validate_rule
deny_added = refl

deny_unevaluable :
    outcome_in no_handlers none
      (codes "orders.get")
      (some context)
      (everyone deny (some for_admins))
    ≡ unevaluable
unfolding matches_rule match_patterns match_pattern resolve_conditions precheck_conditions
    pattern_array_fault
deny_unevaluable = refl

deny_matters :
    outcome_in no_handlers none
      (codes "orders.get")
      (some context)
      (everyone deny (some for_admins))
    ≢ unsatisfied
deny_matters e = apart (sym deny_unevaluable ∙ e)
  where
    apart : unevaluable ≡ unsatisfied → ⊥
    apart e = cc

add_rule-denies_example :
    check no_handlers stricter_acl none (codes "orders.get") (some context) ≡ answer false
add_rule-denies_example =
    add_rule-denies no_handlers (everyone deny (some for_admins)) acl stricter_acl none
      (codes "orders.get") (some context) deny_added refl deny_matters

at_once : (answer : Option Bool) → Immediate (answer_or_raise answer)
at_once none = tt
at_once (some b) = tt

builtin_immediate : AllImmediate builtin_handlers
builtin_immediate =
    AllImmediate-of_EachImmediate builtin_handlers
      ((λ v c. tt), ((λ v c. at_once (roles v c)), ((λ v c. tt), ((λ v c. tt), tt))))
