-- ===== src/Acl/Doors.antt =====
-- acl.py: what holds of every ACL that the doors let through.
use mathlib.Core.Path.{subst}
use apcore_python.Prelude.{
  ℕ, ◌≡◌, ◌≢◌, refl, ap, ◌∙◌, Bool, true, false, Option, none, some, List, [], ◌∷◌, ◌++◌, arith,
  All, Text,
}
use apcore_python.Acl.Values.{Context, ConditionOutcome, unsatisfied}
use apcore_python.Acl.Rules.{Effect, deny, Rule, accepted, validate_effect, validate_rule}
use apcore_python.Acl.Handlers.{Registry}
use apcore_python.Acl.Check.{
  Acl, Scan, finalize_check, check, check_access, answer, legacy, decide, is_required, rule_match,
  as_legacy_boolean,
}
use apcore_python.Acl.Store.{built, validate_all, new_acl, add_rule}
use apcore_python.Acl.FailSafe.{HasEffect}
use apcore_python.Acl.Decision.{decides, scan_rules-decides, Describes, scan_rules-Describes}
use apcore_python.Acl.Allowing.{outcome_in}

abbrev pub Valid : Rule → Type 0
Valid rule = validate_rule rule ≡ accepted

-- An ACL that the constructor built, with rules that `add_rule` took.
pub data Installed : Acl → Type 0 where
  constructed :
      (rules : List Rule) (default_effect : Effect) (acl : Acl)
      → new_acl rules default_effect ≡ built acl
      → Installed acl
  extended :
      (rule : Rule) (acl next : Acl)
      → Installed acl
      → add_rule rule acl ≡ built next
      → Installed next

validate_all-Valid : (rules : List Rule) → validate_all rules ≡ accepted → All Valid rules
unfolding validate_all
validate_all-Valid [] e = tt
validate_all-Valid (rule ∷ rules) e = ground (arith, validate_all-Valid rules)

abbrev pub Sound : Acl → Type 0
Sound acl = All Valid acl.rules × (validate_effect acl.default_effect ≡ accepted)

new_acl-Sound :
    (rules : List Rule) (default_effect : Effect) (acl : Acl)
    → new_acl rules default_effect ≡ built acl
    → Sound acl
unfolding new_acl
new_acl-Sound rules default_effect acl e = ground (arith, validate_all-Valid rules)

add_rule-Sound :
    (rule : Rule) (acl next : Acl) → add_rule rule acl ≡ built next → Sound acl → Sound next
unfolding add_rule
add_rule-Sound rule acl next e s = ground arith

-- Every rule of an ACL that was constructed and extended by `add_rule` passes the whole validation,
-- and so does its default effect.
pub Installed-Sound : (acl : Acl) → Installed acl → Sound acl
Installed-Sound acl (constructed rules default_effect _ e) =
    new_acl-Sound rules default_effect acl e
Installed-Sound acl (extended rule before _ installed e) =
    add_rule-Sound rule before acl e (Installed-Sound before installed)

Valid-HasEffect : (rule : Rule) → Valid rule → HasEffect rule
unfolding validate_rule
Valid-HasEffect rule v = ground arith

Valid-effects : (rules : List Rule) → All Valid rules → All HasEffect rules
Valid-effects [] v = tt
Valid-effects (rule ∷ rules) (v, vs) = (Valid-HasEffect rule v, Valid-effects rules vs)

All-middle {ℓ} :
    (P : Rule → Type ℓ) (before : List Rule) (rule : Rule) (after : List Rule)
    → All P (before ++ rule ∷ after)
    → P rule
All-middle P [] rule after (p, ps) = p
All-middle P (r ∷ before) rule after (p, ps) = All-middle P before rule after ps

matched-answers :
    (rules : List Rule) (default_effect : Effect) (i : ℕ) (rule : Rule) (p : Bool)
    → HasEffect rule
    → legacy (
        finalize_check rules default_effect
          (record { matched = some (i, rule); pending_approval = p }))
      ≡ answer
          (as_legacy_boolean (decide rule.effect (is_required rule.approval) p (some i) rule_match))
unfolding finalize_check as_legacy_boolean
matched-answers rules default_effect i rule p v = ground arith

finalize_check-answers :
    (rules : List Rule) (default_effect : Effect) (f : Rule → ConditionOutcome) (scan : Scan)
    → All HasEffect rules
    → Describes f 0 false rules scan
    → (b : Bool) × (legacy (finalize_check rules default_effect scan) ≡ answer b)
finalize_check-answers rules default_effect f scan v d = go scan.matched scan.pending_approval d
  where
    go :
        (matched : Option (ℕ × Rule)) (pending : Bool)
        → Describes f 0 false rules (record { matched = matched; pending_approval = pending })
        → (b : Bool) × (legacy (
              finalize_check rules default_effect
                (record { matched = matched; pending_approval = pending }))
            ≡ answer b)
    go none pending d = unfold finalize_check in (_, refl)
    go (some (j, rule)) pending (before, after, (e, passed, on, k, q)) =
        let valid = All-middle HasEffect before rule after (subst (All HasEffect) e v) in
        (_, matched-answers rules default_effect j rule pending valid)

-- `check` answers yes or no on an ACL that was constructed and extended by `add_rule`: no rule
-- error, whatever the handlers do.
pub check-answers :
    (registry : Registry) (acl : Acl) (caller : Option Text) (target : Text)
    (context : Option Context)
    → Installed acl
    → (b : Bool) × (check registry acl caller target context ≡ answer b)
unfolding check check_access
check-answers registry acl caller target context installed =
    finalize_check-answers acl.rules acl.default_effect (outcome_in registry caller target context)
      _ (Valid-effects acl.rules (Installed-Sound acl installed).0)
      (scan_rules-Describes (outcome_in registry caller target context) 0 false acl.rules)

add_rule-built :
    (rule : Rule) (acl next : Acl)
    → add_rule rule acl ≡ built next
    → next ≡ (record { rules = rule ∷ acl.rules; default_effect = acl.default_effect })
unfolding add_rule
add_rule-built rule acl next e = ground arith

matched-denies :
    (rules : List Rule) (default_effect : Effect) (i : ℕ) (rule : Rule) (p : Bool)
    → rule.effect ≡ deny
    → legacy (
        finalize_check rules default_effect
          (record { matched = some (i, rule); pending_approval = p }))
      ≡ answer false
unfolding finalize_check validate_effect as_legacy_boolean
matched-denies rules default_effect i rule p e = rw (e) (refl)

deny-decides :
    (f : Rule → ConditionOutcome) (rule : Rule)
    → rule.effect ≡ deny
    → f rule ≢ unsatisfied
    → decides f rule ≡ true
deny-decides f rule e matters = ground arith

-- A deny rule that `add_rule` took denies every call for which its outcome is not plainly
-- unsatisfied, whatever the rules before it said: it cannot be turned off by a condition that
-- cannot be evaluated.
pub add_rule-denies :
    (registry : Registry) (rule : Rule) (acl next : Acl) (caller : Option Text) (target : Text)
    (context : Option Context)
    → add_rule rule acl ≡ built next
    → rule.effect ≡ deny
    → outcome_in registry caller target context rule ≢ unsatisfied
    → check registry next caller target context ≡ answer false
add_rule-denies registry rule acl next caller target context e effect matters =
    rw (add_rule-built rule acl next e) (
      unfold check in
      unfold check_access in
      ap (λ scan. legacy (finalize_check (rule ∷ acl.rules) acl.default_effect scan))
        (scan_rules-decides (outcome_in registry caller target context) 0 false rule acl.rules
          (deny-decides (outcome_in registry caller target context) rule effect matters))
      ∙ matched-denies (rule ∷ acl.rules) acl.default_effect 0 rule false effect)
