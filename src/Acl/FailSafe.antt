-- ===== src/Acl/FailSafe.antt =====
-- acl.py `check` and `async_check`: what an unevaluable rule does to the decision.
use apcore_python.Prelude.{
  ℕ, ◌+◌, ◌≡◌, refl, inr, ◌↔◌, ◌||◌, Bool, true, false, Option, none, some, List, [], ◌∷◌, arith,
  Text, All,
}
use apcore_python.Acl.Values.{Context, ConditionOutcome}
use apcore_python.Acl.Rules.{Effect, allow, Rule, accepted, validate_effect}
use apcore_python.Acl.Handlers.{Registry}
use apcore_python.Acl.Conditions.{sync, async}
use apcore_python.Acl.Resolving.{AnswersMore, matches_rule-Refines}
use apcore_python.Acl.Information.{Refines, Less}
use apcore_python.Acl.Check.{
  matches_rule, scan_rules, finalize_check, Scan, legacy, answer, Acl, check, async_check,
  async_check_access, as_legacy_boolean, effective_caller, check_access, raises_pending_approval,
  is_required,
}

abbrev pub HasEffect : Rule → Type 0
HasEffect rule = validate_effect rule.effect ≡ accepted

-- The call is let through.
abbrev pub Passes : List Rule → Effect → Scan → Type 0
Passes rules default_effect scan = legacy (finalize_check rules default_effect scan) ≡ answer true

module _ (all_rules : List Rule) (default_effect : Effect) where
  pub matched-Passes_iff :
      (i : ℕ) (rule : Rule) (p : Bool)
      → Passes all_rules default_effect (record { matched = some (i, rule); pending_approval = p })
        ↔ ((rule.effect ≡ allow) × (is_required rule.approval ≡ false) × (p ≡ false))
  unfolding finalize_check as_legacy_boolean
  matched-Passes_iff i rule p = ground arith

  pub none-Passes_iff :
      (p : Bool)
      → Passes all_rules default_effect (record { matched = none; pending_approval = p })
        ↔ ((default_effect ≡ allow) × (p ≡ false))
  unfolding finalize_check as_legacy_boolean
  none-Passes_iff p = ground arith

  -- A pending approval is never dropped.
  pending_blocks :
      (f : Rule → ConditionOutcome) (rules : List Rule) (i : ℕ) (p : Bool)
      → Passes all_rules default_effect (scan_rules f i p rules)
      → p ≡ false
  unfolding scan_rules
  pending_blocks f [] i p e = ((none-Passes_iff p).0 e).1
  pending_blocks f (rule ∷ rules) i p e = ground (
    arith,
    matched-Passes_iff i rule p,
    pending_blocks f rules (i + 1) p,
    pending_blocks f rules (i + 1) (p || raises_pending_approval rule),
  )

  scan_lets_through :
      (f g : Rule → ConditionOutcome)
      → ((rule : Rule) → Refines (f rule) (g rule))
      → (rules : List Rule) (i : ℕ) (p p' : Bool) → All HasEffect rules
      → Less p p'
      → Passes all_rules default_effect (scan_rules f i p rules)
      → Passes all_rules default_effect (scan_rules g i p' rules)
  unfolding scan_rules validate_effect
  scan_lets_through f g more [] i p p' v le e =
      ground (arith, none-Passes_iff p, none-Passes_iff p')
  scan_lets_through f g more (rule ∷ rules) i p p' (v, vs) le e =
      let less = p || raises_pending_approval rule in
      ground (
        arith,
        v,
        more rule,
        matched-Passes_iff i rule p,
        matched-Passes_iff i rule p',
        pending_blocks f rules (i + 1) less,
        scan_lets_through f g more rules (i + 1) p p' vs,
        scan_lets_through f g more rules (i + 1) less p' vs,
        scan_lets_through f g more rules (i + 1) less (p' || raises_pending_approval rule) vs,
      )

-- With handlers that answer more, a call that `check` lets through is still let through: no
-- unresolvable, raising or suspended condition has let it through. The rules have an effect of
-- the closed set.
pub check-fails_safe :
    (few more : Registry) (acl : Acl) (caller : Option Text) (target : Text)
    (context : Option Context)
    → AnswersMore sync few more
    → All HasEffect acl.rules
    → check few acl caller target context ≡ answer true
    → check more acl caller target context ≡ answer true
unfolding check check_access
check-fails_safe few more acl caller target context h v e =
    scan_lets_through acl.rules acl.default_effect
      (λ rule. matches_rule few sync rule (effective_caller caller) target context)
      (λ rule. matches_rule more sync rule (effective_caller caller) target context)
      (λ rule. matches_rule-Refines sync few more h rule (effective_caller caller) target context)
      acl.rules 0 false false v (inr refl) e

-- The same of `async_check`, whose handlers are the async ones before the sync ones.
pub async_check-fails_safe :
    (few more : Registry) (acl : Acl) (caller : Option Text) (target : Text)
    (context : Option Context)
    → AnswersMore async few more
    → All HasEffect acl.rules
    → async_check few acl caller target context ≡ answer true
    → async_check more acl caller target context ≡ answer true
unfolding async_check async_check_access
async_check-fails_safe few more acl caller target context h v e =
    scan_lets_through acl.rules acl.default_effect
      (λ rule. matches_rule few async rule (effective_caller caller) target context)
      (λ rule. matches_rule more async rule (effective_caller caller) target context)
      (λ rule. matches_rule-Refines async few more h rule (effective_caller caller) target context)
      acl.rules 0 false false v (inr refl) e
