-- ===== src/Acl/Decision.antt =====
-- acl.py `check_access`: which rule decides, and when an approval stays pending.
use mathlib.Core.Path.{subst}
use apcore_python.Prelude.{
  ℕ, ◌+◌, ◌≡◌, refl, ap, sym, inl, inr, Bool, true, false, ◌||◌, Option, none, some, List, [], ◌∷◌,
  ◌++◌, arith, All, any, length, Bool-cases,
}
use apcore_python.Acl.Values.{ConditionOutcome, satisfied, unsatisfied, unevaluable}
use apcore_python.Acl.Rules.{Rule}
use apcore_python.Acl.Check.{Scan, scan_rules, is_deny, raises_pending_approval}

-- A rule decides where its outcome is satisfied, or unevaluable on a deny rule.
abbrev decides_as : ConditionOutcome → Rule → Bool
decides_as satisfied rule = true
decides_as unsatisfied rule = false
decides_as unevaluable rule = is_deny rule.effect

abbrev pub decides : (Rule → ConditionOutcome) → Rule → Bool
decides f rule = decides_as (f rule) rule

abbrev leaves_pending_as : ConditionOutcome → Rule → Bool
leaves_pending_as unevaluable rule = raises_pending_approval rule
leaves_pending_as _ rule = false

-- A rule that passes leaves an approval pending where it could not be evaluated, allows, and
-- requires approval.
abbrev pub leaves_pending : (Rule → ConditionOutcome) → Rule → Bool
leaves_pending f rule = leaves_pending_as (f rule) rule

-- What the scan found, from index `i` and with `p` pending, in terms of the list alone.
abbrev pub Describes : (Rule → ConditionOutcome) → ℕ → Bool → List Rule → Scan → Type 0
Describes f i p rules scan = elim scan.matched [
  | none ↦
      All (λ rule. decides f rule ≡ false) rules
      × (scan.pending_approval ≡ (p || any (leaves_pending f) rules))
  | some (j, rule) ↦
      (before : List Rule) × (after : List Rule) × ((rules ≡ before ++ rule ∷ after)
        × All (λ passed. decides f passed ≡ false) before
        × (decides f rule ≡ true)
        × (j ≡ i + length before)
        × (scan.pending_approval ≡ (p || any (leaves_pending f) before)))
]

Describes-cons :
    (f : Rule → ConditionOutcome) (i : ℕ) (p : Bool) (rule : Rule) (rules : List Rule) (scan : Scan)
    → decides f rule ≡ false
    → Describes f (i + 1) (p || leaves_pending f rule) rules scan
    → Describes f i p (rule ∷ rules) scan
Describes-cons f i p rule rules scan off d = go scan.matched scan.pending_approval d
  where
    go :
        (matched : Option (ℕ × Rule)) (pending : Bool)
        → Describes f
            (i + 1)
            (p || leaves_pending f rule)
            rules
            (record { matched = matched; pending_approval = pending })
        → Describes f i p (rule ∷ rules) (record { matched = matched; pending_approval = pending })
    go none pending (passed, e) = ((off, passed), ground (arith, e))
    go (some (j, r)) pending (before, after, (e, passed, on, k, q)) = (
      rule ∷ before,
      after,
      (ap (λ l. rule ∷ l) e, (off, passed), on, omega (arith, k), ground (arith, q)),
    )

pub scan_rules-passes :
    (f : Rule → ConditionOutcome) (i : ℕ) (p : Bool) (rule : Rule) (rules : List Rule)
    → decides f rule ≡ false
    → scan_rules f i p (rule ∷ rules) ≡ scan_rules f (i + 1) (p || leaves_pending f rule) rules
unfolding scan_rules
scan_rules-passes f i p rule rules off = ground arith

pub scan_rules-decides :
    (f : Rule → ConditionOutcome) (i : ℕ) (p : Bool) (rule : Rule) (rules : List Rule)
    → decides f rule ≡ true
    → scan_rules f i p (rule ∷ rules) ≡ (record { matched = some (i, rule); pending_approval = p })
unfolding scan_rules
scan_rules-decides f i p rule rules on = ground arith

-- The scan stops at the first rule that is satisfied, or that cannot be evaluated and denies; its
-- index is the rule's place, and an approval is pending just where a rule before it could not be
-- evaluated, allows and requires approval. Where no rule decides, the same holds of all of them.
pub scan_rules-Describes :
    (f : Rule → ConditionOutcome) (i : ℕ) (p : Bool) (rules : List Rule)
    → Describes f i p rules (scan_rules f i p rules)
scan_rules-Describes f i p [] = unfold scan_rules in (tt, ground arith)
scan_rules-Describes f i p (rule ∷ rules) = elim (Bool-cases (decides f rule)) [
  | inl on ↦
      subst (Describes f i p (rule ∷ rules)) (sym (scan_rules-decides f i p rule rules on))
        (([], rules, (refl, tt, on, omega arith, ground arith)))
  | inr off ↦
      subst (Describes f i p (rule ∷ rules)) (sym (scan_rules-passes f i p rule rules off)) (
        Describes-cons f i p rule rules _ off
          (scan_rules-Describes f (i + 1) (p || leaves_pending f rule) rules))
]
