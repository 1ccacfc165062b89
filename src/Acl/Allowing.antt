-- ===== src/Acl/Allowing.antt =====
-- acl.py `check`: just when it lets a call through.
use mathlib.Core.Path.{subst}
use apcore_python.Prelude.{
  ℕ, ◌+◌, ◌≡◌, refl, ap, sym, ◌∙◌, ◌↔◌, ◌⊎◌, inl, inr, Bool, true, false, ◌||◌, Option, none, some,
  List, [], ◌∷◌, ◌++◌, arith, All, any, Text,
}
use apcore_python.Acl.Values.{Context, ConditionOutcome}
use apcore_python.Acl.Rules.{Rule, Effect, allow}
use apcore_python.Acl.Handlers.{Registry}
use apcore_python.Acl.Conditions.{sync}
use apcore_python.Acl.Check.{
  Scan, scan_rules, is_required, Acl, check, check_access, answer, matches_rule, effective_caller,
}
use apcore_python.Acl.Decision.{
  decides, leaves_pending, Describes, scan_rules-Describes, scan_rules-passes, scan_rules-decides,
}
use apcore_python.Acl.FailSafe.{Passes, matched-Passes_iff, none-Passes_iff}

-- No rule of the list decides, and none leaves an approval pending.
abbrev pub AllPass : (Rule → ConditionOutcome) → List Rule → Type 0
AllPass f rules =
    All (λ rule. decides f rule ≡ false) rules × (any (leaves_pending f) rules ≡ false)

-- The first rule that decides allows without an approval, and none before it left one pending.
abbrev pub AllowedByRule : (Rule → ConditionOutcome) → List Rule → Type 0
AllowedByRule f rules =
    (before : List Rule) × (rule : Rule) × (after : List Rule) × ((rules ≡ before ++ rule ∷ after)
      × AllPass f before
      × (decides f rule ≡ true)
      × (rule.effect ≡ allow)
      × (is_required rule.approval ≡ false))

||-false : (a b : Bool) → (a || b) ≡ false → (a ≡ false) × (b ≡ false)
||-false a b h = ground arith

module _ (all_rules : List Rule) (default_effect : Effect) (f : Rule → ConditionOutcome) where
  allowed-Passes :
      (rules : List Rule) (i : ℕ)
      → AllowedByRule f rules
      → Passes all_rules default_effect (scan_rules f i false rules)
  allowed-Passes rules i (before, rule, after, (e, (passed, idle), on, is_allow, free)) =
      subst (λ l. Passes all_rules default_effect (scan_rules f i false l)) (sym e)
        (go before i passed idle)
    where
      last : (i : ℕ) → Passes all_rules default_effect (scan_rules f i false (rule ∷ after))
      last i =
          subst (Passes all_rules default_effect) (sym (scan_rules-decides f i false rule after on))
            ((matched-Passes_iff all_rules default_effect i rule false).1 (is_allow, free, refl))

      go :
          (before : List Rule) (i : ℕ)
          → All (λ r. decides f r ≡ false) before
          → any (leaves_pending f) before ≡ false
          → Passes all_rules default_effect (scan_rules f i false (before ++ rule ∷ after))
      go [] i passed idle = last i
      go (r ∷ before) i (off, passed) idle =
          let (quiet, idle') = ||-false (leaves_pending f r) (any (leaves_pending f) before) idle in
          subst (Passes all_rules default_effect)
            (sym (
              scan_rules-passes f i false r (before ++ rule ∷ after) off
              ∙ ap (λ p. scan_rules f (i + 1) p (before ++ rule ∷ after)) quiet))
            (go before (i + 1) passed idle')

  default-Passes :
      (rules : List Rule) (i : ℕ)
      → AllPass f rules
      → default_effect ≡ allow
      → Passes all_rules default_effect (scan_rules f i false rules)
  default-Passes [] i idle e =
      unfold scan_rules in (none-Passes_iff all_rules default_effect false).1 (e, refl)
  default-Passes (r ∷ rules) i ((off, passed), idle) e =
      let (quiet, idle') = ||-false (leaves_pending f r) (any (leaves_pending f) rules) idle in
      subst (Passes all_rules default_effect)
        (sym
          (scan_rules-passes f i false r rules off ∙ ap (λ p. scan_rules f (i + 1) p rules) quiet))
        (default-Passes rules (i + 1) (passed, idle') e)

  Passes-split :
      (rules : List Rule) (scan : Scan)
      → Describes f 0 false rules scan
      → Passes all_rules default_effect scan
      → AllowedByRule f rules ⊎ (AllPass f rules × (default_effect ≡ allow))
  Passes-split rules scan d e = go scan.matched scan.pending_approval d e
    where
      go :
          (matched : Option (ℕ × Rule)) (pending : Bool)
          → Describes f 0 false rules (record { matched = matched; pending_approval = pending })
          → Passes all_rules default_effect
              (record { matched = matched; pending_approval = pending })
          → AllowedByRule f rules ⊎ (AllPass f rules × (default_effect ≡ allow))
      go none pending (passed, q) e =
          let (is_allow, quiet) = (none-Passes_iff all_rules default_effect pending).0 e in
          inr ((passed, sym q ∙ quiet), is_allow)
      go (some (j, rule)) pending (before, after, (split, passed, on, k, q)) e =
          let (is_allow, free, quiet) =
            (matched-Passes_iff all_rules default_effect j rule pending).0 e in
          inl (before, rule, after, (split, (passed, sym q ∙ quiet), on, is_allow, free))

abbrev pub outcome_in : Registry → Option Text → Text → Option Context → Rule → ConditionOutcome
outcome_in registry caller target context rule =
    matches_rule registry sync rule (effective_caller caller) target context

-- `check` lets a call through just where the first rule that decides allows it without requiring an
-- approval, and no rule before it left an approval pending; or where no rule decides, none left an
-- approval pending, and the default effect is `allow`. A rule decides where its outcome is
-- satisfied, or unevaluable on a deny rule.
pub check-allows_iff :
    (registry : Registry) (acl : Acl) (caller : Option Text) (target : Text)
    (context : Option Context)
    → let f = outcome_in registry caller target context in
      (check registry acl caller target context ≡ answer true)
      ↔ (AllowedByRule f acl.rules ⊎ (AllPass f acl.rules × (acl.default_effect ≡ allow)))
unfolding check check_access
check-allows_iff registry acl caller target context =
    let f = outcome_in registry caller target context in
    (
      Passes-split acl.rules acl.default_effect f acl.rules _
          (scan_rules-Describes f 0 false acl.rules),
      λ h. elim h [
        | inl by_rule ↦ allowed-Passes acl.rules acl.default_effect f acl.rules 0 by_rule
        | inr (idle, e) ↦ default-Passes acl.rules acl.default_effect f acl.rules 0 idle e
      ],
    )
