-- ===== src/Policy/Gate.antt =====
-- policy.py `resolve`: when a module needs approval.
use mathlib.Core.Path.{subst}
use apcore_python.Prelude.{
  ◌≡◌, refl, ap, ◌⊎◌, inl, inr, Bool, true, false, ◌&&◌, ◌||◌, Option, none, some, List, arith,
  Text,
}
use apcore_python.Policy.{
  PolicyRule, Annotations, read_annotation_bool, ExecutionPolicy, effective, match_rule, resolve,
}
use apcore_python.Policy.Winner.{Winner, Wins, match_rule-wins}

-- The gate that the module's own annotations ask for, before any rule.
abbrev pub asks : ExecutionPolicy → Option Annotations → Bool
asks policy annotations =
    read_annotation_bool annotations (λ a. a.requires_approval)
    || (policy.gate_destructive && read_annotation_bool annotations (λ a. a.destructive))

abbrev pub Relaxes : PolicyRule → Type 0
Relaxes rule = (rule.requires_approval ≡ some false) ⊎ (rule.destructive ≡ some false)

effective-relaxed :
    (base : Bool) (rule : Option PolicyRule) (override : PolicyRule → Option Bool)
    → base ≡ true
    → effective base rule override ≡ false
    → (r : PolicyRule) × ((rule ≡ some r) × (override r ≡ some false))
effective-relaxed base none override e f = cc
effective-relaxed base (some r) override e f = (r, (refl, go (override r) f))
  where
    go : (o : Option Bool) → elim o [ none ↦ base | some value ↦ value ] ≡ false → o ≡ some false
    go none f = cc
    go (some value) f = ap some f

winner-of :
    (rules : List PolicyRule) (module_id : Text) (rule : PolicyRule)
    → match_rule rules module_id ≡ some rule
    → Wins module_id rules rule
winner-of rules module_id rule e =
    subst (Winner module_id rules) e (match_rule-wins rules module_id)

||-false : (a b : Bool) → (a || b) ≡ false → (a ≡ false) × (b ≡ false)
||-false a b h = ground arith

&&-split : (a b : Bool) → (a && b) ≡ true → (a ≡ true) × (b ≡ true)
&&-split a b h = ground arith

||-split : (a b : Bool) → (a || b) ≡ true → (a ≡ true) ⊎ (b ≡ true)
||-split a b h = ground arith

-- A module whose own annotations ask for approval, by `requires_approval` or by `destructive`
-- under `gate_destructive`, goes without it only where the winning rule of the policy says `false`
-- for one of the two.
pub resolve-relaxed :
    (policy : ExecutionPolicy) (module_id : Text) (annotations : Option Annotations)
    → asks policy annotations ≡ true
    → (resolve policy module_id annotations).needs_approval ≡ false
    → (rule : PolicyRule) × (Wins module_id policy.rules rule × Relaxes rule)
unfolding resolve
resolve-relaxed policy module_id annotations a e =
    let (no_approval, no_gate) = ||-false _ _ e in
    elim (||-split _ _ a) [
      | inl base ↦
          let (rule, (found, relaxed)) =
            effective-relaxed _ (match_rule policy.rules module_id) (λ r. r.requires_approval) base
              no_approval in
          (rule, (winner-of policy.rules module_id rule found, inl relaxed))
      | inr gated ↦
          let (gate, base) = &&-split _ _ gated in
          let (rule, (found, relaxed)) =
            effective-relaxed _ (match_rule policy.rules module_id) (λ r. r.destructive) base
              (ungated gate no_gate) in
          (rule, (winner-of policy.rules module_id rule found, inr relaxed))
    ]
  where
    ungated : {b c : Bool} → b ≡ true → (b && c) ≡ false → c ≡ false
    ungated g h = ground arith

-- A module that no rule of the policy matches keeps its own annotations: its approval is what they
-- ask for, and nothing is overridden.
pub resolve-unmatched :
    (policy : ExecutionPolicy) (module_id : Text) (annotations : Option Annotations)
    → match_rule policy.rules module_id ≡ none
    → ((resolve policy module_id annotations).needs_approval ≡ asks policy annotations)
      × ((resolve policy module_id annotations).overridden ≡ false)
unfolding resolve
resolve-unmatched policy module_id annotations e = rw (e) ((refl, ground arith))
