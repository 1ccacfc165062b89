-- ===== src/Policy/Winner.antt =====
-- policy.py `_match`: which rule wins.
use mathlib.Core.Path.{subst}
use apcore_python.Prelude.{
  ℕ, ◌+◌, ◌*◌, ◌≤◌, ◌<◌, ◌≡◌, refl, ap, sym, ◌⊎◌, inl, inr, ◌↔◌, Bool, true, false, Option, none,
  some, List, [], ◌∷◌, ◌++◌, arith, Text, All, ltb, if◌then◌else◌, Bool-cases, ltb_iff,
}
use apcore_python.Pattern.{match_pattern, calculate_specificity}
use apcore_python.Policy.{
  PolicyRule, Best, consider, match_loop, match_rule, rule_of, stricter, is_true,
}

abbrev bit : Bool → ℕ
bit true = 1
bit false = 0

-- A rule's place in the order of precedence: specificity first, then a forced approval, then a
-- forced `destructive`.
abbrev pub rank : PolicyRule → ℕ
rank rule =
    4 * calculate_specificity rule.pattern
    + (2 * bit (is_true rule.requires_approval) + bit (is_true rule.destructive))

stricter-rank :
    (a b c d : Bool) → (stricter (a, b) (c, d) ≡ true) ↔ (2 * bit c + bit d < 2 * bit a + bit b)
stricter-rank a b c d = ground arith

abbrev Below : Text → ℕ → PolicyRule → Type 0
Below module_id n rule = match_pattern rule.pattern module_id ≡ true → rank rule ≤ n

abbrev StrictlyBelow : Text → ℕ → PolicyRule → Type 0
StrictlyBelow module_id n rule = match_pattern rule.pattern module_id ≡ true → rank rule < n

-- The rule wins in the list: it matches, no matching rule ranks above it, and none before it ranks
-- the same.
abbrev pub Wins : Text → List PolicyRule → PolicyRule → Type 0
Wins module_id rules rule =
    (match_pattern rule.pattern module_id ≡ true)
    × ((before : List PolicyRule) × (after : List PolicyRule) × ((rules ≡ before ++ rule ∷ after)
          × All (StrictlyBelow module_id (rank rule)) before
          × All (Below module_id (rank rule)) after))

abbrev pub Unmatched : Text → PolicyRule → Type 0
Unmatched module_id rule = match_pattern rule.pattern module_id ≡ false

Wins-cons :
    (module_id : Text) (rule winner : PolicyRule) (rules : List PolicyRule)
    → StrictlyBelow module_id (rank winner) rule
    → Wins module_id rules winner
    → Wins module_id (rule ∷ rules) winner
Wins-cons module_id rule winner rules lt (m, (before, after, (e, bs, afters))) =
    (m, (rule ∷ before, after, (ap (λ r. rule ∷ r) e, (lt, bs), afters)))

scored : PolicyRule → Best
scored rule = some (rule, calculate_specificity rule.pattern)

consider-scored :
    (rule best : PolicyRule)
    → (consider rule (calculate_specificity rule.pattern) (scored best)
        ≡ (if ltb (rank best) (rank rule) then scored rule else scored best))
unfolding scored
consider-scored rule best = ground (
  arith,
  stricter-rank (is_true rule.requires_approval) (is_true rule.destructive)
      (is_true best.requires_approval) (is_true best.destructive),
)

-- How the loop ends when it starts with the best rule so far.
Ends : Text → PolicyRule → List PolicyRule → Best → Type 0
unfolding scored
Ends module_id best rules result =
    ((result ≡ scored best) × All (Below module_id (rank best)) rules)
    ⊎ ((winner : PolicyRule) × ((result ≡ scored winner)
          × (rank best < rank winner)
          × Wins module_id rules winner))

Ends-skip :
    (module_id : Text) (rule best : PolicyRule) (rules : List PolicyRule) (result : Best)
    → Below module_id (rank best) rule
    → Ends module_id best rules result
    → Ends module_id best (rule ∷ rules) result
unfolding Ends
Ends-skip module_id rule best rules result le (inl (e, below)) = inl (e, (le, below))
Ends-skip module_id rule best rules result le (inr (winner, (e, lt, wins))) =
    inr
      (winner, (e, lt, Wins-cons module_id rule winner rules (λ on. omega (arith, le on, lt)) wins))

Ends-take :
    (module_id : Text) (rule best : PolicyRule) (rules : List PolicyRule) (result : Best)
    → match_pattern rule.pattern module_id ≡ true
    → rank best < rank rule
    → Ends module_id rule rules result
    → Ends module_id best (rule ∷ rules) result
unfolding Ends
Ends-take module_id rule best rules result on up (inl (e, below)) =
    inr (rule, (e, up, (on, ([], rules, (refl, tt, below)))))
Ends-take module_id rule best rules result on up (inr (winner, (e, lt, wins))) =
    inr (winner, (e, omega (arith, up, lt), Wins-cons module_id rule winner rules (λ on'. lt) wins))

match_loop-some :
    (module_id : Text) (rules : List PolicyRule) (best : PolicyRule)
    → Ends module_id best rules (match_loop module_id (scored best) rules)
unfolding match_loop
match_loop-some module_id [] best = unfold Ends in inl (refl, tt)
match_loop-some module_id (rule ∷ rules) best =
    elim (Bool-cases (match_pattern rule.pattern module_id)) [
      | inr off ↦
          rw (off) (
            Ends-skip module_id rule best rules _ (λ on. cc) (match_loop-some module_id rules best))
      | inl on ↦ elim (Bool-cases (ltb (rank best) (rank rule))) [
        | inl up ↦
            subst (λ b. Ends module_id best (rule ∷ rules) (match_loop module_id b rules))
              (sym (after_step on up))
              (Ends-take module_id rule best rules _ on
                (omega (arith, (ltb_iff (rank best) (rank rule)).0 up))
                (match_loop-some module_id rules rule))
        | inr down ↦
            subst (λ b. Ends module_id best (rule ∷ rules) (match_loop module_id b rules))
              (sym (after_step on down))
              (Ends-skip module_id rule best rules _ (λ on'. ground (arith, down))
                (match_loop-some module_id rules best))
      ]
    ]
  where
    after_step :
        {up : Bool}
        → match_pattern rule.pattern module_id ≡ true
        → ltb (rank best) (rank rule) ≡ up
        → ((if match_pattern rule.pattern module_id
              then consider rule (calculate_specificity rule.pattern) (scored best)
              else scored best)
            ≡ (if up then scored rule else scored best))
    after_step on e = rw (on, consider-scored rule best, e) (refl)

abbrev pub Winner : Text → List PolicyRule → Option PolicyRule → Type 0
Winner module_id rules none = All (Unmatched module_id) rules
Winner module_id rules (some rule) = Wins module_id rules rule

match_rule-off :
    (rule : PolicyRule) (rules : List PolicyRule) (module_id : Text)
    → match_pattern rule.pattern module_id ≡ false
    → match_rule (rule ∷ rules) module_id ≡ match_rule rules module_id
unfolding match_rule
match_rule-off rule rules module_id off = rw (off) (refl)

match_rule-on :
    (rule : PolicyRule) (rules : List PolicyRule) (module_id : Text)
    → match_pattern rule.pattern module_id ≡ true
    → match_rule (rule ∷ rules) module_id ≡ rule_of (match_loop module_id (scored rule) rules)
unfolding match_rule scored
match_rule-on rule rules module_id on = rw (on) (refl)

skip :
    (module_id : Text) (rule : PolicyRule) (rules : List PolicyRule)
    → match_pattern rule.pattern module_id ≡ false
    → (o : Option PolicyRule) → Winner module_id rules o
    → Winner module_id (rule ∷ rules) o
skip module_id rule rules off none un = (off, un)
skip module_id rule rules off (some winner) wins =
    Wins-cons module_id rule winner rules (λ on. cc) wins

Ends-Winner :
    (module_id : Text) (rule : PolicyRule) (rules : List PolicyRule) (result : Best)
    → match_pattern rule.pattern module_id ≡ true
    → Ends module_id rule rules result
    → Winner module_id (rule ∷ rules) (rule_of result)
unfolding Ends
Ends-Winner module_id rule rules result on (inl (e, below)) =
    rw (e) ((on, ([], rules, (refl, tt, below))))
Ends-Winner module_id rule rules result on (inr (winner, (e, lt, wins))) =
    rw (e) (Wins-cons module_id rule winner rules (λ _. lt) wins)

-- The rule that `_match` returns matches, no matching rule ranks above it (by specificity, then by
-- a forced approval, then by a forced `destructive`), and of those that rank the same it is the
-- first; it returns none only where no rule matches.
pub match_rule-wins :
    (rules : List PolicyRule) (module_id : Text)
    → Winner module_id rules (match_rule rules module_id)
match_rule-wins [] module_id = unfold match_rule in tt
match_rule-wins (rule ∷ rules) module_id =
    elim (Bool-cases (match_pattern rule.pattern module_id)) [
      | inl on ↦
          subst (Winner module_id (rule ∷ rules)) (sym (match_rule-on rule rules module_id on))
            (Ends-Winner module_id rule rules _ on (match_loop-some module_id rules rule))
      | inr off ↦
          subst (Winner module_id (rule ∷ rules)) (sym (match_rule-off rule rules module_id off))
            (skip module_id rule rules off _ (match_rule-wins rules module_id))
    ]
