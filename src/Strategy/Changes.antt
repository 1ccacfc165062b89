-- ===== src/Strategy/Changes.antt =====
-- pipeline.py: what the changes of a strategy keep of the names.
use apcore_python.Prelude.{
  among, ℕ, ◌+◌, ◌≡◌, ap, ◌∙◌, inl, inr, Bool, false, not, Option, none, some, List, String, arith,
  is_some, if◌then◌else◌, Bool-cases, Option-cases,
}
use apcore_python.Strategy.Names.{
  UniqueNames, insert_at-UniqueNames, pop_at-UniqueNames, set_at-UniqueNames, name_taken-OnlyAt,
  among-name_to_idx,
}
use apcore_python.Strategy.{
  Step, name_duplicate, step_not_found, not_removable, not_replaceable, ExecutionStrategy, names_of,
  name_to_idx, pop_at, set_at, new_strategy, insert_after, insert_before, insert_beside, remove,
  replace, configure_step, Changed, name_taken, flag_at,
}

-- What a change leaves where the step it adds has a new name.
fresh_name :
    (name : String) (steps : List Step)
    → name_to_idx name steps ≡ none
    → among name (names_of steps) ≡ false
fresh_name name steps e = among-name_to_idx name steps ∙ ap is_some e

insert_beside-UniqueNames :
    (offset : ℕ) (anchor : String) (step : Step) (strategy : ExecutionStrategy)
    → UniqueNames strategy.steps
    → UniqueNames (insert_beside offset anchor step strategy).0.steps
insert_beside-UniqueNames offset anchor step strategy unique =
    elim (Option-cases (name_to_idx step.name strategy.steps)) [
      | inr (j, taken) ↦ ground (arith, taken, unique)
      | inl lost ↦ elim (Option-cases (name_to_idx anchor strategy.steps)) [
        | inl nowhere ↦ ground (arith, lost, nowhere, unique)
        | inr (i, found) ↦ ground (
          arith,
          lost,
          found,
          insert_at-UniqueNames (i + offset) step strategy.steps
              (fresh_name step.name strategy.steps lost) unique,
        )
      ]
    ]

remove-UniqueNames :
    (step_name : String) (strategy : ExecutionStrategy)
    → UniqueNames strategy.steps
    → UniqueNames (remove step_name strategy).0.steps
unfolding remove
remove-UniqueNames step_name strategy unique = go (name_to_idx step_name strategy.steps)
  where
    go :
        (found : Option ℕ)
        → UniqueNames
            (elim found as (λ _. Changed) [
              | none ↦ (strategy, some step_not_found)
              | some i ↦
                  if not (flag_at i (λ step. step.removable) strategy.steps)
                  then (strategy, some not_removable)
                  else (record strategy { steps = pop_at i strategy.steps }, none)
            ]).0.steps
    go none = unique
    go (some i) = ground (arith, unique, pop_at-UniqueNames i strategy.steps unique)

replace-UniqueNames :
    (step_name : String) (new_step : Step) (strategy : ExecutionStrategy)
    → UniqueNames strategy.steps
    → UniqueNames (replace step_name new_step strategy).0.steps
unfolding replace
replace-UniqueNames step_name new_step strategy unique = go (name_to_idx step_name strategy.steps)
  where
    go :
        (found : Option ℕ)
        → UniqueNames
            (elim found as (λ _. Changed) [
              | none ↦ (strategy, some step_not_found)
              | some i ↦
                  if not (flag_at i (λ step. step.replaceable) strategy.steps)
                  then (strategy, some not_replaceable)
                  else if name_taken new_step i strategy.steps
                  then (strategy, some name_duplicate)
                  else (record strategy { steps = set_at i new_step strategy.steps }, none)
            ]).0.steps
    go none = unique
    go (some i) = elim (Bool-cases (name_taken new_step i strategy.steps)) [
      | inl taken ↦ ground (arith, unique, taken)
      | inr free ↦ ground (
        arith,
        unique,
        free,
        set_at-UniqueNames i new_step strategy.steps
            (name_taken-OnlyAt i new_step strategy.steps unique free) unique,
      )
    ]

-- One change of a strategy, whether or not it raises.
pub data Change : ExecutionStrategy → ExecutionStrategy → Type 0 where
  after_anchor :
      (anchor : String) (step : Step) (s : ExecutionStrategy)
      → Change s (insert_after anchor step s).0
  before_anchor :
      (anchor : String) (step : Step) (s : ExecutionStrategy)
      → Change s (insert_before anchor step s).0
  without : (name : String) (s : ExecutionStrategy) → Change s (remove name s).0
  replaced :
      (name : String) (step : Step) (s : ExecutionStrategy) → Change s (replace name step s).0
  configured :
      (name : String) (step : Step) (s : ExecutionStrategy)
      → Change s (configure_step name step s).0

pub data Reached : ExecutionStrategy → Type 0 where
  constructed :
      (steps : List Step) (enabled : Bool)
      → (new_strategy steps enabled).1 ≡ none
      → Reached (new_strategy steps enabled).0
  then_changed : {s t : ExecutionStrategy} → Reached s → Change s t → Reached t

new_strategy-UniqueNames :
    (steps : List Step) (enabled : Bool)
    → (new_strategy steps enabled).1 ≡ none
    → UniqueNames (new_strategy steps enabled).0.steps
unfolding new_strategy
new_strategy-UniqueNames steps enabled e = ground arith

Change-UniqueNames :
    {s t : ExecutionStrategy} → Change s t → UniqueNames s.steps → UniqueNames t.steps
unfolding insert_after insert_before configure_step
Change-UniqueNames (after_anchor anchor step s) u = insert_beside-UniqueNames 1 anchor step s u
Change-UniqueNames (before_anchor anchor step s) u = insert_beside-UniqueNames 0 anchor step s u
Change-UniqueNames (without name s) u = remove-UniqueNames name s u
Change-UniqueNames (replaced name step s) u = replace-UniqueNames name step s u
Change-UniqueNames (configured name step s) u = replace-UniqueNames name step s u

-- The names of the steps are unique in every strategy that was constructed and changed by
-- `insert_after`, `insert_before`, `remove`, `replace` and `configure_step`, also after a change
-- that raises.
pub Reached-UniqueNames : (s : ExecutionStrategy) → Reached s → UniqueNames s.steps
Reached-UniqueNames _ (constructed steps enabled e) = new_strategy-UniqueNames steps enabled e
Reached-UniqueNames t (then_changed reached change) =
    Change-UniqueNames change (Reached-UniqueNames _ reached)
