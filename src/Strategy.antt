-- ===== src/Strategy.antt =====
-- pipeline.py: `ExecutionStrategy`, the ordered steps of a pipeline and the changes to them. What a
-- step does is left out here; `id` stands for the object.
use apcore_python.Prelude.{
  ℕ, zero, suc, ◌+◌, Bool, true, false, not, ◌&&◌, ◌||◌, Option, none, some, List, [], ◌∷◌, ◌++◌,
  String, str_eq, get_elem?, any, among, ◌==◌, is_some, if◌then◌else◌,
}
pub mod Names
pub mod Changes
pub mod Dependencies
pub mod Protected
mod Tests

pub record Step : Type 0 where
  pub id : ℕ
  pub name : String
  pub removable : Bool
  pub replaceable : Bool
  pub requires : List String
  pub provides : List String

-- Which error is raised; the dependency error names the step.
pub data StrategyError : Type 0 where
  name_duplicate step_not_found not_removable not_replaceable : StrategyError
  dependency : String → StrategyError

pub record ExecutionStrategy : Type 0 where
  pub steps : List Step
  pub validate_dependencies_enabled : Bool

abbrev pub names_of : List Step → List String
names_of [] = []
names_of (step ∷ steps) = step.name ∷ names_of steps

-- `len(names) != len(set(names))`
abbrev pub has_duplicates : List String → Bool
has_duplicates [] = false
has_duplicates (name ∷ names) = among name names || has_duplicates names

-- `self._name_to_idx.get(name)`; the map is rebuilt after every change, and of two equal names it
-- keeps the later index
abbrev pub name_to_idx : String → List Step → Option ℕ
name_to_idx name [] = none
name_to_idx name (step ∷ steps) = elim (name_to_idx name steps) [
  | some i ↦ some (i + 1)
  | none ↦ if str_eq step.name name then some 0 else none
]

-- `set(requires) - provided` is not empty
abbrev pub missing : List String → List String → Bool
missing requires provided = any (λ key. not (among key provided)) requires

-- the loop of `_validate_dependencies`: the name of the first step that misses something
unfoldable pub validate_dependencies : List String → List Step → Option String
validate_dependencies provided [] = none
validate_dependencies provided (step ∷ steps) =
    let later = validate_dependencies (provided ++ step.provides) steps in
    if missing step.requires provided then some step.name else later

abbrev pub raise_dependency : Option String → Option StrategyError
raise_dependency none = none
raise_dependency (some name) = some (dependency name)

-- A strategy and the error that the change raises, if any. An error of the validation is raised
-- when the steps are changed already.
abbrev pub Changed : Type 0
Changed = ExecutionStrategy × Option StrategyError

abbrev pub validated : ExecutionStrategy → Option StrategyError
validated strategy =
    if strategy.validate_dependencies_enabled
    then raise_dependency (validate_dependencies [] strategy.steps)
    else none

abbrev pub strategy_of : List Step → Bool → ExecutionStrategy
strategy_of steps enabled = record { steps = steps; validate_dependencies_enabled = enabled }

-- `__init__`: a strategy, or the error
unfoldable pub new_strategy : List Step → Bool → Changed
unfolding validate_dependencies
new_strategy steps enabled =
    if has_duplicates (names_of steps)
    then (strategy_of steps enabled, some name_duplicate)
    else (strategy_of steps enabled, validated (strategy_of steps enabled))

-- `steps.insert(i, step)`, `steps.pop(i)` and `steps[i] = step`
abbrev pub insert_at : ℕ → Step → List Step → List Step
insert_at zero step steps = step ∷ steps
insert_at (suc i) step [] = step ∷ []
insert_at (suc i) step (s ∷ steps) = s ∷ insert_at i step steps

abbrev pub pop_at : ℕ → List Step → List Step
pop_at i [] = []
pop_at zero (s ∷ steps) = steps
pop_at (suc i) (s ∷ steps) = s ∷ pop_at i steps

abbrev pub set_at : ℕ → Step → List Step → List Step
set_at i step [] = []
set_at zero step (s ∷ steps) = step ∷ steps
set_at (suc i) step (s ∷ steps) = s ∷ set_at i step steps

abbrev pub changed : List Step → ExecutionStrategy → Changed
changed steps strategy =
    (record strategy { steps = steps }, validated (record strategy { steps = steps }))

-- `insert_after` with `offset` 1, `insert_before` with 0
abbrev pub insert_beside : ℕ → String → Step → ExecutionStrategy → Changed
insert_beside offset anchor step strategy =
    if is_some (name_to_idx step.name strategy.steps)
    then (strategy, some name_duplicate)
    else elim (name_to_idx anchor strategy.steps) [
      | none ↦ (strategy, some step_not_found)
      | some i ↦ changed (insert_at (i + offset) step strategy.steps) strategy
    ]

unfoldable pub insert_after : String → Step → ExecutionStrategy → Changed
unfolding validate_dependencies
insert_after = insert_beside 1

unfoldable pub insert_before : String → Step → ExecutionStrategy → Changed
unfolding validate_dependencies
insert_before = insert_beside 0

-- whether `self.steps[idx]` has the flag
abbrev pub flag_at : ℕ → (Step → Bool) → List Step → Bool
flag_at i flag steps = elim (get_elem? steps i) [ none ↦ false | some step ↦ flag step ]

unfoldable pub remove : String → ExecutionStrategy → Changed
remove step_name strategy = elim (name_to_idx step_name strategy.steps) [
  | none ↦ (strategy, some step_not_found)
  | some i ↦
      if not (flag_at i (λ step. step.removable) strategy.steps)
      then (strategy, some not_removable)
      else (record strategy { steps = pop_at i strategy.steps }, none)
]

-- `_validate_replacement_name`: whether it raises
abbrev pub name_taken : Step → ℕ → List Step → Bool
name_taken new_step i steps = elim (name_to_idx new_step.name steps) [
  | none ↦ false
  | some existing ↦ not (existing == i)
]

unfoldable pub replace : String → Step → ExecutionStrategy → Changed
replace step_name new_step strategy = elim (name_to_idx step_name strategy.steps) [
  | none ↦ (strategy, some step_not_found)
  | some i ↦
      if not (flag_at i (λ step. step.replaceable) strategy.steps)
      then (strategy, some not_replaceable)
      else if name_taken new_step i strategy.steps
      then (strategy, some name_duplicate)
      else (record strategy { steps = set_at i new_step strategy.steps }, none)
]

-- the same but for the class of the error on a missing name
unfoldable pub configure_step : String → Step → ExecutionStrategy → Changed
unfolding replace
configure_step = replace
