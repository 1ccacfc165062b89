-- ===== src/Strategy/Tests.antt =====
-- pipeline.py: examples.
use apcore_python.Prelude.{◌≡◌, refl, inl, true, false, none, some, [], ◌∷◌}
use apcore_python.Strategy.{
  Step, dependency, ExecutionStrategy, new_strategy, insert_before, remove,
}
use apcore_python.Strategy.Changes.{without}
use apcore_python.Strategy.Protected.{In, Change-keeps_Protected}

abbrev lookup : Step
lookup = record {
  id = 1;
  name = "module_lookup";
  removable = false;
  replaceable = false;
  requires = [];
  provides = "module" ∷ [];
}

abbrev execute : Step
execute = record {
  id = 2;
  name = "execute";
  removable = true;
  replaceable = true;
  requires = "module" ∷ [];
  provides = "output" ∷ [];
}

abbrev report : Step
report = record {
  id = 3;
  name = "report";
  removable = true;
  replaceable = true;
  requires = "output" ∷ [];
  provides = [];
}

abbrev strategy : ExecutionStrategy
strategy = record { steps = lookup ∷ execute ∷ []; validate_dependencies_enabled = true }

no_error : (new_strategy (lookup ∷ execute ∷ []) true).1 ≡ none
unfolding new_strategy
no_error = refl

built : (new_strategy (lookup ∷ execute ∷ []) true).0 ≡ strategy
unfolding new_strategy
built = refl

Change-keeps_Protected_example : In lookup (remove "module_lookup" strategy).0.steps
Change-keeps_Protected_example =
    Change-keeps_Protected strategy (remove "module_lookup" strategy).0 lookup
      (without "module_lookup" strategy) (refl, refl) (inl refl)

-- An insertion whose validation raises leaves the step in the strategy.
raises : (insert_before "execute" report strategy).1 ≡ some (dependency "report")
unfolding insert_before
raises = refl

inserted_all_the_same :
    (insert_before "execute" report strategy).0.steps ≡ lookup ∷ report ∷ execute ∷ []
unfolding insert_before
inserted_all_the_same = refl
