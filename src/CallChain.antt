-- ===== src/CallChain.antt =====
-- utils/call_chain.py: `guard_call_chain`.
use apcore_python.Prelude.{
  ℕ, ◌+◌, ◌-◌, Bool, true, false, Option, none, some, List, [], ◌∷◌, ◌++◌, Text, text_eq, length,
  drop, ltb, if◌then◌else◌,
}
use apcore_python.Pattern.{all_but_last}
pub mod Guard
mod Tests

-- Which error the guard raises.
pub data Guarded : Type 0 where
  accepted invalid_input call_depth_exceeded circular_call call_frequency_exceeded : Guarded

-- `xs[::-1]`
abbrev pub reverse : List Text → List Text
reverse [] = []
reverse (x ∷ xs) = reverse xs ++ x ∷ []

-- `xs.index(x)`, where there is one
abbrev pub index : Text → List Text → Option ℕ
index x [] = none
index x (y ∷ ys) =
    if text_eq y x then some 0 else elim (index x ys) [ none ↦ none | some i ↦ some (i + 1) ]

-- `xs.count(x)`
abbrev pub count : Text → List Text → ℕ
count x [] = 0
count x (y ∷ ys) = if text_eq y x then count x ys + 1 else count x ys

-- `subsequence`: the calls after the last one of the module; none where it was not called
unfoldable pub subsequence : Text → List Text → Option (List Text)
subsequence module_id prior_chain = elim (index module_id (reverse prior_chain)) [
  | none ↦ none
  | some i ↦ some (drop (length prior_chain - 1 - i + 1) prior_chain)
]

abbrev pub is_cycle : Option (List Text) → Bool
is_cycle none = false
is_cycle (some between) = ltb 0 (length between)

-- The limits are natural numbers: a negative one fails the test that 0 fails.
unfoldable pub guard_call_chain : Text → List Text → ℕ → ℕ → Guarded
unfolding subsequence
guard_call_chain module_id chain max_call_depth max_module_repeat =
    if ltb max_call_depth 1
    then invalid_input
    else if ltb max_module_repeat 1
    then invalid_input
    else if ltb max_call_depth (length chain)
    then call_depth_exceeded
    else if is_cycle (subsequence module_id (all_but_last chain))
    then circular_call
    else if ltb max_module_repeat (count module_id chain)
    then call_frequency_exceeded
    else accepted
