-- ===== src/CallChain/Tests.antt =====
-- utils/call_chain.py: examples.
use apcore_python.Prelude.{◌+◌, ◌≤◌, ◌≡◌, refl, ◌↔◌, List, [], ◌∷◌, ◌++◌, length, Text, codes}
use apcore_python.CallChain.{
  guard_call_chain, accepted, circular_call, call_depth_exceeded, call_frequency_exceeded, count,
}
use apcore_python.CallChain.Guard.{Circular, guard_call_chain-accepts_iff}

abbrev prior : List Text
prior = codes "a" ∷ codes "b" ∷ []

guard_call_chain-accepts_iff_example :
    (guard_call_chain (codes "a") (prior ++ codes "a" ∷ []) 32 3 ≡ accepted) ↔ (
      (1 ≤ 32)
      × (1 ≤ 3)
      × (length prior + 1 ≤ 32)
      × (Circular (codes "a") prior → ⊥)
      × (count (codes "a") prior + 1 ≤ 3))
guard_call_chain-accepts_iff_example = guard_call_chain-accepts_iff (codes "a") prior 32 3

cycle : guard_call_chain (codes "a") (codes "a" ∷ codes "b" ∷ codes "a" ∷ []) 32 3 ≡ circular_call
unfolding guard_call_chain
cycle = refl

recursion_is_no_cycle : guard_call_chain (codes "a") (codes "a" ∷ codes "a" ∷ []) 32 3 ≡ accepted
unfolding guard_call_chain
recursion_is_no_cycle = refl

too_often :
    guard_call_chain (codes "a") (codes "a" ∷ codes "a" ∷ codes "a" ∷ []) 32 2
    ≡ call_frequency_exceeded
unfolding guard_call_chain
too_often = refl

too_deep : guard_call_chain (codes "b") (codes "a" ∷ codes "b" ∷ []) 1 3 ≡ call_depth_exceeded
unfolding guard_call_chain
too_deep = refl
