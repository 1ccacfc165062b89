-- ===== src/CallChain/Guard.antt =====
-- utils/call_chain.py: what the guard accepts, for a chain that ends with the module being called.
use mathlib.Core.Path.{subst}
use apcore_python.Prelude.{
  ℕ, ◌+◌, ◌-◌, ◌≤◌, ◌<◌, ◌≡◌, ◌≢◌, refl, ap, sym, ◌∙◌, ◌↔◌, ◌⊎◌, inl, inr, Bool, true, false, none,
  some, List, [], ◌∷◌, ◌++◌, arith, Text, text_eq, text_eq_iff, length, length-append, length-drop,
  drop, Bool-cases, Option-cases,
}
use apcore_python.Pattern.{all_but_last}
use apcore_python.CallChain.{
  accepted, circular_call, reverse, index, count, subsequence, is_cycle, guard_call_chain,
}

reverse-snoc : (xs : List Text) (x : Text) → reverse (xs ++ x ∷ []) ≡ x ∷ reverse xs
reverse-snoc [] x = refl
reverse-snoc (y ∷ ys) x = rw (reverse-snoc ys x)

length-reverse : (xs : List Text) → length (reverse xs) ≡ length xs
length-reverse [] = refl
length-reverse (x ∷ xs) = omega (arith, length-append (reverse xs) (x ∷ []), length-reverse xs)

count-append : (m : Text) (xs ys : List Text) → count m (xs ++ ys) ≡ count m xs + count m ys
count-append m [] ys = omega arith
count-append m (x ∷ xs) ys = ground (arith, count-append m xs ys)

count-reverse : (m : Text) (xs : List Text) → count m (reverse xs) ≡ count m xs
count-reverse m [] = refl
count-reverse m (x ∷ xs) = ground (arith, count-append m (reverse xs) (x ∷ []), count-reverse m xs)

index-none : (m : Text) (xs : List Text) → index m xs ≡ none → count m xs ≡ 0
index-none m [] e = refl
index-none m (x ∷ xs) e = ground (arith, index-none m xs)

index-some :
    (m : Text) (xs : List Text) (i : ℕ) → index m xs ≡ some i → (i < length xs) × (0 < count m xs)
index-some m [] i e = cc
index-some m (x ∷ xs) i e = elim (Bool-cases (text_eq x m)) [
  | inl same ↦ ground (arith, same, e)
  | inr other ↦ elim (Option-cases (index m xs)) [
    | inl lost ↦ ground (arith, other, lost, e)
    | inr (j, found) ↦ ground (arith, other, found, e, index-some m xs j found)
  ]
]

all_but_last-snoc : (xs : List Text) (x : Text) → all_but_last (xs ++ x ∷ []) ≡ xs
all_but_last-snoc [] x = refl
all_but_last-snoc (y ∷ []) x = refl
all_but_last-snoc (y ∷ z ∷ ys) x = ap (λ r. y ∷ r) (all_but_last-snoc (z ∷ ys) x)

-- The calls before this one end with another module, and this module is among those before.
abbrev pub Circular : Text → List Text → Type 0
Circular m prior =
    (front : List Text) × (x : Text) × ((prior ≡ front ++ x ∷ []) × (x ≢ m) × (1 ≤ count m front))

snoc-cases :
    (xs : List Text) → (xs ≡ []) ⊎ ((front : List Text) × (x : Text) × (xs ≡ front ++ x ∷ []))
snoc-cases [] = inl refl
snoc-cases (y ∷ ys) = inr (go (snoc-cases ys))
  where
    go :
        (ys ≡ []) ⊎ ((front : List Text) × (x : Text) × (ys ≡ front ++ x ∷ []))
        → (front : List Text) × (x : Text) × (y ∷ ys ≡ front ++ x ∷ [])
    go (inl e) = ([], y, ap (λ r. y ∷ r) e)
    go (inr (front, x, e)) = (y ∷ front, x, ap (λ r. y ∷ r) e)

-- `is_cycle` on the reversed chain
rotated : Text → List Text → List Text → Bool
rotated m prior reversed = is_cycle (elim (index m reversed) [
  | none ↦ none
  | some i ↦ some (drop (length prior - 1 - i + 1) prior)
])

subsequence-rotated :
    (m : Text) (prior : List Text)
    → is_cycle (subsequence m prior) ≡ rotated m prior (reverse prior)
unfolding subsequence rotated
subsequence-rotated m prior = refl

rotated-snoc :
    (m : Text) (front : List Text) (x : Text)
    → (rotated m (front ++ x ∷ []) (x ∷ reverse front) ≡ true)
      ↔ ((text_eq x m ≡ false) × (1 ≤ count m front))
unfolding rotated
rotated-snoc m front x = elim (Bool-cases (text_eq x m)) [
  | inl same ↦ ground (
    arith,
    same,
    length-append front (x ∷ []),
    length-drop (length (front ++ x ∷ []) - 1 - 0 + 1) (front ++ x ∷ []),
  )
  | inr other ↦ elim (Option-cases (index m (reverse front))) [
    | inl lost ↦
        ground (arith, other, lost, index-none m (reverse front) lost, count-reverse m front)
    | inr (j, found) ↦ ground (
      arith,
      other,
      found,
      length-append front (x ∷ []),
      length-drop (length (front ++ x ∷ []) - 1 - (j + 1) + 1) (front ++ x ∷ []),
      index-some m (reverse front) j found,
      length-reverse front,
      count-reverse m front,
    )
  ]
]

unequal : (x m : Text) → x ≢ m → text_eq x m ≡ false
unequal x m other = elim (Bool-cases (text_eq x m)) [
  | inl e ↦ absurd (other ((text_eq_iff x m).0 e))
  | inr e ↦ e
]

nil-acyclic : (m : Text) → is_cycle (subsequence m []) ≡ true → ⊥
unfolding subsequence
nil-acyclic m e = cc

Circular-iff :
    (m : Text) (prior : List Text) → (is_cycle (subsequence m prior) ≡ true) ↔ Circular m prior
Circular-iff m prior = (to (snoc-cases prior), back)
  where
    back : Circular m prior → is_cycle (subsequence m prior) ≡ true
    back (front, x, (e, other, called)) =
        subst (λ p. is_cycle (subsequence m p) ≡ true) (sym e)
          (subsequence-rotated m (front ++ x ∷ [])
            ∙ (rw (reverse-snoc front x) ((rotated-snoc m front x).1 (unequal x m other, called))))

    to :
        (prior ≡ []) ⊎ ((front : List Text) × (x : Text) × (prior ≡ front ++ x ∷ []))
        → is_cycle (subsequence m prior) ≡ true
        → Circular m prior
    to (inl e) c = absurd (nil-acyclic m (subst (λ p. is_cycle (subsequence m p) ≡ true) e c))
    to (inr (front, x, e)) c =
        let (other, called) = (rotated-snoc m front x).0 (
          subst (λ r. rotated m (front ++ x ∷ []) r ≡ true) (reverse-snoc front x)
            (sym (subsequence-rotated m (front ++ x ∷ []))
              ∙ subst (λ p. is_cycle (subsequence m p) ≡ true) e c)) in
        (front, x, (e, (λ same. cc ((text_eq_iff x m).1 same)), called))

-- The guard accepts a chain that ends with the module being called just where both limits are at
-- least 1, the chain is no longer than the depth limit, the module does not call itself through
-- another module, and it stands in the chain no more often than the repeat limit.
pub guard_call_chain-accepts_iff :
    (m : Text) (prior : List Text) (max_call_depth max_module_repeat : ℕ)
    → (guard_call_chain m (prior ++ m ∷ []) max_call_depth max_module_repeat ≡ accepted) ↔ (
        (1 ≤ max_call_depth)
        × (1 ≤ max_module_repeat)
        × (length prior + 1 ≤ max_call_depth)
        × (Circular m prior → ⊥)
        × (count m prior + 1 ≤ max_module_repeat))
unfolding guard_call_chain
guard_call_chain-accepts_iff m prior max_call_depth max_module_repeat = ground (
  arith,
  length-append prior (m ∷ []),
  count-append m prior (m ∷ []),
  all_but_last-snoc prior m,
  (text_eq_iff m m).1 refl,
  Circular-iff m prior,
)

-- The guard reports a circular call just where the limits are at least 1, the chain is within the
-- depth limit, and the calls before this one end with another module and contain this one; so the
-- depth error comes before it, and a module that calls itself directly is not a cycle.
pub guard_call_chain-Circular_iff :
    (m : Text) (prior : List Text) (max_call_depth max_module_repeat : ℕ)
    → (guard_call_chain m (prior ++ m ∷ []) max_call_depth max_module_repeat ≡ circular_call) ↔ (
        (1 ≤ max_call_depth)
        × (1 ≤ max_module_repeat)
        × (length prior + 1 ≤ max_call_depth)
        × Circular m prior)
unfolding guard_call_chain
guard_call_chain-Circular_iff m prior max_call_depth max_module_repeat =
    ground (arith, length-append prior (m ∷ []), all_but_last-snoc prior m, Circular-iff m prior)
