-- ===== src/Pattern/Specificity.antt =====
-- `calculate_specificity` (Algorithm A10).
use apcore_python.Prelude.{
  ℕ, ◌+◌, ◌*◌, ◌≤◌, ◌≡◌, refl, ◌≢◌, ◌↔◌, Bool, true, false, ◌||◌, List, [], ◌∷◌, ◌++◌, length, any,
  Text, text_eq, text_eq_iff, arith, inl, inr, Bool-cases, if◌then◌else◌, ◌==◌,
}
use apcore_python.Pattern.Meaning.{split-cons}
use apcore_python.Pattern.{
  star, dot, contains, split, cons_head, segment_score, sum_scores, calculate_specificity,
}

split-grow :
    (b : Bool) (c : ℕ) (xs ys : List Text)
    → xs ≢ []
    → (if b then [] ∷ (xs ++ ys) else cons_head c (xs ++ ys))
      ≡ (if b then [] ∷ xs else cons_head c xs) ++ ys
split-grow b c [] ys h = absurd (h refl)
split-grow true c (x ∷ xs) ys h = refl
split-grow false c (x ∷ xs) ys h = refl

split-append_dot : (a b : Text) → split dot (a ++ dot ∷ b) ≡ split dot a ++ split dot b
unfolding split
split-append_dot [] b = refl
split-append_dot (c ∷ a) b =
    rw (split-append_dot a b)
      (split-grow (c == dot) c (split dot a) (split dot b) (λ e. cc (split-cons dot a)))

sum_scores-append : (xs ys : List Text) → sum_scores (xs ++ ys) ≡ sum_scores xs + sum_scores ys
unfolding sum_scores
sum_scores-append [] ys = omega arith
sum_scores-append (x ∷ xs) ys = omega (arith, sum_scores-append xs ys)

-- The test for a bare star is a shortcut: the sum over the segments is 0 there too.
specificity-eq-sum :
    (pattern : Text) → calculate_specificity pattern ≡ sum_scores (split dot pattern)
unfolding calculate_specificity
specificity-eq-sum pattern = elim (Bool-cases (text_eq pattern (star ∷ []))) [
  | inl e ↦ let only : pattern ≡ star ∷ [] = (text_eq_iff pattern (star ∷ [])).0 e in rw only
  | inr e ↦ rw e
]

-- The specificity of two patterns joined by a dot is the sum of theirs, so each further segment
-- counts on its own and no pattern is less specific than a part of it.
pub specificity_additive :
    (a b : Text)
    → calculate_specificity (a ++ dot ∷ b) ≡ calculate_specificity a + calculate_specificity b
specificity_additive a b =
    rw (specificity-eq-sum (a ++ dot ∷ b), split-append_dot a b)
      (omega (
        arith,
        sum_scores-append (split dot a) (split dot b),
        specificity-eq-sum a,
        specificity-eq-sum b,
      ))

any-cons_head :
    (c : ℕ) (segments : List Text)
    → segments ≢ []
    → any (λ segment. contains star segment) (cons_head c segments)
      ≡ (c == star || any (λ segment. contains star segment) segments)
any-cons_head c [] h = absurd (h refl)
any-cons_head c (segment ∷ segments) h = ground arith

contains-split :
    (text : Text) → contains star text ≡ any (λ segment. contains star segment) (split dot text)
unfolding split
contains-split [] = refl
contains-split (c ∷ text) = elim (Bool-cases (c == dot)) [
  | inl e ↦ rw e (ground (arith, contains-split text))
  | inr e ↦
      rw (e, any-cons_head c (split dot text) (λ n. cc (split-cons dot text)), contains-split text)
]

segment_score-max :
    (segment : Text)
    → (segment_score segment ≤ 2) × ((segment_score segment ≡ 2) ↔ (contains star segment ≡ false))
unfolding segment_score
segment_score-max segment = elim (Bool-cases (text_eq segment (star ∷ []))) [
  | inl e ↦
      let only : segment ≡ star ∷ [] = (text_eq_iff segment (star ∷ [])).0 e in
      rw only (omega arith, (λ h. absurd (omega arith), λ h. cc))
  | inr e ↦ rw e (ground arith)
]

sum_scores-max :
    (segments : List Text)
    → (sum_scores segments ≤ 2 * length segments)
      × ((sum_scores segments ≡ 2 * length segments)
          ↔ (any (λ segment. contains star segment) segments ≡ false))
unfolding sum_scores
sum_scores-max [] = ground arith
sum_scores-max (x ∷ xs) =
    let (least, exact) = segment_score-max x in
    let (most, whole) = sum_scores-max xs in ground (arith, most, whole, least, exact)

-- A pattern scores at most two for each of its segments, and exactly that if it has no star.
pub specificity_max :
    (pattern : Text)
    → (calculate_specificity pattern ≤ 2 * length (split dot pattern))
      × ((calculate_specificity pattern ≡ 2 * length (split dot pattern))
          ↔ (contains star pattern ≡ false))
specificity_max pattern =
    rw (specificity-eq-sum pattern, contains-split pattern) (sum_scores-max (split dot pattern))
