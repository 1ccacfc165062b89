-- ===== src/Conflicts/Detection.antt =====
-- registry/conflicts.py: an ID without a conflict.
use apcore_python.Prelude.{
  ◌≡◌, ◌≢◌, refl, ap, ◌↔◌, true, false, none, List, [], ◌∷◌, arith, Text, text_eq, text_eq_iff, any,
  All,
}
use apcore_python.Pattern.{split, dot, first}
use apcore_python.Conflicts.{lower, is_in, other_in_case, detect_id_conflicts}

is_in_iff :
    (text : Text) (texts : List Text)
    → (is_in text texts ≡ false) ↔ All (λ other. other ≢ text) texts
is_in_iff text [] = ((λ e. tt), λ a. refl)
is_in_iff text (x ∷ texts) = ground (arith, is_in_iff text texts, text_eq_iff x text)

case_iff :
    (new_id : Text) (texts : List Text)
    → ((is_in new_id texts ≡ false) × (any (other_in_case new_id) texts ≡ false))
      ↔ All (λ other. lower other ≢ lower new_id) texts
case_iff new_id [] = ((λ e. tt), λ a. (refl, refl))
case_iff new_id (x ∷ texts) =
    ground (
      arith,
      case_iff new_id texts,
      text_eq_iff x new_id,
      text_eq_iff (lower x) (lower new_id),
      same,
    )
  where
    same : text_eq x new_id ≡ true → lower x ≡ lower new_id
    same e = ap lower ((text_eq_iff x new_id).0 e)

-- Without a map, an ID has no conflict just where its first segment is not reserved and no ID that
-- is registered is the same up to the case of its letters.
pub detect_id_conflicts-none_iff :
    (new_id : Text) (existing_ids reserved_words : List Text)
    → (detect_id_conflicts new_id existing_ids reserved_words none ≡ none) ↔ (
        All (λ word. word ≢ first (split dot new_id)) reserved_words
        × All (λ other. lower other ≢ lower new_id) existing_ids)
unfolding detect_id_conflicts
detect_id_conflicts-none_iff new_id existing_ids reserved_words =
    ground
      (arith, is_in_iff (first (split dot new_id)) reserved_words, case_iff new_id existing_ids)
