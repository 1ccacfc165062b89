-- ===== src/Pattern/Tests.antt =====
-- utils/pattern.py: examples.
use apcore_python.Prelude.{◌≡◌, refl, ◌↔◌, true, false, codes, Text}
use apcore_python.Pattern.{match_pattern, match_glob, calculate_specificity, same_char, glob_char}
use apcore_python.Pattern.Meaning.{Matches}
use apcore_python.Pattern.Matching.{match_pattern_iff}
use apcore_python.Pattern.Globbing.{match_glob_iff}

abbrev deletes : Text
deletes = codes "orders.*_delete"

abbrev order_delete : Text
order_delete = codes "orders.v2.bulk_delete"

match_pattern_iff_example :
    (match_pattern deletes order_delete ≡ true) ↔ Matches same_char deletes order_delete
match_pattern_iff_example = match_pattern_iff deletes order_delete

match_glob_iff_example :
    (match_glob (codes "v?.*") (codes "v2.x") ≡ true)
    ↔ Matches glob_char (codes "v?.*") (codes "v2.x")
match_glob_iff_example = match_glob_iff (codes "v?.*") (codes "v2.x")

matches_delete : match_pattern deletes order_delete ≡ true
unfolding match_pattern
matches_delete = refl

no_question_in_acl : match_pattern (codes "v?.x") (codes "v2.x") ≡ false
unfolding match_pattern
no_question_in_acl = refl

question_in_glob : match_glob (codes "v?.x") (codes "v2.x") ≡ true
unfolding match_glob
question_in_glob = refl

specificity_of_partial : calculate_specificity (codes "api.v*.get") ≡ 5
unfolding calculate_specificity
specificity_of_partial = refl
