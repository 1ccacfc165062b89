-- ===== src/Version/Tests.antt =====
-- registry/version.py: examples.
use apcore_python.Prelude.{◌≡◌, refl, true, none, some, List, [], ◌∷◌, Text, codes}
use apcore_python.Version.{semver, parse_semver, matches_version_hint, check_single_constraint}
use apcore_python.Version.Select.{select_best_version, best, constraint_error}
use apcore_python.Version.Best.{SelectedOf, select_best_version-Selected}

abbrev versions : List Text
versions = codes "1.10.0" ∷ codes "1.9.3" ∷ codes "2.0.0" ∷ []

select_best_version-Selected_example :
    SelectedOf (codes "^1.2") versions (select_best_version versions (some (codes "^1.2")))
select_best_version-Selected_example = select_best_version-Selected versions (codes "^1.2")

ten_is_above_nine :
    select_best_version versions (some (codes "^1.2")) ≡ best (some (codes "1.10.0"))
unfolding select_best_version
ten_is_above_nine = refl

malformed_hint : select_best_version versions (some (codes "v1")) ≡ constraint_error
unfolding select_best_version
malformed_hint = refl

parsed : parse_semver (codes " 1.2-beta") ≡ semver 1 2 0
unfolding parse_semver
parsed = refl

both_bounds : matches_version_hint (codes "1.5.0") (codes ">=1.0.0, <2.0.0") ≡ some true
unfolding matches_version_hint
both_bounds = refl

no_operand : check_single_constraint (semver 1 0 0) (codes ">=") ≡ none
unfolding check_single_constraint
no_operand = refl

no_letter : check_single_constraint (semver 1 0 0) (codes "v1.0.0") ≡ none
unfolding check_single_constraint
no_letter = refl
