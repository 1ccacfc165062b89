-- ===== src/Version/Select.antt =====
-- registry/version.py: `select_best_version`.
use apcore_python.Prelude.{Option, none, some, List, [], ◌∷◌, Text, if◌then◌else◌}
use apcore_python.Version.{lower, parse_semver, matches_version_hint}

-- `sorted(versions, key=parse_semver)`: stable
abbrev pub insert : Text → List Text → List Text
insert x [] = x ∷ []
insert x (y ∷ ys) =
    let rest = insert x ys in
    if lower (parse_semver y) (parse_semver x) then y ∷ rest else x ∷ y ∷ ys

abbrev pub sorted_versions : List Text → List Text
sorted_versions [] = []
sorted_versions (x ∷ xs) = insert x (sorted_versions xs)

-- `[v for v in sorted_versions if matches_version_hint(v, version_hint)]`, none where it raises
abbrev pub matching : Text → List Text → Option (List Text)
matching hint [] = some []
matching hint (v ∷ vs) = elim (matches_version_hint v hint) [
  | none ↦ none
  | some ok ↦ elim (matching hint vs) [
    | none ↦ none
    | some rest ↦ some (if ok then v ∷ rest else rest)
  ]
]

-- `xs[-1] if xs else None`
abbrev pub last_of : List Text → Option Text
last_of [] = none
last_of (x ∷ xs) = elim (last_of xs) [ none ↦ some x | some y ↦ some y ]

pub data BestVersion : Type 0 where
  best : Option Text → BestVersion
  constraint_error : BestVersion

abbrev pub best_of : Option (List Text) → BestVersion
best_of none = constraint_error
best_of (some versions) = best (last_of versions)

unfoldable pub select_best_version : List Text → Option Text → BestVersion
unfolding parse_semver matches_version_hint
select_best_version [] hint = best none
select_best_version (v ∷ vs) none = best (last_of (sorted_versions (v ∷ vs)))
select_best_version (v ∷ vs) (some hint) = best_of (matching hint (sorted_versions (v ∷ vs)))
