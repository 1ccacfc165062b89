-- ===== src/Version/Best.antt =====
-- registry/version.py `select_best_version`: the version that is selected.
use apcore_python.Prelude.{
  not, any, Bool-cases, ◌≡◌, refl, inl, inr, Bool, true, false, Option, none, some, List, [], ◌∷◌,
  arith, Text, All, if◌then◌else◌,
}
use apcore_python.Version.Sorting.{
  Least, Ascending, sorted-Ascending, All-sorted, In, In-sorted, Least-In,
}
use apcore_python.Version.{
  split, strip, operator, is_operand, Operator, checked, all_satisfied, check_single_constraint,
  Semver, lower, parse_semver, matches_version_hint,
}
use apcore_python.Version.Select.{
  sorted_versions, matching, last_of, BestVersion, best, constraint_error, best_of,
  select_best_version,
}

-- The version is of the list, satisfies the hint, and no version that satisfies it is higher; or
-- there is none and no version satisfies the hint.
abbrev pub Selected : Text → List Text → Option Text → Type 0
Selected hint versions none = All (λ w. matches_version_hint w hint ≡ some false) versions
Selected hint versions (some v) =
    (matches_version_hint v hint ≡ some true)
    × In v versions
    × All
        (λ w.
          matches_version_hint w hint ≡ some true → lower (parse_semver v) (parse_semver w) ≡ false)
        versions

lower-irreflexive : (a : Semver) → lower a a ≡ false
lower-irreflexive a = ground arith

Selected-cons :
    (hint v : Text) (vs rest : List Text) (ok : Bool)
    → Least v vs
    → matches_version_hint v hint ≡ some ok
    → Selected hint vs (last_of rest)
    → Selected hint (v ∷ vs) (last_of (if ok then v ∷ rest else rest))
Selected-cons hint v vs rest true l m s = go (last_of rest) s
  where
    vacuous :
        (ws : List Text)
        → All (λ w. matches_version_hint w hint ≡ some false) ws
        → All
            (λ w.
              matches_version_hint w hint ≡ some true
              → lower (parse_semver v) (parse_semver w) ≡ false)
            ws
    vacuous [] a = tt
    vacuous (w ∷ ws) (a, as') = ((λ t. cc (a, t)), vacuous ws as')

    go :
        (o : Option Text)
        → Selected hint vs o
        → Selected hint (v ∷ vs) (elim o [ none ↦ some v | some y ↦ some y ])
    go none s = (m, inl refl, ((λ t. lower-irreflexive (parse_semver v)), vacuous vs s))
    go (some y) (t, i, a) = (t, inr i, ((λ _. Least-In v y vs l i), a))
Selected-cons hint v vs rest false l m s = go (last_of rest) s
  where
    go : (o : Option Text) → Selected hint vs o → Selected hint (v ∷ vs) o
    go none s = (m, s)
    go (some y) (t, i, a) = (t, inr i, ((λ f. cc (m, f)), a))

-- A part of the hint between commas that is no constraint: behind an operator, or none, there is no digit
-- first, or a character that no version has.
abbrev pub IsMalformed : Text → Type 0
IsMalformed hint =
    any (λ constraint. not (is_operand (operator (strip constraint)).1)) (split b',' hint) ≡ true

abbrev pub SelectedOf : Text → List Text → BestVersion → Type 0
SelectedOf hint versions constraint_error = IsMalformed hint
SelectedOf hint versions (best o) = Selected hint versions o

checked-malformed :
    (version : Semver) (found : Operator × Text)
    → checked version found ≡ none
    → is_operand found.1 ≡ false
checked-malformed version found e = elim (Bool-cases (is_operand found.1)) [
  | inr wrong ↦ wrong
  | inl right ↦ ground (arith, right, e)
]

abbrev HasMalformed : List Text → Type 0
HasMalformed constraints =
    any (λ constraint. not (is_operand (operator (strip constraint)).1)) constraints ≡ true

all_satisfied-HasMalformed :
    (version : Semver) (constraints : List Text)
    → all_satisfied version constraints ≡ none
    → HasMalformed constraints
unfolding check_single_constraint
all_satisfied-HasMalformed version [] e = ground (arith, e)
all_satisfied-HasMalformed version (constraint ∷ constraints) e =
    go (checked version (operator (strip constraint))) refl e
      (all_satisfied-HasMalformed version constraints)
  where
    go :
        (answer : Option Bool)
        → checked version (operator (strip constraint)) ≡ answer
        → (elim answer as (λ _. Option Bool) [
          | none ↦ none
          | some false ↦ some false
          | some true ↦ all_satisfied version constraints
        ])
          ≡ none
        → (all_satisfied version constraints ≡ none → HasMalformed constraints)
        → HasMalformed (constraint ∷ constraints)
    go none a e rest = ground (arith, checked-malformed version (operator (strip constraint)) a)
    go (some false) a e rest = ground (arith, e)
    go (some true) a e rest = ground (arith, rest e)

hint-IsMalformed :
    (version hint : Text) → matches_version_hint version hint ≡ none → IsMalformed hint
unfolding matches_version_hint
hint-IsMalformed version hint e =
    all_satisfied-HasMalformed (parse_semver version) (split b',' hint) e

matching-Selected :
    (hint : Text) (vs : List Text) → Ascending vs → SelectedOf hint vs (best_of (matching hint vs))
matching-Selected hint [] a = tt
matching-Selected hint (v ∷ vs) (l, a) =
    go (matches_version_hint v hint) refl (matching hint vs) (matching-Selected hint vs a)
  where
    go :
        (m : Option Bool)
        → matches_version_hint v hint ≡ m
        → (rest : Option (List Text)) → SelectedOf hint vs (best_of rest)
        → SelectedOf hint (v ∷ vs) (
            best_of (elim m [
              | none ↦ none
              | some ok ↦ elim rest [
                | none ↦ none
                | some rest ↦ some (if ok then v ∷ rest else rest)
              ]
            ]))
    go none e rest s = hint-IsMalformed v hint e
    go (some ok) e none s = s
    go (some ok) e (some rest) s = Selected-cons hint v vs rest ok l e s

sorted-Selected :
    (hint : Text) (vs : List Text) (o : Option Text)
    → Selected hint (sorted_versions vs) o
    → Selected hint vs o
sorted-Selected hint vs none s = All-sorted _ vs s
sorted-Selected hint vs (some v) (m, i, a) = (m, In-sorted v vs i, All-sorted _ vs a)

-- With a hint, the version that is selected is of the list and satisfies the hint, and no version
-- that satisfies it is higher; none is selected only where no version satisfies the hint; and there
-- is an error only where a part of the hint between commas is no constraint.
pub select_best_version-Selected :
    (versions : List Text) (hint : Text)
    → SelectedOf hint versions (select_best_version versions (some hint))
unfolding select_best_version
select_best_version-Selected [] hint = tt
select_best_version-Selected (v ∷ vs) hint =
    go (best_of (matching hint (sorted_versions (v ∷ vs))))
      (matching-Selected hint (sorted_versions (v ∷ vs)) (sorted-Ascending (v ∷ vs)))
  where
    go :
        (b : BestVersion)
        → SelectedOf hint (sorted_versions (v ∷ vs)) b
        → SelectedOf hint (v ∷ vs) b
    go constraint_error s = s
    go (best o) s = sorted-Selected hint (v ∷ vs) o s
