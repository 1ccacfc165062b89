-- ===== src/Version.antt =====
-- registry/version.py: versions, constraints and the best version. Versions and hints are texts of
-- ASCII characters, so `\d`, `\w` and the whitespace of `strip` are those of ASCII.
use apcore_python.Prelude.{
  ℕ, ◌+◌, ◌-◌, ◌*◌, Bool, true, false, not, ◌&&◌, ◌||◌, Option, none, some, List, [], ◌∷◌, ◌++◌,
  Text, any, all, length, ltb, leb, ◌==◌, if◌then◌else◌,
}
use apcore_python.Pattern.{split, dot}
pub mod Ranges
pub mod Select
pub mod Sorting
pub mod Best
mod Tests

pub record Semver : Type 0 where
  pub major : ℕ
  pub minor : ℕ
  pub patch : ℕ

abbrev pub semver : ℕ → ℕ → ℕ → Semver
semver major minor patch = record { major = major; minor = minor; patch = patch }

-- `a < b` on the tuples
abbrev pub lower : Semver → Semver → Bool
lower a b =
    ltb a.major b.major
    || ((a.major == b.major)
        && (ltb a.minor b.minor || ((a.minor == b.minor) && ltb a.patch b.patch)))

abbrev is_digit : ℕ → Bool
is_digit c = leb 48 c && leb c 57

-- `[\w.\-+]`
abbrev is_operand_char : ℕ → Bool
is_operand_char c =
    is_digit c
    || (leb 65 c && leb c 90)
    || (leb 97 c && leb c 122)
    || (c == 95)
    || (c == 46)
    || (c == 45)
    || (c == 43)

abbrev pub is_space : ℕ → Bool
is_space c = (leb 9 c && leb c 13) || (leb 28 c && leb c 32)

abbrev pub strip_left : Text → Text
strip_left [] = []
strip_left (c ∷ text) = if is_space c then strip_left text else c ∷ text

abbrev pub strip_right : Text → Text
strip_right [] = []
strip_right (c ∷ text) = elim (strip_right text) [
  | [] ↦ if is_space c then [] else c ∷ []
  | kept ↦ c ∷ kept
]

unfoldable pub strip : Text → Text
strip text = strip_right (strip_left text)

-- the digits at the front, with the value so far, and the rest
abbrev digits : ℕ → Text → ℕ × Text
digits value [] = (value, [])
digits value (c ∷ text) =
    if is_digit c then digits (10 * value + (c - 48)) text else (value, c ∷ text)

-- `(\d+)`
abbrev number : Text → Option (ℕ × Text)
number [] = none
number (c ∷ text) = if is_digit c then some (digits (c - 48) text) else none

-- `(?:\.(\d+))?`
abbrev dot_number : Text → ℕ × Text
dot_number [] = (0, [])
dot_number (c ∷ text) =
    if c == dot
    then elim (number text) [ none ↦ (0, c ∷ text) | some found ↦ found ]
    else (0, c ∷ text)

unfoldable pub parse_semver : Text → Semver
unfolding strip
parse_semver version = elim (number (strip version)) [
  | none ↦ semver 0 0 0
  | some (major, rest) ↦
      let (minor, rest') = dot_number rest in
      let (patch, rest'') = dot_number rest' in semver major minor patch
]

unfoldable pub caret_upper_bound : Semver → Semver
caret_upper_bound target =
    if ltb 0 target.major
    then semver (target.major + 1) 0 0
    else if ltb 0 target.minor
    then semver 0 (target.minor + 1) 0
    else semver 0 0 (target.patch + 1)

unfoldable pub tilde_upper_bound : Semver → ℕ → Semver
tilde_upper_bound target part_count =
    if leb 2 part_count
    then semver target.major (target.minor + 1) 0
    else semver (target.major + 1) 0 0

pub data Operator : Type 0 where
  exactly at_least above at_most below caret tilde : Operator

-- `a == b` on the tuples
abbrev pub same_version : Semver → Semver → Bool
same_version a b = (a.major == b.major) && (a.minor == b.minor) && (a.patch == b.patch)

-- the end of `_check_single_constraint`, where the constraint is parsed
unfoldable pub satisfies : Operator → ℕ → Semver → Semver → Bool
unfolding caret_upper_bound tilde_upper_bound
satisfies caret parts target version =
    not (lower version target) && lower version (caret_upper_bound target)
satisfies tilde parts target version =
    not (lower version target) && lower version (tilde_upper_bound target parts)
satisfies exactly parts target version =
    if parts == 1
    then version.major == target.major
    else if parts == 2
    then (version.major == target.major) && (version.minor == target.minor)
    else same_version version target
satisfies at_least parts target version = not (lower version target)
satisfies above parts target version = lower target version
satisfies at_most parts target version = not (lower target version)
satisfies below parts target version = lower version target

-- the operator of `_CONSTRAINT_RE`, `=` where there is none, and the operand
abbrev pub operator : Text → Operator × Text
operator [] = (exactly, [])
operator (c ∷ []) =
    if c == b'>'
    then (above, [])
    else if c == b'<'
    then (below, [])
    else if c == b'^'
    then (caret, [])
    else if c == b'~'
    then (tilde, [])
    else if c == b'='
    then (exactly, [])
    else (exactly, c ∷ [])
operator (c ∷ d ∷ text) =
    if (c == b'>') && (d == b'=')
    then (at_least, text)
    else if (c == b'<') && (d == b'=')
    then (at_most, text)
    else if c == b'>'
    then (above, d ∷ text)
    else if c == b'<'
    then (below, d ∷ text)
    else if c == b'^'
    then (caret, d ∷ text)
    else if c == b'~'
    then (tilde, d ∷ text)
    else if c == b'='
    then (exactly, d ∷ text)
    else (exactly, c ∷ d ∷ text)

-- `\d[\w.\-+]*`
abbrev pub is_operand : Text → Bool
is_operand [] = false
is_operand (c ∷ text) = is_digit c && all is_operand_char text

abbrev pub checked : Semver → Operator × Text → Option Bool
checked version (op, operand) =
    if is_operand operand
    then some (satisfies op (length (split dot operand)) (parse_semver operand) version)
    else none

-- none where it raises `VersionConstraintError`
unfoldable pub check_single_constraint : Semver → Text → Option Bool
unfolding strip satisfies parse_semver split
check_single_constraint version constraint = checked version (operator (strip constraint))

-- `all(...)` over the constraints: it stops at the first that is not satisfied
abbrev pub all_satisfied : Semver → List Text → Option Bool
all_satisfied version [] = some true
all_satisfied version (constraint ∷ constraints) =
    elim (check_single_constraint version constraint) [
      | none ↦ none
      | some false ↦ some false
      | some true ↦ all_satisfied version constraints
    ]

unfoldable pub matches_version_hint : Text → Text → Option Bool
unfolding check_single_constraint split parse_semver
matches_version_hint version hint = all_satisfied (parse_semver version) (split b',' hint)
