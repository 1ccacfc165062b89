-- ===== src/Conflicts.antt =====
-- registry/conflicts.py: `detect_id_conflicts`. IDs are texts of ASCII characters, for `lower`. A
-- conflict is its type; its severity and its message follow from the type.
use apcore_python.Prelude.{
  ℕ, ◌+◌, Bool, true, false, not, ◌&&◌, Option, none, some, List, [], ◌∷◌, Text, text_eq, any, leb,
  get, if◌then◌else◌,
}
use apcore_python.Pattern.{split, dot, first}
pub mod Detection
mod Tests

pub data ConflictType : Type 0 where
  duplicate_id reserved_word case_collision : ConflictType

abbrev pub lower_char : ℕ → ℕ
lower_char c = if leb 65 c && leb c 90 then c + 32 else c

-- `text.lower()`
abbrev pub lower : Text → Text
lower [] = []
lower (c ∷ text) = lower_char c ∷ lower text

-- `text in texts`
abbrev pub is_in : Text → List Text → Bool
is_in text texts = any (λ other. text_eq other text) texts

-- The map from lower case to an ID, where one is given.
abbrev pub LowercaseMap : Type 0
LowercaseMap = List (Text × Text)

abbrev pub other_in_map : Text → LowercaseMap → Bool
other_in_map new_id lowercase_map = elim (get text_eq (lower new_id) lowercase_map) [
  | none ↦ false
  | some existing ↦ not (text_eq existing new_id)
]

abbrev pub other_in_case : Text → Text → Bool
other_in_case new_id existing =
    text_eq (lower existing) (lower new_id) && not (text_eq existing new_id)

abbrev pub collides : Text → List Text → Option LowercaseMap → Bool
collides new_id existing_ids none = any (other_in_case new_id) existing_ids
collides new_id existing_ids (some lowercase_map) = other_in_map new_id lowercase_map

unfoldable pub detect_id_conflicts :
    Text → List Text → List Text → Option LowercaseMap → Option ConflictType
unfolding split
detect_id_conflicts new_id existing_ids reserved_words lowercase_map =
    if is_in new_id existing_ids
    then some duplicate_id
    else if is_in (first (split dot new_id)) reserved_words
    then some reserved_word
    else if collides new_id existing_ids lowercase_map
    then some case_collision
    else none
