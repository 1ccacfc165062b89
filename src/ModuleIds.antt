-- ===== src/ModuleIds.antt =====
-- registry/registry.py: which module IDs are valid.
use apcore_python.Prelude.{
  ℕ, Bool, true, false, not, ◌&&◌, ◌||◌, Option, none, some, List, [], ◌∷◌, Text, codes, text_eq,
  all, length, ltb, leb, ◌==◌, if◌then◌else◌,
}
use apcore_python.Pattern.{split, dot, first}
use apcore_python.Conflicts.{is_in}
pub mod Valid
mod Tests

pub data IdFault : Type 0 where
  empty_id malformed too_long reserved : IdFault

abbrev pub is_letter : ℕ → Bool
is_letter c = leb 97 c && leb c 122

abbrev pub is_word : ℕ → Bool
is_word c = is_letter c || (leb 48 c && leb c 57) || (c == 95)

-- `[a-z][a-z0-9_]*`
abbrev pub is_segment : Text → Bool
is_segment [] = false
is_segment (c ∷ text) = is_letter c && all is_word text

-- A last newline, in front of which `$` matches too, is taken off.
abbrev pub chomp : Text → Text
chomp [] = []
chomp (c ∷ []) = if c == 10 then [] else c ∷ []
chomp (c ∷ d ∷ text) = c ∷ chomp (d ∷ text)

-- `MODULE_ID_PATTERN.match`
unfoldable pub matches_id_pattern : Text → Bool
unfolding split
matches_id_pattern text = all is_segment (split dot (chomp text))

abbrev pub reserved_words : List Text
reserved_words =
    codes "system"
    ∷ codes "internal"
    ∷ codes "core"
    ∷ codes "apcore"
    ∷ codes "plugin"
    ∷ codes "schema"
    ∷ codes "acl"
    ∷ []

abbrev pub max_module_id_length : ℕ
max_module_id_length = 192

unfoldable pub validate_module_id : Bool → Text → Option IdFault
unfolding matches_id_pattern split
validate_module_id allow_reserved module_id =
    if text_eq module_id []
    then some empty_id
    else if not (matches_id_pattern module_id)
    then some malformed
    else if ltb max_module_id_length (length module_id)
    then some too_long
    else if not allow_reserved && is_in (first (split dot module_id)) reserved_words
    then some reserved
    else none

-- `module_id == "ephemeral" or module_id.startswith("ephemeral.")`
abbrev pub is_ephemeral : Text → Bool
is_ephemeral module_id = text_eq (first (split dot module_id)) (codes "ephemeral")
