-- ===== src/Names.antt =====
-- utils/normalize.py: names and module IDs of other languages, as canonical ones.
use apcore_python.Prelude.{
  ℕ, Bool, true, false, not, ◌&&◌, ◌||◌, Option, none, some, List, [], ◌∷◌, ◌++◌, Text, codes,
  text_eq, all, any, length, ltb, leb, ◌==◌, get, if◌then◌else◌,
}
use apcore_python.Pattern.{split, dot, cons_head, is_empty}
use apcore_python.Conflicts.{lower_char}
use apcore_python.ModuleIds.{is_letter, is_word, chomp, matches_id_pattern}
pub mod Shape
pub mod Fixed
pub mod Converted
mod Tests

pub data CanonicalNameError : Type 0 where
  empty_name non_ascii invalid_start name_too_long : CanonicalNameError

pub record CanonicalNameResult : Type 0 where
  pub original_name : Text
  pub canonical_name : Option Text
  pub error : Option CanonicalNameError

abbrev pub is_upper : ℕ → Bool
is_upper c = leb 65 c && leb c 90

abbrev pub is_lower_or_digit : ℕ → Bool
is_lower_or_digit c = is_letter c || (leb 48 c && leb c 57)

-- `[A-Za-z0-9_]`
abbrev pub is_name_char : ℕ → Bool
is_name_char c = is_word c || is_upper c

-- `_NAME_EDGE_RE.sub("", name)`: the other characters at the start, and those at the end
abbrev pub trim_start : Text → Text
trim_start [] = []
trim_start (c ∷ text) = let rest = trim_start text in if is_name_char c then c ∷ text else rest

abbrev pub trim_end : Text → Text
trim_end [] = []
trim_end (c ∷ text) =
    let rest = trim_end text in if is_empty rest && not (is_name_char c) then [] else c ∷ rest

-- `_NAME_SEPARATOR_RE.sub("_", text)`; the flag is whether the text goes on a run of other characters.
abbrev pub join_words : Bool → Text → Text
join_words inside [] = []
join_words inside (c ∷ text) =
    let next = join_words false text in
    let rest = join_words true text in
    if is_name_char c then c ∷ next else if inside then rest else 95 ∷ rest

abbrev pub starts_lower : Text → Bool
starts_lower [] = false
starts_lower (c ∷ text) = is_letter c

-- Whether an underscore goes between `prev` and `char`, with the text that follows.
abbrev pub is_boundary : ℕ → ℕ → Text → Bool
is_boundary prev char text =
    if is_lower_or_digit prev
    then is_upper char
    else is_upper prev && is_upper char && starts_lower text

abbrev pub snake_rest : ℕ → Text → Text
snake_rest prev [] = []
snake_rest prev (char ∷ text) =
    let rest = lower_char char ∷ snake_rest char text in
    if is_boundary prev char text then 95 ∷ rest else rest

unfoldable pub to_snake_case : Text → Text
to_snake_case [] = []
to_snake_case (char ∷ text) =
    if any is_upper (char ∷ text) then lower_char char ∷ snake_rest char text else char ∷ text

abbrev pub candidate_of : Text → Text
candidate_of name = join_words false (to_snake_case (trim_end (trim_start name)))

abbrev pub failed : Text → CanonicalNameError → CanonicalNameResult
failed name e = record { original_name = name; canonical_name = none; error = some e }

unfoldable pub canonicalize_name : Text → CanonicalNameResult
canonicalize_name name =
    if not (all (λ c. ltb c 128) name)
    then failed name non_ascii
    else if is_empty (candidate_of name)
    then failed name empty_name
    else if not (starts_lower (candidate_of name))
    then failed name invalid_start
    else if ltb 192 (length (candidate_of name))
    then failed name name_too_long
    else record { original_name = name; canonical_name = some (candidate_of name); error = none }

pub data Language : Type 0 where
  python rust go java typescript : Language

-- `segment.split("::")`
abbrev pub split_pair : Text → List Text
split_pair [] = [] ∷ []
split_pair (a ∷ []) = (a ∷ []) ∷ []
split_pair (a ∷ b ∷ text) =
    let after = split_pair text in
    let rest = split_pair (b ∷ text) in
    if (a == 58) && (b == 58) then [] ∷ after else cons_head a rest

-- `local_id.split(separator)`
abbrev pub split_local : Language → Text → List Text
split_local rust local_id = split_pair local_id
split_local python local_id = split dot local_id
split_local go local_id = split dot local_id
split_local java local_id = split dot local_id
split_local typescript local_id = split dot local_id

-- `_SEPARATORS`, by the language's name
unfoldable pub language_of : Text → Option Language
language_of name = get text_eq name (
    (codes "python", python)
    ∷ (codes "rust", rust)
    ∷ (codes "go", go)
    ∷ (codes "java", java)
    ∷ (codes "typescript", typescript)
    ∷ [])

-- `".".join(segments)`
abbrev pub join_dots : List Text → Text
join_dots [] = []
join_dots (segment ∷ []) = segment
join_dots (segment ∷ next ∷ segments) = segment ++ (dot ∷ join_dots (next ∷ segments))

abbrev pub snake_all : List Text → List Text
snake_all [] = []
snake_all (segment ∷ segments) = to_snake_case segment ∷ snake_all segments

abbrev pub conforming : Text → Option Text
conforming id = if matches_id_pattern id then some id else none

abbrev pub converted : Text → Option Language → Option Text
converted local_id none = none
converted local_id (some language) =
    conforming (join_dots (snake_all (split_local language local_id)))

-- `none` is the `ValueError`.
unfoldable pub normalize_to_canonical_id : Text → Text → Option Text
normalize_to_canonical_id local_id language =
    if is_empty local_id then none else converted local_id (language_of language)
