-- ===== src/Pattern.antt =====
-- utils/pattern.py: `match_pattern` (Algorithm A08), `match_glob` (A25), `calculate_specificity`
-- (A10). A text is its list of code points. `str.split`, `startswith`, `endswith`, `find` and `in`
-- are the language's; positions are offsets into the module ID, as in the source.
pub mod Find
pub mod Segments
pub mod Meaning
pub mod Anchors
pub mod Matching
pub mod Globbing
pub mod Specificity
mod Tests
use apcore_python.Prelude.{
  ℕ, zero, suc, ◌+◌, ◌-◌, Bool, true, false, not, ◌&&◌, ◌||◌, Option, none, some, List, [], ◌∷◌,
  length, take, drop, any, leb, ◌==◌, if◌then◌else◌, Text, text_eq,
}
use mathlib.Core.Option

abbrev pub star : ℕ
star = b'*'

abbrev pub question : ℕ
question = b'?'

abbrev pub dot : ℕ
dot = b'.'

-- `sep in text`
abbrev pub contains : ℕ → Text → Bool
contains sep text = any (λ c. c == sep) text

abbrev pub cons_head : ℕ → List Text → List Text
cons_head c [] = (c ∷ []) ∷ []
cons_head c (segment ∷ segments) = (c ∷ segment) ∷ segments

-- `text.split(sep)`: never empty
unfoldable pub split : ℕ → Text → List Text
split sep [] = [] ∷ []
split sep (c ∷ text) = let rest = split sep text in if c == sep then [] ∷ rest else cons_head c rest

abbrev pub first : List Text → Text
first [] = []
first (segment ∷ _) = segment

abbrev pub rest_of : List Text → List Text
rest_of [] = []
rest_of (_ ∷ segments) = segments

abbrev pub last : List Text → Text
last [] = []
last (segment ∷ []) = segment
last (_ ∷ segment ∷ segments) = last (segment ∷ segments)

-- `segments[:-1]`
abbrev pub all_but_last : List Text → List Text
all_but_last [] = []
all_but_last (segment ∷ []) = []
all_but_last (a ∷ b ∷ segments) = a ∷ all_but_last (b ∷ segments)

abbrev pub is_empty : Text → Bool
is_empty [] = true
is_empty (_ ∷ _) = false

-- A character of a pattern against one of the text. `match_pattern` compares; for `match_glob`
-- the `?` takes any character.
abbrev pub same_char : ℕ → ℕ → Bool
same_char p c = p == c

abbrev pub glob_char : ℕ → ℕ → Bool
glob_char p c = p == question || p == c

module _ (accepts : ℕ → ℕ → Bool) where
  -- `all(... for sc, tc in zip(segment, text))`, behind the test on the lengths
  abbrev pub match_prefix : Text → Text → Bool
  match_prefix [] text = true
  match_prefix (p ∷ segment) [] = false
  match_prefix (p ∷ segment) (c ∷ text) = accepts p c && match_prefix segment text

  abbrev pub match_exact : Text → Text → Bool
  match_exact segment text = (length segment == length text) && match_prefix segment text

  -- the first offset at which the segment stands in the text
  unfoldable pub find_at : Text → Text → Option ℕ
  find_at segment [] = if match_prefix segment [] then some 0 else none
  find_at segment (c ∷ text) =
      if match_prefix segment (c ∷ text) then some 0 else Option.map suc (find_at segment text)

-- `text.startswith(segment)` and `text.endswith(segment)`
abbrev pub starts_with : Text → Text → Bool
starts_with text segment = match_prefix same_char segment text

abbrev pub ends_with : Text → Text → Bool
ends_with text segment =
    leb (length segment) (length text) && text_eq segment (drop (length text - length segment) text)

-- `text.find(segment, pos)`, with `none` for -1
unfoldable pub find : Text → Text → ℕ → Option ℕ
unfolding find_at
find text segment pos = Option.map (λ i. pos + i) (find_at same_char segment (drop pos text))

-- The loop over the segments; the result is the last `pos`, or `none` where the code returns False.
pub scan : List Text → Text → ℕ → Option ℕ
scan [] module_id pos = some pos
scan (segment ∷ segments) module_id pos = elim (is_empty segment) [
  | true ↦ scan segments module_id pos
  | false ↦ elim (find module_id segment pos) [
    | none ↦ none
    | some idx ↦ scan segments module_id (idx + length segment)
  ]
]

abbrev finish : Text → List Text → Text → Option ℕ → Bool
finish pattern segments module_id none = false
finish pattern segments module_id (some pos) =
    if not (ends_with pattern (star ∷ [])) then ends_with module_id (last segments) else true

unfoldable pub match_pattern : Text → Text → Bool
unfolding split find scan
match_pattern pattern module_id =
    if text_eq pattern (star ∷ [])
    then true
    else if not (contains star pattern)
    then text_eq pattern module_id
    else let segments = split star pattern in
      if starts_with pattern (star ∷ [])
      then finish pattern segments module_id (scan (rest_of segments) module_id 0)
      else if starts_with module_id (first segments)
      then finish pattern segments module_id
          (scan (rest_of segments) module_id (length (first segments)))
      else false

-- `while i <= end`, with the rounds that are left
pub glob_find : ℕ → ℕ → Text → Text → Option ℕ
glob_find zero i segment value = none
glob_find (suc rounds) i segment value =
    let later = glob_find rounds (i + 1) segment value in
    if match_exact glob_char segment (take (length segment) (drop i value)) then some i else later

-- The loop over `segments[1:-1]`.
pub glob_scan : List Text → Text → ℕ → Option ℕ
glob_scan [] value pos = some pos
glob_scan (segment ∷ segments) value pos = elim (is_empty segment) [
  | true ↦ glob_scan segments value pos
  | false ↦ elim (glob_find (length value + 1 - length segment - pos) pos segment value) [
    | none ↦ none
    | some idx ↦ glob_scan segments value (idx + length segment)
  ]
]

abbrev glob_finish : Text → Text → Option ℕ → Bool
glob_finish tail value none = false
glob_finish tail value (some pos) =
    if is_empty tail
    then true
    else if leb (length tail) (length value - pos)
    then match_exact glob_char tail (drop (length value - length tail) value)
    else false

abbrev glob_segments : List Text → Text → Bool
glob_segments [] value = false
glob_segments (segment ∷ []) value = match_exact glob_char segment value
glob_segments (segment ∷ next ∷ segments) value =
    if match_prefix glob_char segment value
    then glob_finish (last (next ∷ segments)) value
        (glob_scan (all_but_last (next ∷ segments)) value (length segment))
    else false

unfoldable pub match_glob : Text → Text → Bool
unfolding split glob_find glob_scan
match_glob pattern value = glob_segments (split star pattern) value

segment_score : Text → ℕ
segment_score segment =
    if text_eq segment (star ∷ []) then 0 else if contains star segment then 1 else 2

sum_scores : List Text → ℕ
sum_scores [] = 0
sum_scores (segment ∷ segments) = segment_score segment + sum_scores segments

unfoldable pub calculate_specificity : Text → ℕ
unfolding split segment_score sum_scores
calculate_specificity pattern =
    if text_eq pattern (star ∷ []) then 0 else sum_scores (split dot pattern)
