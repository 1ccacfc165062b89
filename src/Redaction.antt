-- ===== src/Redaction.antt =====
-- utils/redaction.py: redaction by field names and by regexes over the values, which is the second
-- half of `redact_sensitive`. A regex is the test of whether its search finds something in a text.
-- The markers in a schema, which the first half follows, are left out. Names and entries are of ASCII
-- characters, which `lower` knows.
use apcore_python.Prelude.{
  ℕ, Bool, true, false, not, ◌&&◌, ◌||◌, List, [], ◌∷◌, Text, codes, any, ◌==◌, is_some,
  if◌then◌else◌,
}
use apcore_python.Pattern.{star, question, contains, is_empty, find, match_glob}
use apcore_python.Conflicts.{lower, is_in}
pub mod Clean
pub mod Alike
pub mod Emission
pub mod Surfaces
mod Tests

-- What JSON holds; a number or a Boolean is the number of its object.
mutual
  pub data Value : Type 0 where
    null : Value
    other : ℕ → Value
    str : Text → Value
    dict : Fields → Value
    list : Items → Value

  pub data Fields : Type 0 where
    end : Fields
    field : Text → Value → Fields → Fields

  pub data Items : Type 0 where
    nil : Items
    item : Value → Items → Items

abbrev pub protected_log_fields : List Text
protected_log_fields =
    codes "trace_id"
    ∷ codes "span_id"
    ∷ codes "caller_id"
    ∷ codes "module_id"
    ∷ codes "target_id"
    ∷ []

abbrev pub is_separator : ℕ → Bool
is_separator c = (c == 45) || (c == 32)

-- `text.replace("-", "_").replace(" ", "_")`
abbrev pub underscored : Text → Text
underscored [] = []
underscored (c ∷ text) = (if is_separator c then 95 else c) ∷ underscored text

-- the same with all three replaced by nothing
abbrev pub squeezed : Text → Text
squeezed [] = []
squeezed (c ∷ text) =
    let rest = squeezed text in if is_separator c || (c == 95) then rest else c ∷ rest

abbrev pub normalize_for_match : Text → Text
normalize_for_match text = underscored (lower text)

abbrev pub compact_for_match : Text → Text
compact_for_match text = squeezed (lower text)

-- `part in text`
abbrev pub occurs : Text → Text → Bool
occurs part text = is_some (find text part 0)

-- One round of the loop of `_key_matches`.
abbrev pub entry_matches : Text → Text → Bool
entry_matches key pat =
    if is_empty pat
    then false
    else if contains star (lower pat) || contains question (lower pat)
    then match_glob (lower pat) (lower key)
    else occurs (normalize_for_match pat) (normalize_for_match key)
      || occurs (compact_for_match pat) (compact_for_match key)

unfoldable pub key_matches : Text → List Text → Bool
key_matches key sensitive_keys = any (entry_matches key) sensitive_keys

abbrev pub is_null : Value → Bool
is_null null = true
is_null _ = false

unfoldable pub is_protected : Text → Bool
is_protected key = is_in key protected_log_fields

module _ (sensitive_keys : List Text) (value_regexes : List (Text → Bool)) (token : Text) where
  unfoldable pub value_matches : Value → Bool
  value_matches (str text) = any (λ pat. pat text) value_regexes
  value_matches _ = false

  -- What the field's name decides.
  abbrev pub is_sensitive : Text → Bool
  is_sensitive key = not (is_protected key) && key_matches key sensitive_keys

  -- One round of the loop of `_redact_by_keys_and_regex`, given what the walk makes of the value.
  abbrev pub field_value : Text → Value → Value → Value
  field_value key value below =
      if is_null value
      then value
      else if is_sensitive key
      then str token
      else if not (is_protected key) && value_matches value
      then str token
      else below

  unfoldable mutual
    pub redact_by_keys_and_regex : Fields → Fields
    redact_by_keys_and_regex end = end
    redact_by_keys_and_regex (field key value fields) =
        let below = descended value in
        let rest = redact_by_keys_and_regex fields in field key (field_value key value below) rest

    -- the walk into a container
    pub descended : Value → Value
    descended null = null
    descended (other n) = other n
    descended (str text) = str text
    descended (dict fields) = dict (redact_by_keys_and_regex fields)
    descended (list items) = list (redact_in_list items)

    pub redact_in_list : Items → Items
    redact_in_list nil = nil
    redact_in_list (item value items) =
        let below = descended value in
        let rest = redact_in_list items in
        item (if value_matches value then str token else below) rest
