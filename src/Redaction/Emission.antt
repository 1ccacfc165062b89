-- ===== src/Redaction/Emission.antt =====
-- observability/context_logger.py: the redaction of what is logged, with a depth limit.
use apcore_python.Prelude.{ℕ, suc, Bool, true, false, not, ◌&&◌, List, Text, ltb, if◌then◌else◌}
use apcore_python.Redaction.{
  Value, null, other, str, dict, list, Fields, end, field, Items, nil, item, is_protected,
  value_matches, is_sensitive,
}

abbrev pub max_redaction_depth : ℕ
max_redaction_depth = 32

abbrev pub is_container : Value → Bool
is_container (dict fields) = true
is_container (list items) = true
is_container _ = false

module _ (sensitive_keys : List Text) (value_regexes : List (Text → Bool)) (token : Text) where
  abbrev pub found : Value → Bool
  found value = value_matches sensitive_keys value_regexes token value

  -- One round of the loop over a mapping, given what the walk makes of the value.
  abbrev pub emitted_field : Text → Value → Value → Value
  emitted_field key value below =
      if is_sensitive sensitive_keys value_regexes token key
      then str token
      else if not (is_protected key) && found value
      then str token
      else if is_protected key && not (is_container value)
      then value
      else below

  -- `_redact_secrets_recursive` at a depth
  unfoldable mutual
    pub redact_secrets : ℕ → Value → Value
    redact_secrets depth null = null
    redact_secrets depth (other n) = other n
    redact_secrets depth (str text) =
        if ltb max_redaction_depth depth
        then str text
        else if found (str text)
        then str token
        else str text
    redact_secrets depth (dict fields) =
        let below = redact_secret_fields depth fields in
        if ltb max_redaction_depth depth then dict fields else dict below
    redact_secrets depth (list items) =
        let below = redact_secret_items depth items in
        if ltb max_redaction_depth depth then list items else list below

    pub redact_secret_fields : ℕ → Fields → Fields
    redact_secret_fields depth end = end
    redact_secret_fields depth (field key value fields) =
        let below = redact_secrets (suc depth) value in
        let rest = redact_secret_fields depth fields in
        field key (emitted_field key value below) rest

    pub redact_secret_items : ℕ → Items → Items
    redact_secret_items depth nil = nil
    redact_secret_items depth (item value items) =
        let below = redact_secrets (suc depth) value in
        let rest = redact_secret_items depth items in item below rest
