-- ===== src/Redaction/Surfaces.antt =====
-- utils/redaction.py, observability/context_logger.py: where the two redactions agree.
use apcore_python.Prelude.{
  ℕ, suc, ◌≡◌, refl, ap, ◌∙◌, Bool, true, not, ◌&&◌, List, Text, leb, arith, if◌then◌else◌,
}
use apcore_python.Redaction.{
  Value, null, other, str, dict, list, Fields, end, field, Items, nil, item, is_null, value_matches,
  is_sensitive, field_value, redact_by_keys_and_regex, descended, redact_in_list,
}
use apcore_python.Redaction.Emission.{
  max_redaction_depth, emitted_field, redact_secrets, redact_secret_fields, redact_secret_items,
}

module _ (sensitive_keys : List Text) (value_regexes : List (Text → Bool)) (token : Text) where
  -- No value stands deeper than the limit, and no null under a sensitive name.
  unfoldable mutual
    pub is_common : ℕ → Value → Bool
    is_common depth null = leb depth max_redaction_depth
    is_common depth (other n) = leb depth max_redaction_depth
    is_common depth (str text) = leb depth max_redaction_depth
    is_common depth (dict fields) =
        let below = common_fields depth fields in leb depth max_redaction_depth && below
    is_common depth (list items) =
        let below = common_items depth items in leb depth max_redaction_depth && below

    pub common_fields : ℕ → Fields → Bool
    common_fields depth end = true
    common_fields depth (field key value fields) =
        let below = is_common (suc depth) value in
        let rest = common_fields depth fields in
        not (is_null value && is_sensitive sensitive_keys value_regexes token key) && below && rest

    pub common_items : ℕ → Items → Bool
    common_items depth nil = true
    common_items depth (item value items) =
        let below = is_common (suc depth) value in
        let rest = common_items depth items in below && rest

  abbrev found_in : Value → Bool
  found_in value = value_matches sensitive_keys value_regexes token value

  abbrev descend : Value → Value
  descend value = descended sensitive_keys value_regexes token value

  abbrev in_list : Value → Value
  in_list value = if found_in value then str token else descend value

  field_agrees :
      (key : Text) (value below : Value)
      → not (is_null value && is_sensitive sensitive_keys value_regexes token key) ≡ true
      → below ≡ in_list value
      → emitted_field sensitive_keys value_regexes token key value below
        ≡ field_value sensitive_keys value_regexes token key value (descend value)
  unfolding value_matches descended
  field_agrees key null below n e = ground (arith, n, e)
  field_agrees key (other m) below n e = ground (arith, n, e)
  field_agrees key (str text) below n e = ground (arith, n, e)
  field_agrees key (dict fs) below n e = ground (arith, n, e)
  field_agrees key (list xs) below n e = ground (arith, n, e)

  mutual
    unfolding redact_secrets redact_secret_fields redact_secret_items redact_by_keys_and_regex
        descended redact_in_list is_common common_fields common_items value_matches

    value_agrees :
        (depth : ℕ) (value : Value)
        → is_common depth value ≡ true
        → redact_secrets sensitive_keys value_regexes token depth value ≡ in_list value
    value_agrees depth null c = refl
    value_agrees depth (other n) c = refl
    value_agrees depth (str text) c = ground (arith, c)
    value_agrees depth (dict fs) c = ground (arith, c, fields_agree depth fs)
    value_agrees depth (list xs) c = ground (arith, c, items_agree depth xs)

    fields_agree :
        (depth : ℕ) (fs : Fields)
        → common_fields depth fs ≡ true
        → redact_secret_fields sensitive_keys value_regexes token depth fs
          ≡ redact_by_keys_and_regex sensitive_keys value_regexes token fs
    fields_agree depth end c = refl
    fields_agree depth (field key value fs) c =
        ap (λ v. field key v (redact_secret_fields sensitive_keys value_regexes token depth fs))
          (field_agrees key value
            (redact_secrets sensitive_keys value_regexes token (suc depth) value) (ground arith)
            (value_agrees (suc depth) value (ground arith)))
        ∙ ap (field key (field_value sensitive_keys value_regexes token key value (descend value)))
            (fields_agree depth fs (ground arith))

    items_agree :
        (depth : ℕ) (xs : Items)
        → common_items depth xs ≡ true
        → redact_secret_items sensitive_keys value_regexes token depth xs
          ≡ redact_in_list sensitive_keys value_regexes token xs
    items_agree depth nil c = refl
    items_agree depth (item value xs) c =
        ap (λ v. item v (redact_secret_items sensitive_keys value_regexes token depth xs))
          (value_agrees (suc depth) value (ground arith))
        ∙ ap (item (in_list value)) (items_agree depth xs (ground arith))

  -- What is logged is redacted as what is captured is: on an object in which no value stands deeper
  -- than 32 and no null under a sensitive name, the two walks give the same.
  pub redact_secrets-eq-redact_by_keys_and_regex :
      (fs : Fields)
      → is_common 0 (dict fs) ≡ true
      → redact_secrets sensitive_keys value_regexes token 0 (dict fs)
        ≡ dict (redact_by_keys_and_regex sensitive_keys value_regexes token fs)
  unfolding redact_secrets is_common
  redact_secrets-eq-redact_by_keys_and_regex fs c = ap dict (fields_agree 0 fs (ground arith))
