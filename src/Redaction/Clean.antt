-- ===== src/Redaction/Clean.antt =====
-- utils/redaction.py: what is left after a redaction.
use apcore_python.Prelude.{
  ◌≡◌, ◌↔◌, refl, ap, sym, ◌∙◌, inl, inr, Bool, true, false, not, ◌&&◌, ◌||◌, List, Text, text_eq,
  text_eq_iff, arith, Bool-cases, either_case,
}
use apcore_python.Redaction.{
  Value, null, other, str, dict, list, Fields, end, field, Items, nil, item, is_null, is_protected,
  value_matches, is_sensitive, field_value, redact_by_keys_and_regex, descended, redact_in_list,
}

module _ (sensitive_keys : List Text) (value_regexes : List (Text → Bool)) (token : Text) where
  abbrev is_token : Value → Bool
  is_token (str text) = text_eq text token
  is_token _ = false

  abbrev finds : Value → Bool
  finds value = value_matches sensitive_keys value_regexes token value

  abbrev hidden_name : Text → Bool
  hidden_name key = is_sensitive sensitive_keys value_regexes token key

  abbrev descend : Value → Value
  descend value = descended sensitive_keys value_regexes token value

  -- A field is null or the token, or it shows nothing: not under its name, and not as a text unless the
  -- name is protected; and what it holds is clean.
  abbrev clean_field : Text → Value → Bool → Bool
  clean_field key value below =
      is_null value
      || is_token value
      || (not (hidden_name key) && (is_protected key || not (finds value)) && below)

  unfoldable mutual
    pub clean_fields : Fields → Bool
    clean_fields end = true
    clean_fields (field key value fields) =
        let below = clean_below value in
        let rest = clean_fields fields in clean_field key value below && rest

    pub clean_below : Value → Bool
    clean_below null = true
    clean_below (other n) = true
    clean_below (str text) = true
    clean_below (dict fields) = clean_fields fields
    clean_below (list items) = clean_items items

    pub clean_items : Items → Bool
    clean_items nil = true
    clean_items (item value items) =
        let below = clean_below value in
        let rest = clean_items items in (is_token value || not (finds value)) && below && rest

  token_eq : text_eq token token ≡ true
  token_eq = (text_eq_iff token token).1 refl

  -- What the walk makes of a value is the same kind of value, and a text stays as it is.
  descended-kind :
      (value : Value)
      → (is_null (descend value) ≡ is_null value) × (finds (descend value) ≡ finds value)
  unfolding descended value_matches
  descended-kind null = (refl, refl)
  descended-kind (other n) = (refl, refl)
  descended-kind (str text) = (refl, refl)
  descended-kind (dict fields) = (refl, refl)
  descended-kind (list items) = (refl, refl)

  abbrev IsCleanField : Text → Value → Type 0
  IsCleanField key value = clean_field key value (clean_below value) ≡ true

  token_clean : (key : Text) → clean_field key (str token) (clean_below (str token)) ≡ true
  token_clean key = ground (arith, token_eq)

  field_clean :
      (key : Text) (value : Value)
      → clean_below (descend value) ≡ true
      → clean_field key
          (field_value sensitive_keys value_regexes token key value (descend value))
          (clean_below (field_value sensitive_keys value_regexes token key value (descend value)))
        ≡ true
  field_clean key value e =
      either_case (IsCleanField key) (is_null value) (λ n. ground (arith, n))
        (λ some_value.
          either_case (IsCleanField key) (hidden_name key) (λ s. token_clean key)
            (λ shown.
              either_case (IsCleanField key) (not (is_protected key) && finds value)
                (λ m. token_clean key) (λ missed. kept shown missed)))
    where
      kept :
          hidden_name key ≡ false
          → (not (is_protected key) && finds value) ≡ false
          → clean_field key (descend value) (clean_below (descend value)) ≡ true
      kept shown missed = ground (arith, shown, missed, e, (descended-kind value).1)

  mutual
    unfolding redact_by_keys_and_regex descended redact_in_list clean_fields clean_below clean_items

    fields-clean :
        (fs : Fields)
        → clean_fields (redact_by_keys_and_regex sensitive_keys value_regexes token fs) ≡ true
    fields-clean end = refl
    fields-clean (field key value fs) =
        ground (arith, field_clean key value (below-clean value), fields-clean fs)

    below-clean : (value : Value) → clean_below (descend value) ≡ true
    below-clean null = refl
    below-clean (other n) = refl
    below-clean (str text) = refl
    below-clean (dict fs) = fields-clean fs
    below-clean (list xs) = items-clean xs

    items-clean :
        (xs : Items) → clean_items (redact_in_list sensitive_keys value_regexes token xs) ≡ true
    items-clean nil = refl
    items-clean (item value xs) =
        either_case
          (λ v. clean_items (item v (redact_in_list sensitive_keys value_regexes token xs)) ≡ true)
          (finds value) (λ m. ground (arith, token_eq, items-clean xs))
          (λ missed.
            ground (arith, missed, (descended-kind value).1, below-clean value, items-clean xs))

  as_token : (value : Value) → is_token value ≡ true → value ≡ str token
  as_token (str text) e = ap str ((text_eq_iff text token).0 e)
  as_token null e = ground (arith, e)
  as_token (other n) e = ground (arith, e)
  as_token (dict fs) e = ground (arith, e)
  as_token (list xs) e = ground (arith, e)

  token_kept : (value : Value) → is_token value ≡ true → descend value ≡ value
  unfolding descended
  token_kept (str text) e = refl
  token_kept null e = ground (arith, e)
  token_kept (other n) e = ground (arith, e)
  token_kept (dict fs) e = ground (arith, e)
  token_kept (list xs) e = ground (arith, e)

  field_kept :
      (key : Text) (value : Value)
      → IsCleanField key value
      → (clean_below value ≡ true → descend value ≡ value)
      → field_value sensitive_keys value_regexes token key value (descend value) ≡ value
  field_kept key value c kept =
      either_case Kept (is_null value) (λ n. refl)
        (λ some_value.
          either_case Kept (hidden_name key) (λ s. sym (as_token value (ground arith)))
            (λ shown.
              either_case Kept (not (is_protected key) && finds value)
                (λ m. sym (as_token value (ground arith)))
                (λ missed. elim (Bool-cases (is_token value)) [
                  | inl t ↦ token_kept value t
                  | inr n ↦ kept (ground arith)
                ])))
    where
      Kept : Value → Type 0
      Kept v = v ≡ value

  mutual
    unfolding redact_by_keys_and_regex descended redact_in_list clean_fields clean_below clean_items

    fields-kept :
        (fs : Fields)
        → clean_fields fs ≡ true
        → redact_by_keys_and_regex sensitive_keys value_regexes token fs ≡ fs
    fields-kept end c = refl
    fields-kept (field key value fs) c =
        ap (λ v. field key v (redact_by_keys_and_regex sensitive_keys value_regexes token fs))
          (field_kept key value (ground arith) (below-kept value))
        ∙ ap (field key value) (fields-kept fs (ground arith))

    below-kept : (value : Value) → clean_below value ≡ true → descend value ≡ value
    below-kept null c = refl
    below-kept (other n) c = refl
    below-kept (str text) c = refl
    below-kept (dict fs) c = ap dict (fields-kept fs c)
    below-kept (list xs) c = ap list (items-kept xs c)

    items-kept :
        (xs : Items)
        → clean_items xs ≡ true
        → redact_in_list sensitive_keys value_regexes token xs ≡ xs
    items-kept nil c = refl
    items-kept (item value xs) c =
        ap (λ v. item v (redact_in_list sensitive_keys value_regexes token xs))
          (either_case (λ v. v ≡ value) (finds value) (λ m. sym (as_token value (ground arith)))
            (λ missed. below-kept value (ground arith)))
        ∙ ap (item value) (items-kept xs (ground arith))

  -- After a redaction, at every depth: a field is null or the token, or else its name is protected or no
  -- entry matches it, and it is no text that a regex finds something in unless its name is protected;
  -- and a text in a list is the token or nothing is found in it. A redaction changes nothing just
  -- where this holds already, so redacting twice is redacting once.
  pub redact_by_keys_and_regex-Clean :
      (fs : Fields)
      → (clean_fields (redact_by_keys_and_regex sensitive_keys value_regexes token fs) ≡ true)
        × ((redact_by_keys_and_regex sensitive_keys value_regexes token fs ≡ fs)
            ↔ (clean_fields fs ≡ true))
  redact_by_keys_and_regex-Clean fs =
      (fields-clean fs, ((λ e. ap clean_fields (sym e) ∙ fields-clean fs), fields-kept fs))
