-- ===== src/Redaction/Alike.antt =====
-- utils/redaction.py: what a redaction hides.
use apcore_python.Prelude.{◌≡◌, refl, ap, sym, ◌∙◌, Bool, true, false, List, Text, arith}
use apcore_python.Redaction.{
  Value, null, other, str, dict, list, Fields, end, field, Items, nil, item, is_null, is_protected,
  value_matches, is_sensitive, field_value, redact_by_keys_and_regex, descended, redact_in_list,
}

module _ (sensitive_keys : List Text) (value_regexes : List (Text → Bool)) (token : Text) where
  -- Two objects that differ in what is to be hidden only: in values that are not null and stand under
  -- a name that is sensitive, and in texts in which regexes find something, unless the name is protected.
  mutual
    pub data Alike : Value → Value → Type 0 where
      same : {v : Value} → Alike v v
      in_dict : {fs gs : Fields} → AlikeFields fs gs → Alike (dict fs) (dict gs)
      in_list : {xs ys : Items} → AlikeItems xs ys → Alike (list xs) (list ys)

    pub data AlikeFields : Fields → Fields → Type 0 where
      at_end : AlikeFields end end
      hidden_by_name :
          {key : Text} {v w : Value} {fs gs : Fields}
          → is_sensitive sensitive_keys value_regexes token key ≡ true
          → is_null v ≡ false
          → is_null w ≡ false
          → AlikeFields fs gs
          → AlikeFields (field key v fs) (field key w gs)
      hidden_by_value :
          {key : Text} {v w : Value} {fs gs : Fields}
          → is_protected key ≡ false
          → value_matches sensitive_keys value_regexes token v ≡ true
          → value_matches sensitive_keys value_regexes token w ≡ true
          → AlikeFields fs gs
          → AlikeFields (field key v fs) (field key w gs)
      shown :
          {key : Text} {v w : Value} {fs gs : Fields}
          → Alike v w
          → AlikeFields fs gs
          → AlikeFields (field key v fs) (field key w gs)

    pub data AlikeItems : Items → Items → Type 0 where
      no_more : AlikeItems nil nil
      hidden_item :
          {v w : Value} {xs ys : Items}
          → value_matches sensitive_keys value_regexes token v ≡ true
          → value_matches sensitive_keys value_regexes token w ≡ true
          → AlikeItems xs ys
          → AlikeItems (item v xs) (item w ys)
      shown_item :
          {v w : Value} {xs ys : Items}
          → Alike v w
          → AlikeItems xs ys
          → AlikeItems (item v xs) (item w ys)

  abbrev redacted : Fields → Fields
  redacted fs = redact_by_keys_and_regex sensitive_keys value_regexes token fs

  abbrev in_field : Text → Value → Value
  in_field key value =
      field_value sensitive_keys value_regexes token key value
        (descended sensitive_keys value_regexes token value)

  found_in_text :
      (v : Value) → value_matches sensitive_keys value_regexes token v ≡ true → is_null v ≡ false
  unfolding value_matches
  found_in_text null e = ground (arith, e)
  found_in_text (other n) e = refl
  found_in_text (str text) e = refl
  found_in_text (dict fs) e = refl
  found_in_text (list xs) e = refl

  token_by_name :
      (key : Text) (v : Value)
      → is_sensitive sensitive_keys value_regexes token key ≡ true
      → is_null v ≡ false
      → in_field key v ≡ str token
  token_by_name key v s n = ground (arith, s, n)

  token_by_value :
      (key : Text) (v : Value)
      → is_protected key ≡ false
      → value_matches sensitive_keys value_regexes token v ≡ true
      → in_field key v ≡ str token
  token_by_value key v p m = ground (arith, p, m, found_in_text v m)

  -- Two containers give the same where what is made of them is the same.
  same_field :
      (key : Text) (v w : Value)
      → is_null v ≡ false
      → is_null w ≡ false
      → value_matches sensitive_keys value_regexes token v ≡ false
      → value_matches sensitive_keys value_regexes token w ≡ false
      → descended sensitive_keys value_regexes token v
        ≡ descended sensitive_keys value_regexes token w
      → in_field key v ≡ in_field key w
  same_field key v w nv nw mv mw e = ground (arith, nv, nw, mv, mw, e)

  fields_same :
      (key : Text) (v w : Value) (fs gs : Fields)
      → in_field key v ≡ in_field key w
      → redacted fs ≡ redacted gs
      → redacted (field key v fs) ≡ redacted (field key w gs)
  unfolding redact_by_keys_and_regex
  fields_same key v w fs gs e rest =
      ap (λ x. field key x (redacted fs)) e ∙ ap (field key (in_field key w)) rest

  mutual
    unfolding descended redact_in_list redact_by_keys_and_regex value_matches

    Alike-fields : {fs gs : Fields} → AlikeFields fs gs → redacted fs ≡ redacted gs
    Alike-fields at_end = refl
    Alike-fields (hidden_by_name {key} {v} {w} {fs} {gs} s nv nw rest) =
        fields_same key v w fs gs (token_by_name key v s nv ∙ sym (token_by_name key w s nw))
          (Alike-fields rest)
    Alike-fields (hidden_by_value {key} {v} {w} {fs} {gs} p mv mw rest) =
        fields_same key v w fs gs (token_by_value key v p mv ∙ sym (token_by_value key w p mw))
          (Alike-fields rest)
    Alike-fields (shown {key} {v} {w} {fs} {gs} a rest) =
        fields_same key v w fs gs (Alike-field key a) (Alike-fields rest)

    Alike-field : {v w : Value} (key : Text) → Alike v w → in_field key v ≡ in_field key w
    Alike-field key same = refl
    Alike-field key (in_dict {fs} {gs} a) =
        same_field key (dict fs) (dict gs) refl refl refl refl (ap dict (Alike-fields a))
    Alike-field key (in_list {xs} {ys} a) =
        same_field key (list xs) (list ys) refl refl refl refl (ap list (Alike-items a))

    Alike-items :
        {xs ys : Items}
        → AlikeItems xs ys
        → redact_in_list sensitive_keys value_regexes token xs
          ≡ redact_in_list sensitive_keys value_regexes token ys
    Alike-items no_more = refl
    Alike-items (hidden_item {v} {w} mv mw rest) = ground (arith, mv, mw, Alike-items rest)
    Alike-items (shown_item same rest) = ground (arith, Alike-items rest)
    Alike-items (shown_item (in_dict a) rest) = ground (arith, Alike-fields a, Alike-items rest)
    Alike-items (shown_item (in_list a) rest) = ground (arith, Alike-items a, Alike-items rest)

  -- What a redaction gives does not depend on what it hides: two objects that differ only in values that
  -- are not null and stand under sensitive names, and in texts in which a regex finds something, at any
  -- depth and outside protected names, give the same.
  pub redact_by_keys_and_regex-Alike :
      {fs gs : Fields} → AlikeFields fs gs → redacted fs ≡ redacted gs
  redact_by_keys_and_regex-Alike a = Alike-fields a
