-- ===== src/Redaction/Tests.antt =====
-- utils/redaction.py: an object with a password and a key.
use apcore_python.Prelude.{◌≡◌, ◌↔◌, refl, Bool, true, List, [], ◌∷◌, Text, codes}
use apcore_python.Pattern.{find, find_at, match_glob}
use apcore_python.Redaction.{
  null, dict, other, str, list, Fields, end, field, nil, item, occurs, is_protected, key_matches,
  value_matches, redact_by_keys_and_regex,
}
use apcore_python.Redaction.Clean.{clean_fields, redact_by_keys_and_regex-Clean}
use apcore_python.Redaction.Emission.{redact_secrets}
use apcore_python.Redaction.Surfaces.{is_common, redact_secrets-eq-redact_by_keys_and_regex}
use apcore_python.Redaction.Alike.{
  AlikeFields, at_end, hidden_by_name, hidden_item, no_more, shown, same, in_list,
  redact_by_keys_and_regex-Alike,
}

abbrev names : List Text
names = codes "password" ∷ codes "_secret_*" ∷ []

abbrev has_at : Text → Bool
has_at text = occurs (codes "@") text

abbrev token : Text
token = codes "***"

abbrev entry : Text → Text → Fields
entry password mail = field (codes "trace_id") (str (codes "t@1")) (
    field (codes "Pass-Word") (str password)
      (field (codes "to") (list (item (str mail) nil)) (field (codes "n") (other 3) end)))

hidden :
    redact_by_keys_and_regex names (has_at ∷ []) token (entry (codes "x") (codes "a@b"))
    ≡ entry token token
unfolding redact_by_keys_and_regex value_matches key_matches is_protected find find_at match_glob
hidden = refl

redact_by_keys_and_regex-Clean_example :
    (clean_fields names
        (has_at ∷ [])
        token
        (redact_by_keys_and_regex names (has_at ∷ []) token (entry (codes "x") (codes "a@b")))
      ≡ true)
    × ((redact_by_keys_and_regex names (has_at ∷ []) token (entry (codes "x") (codes "a@b"))
          ≡ entry (codes "x") (codes "a@b"))
        ↔ (clean_fields names (has_at ∷ []) token (entry (codes "x") (codes "a@b")) ≡ true))
redact_by_keys_and_regex-Clean_example =
    redact_by_keys_and_regex-Clean names (has_at ∷ []) token (entry (codes "x") (codes "a@b"))

alike_entries :
    AlikeFields names
      (has_at ∷ [])
      token
      (entry (codes "x") (codes "a@b"))
      (entry (codes "yz") (codes "c@d"))
unfolding value_matches key_matches is_protected find find_at match_glob
alike_entries = shown same (
    hidden_by_name refl refl refl
      (shown (in_list (hidden_item refl refl no_more)) (shown same at_end)))

redact_by_keys_and_regex-Alike_example :
    redact_by_keys_and_regex names (has_at ∷ []) token (entry (codes "x") (codes "a@b"))
    ≡ redact_by_keys_and_regex names (has_at ∷ []) token (entry (codes "yz") (codes "c@d"))
redact_by_keys_and_regex-Alike_example =
    redact_by_keys_and_regex-Alike names (has_at ∷ []) token alike_entries

-- A null under a sensitive name is logged as the token, and stays null in what is captured.
null_logged :
    redact_secrets names [] token 0 (dict (field (codes "password") null end))
    ≡ dict (field (codes "password") (str token) end)
unfolding redact_secrets key_matches is_protected find find_at match_glob
null_logged = refl

null_captured :
    redact_by_keys_and_regex names [] token (field (codes "password") null end)
    ≡ field (codes "password") null end
unfolding redact_by_keys_and_regex
null_captured = refl

redact_secrets-eq-redact_by_keys_and_regex_example :
    redact_secrets names (has_at ∷ []) token 0 (dict (entry (codes "x") (codes "a@b")))
    ≡ dict (redact_by_keys_and_regex names (has_at ∷ []) token (entry (codes "x") (codes "a@b")))
unfolding is_common
redact_secrets-eq-redact_by_keys_and_regex_example =
    redact_secrets-eq-redact_by_keys_and_regex names (has_at ∷ []) token
      (entry (codes "x") (codes "a@b")) refl
