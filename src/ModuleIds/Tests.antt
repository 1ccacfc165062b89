-- ===== src/ModuleIds/Tests.antt =====
-- registry/registry.py: examples of module IDs.
use apcore_python.Prelude.{◌≤◌, ◌≡◌, refl, false, not, ◌&&◌, none, some, codes, text_eq, length}
use apcore_python.Pattern.{split, dot, first}
use apcore_python.Conflicts.{lower, is_in}
use apcore_python.ModuleIds.{
  [], validate_module_id, matches_id_pattern, malformed, reserved, max_module_id_length,
  reserved_words,
}
use apcore_python.ModuleIds.Valid.{validate_module_id-valid}

hyphen : validate_module_id false (codes "a-b") ≡ some malformed
unfolding validate_module_id matches_id_pattern split
hyphen = refl

system_word : validate_module_id false (codes "system.health") ≡ some reserved
unfolding validate_module_id matches_id_pattern split
system_word = refl

-- An ID with a newline at its end is valid, and is another ID than the one without.
last_newline : validate_module_id false (codes "mail.send\n") ≡ none
unfolding validate_module_id matches_id_pattern split
last_newline = refl

validate_module_id-valid_example :
    (text_eq (codes "mail.send") [] ≡ false)
    × ((lower (codes "mail.send") ≡ codes "mail.send")
        × ((length (codes "mail.send") ≤ max_module_id_length)
            × ((not false && is_in (first (split dot (codes "mail.send"))) reserved_words)
                ≡ false)))
unfolding validate_module_id matches_id_pattern split
validate_module_id-valid_example = validate_module_id-valid false (codes "mail.send") refl
