-- ===== src/Names/Tests.antt =====
-- utils/normalize.py: names of other languages.
use apcore_python.Prelude.{◌≡◌, refl, true, some, codes, [], ◌∷◌, ◌++◌}
use apcore_python.Pattern.{split}
use apcore_python.ModuleIds.{matches_id_pattern}
use apcore_python.Names.{to_snake_case, canonicalize_name, normalize_to_canonical_id, language_of}
use apcore_python.Names.Fixed.{IsCanonical, canonicalize_name-Canonical}
use apcore_python.Names.Converted.{normalize_to_canonical_id-Canonical}

handler : to_snake_case (codes "HTTPAPIHandler2X") ≡ codes "httpapi_handler2_x"
unfolding to_snake_case
handler = refl

-- A last newline is kept, since `$` matches in front of it.
newline_kept :
    normalize_to_canonical_id (codes "A.b" ++ (10 ∷ [])) (codes "python")
    ≡ some (codes "a.b" ++ (10 ∷ []))
unfolding normalize_to_canonical_id language_of to_snake_case matches_id_pattern split
newline_kept = refl

canonicalize_name-Canonical_example :
    IsCanonical (codes "get_user_by_id")
    × ((canonicalize_name (codes "get_user_by_id")).canonical_name ≡ some (codes "get_user_by_id"))
unfolding canonicalize_name to_snake_case
canonicalize_name-Canonical_example =
    canonicalize_name-Canonical (codes "--getUser by/ID!") (codes "get_user_by_id") refl

normalize_to_canonical_id-Canonical_example :
    (matches_id_pattern (codes "executor.db_params") ≡ true)
    × (normalize_to_canonical_id (codes "executor.db_params") (codes "python")
        ≡ some (codes "executor.db_params"))
unfolding normalize_to_canonical_id language_of to_snake_case matches_id_pattern split
normalize_to_canonical_id-Canonical_example =
    normalize_to_canonical_id-Canonical (codes "executor::DbParams") (codes "rust")
      (codes "executor.db_params") refl
