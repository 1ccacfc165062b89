-- ===== src/Registry/Agreement.antt =====
-- registry/registry.py: how the maps of a registry agree.
use apcore_python.Prelude.{
  ℕ, ◌≡◌, true, none, some, List, Text, text_eq, get, is_some, if◌then◌else◌,
}
use apcore_python.Conflicts.{lower}
use apcore_python.Store.{VersionedStore, versions_of}
use apcore_python.Store.{has as store_has}
use apcore_python.Store.Latest.{Named}
use apcore_python.Registry.{Registry}

-- The lower-case map has each registered ID under itself and nothing else; an ID with versions is
-- registered; no version is the empty text; the registered IDs are in lower case.
pub record Agree (modules : List (Text × ℕ)) (lowercase_map : List (Text × Text))
    (versioned : VersionedStore ℕ) : Type 0 where
  pub cased :
      (k : Text)
      → get text_eq k lowercase_map ≡ (if is_some (get text_eq k modules) then some k else none)
  pub stored : (k : Text) → store_has k versioned ≡ true → is_some (get text_eq k modules) ≡ true
  pub named : (k : Text) → Named (versions_of (get text_eq k versioned))
  pub lowered : (k : Text) → is_some (get text_eq k modules) ≡ true → lower k ≡ k

abbrev pub Consistent : Registry → Type 0
Consistent r = Agree r.modules r.lowercase_map r.versioned
