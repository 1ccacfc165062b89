-- ===== src/Store.antt =====
-- registry/version.py: `VersionedStore`, over items of any type. The lock around each operation
-- makes it one step. Versions are as in Version.
use apcore_python.Prelude.{
  Bool, true, false, not, ◌&&◌, Option, none, some, List, [], ◌∷◌, Text, text_eq, get, assign,
  discard, keys, is_some, if◌then◌else◌,
}
use apcore_python.Version.Select.{
  select_best_version, BestVersion, best, constraint_error, sorted_versions,
}
pub mod Spec
pub mod Latest
mod Tests

abbrev pub Versions : Type 0 → Type 0
Versions A = List (Text × A)

abbrev pub VersionedStore : Type 0 → Type 0
VersionedStore A = List (Text × Versions A)

-- An item, or none; or the hint is malformed.
pub data Resolved (A : Type 0) : Type 0 where
  picked : Option A → Resolved A
  bad_hint : Resolved A

module _ {A : Type 0} where
  abbrev pub versions_of : Option (Versions A) → Versions A
  versions_of none = []
  versions_of (some versions) = versions

  unfoldable pub add : Text → Text → A → VersionedStore A → VersionedStore A
  add module_id version item store =
      assign text_eq module_id
        (assign text_eq version item (versions_of (get text_eq module_id store))) store

  unfoldable pub get_version : Text → Text → VersionedStore A → Option A
  get_version module_id version store =
      get text_eq version (versions_of (get text_eq module_id store))

  -- `versions[best] if best else None`
  abbrev pub item_of : Versions A → Option Text → Option A
  item_of versions none = none
  item_of versions (some []) = none
  item_of versions (some (c ∷ version)) = get text_eq (c ∷ version) versions

  abbrev pub resolved : Versions A → BestVersion → Resolved A
  resolved versions (best version) = picked (item_of versions version)
  resolved versions constraint_error = bad_hint

  unfoldable pub resolve : Text → Option Text → VersionedStore A → Resolved A
  unfolding select_best_version
  resolve module_id version_hint store =
      let versions = versions_of (get text_eq module_id store) in
      resolved versions (select_best_version (keys versions) version_hint)

  abbrev pub item_or_none : Resolved A → Option A
  item_or_none (picked o) = o
  item_or_none bad_hint = none

  -- without a hint there is nothing that could be malformed
  unfoldable pub get_latest : Text → VersionedStore A → Option A
  unfolding resolve
  get_latest module_id store = item_or_none (resolve module_id none store)

  unfoldable pub list_versions : Text → VersionedStore A → List Text
  list_versions module_id store = sorted_versions (keys (versions_of (get text_eq module_id store)))

  abbrev pub list_ids : VersionedStore A → List Text
  list_ids store = keys store

  abbrev pub left_over : Text → Versions A → VersionedStore A → VersionedStore A
  left_over module_id [] store = discard text_eq module_id store
  left_over module_id (v ∷ versions) store = assign text_eq module_id (v ∷ versions) store

  abbrev pub remove_found :
      Text → Text → VersionedStore A → Option (Versions A) → VersionedStore A × Option A
  remove_found module_id version store none = (store, none)
  remove_found module_id version store (some versions) =
      (left_over module_id (discard text_eq version versions) store, get text_eq version versions)

  -- the store that is left, and the item that is removed
  unfoldable pub remove : Text → Text → VersionedStore A → VersionedStore A × Option A
  remove module_id version store =
      remove_found module_id version store (get text_eq module_id store)

  unfoldable pub remove_all : Text → VersionedStore A → VersionedStore A × Versions A
  remove_all module_id store =
      (discard text_eq module_id store, versions_of (get text_eq module_id store))

  abbrev pub not_empty : Versions A → Bool
  not_empty [] = false
  not_empty (v ∷ versions) = true

  unfoldable pub has : Text → VersionedStore A → Bool
  has module_id store = not_empty (versions_of (get text_eq module_id store))

  unfoldable pub has_version : Text → Text → VersionedStore A → Bool
  has_version module_id version store =
      is_some (get text_eq version (versions_of (get text_eq module_id store)))
