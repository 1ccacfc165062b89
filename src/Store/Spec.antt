-- ===== src/Store/Spec.antt =====
-- registry/version.py: `VersionedStore` as a map from IDs and versions to items.
use apcore_python.Prelude.{
  ◌≡◌, refl, ap, true, ◌&&◌, Option, none, some, [], ◌∷◌, Text, text_eq, text_eq_iff, get, assign,
  discard, get-assign, get-discard, arith, is_some, if◌then◌else◌,
}
use apcore_python.Store.{
  Versions, VersionedStore, versions_of, add, get_version, left_over, remove_found, remove,
  remove_all, has_version,
}

-- The specification: which item, if any, an ID has at a version.
abbrev pub Spec : Type 0 → Type 0
Spec A = Text → Text → Option A

module _ {A : Type 0} where
  abbrev pub view : VersionedStore A → Spec A
  view store module_id version = get_version module_id version store

  abbrev pub updated : Text → Text → Option A → Spec A → Spec A
  updated module_id version item spec other at =
      if text_eq module_id other && text_eq version at then item else spec other at

  abbrev pub forgotten : Text → Spec A → Spec A
  forgotten module_id spec other at = if text_eq module_id other then none else spec other at

  same_id :
      (module_id other : Text) (store : VersionedStore A)
      → text_eq module_id other ≡ true
      → get text_eq module_id store ≡ get text_eq other store
  same_id module_id other store e =
      ap (λ id. get text_eq id store) ((text_eq_iff module_id other).0 e)

  view-add :
      (module_id version : Text) (item : A) (store : VersionedStore A) (other at : Text)
      → view (add module_id version item store) other at
        ≡ updated module_id version (some item) (view store) other at
  unfolding add get_version
  view-add module_id version item store other at =
      let versions = versions_of (get text_eq module_id store) in
      ground (
        arith,
        get-assign text_eq text_eq_iff module_id other (assign text_eq version item versions) store,
        get-assign text_eq text_eq_iff version at item versions,
        same_id module_id other store,
      )

  view-remove_all :
      (module_id : Text) (store : VersionedStore A) (other at : Text)
      → view (remove_all module_id store).0 other at ≡ forgotten module_id (view store) other at
  unfolding remove_all get_version
  view-remove_all module_id store other at =
      ground (arith, get-discard text_eq text_eq_iff module_id other store)

  view-left_over :
      (module_id version : Text) (versions rest : Versions A) (store : VersionedStore A)
      (other at : Text)
      → get text_eq module_id store ≡ some versions
      → discard text_eq version versions ≡ rest
      → view (left_over module_id rest store) other at
        ≡ updated module_id version none (view store) other at
  unfolding get_version
  view-left_over module_id version versions [] store other at found e = ground (
    arith,
    found,
    get-discard text_eq text_eq_iff module_id other store,
    get-discard text_eq text_eq_iff version at versions,
    ap (get text_eq at) e,
    same_id module_id other store,
  )
  view-left_over module_id version versions (v ∷ rest) store other at found e = ground (
    arith,
    found,
    get-assign text_eq text_eq_iff module_id other (v ∷ rest) store,
    get-discard text_eq text_eq_iff version at versions,
    ap (get text_eq at) e,
    same_id module_id other store,
  )

  view-remove :
      (module_id version : Text) (store : VersionedStore A) (other at : Text)
      → view (remove module_id version store).0 other at
        ≡ updated module_id version none (view store) other at
  unfolding remove
  view-remove module_id version store other at = go (get text_eq module_id store) refl
    where
      go :
          (found : Option (Versions A))
          → get text_eq module_id store ≡ found
          → view (remove_found module_id version store found).0 other at
            ≡ updated module_id version none (view store) other at
      go none found = absent found
        where
          absent :
              get text_eq module_id store ≡ none
              → view store other at ≡ updated module_id version none (view store) other at
          absent found = unfold get_version in ground (arith, found, same_id module_id other store)
      go (some versions) found =
          view-left_over module_id version versions (discard text_eq version versions) store other
            at found refl

  removed_item :
      (module_id version : Text) (store : VersionedStore A)
      → (remove module_id version store).1 ≡ view store module_id version
  unfolding remove get_version
  removed_item module_id version store = go (get text_eq module_id store)
    where
      go :
          (found : Option (Versions A))
          → (remove_found module_id version store found).1 ≡ get text_eq version (versions_of found)
      go none = refl
      go (some versions) = refl

  -- The store implements the map from IDs and versions to items, and nothing else of it matters:
  -- `add` sets one item, `remove` takes one away and returns it, `remove_all` takes all of an ID away,
  -- and `has_version` says whether there is one.
  pub store-refines :
      (module_id version : Text) (item : A) (store : VersionedStore A)
      → (view (add module_id version item store)
          ≡ updated module_id version (some item) (view store))
        × ((view (remove module_id version store).0 ≡ updated module_id version none (view store))
            × (((remove module_id version store).1 ≡ view store module_id version)
                × ((view (remove_all module_id store).0 ≡ forgotten module_id (view store))
                    × (has_version module_id version store
                        ≡ is_some (view store module_id version)))))
  unfolding has_version get_version
  store-refines module_id version item store = (
    λ i other at. view-add module_id version item store other at i,
    (
      λ i other at. view-remove module_id version store other at i,
      (
        removed_item module_id version store,
        (λ i other at. view-remove_all module_id store other at i, refl),
      ),
    ),
  )
