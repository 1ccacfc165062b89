-- ===== src/Store/Tests.antt =====
-- registry/version.py: a store of numbers.
use apcore_python.Prelude.{ℕ, ◌≡◌, refl, none, some, [], ◌∷◌, codes, text_eq, get, is_some}
use apcore_python.Version.Select.{select_best_version}
use apcore_python.Store.{
  VersionedStore, versions_of, add, resolve, get_latest, remove, remove_all, has_version,
}
use apcore_python.Store.Spec.{store-refines, view, updated, forgotten}
use apcore_python.Store.Latest.{get_latest-LatestOf, LatestOf}

abbrev two : VersionedStore ℕ
two =
    (codes "a.b", (codes "1.9.0", 19) ∷ (codes "1.10.0", 20) ∷ [])
    ∷ (codes "c", (codes "1", 1) ∷ [])
    ∷ []

newest : get_latest (codes "a.b") two ≡ some 20
unfolding get_latest resolve select_best_version
newest = refl

dropped :
    remove (codes "c") (codes "1") two
    ≡ ((codes "a.b", (codes "1.9.0", 19) ∷ (codes "1.10.0", 20) ∷ []) ∷ [], some 1)
unfolding remove
dropped = refl

store-refines_example :
    (view (add (codes "c") (codes "2") 2 two) ≡ updated (codes "c") (codes "2") (some 2) (view two))
    × ((view (remove (codes "c") (codes "2") two).0
          ≡ updated (codes "c") (codes "2") none (view two))
        × (((remove (codes "c") (codes "2") two).1 ≡ view two (codes "c") (codes "2"))
            × ((view (remove_all (codes "c") two).0 ≡ forgotten (codes "c") (view two))
                × (has_version (codes "c") (codes "2") two
                    ≡ is_some (view two (codes "c") (codes "2"))))))
store-refines_example = store-refines (codes "c") (codes "2") 2 two

get_latest-LatestOf_example :
    LatestOf (versions_of (get text_eq (codes "a.b") two)) (get_latest (codes "a.b") two)
get_latest-LatestOf_example = get_latest-LatestOf (codes "a.b") two (refl, (refl, tt))
