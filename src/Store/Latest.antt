-- ===== src/Store/Latest.antt =====
-- registry/version.py: `get_latest` gives the highest version.
use mathlib.Core.Path.{subst}
use apcore_python.Prelude.{
  either_way, ◌≡◌, refl, sym, ap, inl, inr, Bool, true, false, Option, none, some, List, [], ◌∷◌,
  All, Text, text_eq, text_eq_iff, get, keys, arith, is_some,
}
use apcore_python.Version.{Semver, lower, parse_semver}
use apcore_python.Version.Sorting.{
  NoneHigher, Ascending, sorted-Ascending, All-sorted, In, In-sorted, Least-In,
}
use apcore_python.Version.Select.{insert, last_of, sorted_versions, select_best_version}
use apcore_python.Store.{
  resolved, item_or_none, Versions, VersionedStore, versions_of, item_of, resolve, get_latest, has,
  not_empty,
}

lower-irreflexive : (a : Semver) → lower a a ≡ false
lower-irreflexive a = ground arith

abbrev is_nil : List Text → Bool
is_nil [] = true
is_nil (v ∷ vs) = false

-- The last of a list, if any, is in it, and none of it is higher.
abbrev Highest : List Text → Option Text → Type 0
Highest versions none = versions ≡ []
Highest versions (some v) = In v versions × NoneHigher v versions

last_of-Highest : (vs : List Text) → Ascending vs → Highest vs (last_of vs)
last_of-Highest [] a = refl
last_of-Highest (v ∷ vs) (l, a) = go (last_of vs) (last_of-Highest vs a)
  where
    go :
        (last : Option Text)
        → Highest vs last
        → Highest (v ∷ vs) (elim last as (λ _. Option Text) [ none ↦ some v | some w ↦ some w ])
    go none h = (inl refl, (lower-irreflexive (parse_semver v), subst (NoneHigher v) (sym h) tt))
    go (some w) (i, h) = (inr i, (Least-In v w vs l i, h))

sorted-Highest : (vs : List Text) → Highest vs (last_of (sorted_versions vs))
sorted-Highest [] = refl
sorted-Highest (v ∷ vs) =
    go (last_of (sorted_versions (v ∷ vs)))
      (last_of-Highest (sorted_versions (v ∷ vs)) (sorted-Ascending (v ∷ vs)))
      (never_empty v (sorted_versions vs))
  where
    never_empty : (x : Text) (xs : List Text) → is_nil (insert x xs) ≡ false
    never_empty x [] = refl
    never_empty x (y ∷ ys) =
        either_way (λ zs. is_nil zs ≡ false) (lower (parse_semver y) (parse_semver x)) refl refl

    go :
        (last : Option Text)
        → Highest (sorted_versions (v ∷ vs)) last
        → is_nil (sorted_versions (v ∷ vs)) ≡ false
        → Highest (v ∷ vs) last
    go none h some_left = ground (arith, some_left, ap is_nil h)
    go (some w) (i, h) some_left = (In-sorted w (v ∷ vs) i, All-sorted _ (v ∷ vs) h)

module _ {A : Type 0} where
  get-In :
      (v : Text) (versions : Versions A)
      → In v (keys versions)
      → is_some (get text_eq v versions) ≡ true
  get-In v [] i = absurd i
  get-In v ((w, x) ∷ versions) (inl e) = ground (arith, (text_eq_iff w v).1 (sym e))
  get-In v ((w, x) ∷ versions) (inr i) = ground (arith, get-In v versions i)

  -- No version is the empty text, which `register` never stores.
  abbrev pub Named : Versions A → Type 0
  Named versions = All (λ v. text_eq v [] ≡ false) (keys versions)

  Named-In :
      (v : Text) (versions : Versions A)
      → Named versions
      → In v (keys versions)
      → text_eq v [] ≡ false
  Named-In v [] n i = absurd i
  Named-In v ((w, x) ∷ versions) (n, ns) (inl e) = subst (λ u. text_eq u [] ≡ false) (sym e) n
  Named-In v ((w, x) ∷ versions) (n, ns) (inr i) = Named-In v versions ns i

  -- The item of a version than which none of the ID's versions is higher.
  abbrev pub LatestOf : Versions A → Option A → Type 0
  LatestOf versions none = not_empty versions ≡ false
  LatestOf versions (some x) =
      (v : Text) × ((get text_eq v versions ≡ some x) × NoneHigher v (keys versions))

  -- `get_latest` gives the item of a version that none of the ID's versions is above, by `parse_semver`,
  -- and none only where the ID has no version, if no version is the empty text.
  pub get_latest-LatestOf :
      (module_id : Text) (store : VersionedStore A)
      → Named (versions_of (get text_eq module_id store))
      → LatestOf (versions_of (get text_eq module_id store)) (get_latest module_id store)
  unfolding get_latest resolve select_best_version
  get_latest-LatestOf module_id store named = go (versions_of (get text_eq module_id store)) named
    where
      go :
          (versions : Versions A)
          → Named versions
          → LatestOf versions
              (item_or_none (resolved versions (select_best_version (keys versions) none)))
      go [] named = refl
      go ((w, x) ∷ versions) named =
          pick (last_of (sorted_versions (w ∷ keys versions))) (sorted-Highest (w ∷ keys versions))
        where
          pick :
              (last : Option Text)
              → Highest (w ∷ keys versions) last
              → LatestOf ((w, x) ∷ versions) (item_of ((w, x) ∷ versions) last)
          pick none h = ground (arith, ap is_nil h)
          pick (some []) (i, h) = ground (arith, Named-In [] ((w, x) ∷ versions) named i)
          pick (some (c ∷ v)) (i, h) =
              have (get text_eq (c ∷ v) ((w, x) ∷ versions)) refl
                (get-In (c ∷ v) ((w, x) ∷ versions) i)
            where
              have :
                  (found : Option A)
                  → get text_eq (c ∷ v) ((w, x) ∷ versions) ≡ found
                  → is_some found ≡ true
                  → LatestOf ((w, x) ∷ versions) found
              have none e s = ground (arith, s)
              have (some y) e s = (c ∷ v, (e, h))

  -- `get_latest` finds an item just where `has` says that there is one, if no version is empty.
  pub get_latest-has :
      (module_id : Text) (store : VersionedStore A)
      → Named (versions_of (get text_eq module_id store))
      → is_some (get_latest module_id store) ≡ has module_id store
  unfolding has
  get_latest-has module_id store named =
      go (versions_of (get text_eq module_id store)) (get_latest module_id store)
        (get_latest-LatestOf module_id store named)
    where
      go :
          (versions : Versions A) (latest : Option A)
          → LatestOf versions latest
          → is_some latest ≡ not_empty versions
      go versions none l = sym l
      go [] (some x) (v, (e, h)) = ground (arith, e)
      go (w ∷ versions) (some x) l = refl
