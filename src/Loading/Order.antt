-- ===== src/Loading/Order.antt =====
-- registry/dependencies.py: the load order of the modules.
use mathlib.Core.Path.{subst}
use apcore_python.Prelude.{
  suc, ◌≤◌, ◌≡◌, refl, ap, sym, ◌∙◌, inl, inr, Bool, true, false, not, ◌&&◌, ◌||◌, Option, List, [],
  ◌∷◌, ◌++◌, append_assoc, append-nil, arith, String, str_eq, eq_iff, among, distinct, All, ltb,
  Bool-cases, length,
}
use apcore_python.Loading.{
  DependencyInfo, Modules, Edges, Degrees, Graph, Built, built, failed, degree, ids, insert, sorted,
  free, Sorted, finished, out_of_fuel, Resolved, load_order, load_error, no_fuel, checked,
  resolve_built, empty_graph, known, resolve_dependencies,
}
use apcore_python.Loading.Sorting.{InOrder, DependenciesIn, Loop, Finishes, kahn-Finishes}
use apcore_python.Loading.Building.{
  names, Counted, initial-Counted, Required, AllRequired, Builds, build-Builds,
}

among-insert :
    (z x : String) (xs : List String) → among z (insert x xs) ≡ (str_eq x z || among z xs)
among-insert z x [] = refl
among-insert z x (y ∷ ys) = ground (arith, among-insert z x ys)

among-sorted : (z : String) (xs : List String) → among z (sorted xs) ≡ among z xs
among-sorted z [] = refl
among-sorted z (x ∷ xs) = ground (arith, among-insert z x (sorted xs), among-sorted z xs)

distinct-insert :
    (x : String) (xs : List String) → distinct (insert x xs) ≡ (not (among x xs) && distinct xs)
distinct-insert x [] = refl
distinct-insert x (y ∷ ys) =
    ground (arith, distinct-insert x ys, among-insert y x ys, eq_iff x y, eq_iff y x)

distinct-sorted : (xs : List String) → distinct (sorted xs) ≡ distinct xs
distinct-sorted [] = refl
distinct-sorted (x ∷ xs) =
    ground (arith, distinct-insert x (sorted xs), among-sorted x xs, distinct-sorted xs)

among-free :
    (m : String) (degrees : Degrees)
    → among m (free degrees) ≡ true
    → among m (names degrees) ≡ true
among-free m [] a = a
among-free m ((j, n) ∷ degrees) a = ground (arith, among-free m degrees)

distinct-free :
    (degrees : Degrees) → distinct (names degrees) ≡ true → distinct (free degrees) ≡ true
distinct-free [] d = refl
distinct-free ((j, n) ∷ degrees) d = ground (arith, distinct-free degrees, among-free j degrees)

free-degree :
    (m : String) (degrees : Degrees)
    → distinct (names degrees) ≡ true
    → among m (free degrees) ≡ true
    → degree m degrees ≡ 0
free-degree m [] d a = refl
free-degree m ((j, n) ∷ degrees) d a = elim (Bool-cases (str_eq j m)) [
  | inl same ↦ ground (
    arith,
    same,
    free-degree m degrees,
    among-free m degrees,
    subst (λ k. among k (names degrees) ≡ false) ((eq_iff j m).0 same) (ground (arith, d)),
  )
  | inr other ↦ ground (arith, other, free-degree m degrees)
]

degree-names :
    (m : String) (degrees : Degrees) → 1 ≤ degree m degrees → among m (names degrees) ≡ true
degree-names m [] le = absurd (omega (arith, le))
degree-names m ((j, n) ∷ degrees) le = ground (arith, degree-names m degrees)

length-names : (degrees : Degrees) → length (names degrees) ≡ length degrees
length-names [] = refl
length-names ((j, n) ∷ degrees) = ap suc (length-names degrees)

start :
    (declared : List String) (graph : Graph)
    → Counted declared graph
    → Loop graph.edges (names graph.in_degree) [] graph.in_degree (sorted (free graph.in_degree))
start declared graph counted = record {
  covered = λ k. omega (arith, counted.covers k);
  settled = (
    distinct-sorted (free graph.in_degree) ∙ distinct-free graph.in_degree counted.unique,
    λ m a.
        free-degree m graph.in_degree counted.unique
          (sym (among-sorted m (free graph.in_degree)) ∙ a),
  );
  within = (
    (λ m. degree-names m graph.in_degree),
    λ m a. among-free m graph.in_degree (sym (among-sorted m (free graph.in_degree)) ∙ a),
  );
  in_order = tt;
}

InOrder-split :
    (edges : Edges) (seen front back : List String) (m : String)
    → InOrder edges seen (front ++ m ∷ back)
    → DependenciesIn edges m (seen ++ front)
InOrder-split edges seen [] back m (d, o) = subst (DependenciesIn edges m) (sym (append-nil seen)) d
InOrder-split edges seen (x ∷ front) back m (d, o) =
    subst (DependenciesIn edges m) (append_assoc seen (x ∷ []) front)
      (InOrder-split edges (seen ++ x ∷ []) front back m o)

-- Wherever the module stands in the order, its required dependencies stand before it.
abbrev pub RequiredBefore : List String → String → List DependencyInfo → Type 0
RequiredBefore order m deps =
    All
      (λ dep.
        dep.optional ≡ false
        → (front back : List String) → order ≡ front ++ m ∷ back
        → among dep.module_id front ≡ true)
      deps

abbrev pub AllBefore : List String → Modules → Type 0
AllBefore order [] = Unit
AllBefore order ((m, deps) ∷ modules) = RequiredBefore order m deps × AllBefore order modules

-- Nothing runs out of fuel, and an order that is returned is one of the declared modules, without
-- repetition and for all entries of the batch, with every required dependency in front.
abbrev pub Loads : Modules → Resolved → Type 0
Loads modules no_fuel = ⊥
Loads modules (load_error e) = Unit
Loads modules (load_order order) =
    AllBefore order modules
    × (distinct order ≡ true)
    × ((m : String) → among m order ≡ true → among m (ids modules) ≡ true)
    × (length modules ≤ length order)

Required-Before :
    (edges : Edges) (order : List String) (m : String) (deps : List DependencyInfo)
    → InOrder edges [] order
    → Required edges m deps
    → RequiredBefore order m deps
Required-Before edges order m [] o r = tt
Required-Before edges order m (dep ∷ deps) o (r, rs) = (
  (λ required front back e.
      InOrder-split edges [] front back m (subst (InOrder edges []) e o) dep.module_id
        (r required)),
  Required-Before edges order m deps o rs,
)

AllRequired-AllBefore :
    (edges : Edges) (order : List String) (modules : Modules)
    → InOrder edges [] order
    → AllRequired edges modules
    → AllBefore order modules
AllRequired-AllBefore edges order [] o r = tt
AllRequired-AllBefore edges order ((m, deps) ∷ modules) o (r, rs) =
    (Required-Before edges order m deps o r, AllRequired-AllBefore edges order modules o rs)

checked-Loads :
    (modules : Modules) (graph : Graph) (result : Sorted)
    → Counted (ids modules) graph
    → AllRequired graph.edges modules
    → Finishes graph.edges (names graph.in_degree) result
    → Loads modules (checked modules result)
checked-Loads modules graph out_of_fuel counted required f = f
checked-Loads modules graph (finished order) counted required (o, d, within) =
    elim (Bool-cases (ltb (length order) (length modules))) [
      | inl short ↦ rw (short) (tt)
      | inr all ↦ rw (all) (
          (
            AllRequired-AllBefore graph.edges order modules o required,
            d,
            (λ m a. counted.is_declared m (within m a)),
            ground (arith, all),
          ))
    ]

built-Loads :
    (modules : Modules) (result : Built)
    → Builds (ids modules) modules (empty_graph modules) result
    → Loads modules (resolve_built modules result)
built-Loads modules (failed e) b = tt
built-Loads modules (built graph) (counted, extends, required) =
    checked-Loads modules graph _ counted required (
      kahn-Finishes (length graph.in_degree) graph.edges (names graph.in_degree) graph.in_degree
        (sorted (free graph.in_degree)) [] (start (ids modules) graph counted)
        (omega (arith, length-names graph.in_degree)))

-- `resolve_dependencies` always ends, with an error or with an order in which every module stands
-- behind all its required dependencies, no module stands twice, only declared modules stand, and
-- there are at least as many as were declared.
pub resolve_dependencies-Loads :
    (matches_version_hint : String → String → Option Bool) (modules : Modules)
    (known_ids : Option (List String)) (module_versions : Option (List (String × String)))
    → Loads modules (resolve_dependencies matches_version_hint modules known_ids module_versions)
unfolding resolve_dependencies
resolve_dependencies-Loads matches_version_hint [] known_ids module_versions =
    (tt, refl, (λ m a. a), omega arith)
resolve_dependencies-Loads matches_version_hint (m ∷ modules) known_ids module_versions =
    built-Loads (m ∷ modules) _ (
      build-Builds matches_version_hint (known known_ids (m ∷ modules)) module_versions
        (ids (m ∷ modules)) (m ∷ modules) (empty_graph (m ∷ modules)) (λ k a. a)
        (initial-Counted (ids (m ∷ modules))))
