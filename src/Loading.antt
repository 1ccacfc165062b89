-- ===== src/Loading.antt =====
-- registry/dependencies.py: `resolve_dependencies`, the load order of modules by Kahn's sort. Where
-- the sort does not consume all modules the search for a cycle, which only words the error, is left
-- out. `dict`s are association lists; the graph is the list of its edges.
use Prim.Native.String.{compare}
use Prim.Native.Nat.{Ordering}
use apcore_python.Prelude.{
  ℕ, zero, suc, ◌+◌, ◌-◌, Bool, true, false, not, ◌&&◌, ◌||◌, Option, none, some, List, [], ◌∷◌,
  ◌++◌, String, str_eq, among, length, get, assign, ltb, ◌==◌, if◌then◌else◌,
}
pub mod Counting
pub mod Sorting
pub mod Building
pub mod Order
mod Tests

pub record DependencyInfo : Type 0 where
  pub module_id : String
  pub version : Option String
  pub optional : Bool

abbrev pub Modules : Type 0
Modules = List (String × List DependencyInfo)

-- A pair (dependency, dependent).
abbrev pub Edges : Type 0
Edges = List (String × String)

abbrev pub Degrees : Type 0
Degrees = List (String × ℕ)

pub data LoadError : Type 0 where
  dependency_not_found version_mismatch version_constraint not_all_loaded : LoadError

abbrev pub has_edge : String → String → Edges → Bool
has_edge d m [] = false
has_edge d m ((a, b) ∷ edges) = (str_eq a d && str_eq b m) || has_edge d m edges

abbrev pub degree : String → Degrees → ℕ
degree m degrees = elim (get str_eq m degrees) [ none ↦ 0 | some n ↦ n ]

abbrev pub ids : Modules → List String
ids [] = []
ids ((m, deps) ∷ modules) = m ∷ ids modules

-- `{mod_id: 0 for mod_id, _ in modules}`
abbrev pub initial_degrees : List String → Degrees
initial_degrees [] = []
initial_degrees (m ∷ ms) = assign str_eq m 0 (initial_degrees ms)

pub data Enforced : Type 0 where
  fits skip mismatch malformed : Enforced

pub record Graph : Type 0 where
  pub edges : Edges
  pub in_degree : Degrees

pub data Built : Type 0 where
  built : Graph → Built
  failed : LoadError → Built

abbrev pub add_edge : String → String → Edges → Edges
add_edge d m edges = if has_edge d m edges then edges else (d, m) ∷ edges

abbrev pub connect : String → String → Graph → Graph
connect d m graph = record {
  edges = add_edge d m graph.edges;
  in_degree = assign str_eq m (degree m graph.in_degree + 1) graph.in_degree;
}

-- The body of the inner loop: what comes of the rest of the dependencies without this one's edge
-- and with it.
abbrev pub add_dependency : Bool → Bool → Enforced → Built → Built → Built
add_dependency false true enforced without_edge with_edge = without_edge
add_dependency false false enforced without_edge with_edge = failed dependency_not_found
add_dependency true optional skip without_edge with_edge = without_edge
add_dependency true optional mismatch without_edge with_edge = failed version_mismatch
add_dependency true optional malformed without_edge with_edge = failed version_constraint
add_dependency true optional fits without_edge with_edge = with_edge

-- `matches_version_hint actual hint`, which is none where it raises, and the two optional arguments
module _ (matches_version_hint : String → String → Option Bool) (known_ids : List String)
    (module_versions : Option (List (String × String))) where
  abbrev pub on_match : Bool → Option Bool → Enforced
  on_match optional none = malformed
  on_match optional (some true) = fits
  on_match optional (some false) = if optional then skip else mismatch

  unfoldable pub enforce_version_constraint : DependencyInfo → Enforced
  enforce_version_constraint dep = elim dep.version [
    | none ↦ fits
    | some hint ↦ elim module_versions [
      | none ↦ fits
      | some versions ↦ if str_eq hint "" then fits else elim (get str_eq dep.module_id versions) [
        | none ↦ fits
        | some actual ↦ on_match dep.optional (matches_version_hint actual hint)
      ]
    ]
  ]

  -- the inner loop over the dependencies of a module
  unfoldable pub add_dependencies : String → List DependencyInfo → Graph → Built
  unfolding enforce_version_constraint
  add_dependencies m [] graph = built graph
  add_dependencies m (dep ∷ deps) graph =
      add_dependency (among dep.module_id known_ids) dep.optional (enforce_version_constraint dep)
        (add_dependencies m deps graph) (add_dependencies m deps (connect dep.module_id m graph))

  unfoldable pub build : Modules → Graph → Built
  unfolding add_dependencies
  build [] graph = built graph
  build ((m, deps) ∷ modules) graph = elim (add_dependencies m deps graph) [
    | failed e ↦ failed e
    | built next ↦ build modules next
  ]

-- `sorted(names)`, by insertion
abbrev pub insert : String → List String → List String
insert x [] = x ∷ []
insert x (y ∷ ys) =
    let rest = insert x ys in elim (compare x y) [ Ordering.gt ↦ y ∷ rest | _ ↦ x ∷ y ∷ ys ]

abbrev pub sorted : List String → List String
sorted [] = []
sorted (x ∷ xs) = insert x (sorted xs)

-- `graph.get(mod_id, set())`
abbrev pub dependents : String → Edges → List String
dependents m [] = []
dependents m ((a, b) ∷ edges) =
    let rest = dependents m edges in if str_eq a m then b ∷ rest else rest

-- `for dependent in sorted(...)`: the degrees and the queue
unfoldable pub release : List String → Degrees → List String → Degrees × List String
release [] degrees queue = (degrees, queue)
release (d ∷ ds) degrees queue =
    let left = degree d degrees - 1 in
    release ds (assign str_eq d left degrees) (if left == 0 then queue ++ d ∷ [] else queue)

pub data Sorted : Type 0 where
  finished : List String → Sorted
  out_of_fuel : Sorted

-- `while queue`, with fuel for the rounds
unfoldable pub kahn : ℕ → Edges → Degrees → List String → List String → Sorted
unfolding release
kahn fuel edges degrees [] load_order = finished load_order
kahn zero edges degrees (m ∷ queue) load_order = out_of_fuel
kahn (suc fuel) edges degrees (m ∷ queue) load_order =
    let (degrees', queue') = release (sorted (dependents m edges)) degrees queue in
    kahn fuel edges degrees' queue' (load_order ++ m ∷ [])

-- `mod_id for mod_id in in_degree if in_degree[mod_id] == 0`
abbrev pub free : Degrees → List String
free [] = []
free ((m, n) ∷ degrees) = let rest = free degrees in if n == 0 then m ∷ rest else rest

pub data Resolved : Type 0 where
  load_order : List String → Resolved
  load_error : LoadError → Resolved
  no_fuel : Resolved

abbrev pub checked : Modules → Sorted → Resolved
checked modules out_of_fuel = no_fuel
checked modules (finished order) =
    if ltb (length order) (length modules) then load_error not_all_loaded else load_order order

abbrev pub resolve_built : Modules → Built → Resolved
resolve_built modules (failed e) = load_error e
resolve_built modules (built graph) =
    checked modules
      (kahn (length graph.in_degree) graph.edges graph.in_degree (sorted (free graph.in_degree)) [])

abbrev pub empty_graph : Modules → Graph
empty_graph modules = record { edges = []; in_degree = initial_degrees (ids modules) }

abbrev pub known : Option (List String) → Modules → List String
known none modules = ids modules
known (some known_ids) modules = known_ids

unfoldable pub resolve_dependencies :
    (String → String → Option Bool)
    → Modules
    → Option (List String)
    → Option (List (String × String))
    → Resolved
unfolding build kahn
resolve_dependencies matches_version_hint [] known_ids module_versions = load_order []
resolve_dependencies matches_version_hint (m ∷ modules) known_ids module_versions =
    resolve_built (m ∷ modules) (
      build matches_version_hint (known known_ids (m ∷ modules)) module_versions (m ∷ modules)
        (empty_graph (m ∷ modules)))
