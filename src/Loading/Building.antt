-- ===== src/Loading/Building.antt =====
-- registry/dependencies.py: the graph that is built, and the load order of the modules.
use mathlib.Core.Path.{subst}
use apcore_python.Prelude.{
  ℕ, ◌+◌, ◌≤◌, ◌≡◌, refl, inl, inr, Bool, true, false, ◌||◌, Option, List, [], ◌∷◌, arith, String,
  str_eq, eq_iff, among, distinct, All, assign, Bool-cases,
}
use apcore_python.Loading.{
  DependencyInfo, Modules, Edges, Degrees, Graph, Built, built, failed, Enforced, fits, skip,
  mismatch, malformed, has_edge, degree, ids, initial_degrees, connect, add_dependency,
  enforce_version_constraint, add_dependencies, build,
}
use apcore_python.Loading.Counting.{pending, degree-assign}

abbrev pub names : Degrees → List String
names [] = []
names ((m, n) ∷ degrees) = m ∷ names degrees

among-names-assign :
    (k m : String) (n : ℕ) (degrees : Degrees)
    → among k (names (assign str_eq m n degrees)) ≡ (str_eq m k || among k (names degrees))
among-names-assign k m n [] = refl
among-names-assign k m n ((j, v) ∷ degrees) =
    ground (arith, among-names-assign k m n degrees, eq_iff j m, eq_iff j k, eq_iff m k)

distinct-names-assign :
    (m : String) (n : ℕ) (degrees : Degrees)
    → distinct (names degrees) ≡ true
    → distinct (names (assign str_eq m n degrees)) ≡ true
distinct-names-assign m n [] d = refl
distinct-names-assign m n ((j, v) ∷ degrees) d = ground (
  arith,
  distinct-names-assign m n degrees,
  among-names-assign j m n degrees,
  eq_iff j m,
  eq_iff m j,
)

-- What the building keeps: the degrees count the edges, there is one entry for a name, and it is a
-- declared one.
pub record Counted (declared : List String) (graph : Graph) : Type 0 where
  pub covers : (k : String) → pending k [] graph.edges ≤ degree k graph.in_degree
  pub unique : distinct (names graph.in_degree) ≡ true
  pub is_declared : (k : String) → among k (names graph.in_degree) ≡ true → among k declared ≡ true

connect-Counted :
    (declared : List String) (d m : String) (graph : Graph)
    → among m declared ≡ true
    → Counted declared graph
    → Counted declared (connect d m graph)
connect-Counted declared d m graph is_id counted = record {
  covers = λ k. ground (
    arith,
    counted.covers k,
    eq_iff m k,
    degree-assign m k (degree m graph.in_degree + 1) graph.in_degree,
  );
  unique = distinct-names-assign m _ graph.in_degree counted.unique;
  is_declared = λ k a. elim (Bool-cases (str_eq m k)) [
    | inl same ↦ subst (λ n. among n declared ≡ true) ((eq_iff m k).0 same) is_id
    | inr other ↦ counted.is_declared k (
        ground
          (arith, a, other, among-names-assign k m (degree m graph.in_degree + 1) graph.in_degree))
  ];
}

pub initial-Counted :
    (ms : List String) → Counted ms (record { edges = []; in_degree = initial_degrees ms })
initial-Counted ms = record {
  covers = λ k. omega arith;
  unique = go ms;
  is_declared = known_name ms;
}
  where
    go : (ms : List String) → distinct (names (initial_degrees ms)) ≡ true
    go [] = refl
    go (m ∷ ms) = distinct-names-assign m 0 (initial_degrees ms) (go ms)

    known_name :
        (ms : List String) (k : String)
        → among k (names (initial_degrees ms)) ≡ true
        → among k ms ≡ true
    known_name [] k a = a
    known_name (m ∷ ms) k a =
        ground (arith, a, among-names-assign k m 0 (initial_degrees ms), known_name ms k)

abbrev pub Extends : Graph → Graph → Type 0
Extends g h = (d m : String) → has_edge d m g.edges ≡ true → has_edge d m h.edges ≡ true

connect-Extends : (d m : String) (g : Graph) → Extends g (connect d m g)
connect-Extends d m g a b e = ground arith

connect-edge : (d m : String) (g : Graph) → has_edge d m (connect d m g).edges ≡ true
connect-edge d m g = ground (arith, eq_iff d d, eq_iff m m)

-- Every required dependency of the module is an edge.
abbrev pub Required : Edges → String → List DependencyInfo → Type 0
Required edges m deps =
    All (λ dep. dep.optional ≡ false → has_edge dep.module_id m edges ≡ true) deps

abbrev pub AllRequired : Edges → Modules → Type 0
AllRequired edges [] = Unit
AllRequired edges ((m, deps) ∷ modules) = Required edges m deps × AllRequired edges modules

abbrev pub Builds : List String → Modules → Graph → Built → Type 0
Builds declared modules graph (failed e) = Unit
Builds declared modules graph (built next) =
    Counted declared next × Extends graph next × AllRequired next.edges modules

Required-Extends :
    (m : String) (deps : List DependencyInfo) (g h : Graph)
    → Extends g h
    → Required g.edges m deps
    → Required h.edges m deps
Required-Extends m [] g h x r = tt
Required-Extends m (dep ∷ deps) g h x (r, rs) =
    ((λ o. x dep.module_id m (r o)), Required-Extends m deps g h x rs)

module _ (matches : String → String → Option Bool) (known_ids : List String)
    (versions : Option (List (String × String))) where
  skip-optional :
      (dep : DependencyInfo)
      → enforce_version_constraint matches known_ids versions dep ≡ skip
      → dep.optional ≡ true
  unfolding enforce_version_constraint
  skip-optional dep e = ground arith

  -- What the building of a graph gives where it does not raise.
  abbrev Adds : List String → String → List DependencyInfo → Graph → Built → Type 0
  Adds declared m deps graph (failed e) = Unit
  Adds declared m deps graph (built next) =
      Counted declared next × Extends graph next × Required next.edges m deps

  add_dependencies-Adds :
      (declared : List String) (m : String) (deps : List DependencyInfo) (graph : Graph)
      → among m declared ≡ true
      → Counted declared graph
      → Adds declared m deps graph (add_dependencies matches known_ids versions m deps graph)
  unfolding add_dependencies
  add_dependencies-Adds declared m [] graph is_id counted = (counted, (λ a b e. e), tt)
  add_dependencies-Adds declared m (dep ∷ deps) graph is_id counted =
      go (among dep.module_id known_ids) dep.optional refl
        (enforce_version_constraint matches known_ids versions dep) refl _ _
        (add_dependencies-Adds declared m deps graph is_id counted)
        (add_dependencies-Adds declared m deps (connect dep.module_id m graph) is_id
          (connect-Counted declared dep.module_id m graph is_id counted))
    where
      passed :
          (result : Built)
          → dep.optional ≡ true
          → Adds declared m deps graph result
          → Adds declared m (dep ∷ deps) graph result
      passed (failed e) o a = tt
      passed (built next) o (c, x, r) = (c, x, ((λ f. cc (o, f)), r))

      joined :
          (result : Built)
          → Adds declared m deps (connect dep.module_id m graph) result
          → Adds declared m (dep ∷ deps) graph result
      joined (failed e) a = tt
      joined (built next) (c, x, r) = (
        c,
        (λ a b e. x a b (connect-Extends dep.module_id m graph a b e)),
        ((λ f. x dep.module_id m (connect-edge dep.module_id m graph)), r),
      )

      go :
          (b o : Bool)
          → dep.optional ≡ o
          → (enforced : Enforced)
          → enforce_version_constraint matches known_ids versions dep ≡ enforced
          → (without_edge with_edge : Built) → Adds declared m deps graph without_edge
          → Adds declared m deps (connect dep.module_id m graph) with_edge
          → Adds declared m (dep ∷ deps) graph (add_dependency b o enforced without_edge with_edge)
      go false true e f g w v p q = passed w e p
      go false false e f g w v p q = tt
      go true o e skip g w v p q = passed w (skip-optional dep g) p
      go true o e mismatch g w v p q = tt
      go true o e malformed g w v p q = tt
      go true o e fits g w v p q = joined v q

  pub build-Builds :
      (declared : List String) (modules : Modules) (graph : Graph)
      → ((m : String) → among m (ids modules) ≡ true → among m declared ≡ true)
      → Counted declared graph
      → Builds declared modules graph (build matches known_ids versions modules graph)
  unfolding build
  build-Builds declared [] graph sub counted = (counted, (λ a b e. e), tt)
  build-Builds declared ((m, deps) ∷ modules) graph sub counted =
      go (add_dependencies matches known_ids versions m deps graph)
        (add_dependencies-Adds declared m deps graph (sub m (ground (arith, eq_iff m m))) counted)
        (λ next c. build-Builds declared modules next (λ k a. sub k (ground arith)) c)
    where
      next-Builds :
          (next : Graph) (result : Built)
          → Extends graph next
          → Required next.edges m deps
          → Builds declared modules next result
          → Builds declared ((m, deps) ∷ modules) graph result
      next-Builds next (failed e) x r b = tt
      next-Builds next (built last) x r (c, y, rs) =
          (c, (λ a b e. y a b (x a b e)), (Required-Extends m deps next last y r, rs))

      go :
          (result : Built)
          → Adds declared m deps graph result
          → ((next : Graph)
              → Counted declared next
              → Builds declared modules next (build matches known_ids versions modules next))
          → Builds declared ((m, deps) ∷ modules) graph (elim result [
            | failed e ↦ failed e
            | built next ↦ build matches known_ids versions modules next
          ])
      go (failed e) a ih = tt
      go (built next) (c, x, r) ih = next-Builds next _ x r (ih next c)
