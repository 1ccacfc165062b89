-- ===== src/Loading/Sorting.antt =====
-- registry/dependencies.py: the loop of Kahn's sort.
use mathlib.Core.Path.{subst}
use apcore_python.Prelude.{
  ℕ, zero, suc, ◌+◌, ◌-◌, ◌≤◌, ◌≡◌, sym, inl, inr, Bool, true, false, List, [], ◌∷◌, ◌++◌,
  append_assoc, append-nil, arith, String, str_eq, eq_iff, among, among-append, distinct,
  distinct-length, distinct-middle, ◌==◌, if◌then◌else◌, Bool-cases, length, length-append,
}
use apcore_python.Loading.{
  Edges, Degrees, has_edge, degree, dependents, sorted, release, kahn, Sorted, finished,
  out_of_fuel,
}
use apcore_python.Loading.Counting.{
  pending, degree-assign, occurrences-sorted, pending-snoc, pending-zero, Covered, Settled, After,
  release-After,
}

-- Every dependency of `m` is among the names.
abbrev pub DependenciesIn : Edges → String → List String → Type 0
DependenciesIn edges m names = (d : String) → has_edge d m edges ≡ true → among d names ≡ true

-- Every module of the order stands behind its dependencies.
abbrev pub InOrder : Edges → List String → List String → Type 0
InOrder edges seen [] = Unit
InOrder edges seen (m ∷ rest) = DependenciesIn edges m seen × InOrder edges (seen ++ m ∷ []) rest

InOrder-snoc :
    (edges : Edges) (seen order : List String) (m : String)
    → InOrder edges seen order
    → DependenciesIn edges m (seen ++ order)
    → InOrder edges seen (order ++ m ∷ [])
InOrder-snoc edges seen [] m o d = (subst (DependenciesIn edges m) (append-nil seen) d, tt)
InOrder-snoc edges seen (x ∷ order) m (dx, o) d = (
  dx,
  InOrder-snoc edges (seen ++ x ∷ []) order m o
      (subst (DependenciesIn edges m) (sym (append_assoc seen (x ∷ []) order)) d),
)

-- The names with an entry that is not zero, and those that wait, are among the keys.
abbrev pub Within : List String → Degrees → List String → Type 0
Within keys degrees names =
    ((m : String) → 1 ≤ degree m degrees → among m keys ≡ true)
    × ((m : String) → among m names ≡ true → among m keys ≡ true)

Within-release :
    (edges : Edges) (loaded due keys : List String) (degrees : Degrees) (queue : List String)
    → Covered edges loaded due degrees
    → Within keys degrees queue
    → Within keys (release due degrees queue).0 (release due degrees queue).1
unfolding release
Within-release edges loaded [] keys degrees queue covered within = within
Within-release edges loaded (x ∷ due) keys degrees queue covered (positive, waiting) =
    Within-release edges loaded due keys _ _
      (λ m. ground (arith, covered m, degree-assign x m (degree x degrees - 1) degrees, eq_iff x m))
      (
        λ m. ground (
          arith,
          positive m,
          degree-assign x m (degree x degrees - 1) degrees,
          eq_iff x m,
          positive x,
        ),
        go ((degree x degrees - 1) == 0),
      )
  where
    is_key : among x keys ≡ true
    is_key = positive x (ground (arith, covered x, eq_iff x x))

    go :
        (b : Bool) (m : String)
        → among m (if b then queue ++ x ∷ [] else queue) ≡ true
        → among m keys ≡ true
    go false m a = waiting m a
    go true m a = elim (Bool-cases (str_eq x m)) [
      | inl same ↦ subst (λ n. among n keys ≡ true) ((eq_iff x m).0 same) is_key
      | inr other ↦ waiting m (ground (arith, a, other, among-append m queue (x ∷ [])))
    ]

-- What holds each time the loop starts.
pub record Loop (edges : Edges) (keys loaded : List String) (degrees : Degrees)
    (queue : List String) : Type 0 where
  pub covered : Covered edges loaded [] degrees
  pub settled : Settled (loaded ++ queue) degrees
  pub within : Within keys degrees (loaded ++ queue)
  pub in_order : InOrder edges [] loaded

abbrev pub LoadOrder : Edges → List String → List String → Type 0
LoadOrder edges keys order =
    InOrder edges [] order
    × (distinct order ≡ true)
    × ((m : String) → among m order ≡ true → among m keys ≡ true)

Loop-next :
    (edges : Edges) (keys loaded : List String) (degrees : Degrees) (m : String)
    (queue : List String)
    → Loop edges keys loaded degrees (m ∷ queue)
    → Loop edges keys
        (loaded ++ m ∷ [])
        (release (sorted (dependents m edges)) degrees queue).0
        (release (sorted (dependents m edges)) degrees queue).1
Loop-next edges keys loaded degrees m queue loop = record {
  covered = released.0;
  settled = released.1;
  within = (later.0, known);
  in_order =
      InOrder-snoc edges [] loaded m loop.in_order
        (λ d. pending-zero m loaded edges d none_pending);
}
  where
    due : List String
    due = sorted (dependents m edges)

    here : among m (loaded ++ m ∷ queue) ≡ true
    here = ground (arith, among-append m loaded (m ∷ queue), eq_iff m m)

    none_pending : pending m loaded edges ≡ 0
    none_pending = omega (arith, loop.covered m, loop.settled.1 m here)

    fresh : among m loaded ≡ false
    fresh = distinct-middle loaded m queue loop.settled.0

    covered : Covered edges (loaded ++ m ∷ []) due degrees
    covered k = omega (
      arith,
      pending-snoc k m loaded edges fresh,
      loop.covered k,
      occurrences-sorted k (dependents m edges),
    )

    released : After edges (loaded ++ m ∷ []) (release due degrees queue)
    released =
        release-After edges (loaded ++ m ∷ []) due degrees queue covered
          (subst (λ l. Settled l degrees) (sym (append_assoc loaded (m ∷ []) queue)) loop.settled)

    later : Within keys (release due degrees queue).0 (release due degrees queue).1
    later = Within-release edges (loaded ++ m ∷ []) due keys degrees queue covered (
      loop.within.0,
      λ k a. loop.within.1 k (ground (arith, among-append k loaded (m ∷ queue), a)),
    )

    known :
        (k : String)
        → among k ((loaded ++ m ∷ []) ++ (release due degrees queue).1) ≡ true
        → among k keys ≡ true
    known k a = elim (Bool-cases (among k (loaded ++ m ∷ []))) [
      | inl old ↦
          loop.within.1 k
            (ground (arith, old, among-append k loaded (m ∷ []), among-append k loaded (m ∷ queue)))
      | inr new ↦
          later.1 k (
            ground (arith, new, a, among-append k (loaded ++ m ∷ []) (release due degrees queue).1))
    ]

Loop-room :
    (edges : Edges) (keys loaded : List String) (degrees : Degrees) (m : String)
    (queue : List String)
    → Loop edges keys loaded degrees (m ∷ queue)
    → length loaded + 1 ≤ length keys
Loop-room edges keys loaded degrees m queue loop = omega (
  arith,
  distinct-length (loaded ++ m ∷ queue) keys loop.settled.0 loop.within.1,
  length-append loaded (m ∷ queue),
)

abbrev pub Finishes : Edges → List String → Sorted → Type 0
Finishes edges keys out_of_fuel = ⊥
Finishes edges keys (finished order) = LoadOrder edges keys order

-- With fuel for the names that are not loaded yet the loop ends, and its result is a load order.
pub kahn-Finishes :
    (fuel : ℕ) (edges : Edges) (keys : List String) (degrees : Degrees) (queue loaded : List String)
    → Loop edges keys loaded degrees queue
    → length keys ≤ fuel + length loaded
    → Finishes edges keys (kahn fuel edges degrees queue loaded)
unfolding kahn
kahn-Finishes fuel edges keys degrees [] loaded loop enough = (
  loop.in_order,
  trimmed loop.settled.0,
  λ m a. loop.within.1 m (subst (λ l. among m l ≡ true) (sym (append-nil loaded)) a),
)
  where
    trimmed : distinct (loaded ++ []) ≡ true → distinct loaded ≡ true
    trimmed d = subst (λ l. distinct l ≡ true) (append-nil loaded) d
kahn-Finishes zero edges keys degrees (m ∷ queue) loaded loop enough =
    absurd (omega (arith, enough, Loop-room edges keys loaded degrees m queue loop))
kahn-Finishes (suc fuel) edges keys degrees (m ∷ queue) loaded loop enough =
    kahn-Finishes fuel edges keys _ _ (loaded ++ m ∷ [])
      (Loop-next edges keys loaded degrees m queue loop)
      (omega (arith, enough, length-append loaded (m ∷ [])))
