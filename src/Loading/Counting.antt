-- ===== src/Loading/Counting.antt =====
-- registry/dependencies.py: the in-degrees against the edges that are still open.
use mathlib.Core.Path.{subst}
use apcore_python.Prelude.{
  ℕ, ◌+◌, ◌-◌, ◌≤◌, ◌≡◌, refl, sym, inl, inr, Bool, true, false, not, ◌&&◌, List, [], ◌∷◌, ◌++◌,
  append_assoc, arith, String, str_eq, eq_iff, among, among-append, distinct, distinct-snoc, assign,
  ◌==◌, if◌then◌else◌, Bool-cases,
}
use apcore_python.Loading.{
  Edges, Degrees, has_edge, degree, add_edge, dependents, insert, sorted, release,
}

-- The edges to `m` whose dependency is not among the names.
abbrev pub pending : String → List String → Edges → ℕ
pending m loaded [] = 0
pending m loaded ((a, b) ∷ edges) =
    if str_eq b m && not (among a loaded)
    then pending m loaded edges + 1
    else pending m loaded edges

abbrev pub occurrences : String → List String → ℕ
occurrences m [] = 0
occurrences m (x ∷ xs) = if str_eq x m then occurrences m xs + 1 else occurrences m xs

pub degree-assign :
    (m k : String) (n : ℕ) (degrees : Degrees)
    → degree k (assign str_eq m n degrees) ≡ (if str_eq m k then n else degree k degrees)
degree-assign m k n [] = ground arith
degree-assign m k n ((j, v) ∷ degrees) =
    ground (arith, degree-assign m k n degrees, eq_iff j m, eq_iff j k, eq_iff m k)

occurrences-insert :
    (m x : String) (xs : List String) → occurrences m (insert x xs) ≡ occurrences m (x ∷ xs)
occurrences-insert m x [] = refl
occurrences-insert m x (y ∷ ys) = ground (arith, occurrences-insert m x ys)

pub occurrences-sorted :
    (m : String) (xs : List String) → occurrences m (sorted xs) ≡ occurrences m xs
occurrences-sorted m [] = refl
occurrences-sorted m (x ∷ xs) =
    ground (arith, occurrences-insert m x (sorted xs), occurrences-sorted m xs)

-- Loading one more module takes the edges from it off the pending ones.
pub pending-snoc :
    (m x : String) (loaded : List String) (edges : Edges)
    → among x loaded ≡ false
    → pending m (loaded ++ x ∷ []) edges + occurrences m (dependents x edges)
      ≡ pending m loaded edges
pending-snoc m x loaded [] fresh = omega arith
pending-snoc m x loaded ((a, b) ∷ edges) fresh = ground (
  arith,
  among-append a loaded (x ∷ []),
  pending-snoc m x loaded edges fresh,
  eq_iff x a,
  eq_iff a x,
)

pub pending-zero :
    (m : String) (loaded : List String) (edges : Edges) (d : String)
    → pending m loaded edges ≡ 0
    → has_edge d m edges ≡ true
    → among d loaded ≡ true
pending-zero m loaded [] d z e = cc
pending-zero m loaded ((a, b) ∷ edges) d z e = elim (Bool-cases (str_eq a d)) [
  | inl same ↦ ground (
    arith,
    pending-zero m loaded edges d,
    subst (λ n. among n loaded ≡ among d loaded) (sym ((eq_iff a d).0 same)) refl,
  )
  | inr other ↦ ground (arith, other, pending-zero m loaded edges d)
]

pending-add_edge :
    (k d m : String) (edges : Edges)
    → pending k [] (add_edge d m edges)
      ≤ (if str_eq m k then pending k [] edges + 1 else pending k [] edges)
pending-add_edge k d m edges = ground arith

-- The degrees count at least the pending edges, and those that are still to be released.
abbrev pub Covered : Edges → List String → List String → Degrees → Type 0
Covered edges loaded due degrees =
    (m : String) → pending m loaded edges + occurrences m due ≤ degree m degrees

-- No edge is pending to what is loaded or waits to be, and nothing is there twice.
abbrev pub Settled : List String → Degrees → Type 0
Settled seen degrees =
    (distinct seen ≡ true) × ((m : String) → among m seen ≡ true → degree m degrees ≡ 0)

abbrev pub After : Edges → List String → Degrees × List String → Type 0
After edges loaded (degrees, queue) =
    Covered edges loaded [] degrees × Settled (loaded ++ queue) degrees

Settled-fresh :
    (edges : Edges) (loaded due seen : List String) (x : String) (degrees : Degrees)
    → Covered edges loaded (x ∷ due) degrees
    → Settled seen degrees
    → among x seen ≡ false
Settled-fresh edges loaded due seen x degrees covered (d, zero_degree) =
    ground (arith, covered x, zero_degree x, eq_iff x x)

Covered-release :
    (edges : Edges) (loaded due : List String) (x : String) (degrees : Degrees)
    → Covered edges loaded (x ∷ due) degrees
    → Covered edges loaded due (assign str_eq x (degree x degrees - 1) degrees)
Covered-release edges loaded due x degrees covered m =
    ground (arith, covered m, degree-assign x m (degree x degrees - 1) degrees, eq_iff x m)

Settled-release :
    (seen : List String) (x : String) (n : ℕ) (degrees : Degrees)
    → among x seen ≡ false
    → Settled seen degrees
    → Settled seen (assign str_eq x n degrees)
Settled-release seen x n degrees fresh (d, zero_degree) =
    (d, λ m a. ground (arith, zero_degree m a, degree-assign x m n degrees, eq_iff x m, moved m a))
  where
    moved : (m : String) → among m seen ≡ true → str_eq x m ≡ false
    moved m a = elim (Bool-cases (str_eq x m)) [
      | inr e ↦ e
      | inl e ↦ ground (arith, fresh, subst (λ n. among n seen ≡ true) (sym ((eq_iff x m).0 e)) a)
    ]

Settled-snoc :
    (seen : List String) (x : String) (degrees : Degrees)
    → among x seen ≡ false
    → degree x degrees ≡ 0
    → Settled seen degrees
    → Settled (seen ++ x ∷ []) degrees
Settled-snoc seen x degrees fresh z (d, zero_degree) = (
  distinct-snoc seen x d fresh,
  λ m a. elim (Bool-cases (among m seen)) [
    | inl old ↦ zero_degree m old
    | inr new ↦
        subst (λ n. degree n degrees ≡ 0)
          ((eq_iff x m).0 (ground (arith, a, new, among-append m seen (x ∷ [])))) z
  ],
)

pub release-After :
    (edges : Edges) (loaded due : List String) (degrees : Degrees) (queue : List String)
    → Covered edges loaded due degrees
    → Settled (loaded ++ queue) degrees
    → After edges loaded (release due degrees queue)
unfolding release
release-After edges loaded [] degrees queue covered settled = (covered, settled)
release-After edges loaded (x ∷ due) degrees queue covered settled =
    release-After edges loaded due _ _ (Covered-release edges loaded due x degrees covered)
      (go ((degree x degrees - 1) == 0) refl)
  where
    fresh : among x (loaded ++ queue) ≡ false
    fresh = Settled-fresh edges loaded due (loaded ++ queue) x degrees covered settled

    after : Degrees
    after = assign str_eq x (degree x degrees - 1) degrees

    kept : Settled (loaded ++ queue) after
    kept = Settled-release (loaded ++ queue) x (degree x degrees - 1) degrees fresh settled

    go :
        (b : Bool)
        → ((degree x degrees - 1) == 0) ≡ b
        → Settled (loaded ++ (if b then queue ++ x ∷ [] else queue)) after
    go false e = kept
    go true e =
        subst (λ l. Settled l after) (append_assoc loaded queue (x ∷ []))
          (Settled-snoc (loaded ++ queue) x after fresh
            (ground (arith, e, degree-assign x x (degree x degrees - 1) degrees, eq_iff x x)) kept)
