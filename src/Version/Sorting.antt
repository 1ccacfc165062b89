-- ===== src/Version/Sorting.antt =====
-- registry/version.py `select_best_version`: the sorted versions.
use mathlib.Core.Path.{subst}
use apcore_python.Prelude.{
  ◌≡◌, sym, ◌⊎◌, inl, inr, Bool, true, false, List, [], ◌∷◌, arith, Text, All, if◌then◌else◌,
  Bool-cases,
}
use apcore_python.Version.{Semver, lower, parse_semver}
use apcore_python.Version.Select.{insert, sorted_versions}

lower-asymmetric : (a b : Semver) → lower a b ≡ true → lower b a ≡ false
lower-asymmetric a b e = ground arith

lower-negative : (a b c : Semver) → lower a b ≡ false → lower b c ≡ false → lower a c ≡ false
lower-negative a b c e f = ground arith

-- No version of the list is higher.
abbrev pub NoneHigher : Text → List Text → Type 0
NoneHigher v versions = All (λ w. lower (parse_semver v) (parse_semver w) ≡ false) versions

-- every version of the list is at least `v`
abbrev pub Least : Text → List Text → Type 0
Least v versions = All (λ w. lower (parse_semver w) (parse_semver v) ≡ false) versions

abbrev pub Ascending : List Text → Type 0
Ascending [] = Unit
Ascending (v ∷ vs) = Least v vs × Ascending vs

Least-weaken :
    (u v : Text) (vs : List Text)
    → lower (parse_semver v) (parse_semver u) ≡ false
    → Least v vs
    → Least u vs
Least-weaken u v [] e l = tt
Least-weaken u v (w ∷ vs) e (l, ls) = (
  lower-negative (parse_semver w) (parse_semver v) (parse_semver u) l e,
  Least-weaken u v vs e ls,
)

Least-insert :
    (u x : Text) (xs : List Text)
    → lower (parse_semver x) (parse_semver u) ≡ false
    → Least u xs
    → Least u (insert x xs)
Least-insert u x [] e l = (e, tt)
Least-insert u x (y ∷ ys) e (l, ls) = elim (Bool-cases (lower (parse_semver y) (parse_semver x))) [
  | inl lt ↦ rw (lt) ((l, Least-insert u x ys e ls))
  | inr ge ↦ rw (ge) ((e, (l, ls)))
]

insert-Ascending : (x : Text) (xs : List Text) → Ascending xs → Ascending (insert x xs)
insert-Ascending x [] a = (tt, tt)
insert-Ascending x (y ∷ ys) (l, a) = elim (Bool-cases (lower (parse_semver y) (parse_semver x))) [
  | inl lt ↦ rw (lt) (
      (
        Least-insert y x ys (lower-asymmetric (parse_semver y) (parse_semver x) lt) l,
        insert-Ascending x ys a,
      ))
  | inr ge ↦ rw (ge) (((ge, Least-weaken x y ys ge l), (l, a)))
]

pub sorted-Ascending : (xs : List Text) → Ascending (sorted_versions xs)
sorted-Ascending [] = tt
sorted-Ascending (x ∷ xs) = insert-Ascending x (sorted_versions xs) (sorted-Ascending xs)

All-insert {ℓ} :
    (P : Text → Type ℓ) (x : Text) (xs : List Text) → All P (insert x xs) → P x × All P xs
All-insert P x [] (p, ps) = (p, ps)
All-insert P x (y ∷ ys) ps = go (lower (parse_semver y) (parse_semver x)) ps (All-insert P x ys)
  where
    go :
        (b : Bool)
        → All P (if b then y ∷ insert x ys else x ∷ y ∷ ys)
        → (All P (insert x ys) → P x × All P ys)
        → P x × All P (y ∷ ys)
    go true (py, ps) ih = let (px, qs) = ih ps in (px, (py, qs))
    go false (px, ps) ih = (px, ps)

pub All-sorted {ℓ} : (P : Text → Type ℓ) (xs : List Text) → All P (sorted_versions xs) → All P xs
All-sorted P [] ps = tt
All-sorted P (x ∷ xs) ps =
    let (p, qs) = All-insert P x (sorted_versions xs) ps in (p, All-sorted P xs qs)

abbrev pub In : Text → List Text → Type 0
In v [] = ⊥
In v (w ∷ ws) = (v ≡ w) ⊎ In v ws

In-insert : (v x : Text) (xs : List Text) → In v (insert x xs) → (v ≡ x) ⊎ In v xs
In-insert v x [] h = h
In-insert v x (y ∷ ys) h = go (lower (parse_semver y) (parse_semver x)) h (In-insert v x ys)
  where
    go :
        (b : Bool)
        → In v (if b then y ∷ insert x ys else x ∷ y ∷ ys)
        → (In v (insert x ys) → (v ≡ x) ⊎ In v ys)
        → (v ≡ x) ⊎ In v (y ∷ ys)
    go true (inl e) ih = inr (inl e)
    go true (inr h) ih = elim (ih h) [ inl e ↦ inl e | inr i ↦ inr (inr i) ]
    go false h ih = h

pub In-sorted : (v : Text) (xs : List Text) → In v (sorted_versions xs) → In v xs
In-sorted v [] h = h
In-sorted v (x ∷ xs) h = elim (In-insert v x (sorted_versions xs) h) [
  | inl e ↦ inl e
  | inr i ↦ inr (In-sorted v xs i)
]

pub Least-In :
    (u v : Text) (vs : List Text)
    → Least u vs
    → In v vs
    → lower (parse_semver v) (parse_semver u) ≡ false
Least-In u v [] l h = absurd h
Least-In u v (w ∷ vs) (l, ls) (inl e) =
    subst (λ x. lower (parse_semver x) (parse_semver u) ≡ false) (sym e) l
Least-In u v (w ∷ vs) (l, ls) (inr h) = Least-In u v vs ls h
