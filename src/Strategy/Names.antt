-- ===== src/Strategy/Names.antt =====
-- pipeline.py: the names of the steps stay unique.
use mathlib.Core.Path.{subst}
use apcore_python.Prelude.{
  among, ℕ, zero, suc, ◌≡◌, refl, ap, sym, ◌∙◌, inl, inr, true, false, ◌||◌, List, [], ◌∷◌, String,
  str_eq, eq_iff, arith, is_some, Bool-cases, Option-cases,
}
use apcore_python.Strategy.{
  Step, names_of, has_duplicates, name_to_idx, insert_at, pop_at, set_at, name_taken,
}

abbrev pub UniqueNames : List Step → Type 0
UniqueNames steps = has_duplicates (names_of steps) ≡ false

among-insert_at :
    (name : String) (i : ℕ) (step : Step) (steps : List Step)
    → among name (names_of (insert_at i step steps))
      ≡ (str_eq step.name name || among name (names_of steps))
among-insert_at name zero step steps = refl
among-insert_at name (suc i) step [] = refl
among-insert_at name (suc i) step (s ∷ steps) = ground (arith, among-insert_at name i step steps)

pub among-name_to_idx :
    (name : String) (steps : List Step)
    → among name (names_of steps) ≡ is_some (name_to_idx name steps)
among-name_to_idx name [] = refl
among-name_to_idx name (s ∷ steps) = ground (arith, among-name_to_idx name steps)

str_eq_comm : (a b : String) → str_eq a b ≡ str_eq b a
str_eq_comm a b = ground (arith, eq_iff a b, eq_iff b a)

pub insert_at-UniqueNames :
    (i : ℕ) (step : Step) (steps : List Step)
    → among step.name (names_of steps) ≡ false
    → UniqueNames steps
    → UniqueNames (insert_at i step steps)
insert_at-UniqueNames zero step steps fresh unique = ground arith
insert_at-UniqueNames (suc i) step [] fresh unique = refl
insert_at-UniqueNames (suc i) step (s ∷ steps) fresh unique = ground (
  arith,
  among-insert_at s.name i step steps,
  str_eq_comm s.name step.name,
  insert_at-UniqueNames i step steps,
)

among-pop_at :
    (name : String) (i : ℕ) (steps : List Step)
    → among name (names_of steps) ≡ false
    → among name (names_of (pop_at i steps)) ≡ false
among-pop_at name i [] e = e
among-pop_at name zero (s ∷ steps) e = ground arith
among-pop_at name (suc i) (s ∷ steps) e = ground (arith, among-pop_at name i steps)

pub pop_at-UniqueNames :
    (i : ℕ) (steps : List Step) → UniqueNames steps → UniqueNames (pop_at i steps)
pop_at-UniqueNames i [] unique = unique
pop_at-UniqueNames zero (s ∷ steps) unique = ground arith
pop_at-UniqueNames (suc i) (s ∷ steps) unique =
    ground (arith, among-pop_at s.name i steps, pop_at-UniqueNames i steps)

-- The name is at no other place than `i`.
abbrev OnlyAt : ℕ → String → List Step → Type 0
OnlyAt i name [] = Unit
OnlyAt zero name (s ∷ steps) = among name (names_of steps) ≡ false
OnlyAt (suc i) name (s ∷ steps) = (str_eq s.name name ≡ false) × OnlyAt i name steps

among-set_at :
    (other : String) (i : ℕ) (step : Step) (steps : List Step)
    → str_eq step.name other ≡ false
    → among other (names_of steps) ≡ false
    → among other (names_of (set_at i step steps)) ≡ false
among-set_at other i step [] d e = e
among-set_at other zero step (s ∷ steps) d e = ground arith
among-set_at other (suc i) step (s ∷ steps) d e = ground (arith, among-set_at other i step steps)

pub set_at-UniqueNames :
    (i : ℕ) (step : Step) (steps : List Step)
    → OnlyAt i step.name steps
    → UniqueNames steps
    → UniqueNames (set_at i step steps)
set_at-UniqueNames i step [] only unique = unique
set_at-UniqueNames zero step (s ∷ steps) only unique = ground arith
set_at-UniqueNames (suc i) step (s ∷ steps) (d, only) unique = ground (
  arith,
  among-set_at s.name i step steps,
  str_eq_comm s.name step.name,
  set_at-UniqueNames i step steps only,
)

pub name_taken-OnlyAt :
    (i : ℕ) (step : Step) (steps : List Step)
    → UniqueNames steps
    → name_taken step i steps ≡ false
    → OnlyAt i step.name steps
name_taken-OnlyAt i step [] unique e = tt
name_taken-OnlyAt zero step (s ∷ steps) unique e = ground (arith, among-name_to_idx step.name steps)
name_taken-OnlyAt (suc i) step (s ∷ steps) unique e =
    elim (Option-cases (name_to_idx step.name steps)) [
      | inl lost ↦ ground (arith, lost, name_taken-OnlyAt i step steps)
      | inr (j, found) ↦ elim (Bool-cases (str_eq s.name step.name)) [
        | inr other ↦ ground (arith, found, other, name_taken-OnlyAt i step steps)
        | inl same ↦ ground (
          arith,
          unique,
          subst (λ n. among n (names_of steps) ≡ true) (sym ((eq_iff s.name step.name).0 same))
              (among-name_to_idx step.name steps ∙ ap is_some found),
        )
      ]
    ]
