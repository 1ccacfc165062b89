-- ===== src/Strategy/Dependencies.antt =====
-- pipeline.py `_validate_dependencies`: what it accepts.
use mathlib.Core.Path.{subst}
use apcore_python.Prelude.{
  among, ◌≡◌, refl, ap, sym, ◌∙◌, ◌↔◌, true, false, none, List, [], ◌∷◌, ◌++◌, append_assoc,
  append-nil, String, arith, All,
}
use apcore_python.Strategy.{Step, missing, validate_dependencies}

abbrev pub provided_by : List Step → List String
provided_by [] = []
provided_by (step ∷ steps) = step.provides ++ provided_by steps

-- Every key that a step requires is provided by a step before it, or at the start.
abbrev pub Supplied : List String → List Step → Type 0
Supplied start steps =
    (front : List Step) (step : Step) (back : List Step)
    → steps ≡ front ++ step ∷ back
    → All (λ key. among key (start ++ provided_by front) ≡ true) step.requires

missing_iff :
    (requires provided : List String)
    → (missing requires provided ≡ false) ↔ All (λ key. among key provided ≡ true) requires
missing_iff [] provided = ((λ e. tt), λ a. refl)
missing_iff (key ∷ requires) provided = ground (arith, missing_iff requires provided)

validate-first :
    (provided : List String) (step : Step) (steps : List Step)
    → validate_dependencies provided (step ∷ steps) ≡ none
    → (missing step.requires provided ≡ false)
      × (validate_dependencies (provided ++ step.provides) steps ≡ none)
unfolding validate_dependencies
validate-first provided step steps e = ground arith

validate-both :
    (provided : List String) (step : Step) (steps : List Step)
    → missing step.requires provided ≡ false
    → validate_dependencies (provided ++ step.provides) steps ≡ none
    → validate_dependencies provided (step ∷ steps) ≡ none
unfolding validate_dependencies
validate-both provided step steps m e = rw (m) (e)

cons-injective : (x y : Step) (xs ys : List Step) → x ∷ xs ≡ y ∷ ys → (x ≡ y) × (xs ≡ ys)
cons-injective x y xs ys e = (cc, cc)

abbrev AllAmong : List String → Step → Type 0
AllAmong provided step = All (λ key. among key provided ≡ true) step.requires

validate_sound :
    (start : List String) (steps : List Step)
    → validate_dependencies start steps ≡ none
    → Supplied start steps
validate_sound start [] v [] step back e = cc
validate_sound start [] v (s ∷ front) step back e = cc
validate_sound start (first ∷ steps) v [] step back e =
    let (same, rest) = cons-injective first step steps back e in
    let (m, later) = validate-first start first steps v in
    subst (λ l. AllAmong l step) (sym (append-nil start))
      (subst (AllAmong start) same ((missing_iff first.requires start).0 m))
validate_sound start (first ∷ steps) v (s ∷ front) step back e =
    let (same, rest) = cons-injective first s steps (front ++ step ∷ back) e in
    let (m, later) = validate-first start first steps v in
    subst (λ l. AllAmong l step)
      (append_assoc start first.provides (provided_by front)
        ∙ ap (λ (x : Step). start ++ (x.provides ++ provided_by front)) same)
      (validate_sound (start ++ first.provides) steps later front step back rest)

validate_complete :
    (start : List String) (steps : List Step)
    → Supplied start steps
    → validate_dependencies start steps ≡ none
validate_complete start [] h = unfold validate_dependencies in refl
validate_complete start (first ∷ steps) h =
    validate-both start first steps
      ((missing_iff first.requires start).1
        (subst (λ l. AllAmong l first) (append-nil start) (h [] first steps refl)))
      (validate_complete (start ++ first.provides) steps (λ front step back e.
        subst (λ l. AllAmong l step) (sym (append_assoc start first.provides (provided_by front)))
          (h (first ∷ front) step back (ap (λ l. first ∷ l) e))))

-- `_validate_dependencies` raises nothing just where every key that a step requires is provided by
-- a step before it.
pub validate_dependencies_iff :
    (steps : List Step) → (validate_dependencies [] steps ≡ none) ↔ Supplied [] steps
validate_dependencies_iff steps = (validate_sound [] steps, validate_complete [] steps)
