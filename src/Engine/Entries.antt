-- ===== src/Engine/Entries.antt =====
-- pipeline.py: the entries of a trace, against the names of the steps, and all that a round may do.
use Prim.Native.Nat.add
use apcore_python.Prelude.{
  either_case, ℕ, zero, suc, ◌+◌, ◌-◌, ◌≤◌, ◌<◌, ◌≡◌, refl, sym, ap, ◌∙◌, inl, inr, Bool, true,
  false, Option, none, some, List, [], ◌∷◌, ◌++◌, append-nil, append_assoc, String, arith, length,
  get_elem?, take, drop, leb, Option-cases,
}
use apcore_python.Strategy.{Step, names_of, name_to_idx}
use apcore_python.Engine.{StepTrace}
use apcore_python.Engine.Turn.{
  Setup, Running, Turn, go_on, stops, raises, skip_over, skip_found, skip_to_target,
}

abbrev pub trace_names : List StepTrace → List String
trace_names [] = []
trace_names (t ∷ ts) = t.name ∷ trace_names ts

abbrev pub step_names : Setup → List String
step_names setup = names_of setup.declared

-- The entries of a run so far are those of the first `n` steps, in order.
abbrev pub Traced : Setup → ℕ → List StepTrace → Type 0
Traced setup n trace = trace_names trace ≡ take n (step_names setup)

abbrev pub Sound : Setup → ℕ → Turn → Type 0
Sound setup i (go_on j r) = (i < j) × ((j ≤ length setup.declared) × Traced setup j r.trace)
Sound setup i (stops r) = Traced setup (suc i) r.trace
Sound setup i (raises e r) = Traced setup (suc i) r.trace

trace_names-append :
    (ts us : List StepTrace) → trace_names (ts ++ us) ≡ trace_names ts ++ trace_names us
trace_names-append [] us = refl
trace_names-append (t ∷ ts) us = rw (trace_names-append ts us)

take_next :
    (steps : List Step) (i : ℕ) (step : Step)
    → get_elem? steps i ≡ some step
    → take i (names_of steps) ++ step.name ∷ [] ≡ take (suc i) (names_of steps)
take_next [] i step e = ground arith
take_next (s ∷ steps) zero step e = ground arith
take_next (s ∷ steps) (suc i) step e = rw (take_next steps i step e)

take_between :
    (steps : List Step) (i n : ℕ)
    → take i (names_of steps) ++ names_of (take n (drop i steps)) ≡ take (i + n) (names_of steps)
take_between steps zero n = rw (add.zero n) (front steps n)
  where
    front : (steps : List Step) (n : ℕ) → names_of (take n steps) ≡ take n (names_of steps)
    front steps zero = refl
    front [] (suc n) = refl
    front (s ∷ steps) (suc n) = rw (front steps n)
take_between [] (suc i) n = rw (add.suc i n) (ap names_of (take_nil n))
  where
    take_nil : (n : ℕ) → take {A = Step} n [] ≡ []
    take_nil zero = refl
    take_nil (suc n) = refl
take_between (s ∷ steps) (suc i) n = rw (add.suc i n) (rw (take_between steps i n))

name_to_idx-lt :
    (name : String) (steps : List Step) (j : ℕ) → name_to_idx name steps ≡ some j → j < length steps
name_to_idx-lt name [] j e = ground arith
name_to_idx-lt name (s ∷ steps) j e = elim (Option-cases (name_to_idx name steps)) [
  | inl lost ↦ ground (arith, lost)
  | inr (k, found) ↦ ground (arith, found, name_to_idx-lt name steps k found)
]

skip_over-trace :
    (dry_run : Bool) (steps : List Step) (r : Running)
    → trace_names (skip_over dry_run steps r).trace ≡ trace_names r.trace ++ names_of steps
skip_over-trace dry_run [] r = sym (append-nil (trace_names r.trace))
skip_over-trace true (s ∷ steps) r =
    skip_over-trace true steps _
    ∙ ap (λ t. t ++ names_of steps) (trace_names-append r.trace _)
    ∙ append_assoc (trace_names r.trace) _ _
skip_over-trace false (s ∷ steps) r =
    skip_over-trace false steps _
    ∙ ap (λ t. t ++ names_of steps) (trace_names-append r.trace _)
    ∙ append_assoc (trace_names r.trace) _ _

pub skip_to_target-Sound :
    (setup : Setup) (i : ℕ) (target : Option String) (r : Running)
    → Traced setup (suc i) r.trace
    → Sound setup i (skip_to_target setup i target r)
skip_to_target-Sound setup i none r t = t
skip_to_target-Sound setup i (some target) r t = at (name_to_idx target setup.declared) refl
  where
    at :
        (found : Option ℕ)
        → name_to_idx target setup.declared ≡ found
        → Sound setup i (skip_found setup i (some target) found r)
    at none lost = t
    at (some j) found =
        either_case (Sound setup i) (leb j i) (λ back. t)
          (λ forth.
            let later : i < j = ground arith in
            let up : suc i + (j - suc i) ≡ j = omega (arith, later) in
            let bound = name_to_idx-lt target setup.declared j found in
            let between = take (j - suc i) (drop (suc i) setup.declared) in
            (
              later,
              (
                omega (arith, bound),
                skip_over-trace setup.dry_run between r
                    ∙ ap (λ names. names ++ names_of between) t
                    ∙ take_between setup.declared (suc i) (j - suc i)
                    ∙ ap (λ n. take n (step_names setup)) up,
              ),
            ))

-- Where the entry of the step at `i` is added, the entries are those of the first `i + 1` steps.
pub Traced-next :
    (setup : Setup) (i : ℕ) (step : Step) (trace : List StepTrace) (t : StepTrace)
    → get_elem? setup.declared i ≡ some step
    → Traced setup i trace
    → t.name ≡ step.name
    → Traced setup (suc i) (trace ++ t ∷ [])
Traced-next setup i step trace t at traced named =
    trace_names-append trace (t ∷ [])
    ∙ ap (λ names. names ++ t.name ∷ []) traced
    ∙ ap (λ name. take i (step_names setup) ++ name ∷ []) named
    ∙ take_next setup.declared i step at
