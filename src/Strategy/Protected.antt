-- ===== src/Strategy/Protected.antt =====
-- pipeline.py: a step that is neither removable nor replaceable.
use apcore_python.Prelude.{
  ℕ, zero, suc, ◌+◌, ◌≡◌, ap, ◌⊎◌, inl, inr, true, false, List, [], ◌∷◌, String, arith, Bool-cases,
  Option-cases,
}
use apcore_python.Strategy.{
  Step, ExecutionStrategy, name_to_idx, insert_at, pop_at, set_at, insert_after, insert_before,
  insert_beside, remove, replace, configure_step, flag_at,
}
use apcore_python.Strategy.Changes.{
  Change, after_anchor, before_anchor, without, replaced, configured,
}

abbrev pub In : Step → List Step → Type 0
In step [] = ⊥
In step (s ∷ steps) = (step ≡ s) ⊎ In step steps

abbrev pub Protected : Step → Type 0
Protected step = (step.removable ≡ false) × (step.replaceable ≡ false)

In-insert_at :
    (step : Step) (i : ℕ) (new : Step) (steps : List Step)
    → In step steps
    → In step (insert_at i new steps)
In-insert_at step zero new steps h = inr h
In-insert_at step (suc i) new [] h = absurd h
In-insert_at step (suc i) new (s ∷ steps) (inl e) = inl e
In-insert_at step (suc i) new (s ∷ steps) (inr h) = inr (In-insert_at step i new steps h)

In-pop_at :
    (step : Step) (i : ℕ) (steps : List Step)
    → step.removable ≡ false
    → flag_at i (λ s. s.removable) steps ≡ true
    → In step steps
    → In step (pop_at i steps)
In-pop_at step i [] p f h = h
In-pop_at step zero (s ∷ steps) p f (inl e) = cc (ap (λ s. s.removable) e, p, f)
In-pop_at step zero (s ∷ steps) p f (inr h) = h
In-pop_at step (suc i) (s ∷ steps) p f (inl e) = inl e
In-pop_at step (suc i) (s ∷ steps) p f (inr h) = inr (In-pop_at step i steps p f h)

In-set_at :
    (step : Step) (i : ℕ) (new : Step) (steps : List Step)
    → step.replaceable ≡ false
    → flag_at i (λ s. s.replaceable) steps ≡ true
    → In step steps
    → In step (set_at i new steps)
In-set_at step i new [] p f h = h
In-set_at step zero new (s ∷ steps) p f (inl e) = cc (ap (λ s. s.replaceable) e, p, f)
In-set_at step zero new (s ∷ steps) p f (inr h) = inr h
In-set_at step (suc i) new (s ∷ steps) p f (inl e) = inl e
In-set_at step (suc i) new (s ∷ steps) p f (inr h) = inr (In-set_at step i new steps p f h)

insert_beside-In :
    (offset : ℕ) (anchor : String) (new : Step) (s : ExecutionStrategy) (step : Step)
    → In step s.steps
    → In step (insert_beside offset anchor new s).0.steps
insert_beside-In offset anchor new s step h = elim (Option-cases (name_to_idx new.name s.steps)) [
  | inr (j, taken) ↦ rw (taken) (h)
  | inl lost ↦ elim (Option-cases (name_to_idx anchor s.steps)) [
    | inl nowhere ↦ rw (lost, nowhere) (h)
    | inr (i, found) ↦ rw (lost, found) (In-insert_at step (i + offset) new s.steps h)
  ]
]

remove-In :
    (name : String) (s : ExecutionStrategy) (step : Step)
    → step.removable ≡ false
    → In step s.steps
    → In step (remove name s).0.steps
unfolding remove
remove-In name s step p h = elim (Option-cases (name_to_idx name s.steps)) [
  | inl nowhere ↦ ground (arith, nowhere, h)
  | inr (i, found) ↦ elim (Bool-cases (flag_at i (λ s. s.removable) s.steps)) [
    | inl f ↦ ground (arith, found, f, In-pop_at step i s.steps p f h)
    | inr f ↦ ground (arith, found, f, h)
  ]
]

replace-In :
    (name : String) (new : Step) (s : ExecutionStrategy) (step : Step)
    → step.replaceable ≡ false
    → In step s.steps
    → In step (replace name new s).0.steps
unfolding replace
replace-In name new s step p h = elim (Option-cases (name_to_idx name s.steps)) [
  | inl nowhere ↦ ground (arith, nowhere, h)
  | inr (i, found) ↦ elim (Bool-cases (flag_at i (λ s. s.replaceable) s.steps)) [
    | inr f ↦ ground (arith, found, f, h)
    | inl f ↦ ground (arith, found, f, h, In-set_at step i new s.steps p f h)
  ]
]

-- A step that is neither removable nor replaceable is in the strategy after any change, whether or
-- not the change raises.
pub Change-keeps_Protected :
    (s t : ExecutionStrategy) (step : Step)
    → Change s t
    → Protected step
    → In step s.steps
    → In step t.steps
unfolding insert_after insert_before configure_step
Change-keeps_Protected _ _ step (after_anchor anchor new s) p h =
    insert_beside-In 1 anchor new s step h
Change-keeps_Protected _ _ step (before_anchor anchor new s) p h =
    insert_beside-In 0 anchor new s step h
Change-keeps_Protected _ _ step (without name s) (fixed, kept) h = remove-In name s step fixed h
Change-keeps_Protected _ _ step (replaced name new s) (fixed, kept) h =
    replace-In name new s step kept h
Change-keeps_Protected _ _ step (configured name new s) (fixed, kept) h =
    replace-In name new s step kept h
