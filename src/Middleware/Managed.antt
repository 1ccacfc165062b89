-- ===== src/Middleware/Managed.antt =====
-- middleware/manager.py: the managers that calls of `use`, `add` and `remove` reach.
use mathlib.Core.Path.{subst}
use apcore_python.Prelude.{
  ℕ, ◌≡◌, ap, sym, ◌∙◌, ◌⊎◌, inl, inr, true, false, Option, none, some, List, [], arith, String,
  Option-cases,
}
use apcore_python.Middleware.{
  Middleware, MiddlewareManager, insert, add, use_middleware, pop, remove,
}
use apcore_python.Middleware.Order.{
  Sorted, Placed, insert-Placed, insert-Sorted, Popped, pop-Popped, pop-Sorted,
}

module _ {S D E : Type 0} where
  abbrev pub new_manager : MiddlewareManager S D E
  new_manager = record { middlewares = []; identity_registry = []; identity_of = [] }

  pub data Managed : MiddlewareManager S D E → Type 0 where
    fresh : Managed new_manager
    added :
        {m n : MiddlewareManager S D E} (mw : Middleware S D E)
        → Managed m
        → add mw m ≡ some n
        → Managed n
    used :
        {m : MiddlewareManager S D E} (mw : Middleware S D E) (key : Option String) (site : String)
        → Managed m
        → Managed (use_middleware mw key site m).0
    removed : {m : MiddlewareManager S D E} (ref : ℕ) → Managed m → Managed (remove ref m).0

  add-middlewares :
      (mw : Middleware S D E) (m n : MiddlewareManager S D E)
      → add mw m ≡ some n
      → n.middlewares ≡ insert mw m.middlewares
  unfolding add
  add-middlewares mw m n e = ground arith

  use-middlewares :
      (mw : Middleware S D E) (key : Option String) (site : String) (m : MiddlewareManager S D E)
      → ((use_middleware mw key site m).0.middlewares ≡ m.middlewares)
        ⊎ ((use_middleware mw key site m).0.middlewares ≡ insert mw m.middlewares)
  unfolding use_middleware
  use-middlewares mw key site m = ground arith

  remove-lost :
      (ref : ℕ) (m : MiddlewareManager S D E)
      → pop ref m.middlewares ≡ none
      → remove ref m ≡ (m, false)
  unfolding remove
  remove-lost ref m e = ground arith

  remove-found :
      (ref : ℕ) (m : MiddlewareManager S D E) (left : List (Middleware S D E))
      → pop ref m.middlewares ≡ some left
      → ((remove ref m).0.middlewares ≡ left) × ((remove ref m).1 ≡ true)
  unfolding remove
  remove-found ref m left e = ground arith

  remove-middlewares :
      (ref : ℕ) (m : MiddlewareManager S D E)
      → ((remove ref m).0.middlewares ≡ m.middlewares)
        ⊎ (pop ref m.middlewares ≡ some (remove ref m).0.middlewares)
  remove-middlewares ref m = elim (Option-cases (pop ref m.middlewares)) [
    | inl e ↦ inl (ap (λ r. r.0.middlewares) (remove-lost ref m e))
    | inr (left, e) ↦ inr (e ∙ ap some (sym (remove-found ref m left e).0))
  ]

  -- However `use`, `add` and `remove` are called, the middlewares stand in order of priority,
  -- higher ones first.
  pub Managed-Sorted : (m : MiddlewareManager S D E) → Managed m → Sorted m.middlewares
  Managed-Sorted _ fresh = tt
  Managed-Sorted n (added mw managed e) =
      subst Sorted (sym (add-middlewares mw _ n e)) (insert-Sorted mw _ (Managed-Sorted _ managed))
  Managed-Sorted _ (used mw key site managed) = elim (use-middlewares mw key site _) [
    | inl e ↦ subst Sorted (sym e) (Managed-Sorted _ managed)
    | inr e ↦ subst Sorted (sym e) (insert-Sorted mw _ (Managed-Sorted _ managed))
  ]
  Managed-Sorted _ (removed ref managed) = elim (remove-middlewares ref _) [
    | inl e ↦ subst Sorted (sym e) (Managed-Sorted _ managed)
    | inr e ↦ pop-Sorted ref _ _ e (Managed-Sorted _ managed)
  ]

  -- `add` puts the middleware behind all of at least its priority and before all of a lower one,
  -- and keeps the others in their order: equal priorities keep the order of registration.
  pub add-Placed :
      (mw : Middleware S D E) (m n : MiddlewareManager S D E)
      → Managed m
      → add mw m ≡ some n
      → Placed mw m.middlewares n.middlewares
  add-Placed mw m n managed e =
      subst (Placed mw m.middlewares) (sym (add-middlewares mw m n e))
        (insert-Placed mw m.middlewares (Managed-Sorted m managed))

  -- `remove` says yes just where it takes the first middleware of the reference out of the list,
  -- and leaves the others in their order; where it says no the manager is as it was.
  pub remove-Popped :
      (ref : ℕ) (m : MiddlewareManager S D E)
      → (((remove ref m).1 ≡ true) × Popped ref m.middlewares (remove ref m).0.middlewares)
        ⊎ (remove ref m ≡ (m, false))
  remove-Popped ref m = elim (Option-cases (pop ref m.middlewares)) [
    | inl e ↦ inr (remove-lost ref m e)
    | inr (left, e) ↦
        let (found, said) = remove-found ref m left e in
        inl
          (said, subst (Popped ref m.middlewares) (sym found) (pop-Popped ref m.middlewares left e))
  ]
