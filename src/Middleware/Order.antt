-- ===== src/Middleware/Order.antt =====
-- middleware/manager.py `add`, `use` and `remove`: the order of the middlewares.
use mathlib.Core.Path.{subst}
use apcore_python.Prelude.{
  ℕ, ◌≤◌, ◌<◌, ◌≡◌, ◌≢◌, refl, ap, sym, ◌∙◌, inl, inr, some, List, [], ◌∷◌, ◌++◌, arith, All, ltb,
  ltb_iff, ◌==◌, Bool-cases, Option-cases,
}
use apcore_python.Middleware.{Middleware, insert, pop}

module _ {S D E : Type 0} where
  -- Higher priorities first.
  abbrev pub Sorted : List (Middleware S D E) → Type 0
  Sorted [] = Unit
  Sorted (mw ∷ rest) = All (λ other. other.priority ≤ mw.priority) rest × Sorted rest

  -- The middleware stands behind all of at least its priority, and before all of a lower one.
  abbrev pub Placed : Middleware S D E → List (Middleware S D E) → List (Middleware S D E) → Type 0
  Placed mw old new =
      (front : List (Middleware S D E)) × (back : List (Middleware S D E)) × ((old ≡ front ++ back)
        × (new ≡ front ++ mw ∷ back)
        × All (λ other. mw.priority ≤ other.priority) front
        × All (λ other. other.priority < mw.priority) back)

  All-weaken :
      (p q : ℕ) (mws : List (Middleware S D E))
      → p < q
      → All (λ other. other.priority ≤ p) mws
      → All (λ other. other.priority < q) mws
  All-weaken p q [] lt a = tt
  All-weaken p q (mw ∷ mws) lt (a, as') = (omega (arith, lt, a), All-weaken p q mws lt as')

  pub insert-Placed :
      (mw : Middleware S D E) (mws : List (Middleware S D E))
      → Sorted mws
      → Placed mw mws (insert mw mws)
  unfolding insert
  insert-Placed mw [] s = ([], [], (refl, refl, tt, tt))
  insert-Placed mw (first ∷ rest) (low, s) = elim (Bool-cases (ltb first.priority mw.priority)) [
    | inl lower ↦
        let lt = (ltb_iff first.priority mw.priority).0 lower in
        (
          [],
          first ∷ rest,
          (refl, rw (lower) (refl), tt, (lt, All-weaken first.priority mw.priority rest lt low)),
        )
    | inr higher ↦
        let (front, back, (e, f, a, b)) = insert-Placed mw rest s in
        (
          first ∷ front,
          back,
          (
            ap (λ l. first ∷ l) e,
            rw (higher) (ap (λ l. first ∷ l) f),
            (ground (arith, higher), a),
            b,
          ),
        )
  ]

  All-insert :
      (p : ℕ) (mw : Middleware S D E) (mws : List (Middleware S D E))
      → mw.priority ≤ p
      → All (λ other. other.priority ≤ p) mws
      → All (λ other. other.priority ≤ p) (insert mw mws)
  unfolding insert
  All-insert p mw [] le a = (le, tt)
  All-insert p mw (first ∷ rest) le (a, as') = elim (Bool-cases (ltb first.priority mw.priority)) [
    | inl lower ↦ rw (lower) ((le, (a, as')))
    | inr higher ↦ rw (higher) ((a, All-insert p mw rest le as'))
  ]

  pub insert-Sorted :
      (mw : Middleware S D E) (mws : List (Middleware S D E)) → Sorted mws → Sorted (insert mw mws)
  unfolding insert
  insert-Sorted mw [] s = (tt, tt)
  insert-Sorted mw (first ∷ rest) (low, s) = elim (Bool-cases (ltb first.priority mw.priority)) [
    | inl lower ↦
        let lt = (ltb_iff first.priority mw.priority).0 lower in
        rw (lower) (((omega (arith, lt), below first.priority mw.priority lt rest low), (low, s)))
    | inr higher ↦
        rw (higher) (
          (All-insert first.priority mw rest (ground (arith, higher)) low, insert-Sorted mw rest s))
  ]
    where
      below :
          (p q : ℕ)
          → p < q
          → (mws : List (Middleware S D E)) → All (λ other. other.priority ≤ p) mws
          → All (λ other. other.priority ≤ q) mws
      below p q lt [] a = tt
      below p q lt (mw ∷ mws) (a, as') = (omega (arith, lt, a), below p q lt mws as')

  -- The list without the first middleware of the reference.
  abbrev pub Popped : ℕ → List (Middleware S D E) → List (Middleware S D E) → Type 0
  Popped ref mws left =
      (front : List (Middleware S D E)) × (mw : Middleware S D E) × (back : List (Middleware S D E))
      × ((mws ≡ front ++ mw ∷ back)
          × (left ≡ front ++ back)
          × (mw.ref ≡ ref)
          × All (λ other. other.ref ≢ ref) front)

  pub pop-Popped :
      (ref : ℕ) (mws left : List (Middleware S D E)) → pop ref mws ≡ some left → Popped ref mws left
  unfolding pop
  pop-Popped ref [] left e = cc
  pop-Popped ref (mw ∷ mws) left e = elim (Bool-cases (mw.ref == ref)) [
    | inl same ↦ ([], mw, mws, (refl, sym (some-inj (rw (same) at e)), ground (arith, same), tt))
    | inr other ↦ elim (Option-cases (pop ref mws)) [
      | inl lost ↦ cc (rw (other, lost) at e)
      | inr (rest, found) ↦
          let (front, gone, back, (p, q, r, a)) = pop-Popped ref mws rest found in
          (
            mw ∷ front,
            gone,
            back,
            (
              ap (λ l. mw ∷ l) p,
              sym (some-inj (rw (other, found) at e)) ∙ ap (λ l. mw ∷ l) q,
              r,
              (ground (arith, other), a),
            ),
          )
    ]
  ]
    where
      some-inj : {x y : List (Middleware S D E)} → some x ≡ some y → x ≡ y
      some-inj e = cc

  All-drop_middle :
      (p : ℕ) (front : List (Middleware S D E)) (mw : Middleware S D E)
      (back : List (Middleware S D E))
      → All (λ other. other.priority ≤ p) (front ++ mw ∷ back)
      → All (λ other. other.priority ≤ p) (front ++ back)
  All-drop_middle p [] mw back (a, as') = as'
  All-drop_middle p (x ∷ front) mw back (a, as') = (a, All-drop_middle p front mw back as')

  Sorted-drop_middle :
      (front : List (Middleware S D E)) (mw : Middleware S D E) (back : List (Middleware S D E))
      → Sorted (front ++ mw ∷ back)
      → Sorted (front ++ back)
  Sorted-drop_middle [] mw back (low, s) = s
  Sorted-drop_middle (x ∷ front) mw back (low, s) =
      (All-drop_middle x.priority front mw back low, Sorted-drop_middle front mw back s)

  pub pop-Sorted :
      (ref : ℕ) (mws left : List (Middleware S D E))
      → pop ref mws ≡ some left
      → Sorted mws
      → Sorted left
  pop-Sorted ref mws left e s =
      let (front, mw, back, (p, q, r, a)) = pop-Popped ref mws left e in
      subst Sorted (sym q) (Sorted-drop_middle front mw back (subst Sorted p s))
