-- ===== src/Middleware/Onion.antt =====
-- middleware/manager.py `execute_before`, `execute_after`, `execute_on_error`: the onion.
use mathlib.Core.Path.{subst}
use apcore_python.Prelude.{◌≡◌, refl, ap, sym, ◌∙◌, List, [], ◌∷◌, ◌++◌, append_assoc, append-nil}
use apcore_python.Middleware.{
  Middleware, MiddlewareManager, Hook, unchanged, changed, raised, Handling, declines, failed,
  recovers, retries, BeforeResult, completed, chain_error, AfterResult, final, after_error,
  Recovery, no_recovery, recovered, retry, before_loop, execute_before, after_loop, execute_after,
  on_error_loop, execute_on_error, reversed, before_step, after_step, on_error_step,
}

module _ {S D E : Type 0} where
  -- The `after` hooks of the middlewares further out, on what the inner ones left.
  abbrev pub then_after : List (Middleware S D E) → S × AfterResult D E → S × AfterResult D E
  then_after outer (s, final d) = after_loop outer s d
  then_after outer (s, after_error e) = (s, after_error e)

  -- The `on_error` hooks of the middlewares further out, where no inner one recovered.
  abbrev pub then_on_error : List (Middleware S D E) → E → S × Recovery D → S × Recovery D
  then_on_error outer e (s, no_recovery) = on_error_loop outer s e
  then_on_error outer e (s, recovered d) = (s, recovered d)
  then_on_error outer e (s, retry d) = (s, retry d)

  -- All have run, or a first part of them, of which the last one raised.
  abbrev pub RanPart : List (Middleware S D E) → BeforeResult S D E → Type 0
  RanPart mws (completed d executed) = executed ≡ mws
  RanPart mws (chain_error e executed) =
      (front : List (Middleware S D E)) × (mw : Middleware S D E) × (back : List (Middleware S D E))
      × ((mws ≡ front ++ mw ∷ back)
          × (executed ≡ front ++ mw ∷ [])
          × ((s : S) × (d : D) × ((mw.before s d).1 ≡ raised e)))

  RanPart-from :
      (seen mws : List (Middleware S D E)) (s : S) (d : D)
      → RanPart (seen ++ mws) (before_loop mws s d seen).1
  unfolding before_loop
  RanPart-from seen [] s d = sym (append-nil seen)
  RanPart-from seen (mw ∷ mws) s d =
      go (mw.before s d) refl (λ s' d'. RanPart-from (seen ++ mw ∷ []) mws s' d')
    where
      next : S → D → S × BeforeResult S D E
      next s' d' = before_loop mws s' d' (seen ++ mw ∷ [])

      go :
          (r : S × Hook D E)
          → mw.before s d ≡ r
          → ((s' : S) (d' : D) → RanPart ((seen ++ mw ∷ []) ++ mws) (next s' d').1)
          → RanPart (seen ++ mw ∷ mws) (before_step next d (seen ++ mw ∷ []) r).1
      go (s', raised e) h ih = (seen, mw, mws, (refl, refl, (s, d, ap (λ r. r.1) h)))
      go (s', changed d') h ih =
          subst (λ l. RanPart l (next s' d').1) (append_assoc seen (mw ∷ []) mws) (ih s' d')
      go (s', unchanged) h ih =
          subst (λ l. RanPart l (next s' d).1) (append_assoc seen (mw ∷ []) mws) (ih s' d)

  -- `execute_before` runs the middlewares in their order: all of them, or those up to the first
  -- one that raises, which is the last in the list that the error carries.
  pub execute_before-RanPart :
      (m : MiddlewareManager S D E) (s : S) (d : D) → RanPart m.middlewares (execute_before m s d).1
  unfolding execute_before
  execute_before-RanPart m s d = RanPart-from [] m.middlewares s d

  after_loop-append :
      (inner outer : List (Middleware S D E)) (s : S) (d : D)
      → after_loop (inner ++ outer) s d ≡ then_after outer (after_loop inner s d)
  unfolding after_loop
  after_loop-append [] outer s d = refl
  after_loop-append (mw ∷ inner) outer s d =
      go (mw.after s d) (λ s' d'. after_loop-append inner outer s' d')
    where
      go :
          (r : S × Hook D E)
          → ((s' : S) (d' : D)
              → after_loop (inner ++ outer) s' d' ≡ then_after outer (after_loop inner s' d'))
          → after_step (after_loop (inner ++ outer)) d r
            ≡ then_after outer (after_step (after_loop inner) d r)
      go (s', raised e) ih = refl
      go (s', changed d') ih = ih s' d'
      go (s', unchanged) ih = ih s' d

  on_error_loop-append :
      (inner outer : List (Middleware S D E)) (s : S) (e : E)
      → on_error_loop (inner ++ outer) s e ≡ then_on_error outer e (on_error_loop inner s e)
  unfolding on_error_loop
  on_error_loop-append [] outer s e = refl
  on_error_loop-append (mw ∷ inner) outer s e =
      go (mw.on_error s e) (λ s'. on_error_loop-append inner outer s' e)
    where
      go :
          (r : S × Handling D)
          → ((s' : S)
              → on_error_loop (inner ++ outer) s' e
                ≡ then_on_error outer e (on_error_loop inner s' e))
          → on_error_step (λ s'. on_error_loop (inner ++ outer) s' e) r
            ≡ then_on_error outer e (on_error_step (λ s'. on_error_loop inner s' e) r)
      go (s', failed) ih = ih s'
      go (s', declines) ih = ih s'
      go (s', recovers d) ih = refl
      go (s', retries d) ih = refl

  reversed-append :
      (outer inner : List (Middleware S D E))
      → reversed (outer ++ inner) ≡ reversed inner ++ reversed outer
  reversed-append [] inner = sym (append-nil (reversed inner))
  reversed-append (mw ∷ outer) inner =
      rw (reversed-append outer inner) (append_assoc (reversed inner) (reversed outer) (mw ∷ []))

  -- The `after` hooks are an onion: of two groups of middlewares the inner one, registered behind,
  -- runs first, and the outer one runs on what it leaves, unless it raised.
  pub execute_after-onion :
      (m : MiddlewareManager S D E) (outer inner : List (Middleware S D E)) (s : S) (d : D)
      → m.middlewares ≡ outer ++ inner
      → execute_after m s d
        ≡ then_after (reversed outer) (execute_after (record m { middlewares = inner }) s d)
  unfolding execute_after
  execute_after-onion m outer inner s d e =
      ap (λ l. after_loop (reversed l) s d) e
      ∙ ap (λ l. after_loop l s d) (reversed-append outer inner)
      ∙ after_loop-append (reversed inner) (reversed outer) s d

  -- The `on_error` hooks are asked from the inside out: an outer group is asked only where no
  -- middleware of the inner one recovered or asked for a retry.
  pub execute_on_error-onion :
      (outer inner : List (Middleware S D E)) (s : S) (e : E)
      → execute_on_error (outer ++ inner) s e
        ≡ then_on_error (reversed outer) e (execute_on_error inner s e)
  unfolding execute_on_error
  execute_on_error-onion outer inner s e =
      ap (λ l. on_error_loop l s e) (reversed-append outer inner)
      ∙ on_error_loop-append (reversed inner) (reversed outer) s e
