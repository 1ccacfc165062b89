-- ===== src/Middleware.antt =====
-- middleware/manager.py: `MiddlewareManager`. A middleware is code of the host: its hooks are
-- functions of the state they share (the context and whatever they keep), of type `S`, and of the
-- inputs or outputs, of type `D`; an exception is of type `E`. The async twins call the same hooks
-- in the same order.
use apcore_python.Prelude.{
  ℕ, Bool, true, false, not, ◌&&◌, Option, none, some, List, [], ◌∷◌, ◌++◌, String, str_eq, ◌==◌,
  ltb, any, get, assign, erase, if◌then◌else◌,
}
pub mod Order
pub mod Managed
pub mod Onion
mod Tests

-- What a call of `before` or `after` gives: `None`, a dictionary, or an exception.
pub data Hook (D E : Type 0) : Type 0 where
  unchanged : Hook D E
  changed : D → Hook D E
  raised : E → Hook D E

-- What a call of `on_error` gives: no recovery (`None` or anything else), an exception, a
-- dictionary, or a `RetrySignal` with its inputs.
pub data Handling (D : Type 0) : Type 0 where
  declines failed : Handling D
  recovers retries : D → Handling D

-- `ref` is the object's identity, `type_name` the name of its class.
pub record Middleware (S D E : Type 0) : Type 0 where
  pub ref : ℕ
  pub type_name : String
  pub priority : ℕ
  pub before : S → D → S × Hook D E
  pub after : S → D → S × Hook D E
  pub on_error : S → E → S × Handling D

-- `_identity_registry` maps an identity to the place of its first registration, `_identity_of` the
-- reference of a middleware to its identity.
pub record MiddlewareManager (S D E : Type 0) : Type 0 where
  pub middlewares : List (Middleware S D E)
  pub identity_registry : List (String × String)
  pub identity_of : List (ℕ × String)

-- The inputs and the middlewares that ran, or `MiddlewareChainError` with its cause.
pub data BeforeResult (S D E : Type 0) : Type 0 where
  completed : D → List (Middleware S D E) → BeforeResult S D E
  chain_error : E → List (Middleware S D E) → BeforeResult S D E

pub data AfterResult (D E : Type 0) : Type 0 where
  final : D → AfterResult D E
  after_error : E → AfterResult D E

pub data Recovery (D : Type 0) : Type 0 where
  no_recovery : Recovery D
  recovered retry : D → Recovery D

abbrev pub same_ref : ℕ → ℕ → Bool
same_ref a b = a == b

abbrev pub make_identity : String → Option String → String
make_identity type_name none = type_name
make_identity type_name (some identity_key) = identity_key

abbrev pub note_site : String → String → List (String × String) → List (String × String)
note_site identity site registry = elim (get str_eq identity registry) [
  | none ↦ assign str_eq identity site registry
  | some first_site ↦ registry
]

abbrev pub on_error_step : {S D : Type 0} → (S → S × Recovery D) → S × Handling D → S × Recovery D
on_error_step next (state, failed) = next state
on_error_step next (state, declines) = next state
on_error_step next (state, recovers d) = (state, recovered d)
on_error_step next (state, retries d) = (state, retry d)

module _ {S D E : Type 0} where
  -- the place of the insertion: before the first one with a lower priority
  unfoldable pub insert : Middleware S D E → List (Middleware S D E) → List (Middleware S D E)
  insert middleware [] = middleware ∷ []
  insert middleware (existing ∷ rest) =
      let later = insert middleware rest in
      if ltb existing.priority middleware.priority
      then middleware ∷ existing ∷ rest
      else existing ∷ later

  -- `add`, with `none` for the `ValueError`
  unfoldable pub add : Middleware S D E → MiddlewareManager S D E → Option (MiddlewareManager S D E)
  unfolding insert
  add middleware manager =
      if ltb 1000 middleware.priority
      then none
      else some (record manager { middlewares = insert middleware manager.middlewares })

  -- `use`; the warning on a duplicate is left out. The manager it leaves is given in both cases,
  -- with whether `add` succeeded.
  unfoldable pub use_middleware :
      Middleware S D E
      → Option String
      → String
      → MiddlewareManager S D E
      → MiddlewareManager S D E × Bool
  unfolding add
  use_middleware middleware identity_key site manager =
      let identity = make_identity middleware.type_name identity_key in
      let registry = note_site identity site manager.identity_registry in
      let noted = record manager {
        identity_registry = registry;
        identity_of = assign same_ref middleware.ref identity manager.identity_of;
      } in
      elim (add middleware noted) [ none ↦ (noted, false) | some added ↦ (added, true) ]

  -- the list without the first middleware of the reference; none where there is none
  unfoldable pub pop : ℕ → List (Middleware S D E) → Option (List (Middleware S D E))
  pop ref [] = none
  pop ref (entry ∷ rest) =
      let later = pop ref rest in
      if entry.ref == ref
      then some rest
      else elim later [ none ↦ none | some left ↦ some (entry ∷ left) ]

  -- `self._identity_of.get(id(other)) == identity`
  abbrev pub has_identity : List (ℕ × String) → String → Middleware S D E → Bool
  has_identity identity_of identity other = elim (get same_ref other.ref identity_of) [
    | none ↦ false
    | some i ↦ str_eq i identity
  ]

  abbrev pub forget :
      Option String
      → List (ℕ × String)
      → List (Middleware S D E)
      → List (String × String)
      → List (String × String)
  forget none identity_of left registry = registry
  forget (some identity) identity_of left registry =
      if any (has_identity identity_of identity) left
      then registry
      else erase str_eq identity registry

  unfoldable pub remove : ℕ → MiddlewareManager S D E → MiddlewareManager S D E × Bool
  unfolding pop
  remove ref manager = elim (pop ref manager.middlewares) [
    | none ↦ (manager, false)
    | some left ↦
        let identity_of = erase same_ref ref manager.identity_of in
        (
          record {
            middlewares = left;
            identity_registry =
                forget (get same_ref ref manager.identity_of) identity_of left
                  manager.identity_registry;
            identity_of = identity_of;
          },
          true,
        )
  ]

  -- the loop of `execute_before`, with the middlewares that have run
  abbrev pub before_step :
      (S → D → S × BeforeResult S D E)
      → D
      → List (Middleware S D E)
      → S × Hook D E
      → S × BeforeResult S D E
  before_step next inputs executed (state, raised e) = (state, chain_error e executed)
  before_step next inputs executed (state, changed d) = next state d
  before_step next inputs executed (state, unchanged) = next state inputs

  unfoldable pub before_loop :
      List (Middleware S D E) → S → D → List (Middleware S D E) → S × BeforeResult S D E
  before_loop [] state inputs executed = (state, completed inputs executed)
  before_loop (mw ∷ rest) state inputs executed =
      before_step (λ s d. before_loop rest s d (executed ++ mw ∷ [])) inputs (executed ++ mw ∷ [])
        (mw.before state inputs)

  unfoldable pub execute_before : MiddlewareManager S D E → S → D → S × BeforeResult S D E
  unfolding before_loop
  execute_before manager state inputs = before_loop manager.middlewares state inputs []

  -- the loop of `execute_after`, over a list that is reversed already
  abbrev pub after_step : (S → D → S × AfterResult D E) → D → S × Hook D E → S × AfterResult D E
  after_step next output (state, raised e) = (state, after_error e)
  after_step next output (state, changed d) = next state d
  after_step next output (state, unchanged) = next state output

  unfoldable pub after_loop : List (Middleware S D E) → S → D → S × AfterResult D E
  after_loop [] state output = (state, final output)
  after_loop (mw ∷ rest) state output = after_step (after_loop rest) output (mw.after state output)

  abbrev pub reversed : List (Middleware S D E) → List (Middleware S D E)
  reversed [] = []
  reversed (mw ∷ rest) = reversed rest ++ mw ∷ []

  unfoldable pub execute_after : MiddlewareManager S D E → S → D → S × AfterResult D E
  unfolding after_loop
  execute_after manager state output = after_loop (reversed manager.middlewares) state output

  -- the loop of `execute_on_error`, over a list that is reversed already
  unfoldable pub on_error_loop : List (Middleware S D E) → S → E → S × Recovery D
  on_error_loop [] state error = (state, no_recovery)
  on_error_loop (mw ∷ rest) state error =
      on_error_step (λ s. on_error_loop rest s error) (mw.on_error state error)

  unfoldable pub execute_on_error : List (Middleware S D E) → S → E → S × Recovery D
  unfolding on_error_loop
  execute_on_error executed state error = on_error_loop (reversed executed) state error
