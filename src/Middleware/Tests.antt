-- ===== src/Middleware/Tests.antt =====
-- middleware/manager.py: examples.
use apcore_python.Prelude.{ℕ, ◌≡◌, refl, none, some, List, [], ◌∷◌, String}
use apcore_python.Middleware.{
  Middleware, MiddlewareManager, Hook, unchanged, changed, raised, Handling, declines, recovers,
  failed, add, use_middleware, remove, execute_on_error,
}
use apcore_python.Middleware.Order.{Placed}
use apcore_python.Middleware.Managed.{new_manager, Managed, fresh, added, add-Placed}

-- The state is the log of the calls, by reference.
abbrev logging : ℕ → ℕ → Hook ℕ String → Handling ℕ → Middleware (List ℕ) ℕ String
logging ref priority answer handling = record {
  ref = ref;
  type_name = "Logging";
  priority = priority;
  before = λ log d. (ref ∷ log, answer);
  after = λ log d. (ref ∷ log, changed ref);
  on_error = λ log e. (ref ∷ log, handling);
}

abbrev a : Middleware (List ℕ) ℕ String
a = logging 1 200 unchanged declines

abbrev b : Middleware (List ℕ) ℕ String
b = logging 2 100 (raised "no") (recovers 7)

abbrev c : Middleware (List ℕ) ℕ String
c = logging 3 100 unchanged failed

abbrev one : MiddlewareManager (List ℕ) ℕ String
one = record new_manager { middlewares = b ∷ [] }

abbrev two : MiddlewareManager (List ℕ) ℕ String
two = record new_manager { middlewares = b ∷ c ∷ [] }

abbrev three : MiddlewareManager (List ℕ) ℕ String
three = record new_manager { middlewares = a ∷ b ∷ c ∷ [] }

b_goes_in : add b new_manager ≡ some one
unfolding add
b_goes_in = refl

c_goes_in : add c one ≡ some two
unfolding add
c_goes_in = refl

a_goes_in : add a two ≡ some three
unfolding add
a_goes_in = refl

both_in : Managed two
both_in = added c (added b fresh b_goes_in) c_goes_in

add-Placed_example : Placed a (b ∷ c ∷ []) (a ∷ b ∷ c ∷ [])
add-Placed_example = add-Placed a two three both_in a_goes_in

-- the inside handlers are asked first, and the one that raises is passed over
asked_inside_out : (execute_on_error (a ∷ b ∷ c ∷ []) [] "no").0 ≡ 2 ∷ 3 ∷ []
unfolding execute_on_error
asked_inside_out = refl

-- One object that is registered twice and removed once is still in the list, but its identity is
-- no longer registered.
abbrev twice : MiddlewareManager (List ℕ) ℕ String
twice = (use_middleware c none "x.py:2" (use_middleware c none "x.py:1" new_manager).0).0

survivor : (remove 3 twice).0.middlewares ≡ c ∷ []
unfolding use_middleware remove
survivor = refl

survivor_unnoticed : (remove 3 twice).0.identity_registry ≡ []
unfolding use_middleware remove
survivor_unnoticed = refl

-- A middleware that `add` refuses stays in the registry of identities.
refused :
    (use_middleware
      (logging 4 1001 unchanged declines)
      none
      "x.py:1"
      new_manager).0.identity_registry
    ≡ ("Logging", "x.py:1") ∷ []
unfolding use_middleware
refused = refl
