-- ===== src/Acl/Handlers.antt =====
-- acl_handlers.py: the built-in handlers, and the registries. A handler that a host registers is
-- code outside the repository: a function into what calling it can give.
use Prim.Native.String.{compare}
use Prim.Native.Nat.{Ordering}
use apcore_python.Prelude.{
  ℕ, Bool, true, false, not, ◌&&◌, Option, none, some, List, [], ◌∷◌, String, str_eq, any, all,
  length, leb, if◌then◌else◌,
}
use apcore_python.Acl.Values.{
  ℤ, pos, negsuc, Value, int, float, str, list, dict, Items, nil, cons, end, field, fields, lookup,
  Context, ConditionOutcome, satisfied, unsatisfied, unevaluable,
}

abbrev pub from_bool : Bool → ConditionOutcome
from_bool true = satisfied
from_bool false = unsatisfied

-- `x in xs` on strings
abbrev pub member : String → List String → Bool
member x xs = any (λ y. str_eq y x) xs

-- the strings among the values: only these can equal an identity's type or role
abbrev pub strings : Items → List String
strings nil = []
strings (cons (str s) vs) = s ∷ strings vs
strings (cons _ vs) = strings vs

unfoldable pub identity_types : Value → Context → Bool
identity_types (list vs) context = elim context.identity [
  | none ↦ false
  | some identity ↦ member identity.type (strings vs)
]
identity_types _ context = false

-- `set(value)` raises where an element is a list or a mapping.
abbrev hashable : Items → Bool
hashable nil = true
hashable (cons (list _) vs) = false
hashable (cons (dict _) vs) = false
hashable (cons _ vs) = hashable vs

-- none where it raises `TypeError`
unfoldable pub roles : Value → Context → Option Bool
roles (list vs) context = elim context.identity [
  | none ↦ some false
  | some identity ↦
      if hashable vs then some (any (λ role. member role (strings vs)) identity.roles) else none
]
roles _ context = some false

abbrev within : ℕ → ℤ → Bool
within depth (pos limit) = leb depth limit
within depth (negsuc _) = false

abbrev depth_test : Option Value → ℕ → Bool
depth_test (some (int limit)) depth = within depth limit
depth_test (some (float (some limit))) depth = within depth limit
depth_test _ depth = false

abbrev threshold : Value → Option Value
threshold (dict fs) = lookup "lte" (fields fs)
threshold v = some v

unfoldable pub max_call_depth : Value → Context → Bool
max_call_depth value context = depth_test (threshold value) (length context.call_chain)

abbrev pub ArgumentPredicates : Type 0
ArgumentPredicates = List String

abbrev pub argument_predicates : ArgumentPredicates
argument_predicates = "has_key" ∷ "has_all_keys" ∷ "has_none_of" ∷ []

abbrev all_strings : Items → Bool
all_strings nil = true
all_strings (cons (str s) vs) = all_strings vs
all_strings (cons _ vs) = false

abbrev is_string_list : Value → Bool
is_string_list (list vs) = all_strings vs
is_string_list _ = false

-- `sorted(value)`, by insertion
abbrev insert_key : String × Value → List (String × Value) → List (String × Value)
insert_key kv [] = kv ∷ []
insert_key kv (jw ∷ rest) = elim (compare kv.0 jw.0) [
  | Ordering.gt ↦ jw ∷ insert_key kv rest
  | _ ↦ kv ∷ jw ∷ rest
]

abbrev sorted : List (String × Value) → List (String × Value)
sorted [] = []
sorted (kv ∷ rest) = insert_key kv (sorted rest)

-- A fault is `none` at the block itself, or the name of the predicate that is wrong.
abbrev predicate_faults : List (String × Value) → List (Option String)
predicate_faults [] = []
predicate_faults ((predicate, names) ∷ rest) =
    if member predicate argument_predicates && is_string_list names
    then predicate_faults rest
    else some predicate ∷ predicate_faults rest

unfoldable pub validate_arguments_condition : Value → List (Option String)
validate_arguments_condition (dict end) = none ∷ []
validate_arguments_condition (dict (field k v fs)) =
    predicate_faults (sorted (fields (field k v fs)))
validate_arguments_condition _ = none ∷ []

abbrev names_of : Value → List String
names_of (list vs) = strings vs
names_of _ = []

abbrev argument_test : String → List String → List String → Bool
argument_test predicate names present =
    if str_eq predicate "has_key"
    then any (λ name. member name present) names
    else if str_eq predicate "has_all_keys"
    then all (λ name. member name present) names
    else not (any (λ name. member name present) names)

abbrev argument_tests : List (String × Value) → List String → ConditionOutcome
argument_tests [] present = satisfied
argument_tests ((predicate, names) ∷ rest) present =
    if not (argument_test predicate (names_of names) present)
    then unsatisfied
    else argument_tests rest present

abbrev fields_of : Value → List (String × Value)
fields_of (dict fs) = fields fs
fields_of _ = []

unfoldable pub arguments : Value → Context → ConditionOutcome
unfolding validate_arguments_condition
arguments value context = elim (validate_arguments_condition value) [
  | fault ∷ faults ↦ unevaluable
  | [] ↦ elim context.projection [
    | none ↦ unevaluable
    | some present ↦ argument_tests (fields_of value) present
  ]
]

-- What a call of a handler gives: an answer, an exception, or an awaitable that suspends, with
-- what awaiting it gives (`none` where that raises).
pub data Answer : Type 0 where
  returned : ConditionOutcome → Answer
  raised : Answer
  suspended : Option ConditionOutcome → Answer

abbrev pub answer_or_raise : Option Bool → Answer
answer_or_raise none = raised
answer_or_raise (some b) = returned (from_bool b)

abbrev pub Handler : Type 0
Handler = Value → Context → Answer

pub record Registry : Type 0 where
  pub condition_handlers : List (String × Handler)
  pub async_condition_handlers : List (String × Handler)

-- the registries as the class body and the end of the module leave them; `$or` and `$not` are
-- not entries here but cases of the evaluator
abbrev pub builtin_handlers : List (String × Handler)
builtin_handlers =
    ("identity_types", λ v c. returned (from_bool (identity_types v c)))
    ∷ ("roles", λ v c. answer_or_raise (roles v c))
    ∷ ("max_call_depth", λ v c. returned (from_bool (max_call_depth v c)))
    ∷ ("arguments", λ v c. returned (arguments v c))
    ∷ []

abbrev pub builtin_registry : Registry
builtin_registry = record { condition_handlers = builtin_handlers; async_condition_handlers = [] }

abbrev assign : String → Handler → List (String × Handler) → List (String × Handler)
assign key handler [] = (key, handler) ∷ []
assign key handler ((k, h) ∷ rest) =
    if str_eq k key then (key, handler) ∷ rest else (k, h) ∷ assign key handler rest

unfoldable pub register_condition : String → Handler → Registry → Registry
register_condition key handler registry = record registry {
  condition_handlers = assign key handler registry.condition_handlers;
}

unfoldable pub register_async_condition : String → Handler → Registry → Registry
register_async_condition key handler registry = record registry {
  async_condition_handlers = assign key handler registry.async_condition_handlers;
}
