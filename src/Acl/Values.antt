-- ===== src/Acl/Values.antt =====
-- acl_handlers.py: the dynamic values that a `conditions` block holds, what a handler may read of
-- the call, and the three outcomes of a condition.
use apcore_python.Prelude.{
  ℕ, Bool, Option, none, some, List, [], ◌∷◌, String, Text, str_eq, if◌then◌else◌,
}

-- `negsuc n` is -(n + 1).
pub data ℤ : Type 0 where
  pos : ℕ → ℤ
  negsuc : ℕ → ℤ

-- What YAML and JSON parse to. Of a float the code reads only which integer it is, if any.
mutual
  pub data Value : Type 0 where
    null : Value
    bool : Bool → Value
    int : ℤ → Value
    float : Option ℤ → Value
    str : String → Value
    list : Items → Value
    dict : Fields → Value

  pub data Items : Type 0 where
    nil : Items
    cons : Value → Items → Items

  pub data Fields : Type 0 where
    end : Fields
    field : String → Value → Fields → Fields

abbrev pub items : Items → List Value
items nil = []
items (cons v vs) = v ∷ items vs

abbrev pub fields : Fields → List (String × Value)
fields end = []
fields (field k v fs) = (k, v) ∷ fields fs

-- `value.get(key)` on a mapping
abbrev pub lookup {ℓ} : {A : Type ℓ} → String → List (String × A) → Option A
lookup key [] = none
lookup key ((k, v) ∷ rest) = if str_eq k key then some v else lookup key rest

pub record Identity : Type 0 where
  pub type : String
  pub roles : List String

-- What the ACL reads of a `Context`. `projection` is the key set of the governance projection in
-- force, where there is one.
pub record Context : Type 0 where
  pub identity : Option Identity
  pub call_chain : List Text
  pub projection : Option (List String)

pub data ConditionOutcome : Type 0 where
  satisfied unsatisfied unevaluable : ConditionOutcome
