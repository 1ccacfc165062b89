-- ===== src/Acl/Information.antt =====
-- What an unevaluable condition can change: a definite outcome of a tree does not hang on it.
use apcore_python.Prelude.{◌≡◌, refl, ◌≢◌, ◌⊎◌, inl, inr, Bool, true, false, arith, String}
use apcore_python.Acl.Values.{
  Value, list, dict, Items, nil, cons, Fields, end, field, Context, ConditionOutcome, satisfied,
  unsatisfied, unevaluable,
}
use apcore_python.Acl.Conditions.{
  Leaf, pending, negate, dispatch, evaluate_fields, evaluate_or, evaluate_elements, evaluate_not,
  evaluate_conditions,
}

-- `a` is no answer, or the answer `b`.
abbrev pub Refines : ConditionOutcome → ConditionOutcome → Type 0
Refines a b = (a ≡ unevaluable) ⊎ (a ≡ b)

abbrev and_step : ConditionOutcome → ConditionOutcome → ConditionOutcome → ConditionOutcome
and_step satisfied seen unseen = unseen
and_step unsatisfied seen unseen = unsatisfied
and_step unevaluable seen unseen = seen

abbrev or_step : ConditionOutcome → ConditionOutcome → ConditionOutcome → ConditionOutcome
or_step satisfied seen unseen = satisfied
or_step unsatisfied seen unseen = unseen
or_step unevaluable seen unseen = seen

module _ (leaf : Leaf) (context : Context) where
  fields-step :
      (key : String) (value : Value) (rest : Fields) (saw : Bool)
      → evaluate_fields leaf context (field key value rest) saw
        ≡ and_step
            (dispatch key
              (evaluate_or leaf context value)
              (evaluate_not leaf context value)
              (leaf key value context))
            (evaluate_fields leaf context rest true)
            (evaluate_fields leaf context rest saw)
  unfolding evaluate_fields
  fields-step key value rest saw = ground arith

  fields-ne-satisfied : (fs : Fields) → evaluate_fields leaf context fs true ≢ satisfied
  unfolding evaluate_fields
  fields-ne-satisfied end = cc
  fields-ne-satisfied (field key value rest) = ground (arith, fields-ne-satisfied rest)

  elements-step :
      (sub : Fields) (rest : Items) (saw : Bool)
      → evaluate_elements leaf context (cons (dict sub) rest) saw
        ≡ or_step
            (evaluate_fields leaf context sub false)
            (evaluate_elements leaf context rest true)
            (evaluate_elements leaf context rest saw)
  unfolding evaluate_fields
  elements-step sub rest saw = ground arith

  elements-ne-unsatisfied : (vs : Items) → evaluate_elements leaf context vs true ≢ unsatisfied
  unfolding evaluate_fields
  elements-ne-unsatisfied nil = cc
  elements-ne-unsatisfied (cons (dict sub) rest) = ground (arith, elements-ne-unsatisfied rest)
  elements-ne-unsatisfied (cons _ rest) = elements-ne-unsatisfied rest

-- The operands that the compound operators refuse.
abbrev NotList : Value → Type 0
NotList (list vs) = ⊥
NotList _ = Unit

abbrev NotDict : Value → Type 0
NotDict (dict fs) = ⊥
NotDict _ = Unit

module _ (leaf : Leaf) (context : Context) where
  or-list :
      (vs : Items) → evaluate_or leaf context (list vs) ≡ evaluate_elements leaf context vs false
  unfolding evaluate_or
  or-list vs = refl

  or-of_NotList : (v : Value) → NotList v → evaluate_or leaf context v ≡ unevaluable
  unfolding evaluate_or
  or-of_NotList (list vs) h = absurd h
  or-of_NotList _ h = refl

  not-dict :
      (fs : Fields)
      → evaluate_not leaf context (dict fs) ≡ negate (evaluate_fields leaf context fs false)
  unfolding evaluate_not
  not-dict fs = refl

  not-of_NotDict : (v : Value) → NotDict v → evaluate_not leaf context v ≡ unevaluable
  unfolding evaluate_not
  not-of_NotDict (dict fs) h = absurd h
  not-of_NotDict _ h = refl

  elements-of_NotDict :
      (v : Value) (rest : Items) (saw : Bool)
      → NotDict v
      → evaluate_elements leaf context (cons v rest) saw ≡ evaluate_elements leaf context rest true
  unfolding evaluate_elements
  elements-of_NotDict (dict fs) rest saw h = absurd h
  elements-of_NotDict _ rest saw h = refl

  fields-end : (saw : Bool) → evaluate_fields leaf context end saw ≡ pending saw satisfied
  unfolding evaluate_fields
  fields-end saw = refl

  elements-nil : (saw : Bool) → evaluate_elements leaf context nil saw ≡ pending saw unsatisfied
  unfolding evaluate_elements
  elements-nil saw = refl

-- The loop's `saw_unevaluable` is the other way of having less information.
abbrev pub Less : Bool → Bool → Type 0
Less a b = (a ≡ true) ⊎ (b ≡ false)

Refines-and :
    (a b : ConditionOutcome) {ra rb sa sb : ConditionOutcome}
    → Refines a b
    → Refines ra sa
    → Refines ra sb
    → Refines rb sb
    → ra ≢ satisfied
    → Refines (and_step a ra rb) (and_step b sa sb)
Refines-and a b h seen mixed unseen ne = ground arith

Refines-or :
    (a b : ConditionOutcome) {ra rb sa sb : ConditionOutcome}
    → Refines a b
    → Refines ra sa
    → Refines ra sb
    → Refines rb sb
    → ra ≢ unsatisfied
    → Refines (or_step a ra rb) (or_step b sa sb)
Refines-or a b h seen mixed unseen ne = ground arith

Refines-negate : (a b : ConditionOutcome) → Refines a b → Refines (negate a) (negate b)
Refines-negate a b h = ground arith

Refines-dispatch :
    (key : String) {a b c a' b' c' : ConditionOutcome}
    → Refines a a'
    → Refines b b'
    → Refines c c'
    → Refines (dispatch key a b c) (dispatch key a' b' c')
Refines-dispatch key h i j = ground arith

-- Two handler sets, of which the second answers at least what the first answers.
module _ (f g : Leaf) (context : Context)
    (more : (key : String) (value : Value)
      → Refines (f key value context) (g key value context)) where
  mutual
    Refines-fields :
        (fs : Fields) (saw saw' : Bool)
        → Less saw saw'
        → Refines (evaluate_fields f context fs saw) (evaluate_fields g context fs saw')
    Refines-fields end saw saw' le =
        rw (fields-end f context saw, fields-end g context saw') (ground arith)
    Refines-fields (field key value rest) saw saw' le =
        rw (fields-step f context key value rest saw, fields-step g context key value rest saw')
          (Refines-and _ _
            (Refines-dispatch key (Refines-or_value value) (Refines-not_value value)
              (more key value))
            (Refines-fields rest true true (inl refl)) (Refines-fields rest true saw' (inl refl))
            (Refines-fields rest saw saw' le) (fields-ne-satisfied f context rest))

    Refines-or_value :
        (value : Value) → Refines (evaluate_or f context value) (evaluate_or g context value)
    Refines-or_value (list elements) =
        rw (or-list f context elements, or-list g context elements)
          (Refines-elements elements false false (inr refl))
    Refines-or_value v = inl (or-of_NotList f context v tt)

    Refines-elements :
        (vs : Items) (saw saw' : Bool)
        → Less saw saw'
        → Refines (evaluate_elements f context vs saw) (evaluate_elements g context vs saw')
    Refines-elements nil saw saw' le =
        rw (elements-nil f context saw, elements-nil g context saw') (ground arith)
    Refines-elements (cons (dict sub) rest) saw saw' le =
        rw (elements-step f context sub rest saw, elements-step g context sub rest saw')
          (Refines-or _ _ (Refines-fields sub false false (inr refl))
            (Refines-elements rest true true (inl refl))
            (Refines-elements rest true saw' (inl refl)) (Refines-elements rest saw saw' le)
            (elements-ne-unsatisfied f context rest))
    Refines-elements (cons v rest) saw saw' le =
        rw
          (
            elements-of_NotDict f context v rest saw tt,
            elements-of_NotDict g context v rest saw' tt,
          )
          (Refines-elements rest true true (inl refl))

    Refines-not_value :
        (value : Value) → Refines (evaluate_not f context value) (evaluate_not g context value)
    Refines-not_value (dict sub) =
        rw (not-dict f context sub, not-dict g context sub)
          (Refines-negate _ _ (Refines-fields sub false false (inr refl)))
    Refines-not_value v = inl (not-of_NotDict f context v tt)

  -- A definite outcome of a `conditions` tree is the outcome under any handlers that answer more.
  pub Refines-conditions :
      (conditions : Value)
      → Refines
          (evaluate_conditions f context conditions)
          (evaluate_conditions g context conditions)
  unfolding evaluate_conditions
  Refines-conditions (dict fs) = Refines-fields fs false false (inr refl)
  Refines-conditions _ = inl refl
