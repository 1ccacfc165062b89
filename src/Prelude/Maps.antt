-- ===== src/Prelude/Maps.antt =====
-- Dictionaries as association lists, with the test on keys as an argument.
use mathlib.Core.Path.{◌≡◌, refl, sym, ap, ◌∙◌}
use mathlib.Core.Logic.{◌↔◌, inl, inr}
use mathlib.Core.Bool.{Bool, true, false}
use mathlib.Core.List.{List, [], ◌∷◌}
use mathlib.Core.Option.{Option, none, some}
use native.Mathlib.Omega.{arith}
use apcore_python.Prelude.Tests.{if◌then◌else◌, Bool-cases}

module _ {ℓ κ} {K : Type ℓ} {V : Type κ} (same : K → K → Bool) where
  -- `d.get(key)`
  abbrev pub get : K → List (K × V) → Option V
  get key [] = none
  get key ((k, v) ∷ entries) = if same k key then some v else get key entries

  -- `d[key] = value`
  abbrev pub assign : K → V → List (K × V) → List (K × V)
  assign key value [] = (key, value) ∷ []
  assign key value ((k, v) ∷ entries) =
      if same k key then (k, value) ∷ entries else (k, v) ∷ assign key value entries

  -- `d.pop(key, None)`, as the dictionary that is left
  abbrev pub erase : K → List (K × V) → List (K × V)
  erase key [] = []
  erase key ((k, v) ∷ entries) = if same k key then entries else (k, v) ∷ erase key entries

  -- The same where the list might hold a key twice.
  abbrev pub discard : K → List (K × V) → List (K × V)
  discard key [] = []
  discard key ((k, v) ∷ entries) =
      let rest = discard key entries in if same k key then rest else (k, v) ∷ rest

module _ {ℓ κ} {K : Type ℓ} {V : Type κ} where
  -- `d.keys()`
  abbrev pub keys : List (K × V) → List K
  keys [] = []
  keys ((k, v) ∷ entries) = k ∷ keys entries

module _ {K : Type 0} (same : K → K → Bool)
    (same_iff : (a b : K) → (same a b ≡ true) ↔ (a ≡ b)) where
  apart : (a b c : K) → same a b ≡ true → same a c ≡ same b c
  apart a b c e = ap (λ k. same k c) ((same_iff a b).0 e)

  differ : (k key other : K) → same k other ≡ true → same k key ≡ false → same key other ≡ false
  differ k key other found e = elim (Bool-cases (same key other)) [
    | inr f ↦ f
    | inl f ↦
        let joined : same k key ≡ true =
          (same_iff k key).1 ((same_iff k other).0 found ∙ sym ((same_iff key other).0 f)) in
        ground (arith, e, joined)
  ]

  pub get-assign :
      {V : Type 0} (key other : K) (value : V) (entries : List (K × V))
      → get same other (assign same key value entries)
        ≡ (if same key other then some value else get same other entries)
  get-assign key other value [] = refl
  get-assign key other value ((k, v) ∷ entries) = elim (Bool-cases (same k key)) [
    | inl e ↦ ground (arith, e, apart k key other e)
    | inr e ↦ elim (Bool-cases (same k other)) [
      | inl found ↦
          ground (arith, e, found, get-assign key other value entries, differ k key other found e)
      | inr lost ↦ ground (arith, e, lost, get-assign key other value entries)
    ]
  ]

  pub get-discard :
      {V : Type 0} (key other : K) (entries : List (K × V))
      → get same other (discard same key entries)
        ≡ (if same key other then none else get same other entries)
  get-discard key other [] = ground arith
  get-discard key other ((k, v) ∷ entries) = elim (Bool-cases (same k key)) [
    | inl e ↦ ground (arith, e, apart k key other e, get-discard key other entries)
    | inr e ↦ elim (Bool-cases (same k other)) [
      | inl found ↦
          ground (arith, e, found, get-discard key other entries, differ k key other found e)
      | inr lost ↦ ground (arith, e, lost, get-discard key other entries)
    ]
  ]
