-- ===== src/Prelude/Members.antt =====
-- Membership among strings, by their test.
use Prim.Native.Nat.{◌≤◌, suc}
use mathlib.Core.Path.{◌≡◌, refl, sym, subst}
use mathlib.Core.Bool.{Bool, true, false, not, ◌&&◌, ◌||◌}
use mathlib.Core.List.{List, [], ◌∷◌, ◌++◌}
use native.Mathlib.Omega.{arith}
use Prim.Native.String.{String}
use text.Mathlib.Text.{◌==◌ as str_eq}
use text.Mathlib.TextEquality.{eq_iff}
use apcore_python.Prelude.Tests.{if◌then◌else◌, Bool-cases}
use apcore_python.Prelude.Lists.{any, length}
use mathlib.Core.Logic.{inl, inr}

-- `name in names`
abbrev pub among : String → List String → Bool
among name names = any (λ other. str_eq other name) names

-- `len(names) == len(set(names))`
abbrev pub distinct : List String → Bool
distinct [] = true
distinct (name ∷ names) = not (among name names) && distinct names

pub among-append :
    (x : String) (xs ys : List String) → among x (xs ++ ys) ≡ (among x xs || among x ys)
among-append x [] ys = refl
among-append x (y ∷ xs) ys = ground (arith, among-append x xs ys)

pub distinct-snoc :
    (xs : List String) (x : String)
    → distinct xs ≡ true
    → among x xs ≡ false
    → distinct (xs ++ x ∷ []) ≡ true
distinct-snoc [] x d a = refl
distinct-snoc (y ∷ xs) x d a =
    ground (arith, among-append y xs (x ∷ []), distinct-snoc xs x, eq_iff x y, eq_iff y x)

pub distinct-middle :
    (xs : List String) (x : String) (ys : List String)
    → distinct (xs ++ x ∷ ys) ≡ true
    → among x xs ≡ false
distinct-middle [] x ys d = refl
distinct-middle (y ∷ xs) x ys d =
    ground (arith, among-append y xs (x ∷ ys), distinct-middle xs x ys, eq_iff x y, eq_iff y x)

without : String → List String → List String
without x [] = []
without x (y ∷ ys) = let rest = without x ys in if str_eq y x then ys else y ∷ rest

length-without :
    (x : String) (ys : List String) → among x ys ≡ true → length ys ≡ suc (length (without x ys))
unfolding without
length-without x [] a = cc
length-without x (y ∷ ys) a = ground (arith, length-without x ys)

among-without :
    (z x : String) (ys : List String)
    → str_eq x z ≡ false
    → among z ys ≡ true
    → among z (without x ys) ≡ true
unfolding without
among-without z x [] n a = a
among-without z x (y ∷ ys) n a =
    ground (arith, among-without z x ys, eq_iff x y, eq_iff y x, eq_iff x z, eq_iff y z)

-- Distinct names that are all among others are no more than those.
pub distinct-length :
    (xs ys : List String)
    → distinct xs ≡ true
    → ((x : String) → among x xs ≡ true → among x ys ≡ true)
    → length xs ≤ length ys
distinct-length [] ys d sub = omega arith
distinct-length (x ∷ xs) ys d sub = omega (
  arith,
  length-without x ys (sub x (ground (arith, eq_iff x x))),
  distinct-length xs (without x ys) (ground arith)
      (λ z a. among-without z x ys (apart z a) (sub z (ground arith))),
)
  where
    apart : (z : String) → among z xs ≡ true → str_eq x z ≡ false
    apart z a = elim (Bool-cases (str_eq x z)) [
      | inr e ↦ e
      | inl e ↦ ground (arith, d, subst (λ n. among n xs ≡ true) (sym ((eq_iff x z).0 e)) a)
    ]
