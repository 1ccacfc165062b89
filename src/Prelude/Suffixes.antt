-- ===== src/Prelude/Suffixes.antt =====
-- What is left of a list when a part at its front is gone.
use Prim.Native.Nat.{ℕ, zero, suc, ◌-◌, ◌≤◌}
use mathlib.Core.Path.{◌≡◌, refl, sym, ap, ◌∙◌}
use mathlib.Core.List.{List, [], ◌∷◌, ◌++◌, append_assoc}
use native.Mathlib.Omega.{arith}
use apcore_python.Prelude.Lists.{length, take, drop, length-append, take-append-drop, drop-nil}

module _ {ℓ} {A : Type ℓ} where
  -- `back` is the end of `whole`
  abbrev pub IsSuffix : List A → List A → Type ℓ
  IsSuffix back whole = (front : List A) × (whole ≡ front ++ back)

  pub IsSuffix-refl : (xs : List A) → IsSuffix xs xs
  IsSuffix-refl xs = ([], refl)

  pub IsSuffix-trans : (a b c : List A) → IsSuffix a b → IsSuffix b c → IsSuffix a c
  IsSuffix-trans a b c (x, p) (y, q) = (y ++ x, q ∙ ap (λ t. y ++ t) p ∙ sym (append_assoc y x a))

  pub IsSuffix-drop : (n : ℕ) (xs : List A) → IsSuffix (drop n xs) xs
  IsSuffix-drop n xs = (take n xs, sym (take-append-drop n xs))

  pub IsSuffix-cons : (x : A) (xs : List A) → IsSuffix xs (x ∷ xs)
  IsSuffix-cons x xs = (x ∷ [], refl)

  pub length-suffix : (a b : List A) → IsSuffix a b → length a ≤ length b
  length-suffix a b (x, p) = omega (arith, length-append x a, ap length p)

  pub drop-IsSuffix : (n : ℕ) (a b : List A) → IsSuffix a b → IsSuffix (drop n a) (drop n b)
  drop-IsSuffix n a b (x, p) = rw p (go n x)
    where
      go : (n : ℕ) (x : List A) → IsSuffix (drop n a) (drop n (x ++ a))
      go zero x = (x, refl)
      go (suc n) [] = IsSuffix-refl (drop (suc n) a)
      go (suc n) (c ∷ x) =
          IsSuffix-trans (drop (suc n) a) (drop n a) (drop n (x ++ a)) (step n a) (go n x)
        where
          step : (n : ℕ) (a : List A) → IsSuffix (drop (suc n) a) (drop n a)
          step n [] = rw (drop-nil n) (IsSuffix-refl [])
          step zero (c ∷ a) = IsSuffix-cons c a
          step (suc n) (c ∷ a) = step n a

  pub drop-front : (x a : List A) → drop (length (x ++ a) - length a) (x ++ a) ≡ a
  drop-front [] a = let e : length a - length a ≡ 0 = omega arith in rw e
  drop-front (c ∷ x) a =
      let e : suc (length (x ++ a)) - length a ≡ suc (length (x ++ a) - length a) =
        omega (arith, length-append x a) in
      rw e (drop-front x a)

  -- Of two ends of a list the shorter is the end of the longer.
  pub IsSuffix-of_length_le :
      (a b c : List A) → IsSuffix a c → IsSuffix b c → length a ≤ length b → IsSuffix a b
  IsSuffix-of_length_le a b c h ([], q) le = rw (← q) h
  IsSuffix-of_length_le a b c ([], p) (d ∷ y, q) le =
      absurd (omega (arith, length-append y b, ap length (sym p ∙ q)))
  IsSuffix-of_length_le a b c (e ∷ x, p) (d ∷ y, q) le =
      IsSuffix-of_length_le a b (y ++ b) (x, tails) (y, refl) le
    where
      tails : y ++ b ≡ x ++ a
      tails = cc
