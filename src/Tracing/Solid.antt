-- ===== src/Tracing/Solid.antt =====
-- trace_context.py: texts that `strip` and `lower` leave as they are.
use apcore_python.Prelude.{
  ℕ, ◌≡◌, refl, ap, ◌∙◌, Bool, true, false, ◌||◌, List, [], ◌∷◌, ◌++◌, Text, arith, all, ◌==◌,
  if◌then◌else◌,
}
use apcore_python.Version.{strip, strip_left, strip_right, is_space}
use apcore_python.Conflicts.{lower, lower_char}
use apcore_python.Tracing.{is_hex, dash}

-- The characters of a traceparent.
abbrev pub is_plain : ℕ → Bool
is_plain c = is_hex c || (c == dash)

pub all-append {ℓ} :
    {A : Type ℓ} (p : A → Bool) (xs ys : List A)
    → all p xs ≡ true
    → all p ys ≡ true
    → all p (xs ++ ys) ≡ true
all-append p [] ys a b = b
all-append p (x ∷ xs) ys a b = ground (arith, all-append p xs ys)

pub all_mono : (xs : Text) → all is_hex xs ≡ true → all is_plain xs ≡ true
all_mono [] a = refl
all_mono (x ∷ xs) a = ground (arith, all_mono xs)

plain_solid : (c : ℕ) → is_plain c ≡ true → (is_space c ≡ false) × (lower_char c ≡ c)
plain_solid c p = ground arith

strip_right-plain : (text : Text) → all is_plain text ≡ true → strip_right text ≡ text
strip_right-plain [] p = refl
strip_right-plain (c ∷ []) p = ground (arith, plain_solid c)
strip_right-plain (c ∷ d ∷ text) p = rw (strip_right-plain (d ∷ text) (ground arith)) refl

pub strip-plain : (text : Text) → all is_plain text ≡ true → strip text ≡ text
unfolding strip
strip-plain [] p = refl
strip-plain (c ∷ text) p =
    let (solid, same) = plain_solid c (ground arith) in
    ap (λ b. strip_right (if b then strip_left text else c ∷ text)) solid
    ∙ strip_right-plain (c ∷ text) p

pub lower-plain : (text : Text) → all is_plain text ≡ true → lower text ≡ text
lower-plain [] p = refl
lower-plain (c ∷ text) p = ground (arith, plain_solid c, lower-plain text)
