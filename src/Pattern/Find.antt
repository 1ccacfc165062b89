-- ===== src/Pattern/Find.antt =====
-- `find_at` gives the first place at which a segment stands, and both search loops of
-- utils/pattern.py compute it.
use mathlib.Core.Option
use apcore_python.Prelude.{
  ℕ, zero, suc, ◌+◌, ◌-◌, ◌≤◌, ◌<◌, ◌≡◌, refl, sym, ap, ◌∙◌, Bool, true, none, some, [], ◌∷◌, ◌++◌,
  length, take, drop, drop-drop, length-drop, Text, arith, inl, inr, Bool-cases, if◌then◌else◌,
}
use apcore_python.Pattern.{match_prefix, match_exact, find_at, glob_find, glob_char}

module _ (accepts : ℕ → ℕ → Bool) where
  pub length-match_prefix :
      (segment text : Text)
      → match_prefix accepts segment text ≡ true
      → length segment ≤ length text
  length-match_prefix [] text h = omega arith
  length-match_prefix (p ∷ segment) [] h = ground arith
  length-match_prefix (p ∷ segment) (c ∷ text) h = ground (arith, length-match_prefix segment text)

  -- It stands at the offset that is found.
  pub find_at_sound :
      (segment text : Text) (i : ℕ)
      → find_at accepts segment text ≡ some i
      → match_prefix accepts segment (drop i text) ≡ true
  unfolding find_at
  find_at_sound segment [] zero h = ground arith
  find_at_sound segment [] (suc i) h = ground arith
  find_at_sound segment (c ∷ text) zero h = ground arith
  find_at_sound segment (c ∷ text) (suc i) h = ground (arith, find_at_sound segment text i)

  -- Where it stands somewhere, it is found there or before.
  pub find_at_first :
      (segment gap text : Text)
      → match_prefix accepts segment text ≡ true
      → (i : ℕ) × (find_at accepts segment (gap ++ text) ≡ some i) × (i ≤ length gap)
  unfolding find_at
  find_at_first segment [] [] h = (0, rw h, omega arith)
  find_at_first segment [] (c ∷ text) h = (0, rw h, omega arith)
  find_at_first segment (c ∷ gap) text h =
      let (i, found, le) = find_at_first segment gap text h in
      elim (Bool-cases (match_prefix accepts segment (c ∷ (gap ++ text)))) [
        | inl here ↦ (0, rw here, omega arith)
        | inr later ↦ (suc i, rw (later, found), omega arith)
      ]

  -- Cutting the text to the segment's length makes the exact match.
  pub match_exact-take :
      (segment text : Text)
      → match_exact accepts segment (take (length segment) text) ≡ match_prefix accepts segment text
  match_exact-take [] text = refl
  match_exact-take (p ∷ segment) [] = ground arith
  match_exact-take (p ∷ segment) (c ∷ text) = ground (arith, match_exact-take segment text)

  pub find_at_nil : (text : Text) → find_at accepts [] text ≡ some 0
  unfolding find_at
  find_at_nil [] = refl
  find_at_nil (c ∷ text) = refl

  find_at_short :
      (segment text : Text) → length text < length segment → find_at accepts segment text ≡ none
  unfolding find_at
  find_at_short segment [] h = ground (arith, length-match_prefix segment [])
  find_at_short segment (c ∷ text) h =
      ground (arith, length-match_prefix segment (c ∷ text), find_at_short segment text)

  find_at_step :
      (i : ℕ) (segment text : Text) (c : ℕ)
      → Option.map
          (λ k. i + k)
          (if match_prefix accepts segment (c ∷ text)
            then some 0
            else Option.map suc (find_at accepts segment text))
        ≡ (if match_exact accepts segment (take (length segment) (c ∷ text))
            then some i
            else Option.map (λ k. i + 1 + k) (find_at accepts segment text))
  find_at_step i segment text c = rw (match_exact-take segment (c ∷ text)) (ground arith)

drop-cons : (i c : ℕ) (value text : Text) → drop i value ≡ c ∷ text → drop (i + 1) value ≡ text
drop-cons i c value text e = sym (drop-drop i 1 value) ∙ ap (drop 1) e

-- The `while i <= end` loop, with the rounds that `end` leaves, is `find_at` from `i`.
pub glob_find_lem :
    (rounds i p : ℕ) (segment value : Text)
    → rounds ≡ length value + 1 - suc (length segment) - i
    → glob_find rounds i (p ∷ segment) value
      ≡ Option.map (λ k. i + k) (find_at glob_char (p ∷ segment) (drop i value))
unfolding glob_find
glob_find_lem zero i p segment value e =
    rw (find_at_short glob_char (p ∷ segment) (drop i value) (omega (arith, length-drop i value)))
glob_find_lem (suc n) i p segment value e =
    step (drop i value) refl (glob_find_lem n (i + 1) p segment value (omega arith))
  where
    step :
        (t : Text)
        → drop i value ≡ t
        → glob_find n (i + 1) (p ∷ segment) value
          ≡ Option.map (λ k. i + 1 + k) (find_at glob_char (p ∷ segment) (drop (i + 1) value))
        → (if match_exact glob_char (p ∷ segment) (take (length (p ∷ segment)) (drop i value))
            then some i
            else glob_find n (i + 1) (p ∷ segment) value)
          ≡ Option.map (λ k. i + k) (find_at glob_char (p ∷ segment) (drop i value))
    step [] d ih = absurd (omega (arith, length-drop i value, ap length d))
    step (c ∷ t) d ih =
        rw (ih, drop-cons i c value t d, d)
          (unfold find_at in sym (find_at_step glob_char i (p ∷ segment) t c))
