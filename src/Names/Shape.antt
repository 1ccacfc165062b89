-- ===== src/Names/Shape.antt =====
-- utils/normalize.py: what the canonical names are made of.
use apcore_python.Prelude.{
  ℕ, ◌≡◌, refl, inl, inr, Bool, true, false, not, [], ◌∷◌, Text, all, any, arith, Bool-cases,
}
use apcore_python.Conflicts.{lower_char}
use apcore_python.ModuleIds.{is_word, is_segment}
use apcore_python.Names.{
  is_upper, is_name_char, is_boundary, join_words, snake_rest, to_snake_case, starts_lower,
}

abbrev pub is_lowered : ℕ → Bool
is_lowered c = not (is_upper c)

lower_char-lowered : (c : ℕ) → is_lowered (lower_char c) ≡ true
lower_char-lowered c = ground arith

snake_rest-lowered : (prev : ℕ) (text : Text) → all is_lowered (snake_rest prev text) ≡ true
snake_rest-lowered prev [] = refl
snake_rest-lowered prev (c ∷ text) = elim (Bool-cases (is_boundary prev c text)) [
  | inl e ↦ ground (arith, e, lower_char-lowered c, snake_rest-lowered c text)
  | inr e ↦ ground (arith, e, lower_char-lowered c, snake_rest-lowered c text)
]

not_any : (text : Text) → any is_upper text ≡ false → all is_lowered text ≡ true
not_any [] e = refl
not_any (c ∷ text) e = ground (arith, not_any text)

pub to_snake_case-lowered : (text : Text) → all is_lowered (to_snake_case text) ≡ true
unfolding to_snake_case
to_snake_case-lowered [] = refl
to_snake_case-lowered (c ∷ text) = elim (Bool-cases (any is_upper (c ∷ text))) [
  | inl e ↦ ground (arith, e, lower_char-lowered c, snake_rest-lowered c text)
  | inr e ↦ ground (arith, e, not_any (c ∷ text) e)
]

pub join_words-words :
    (inside : Bool) (text : Text)
    → all is_lowered text ≡ true
    → all is_word (join_words inside text) ≡ true
join_words-words inside [] e = refl
join_words-words inside (c ∷ text) e = elim (Bool-cases (is_name_char c)) [
  | inl name ↦ ground (arith, name, e, join_words-words false text)
  | inr other ↦ elim (Bool-cases inside) [
    | inl within ↦ ground (arith, other, within, e, join_words-words true text)
    | inr outside ↦ ground (arith, other, outside, e, join_words-words true text)
  ]
]

pub segment_of_words :
    (text : Text) → all is_word text ≡ true → starts_lower text ≡ true → is_segment text ≡ true
segment_of_words [] e s = s
segment_of_words (c ∷ text) e s = ground arith
