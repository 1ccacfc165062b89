-- ===== src/Names/Fixed.antt =====
-- utils/normalize.py: canonical names are kept.
use apcore_python.Prelude.{
  ◌≤◌, ◌≡◌, refl, ap, ◌∙◌, inl, inr, true, false, some, [], ◌∷◌, Text, all, any, length, ltb, arith,
  Bool-cases,
}
use mathlib.Core.Path.{subst}
use apcore_python.Pattern.{is_empty}
use apcore_python.ModuleIds.{is_word, is_segment}
use apcore_python.Names.{
  is_upper, is_name_char, join_words, to_snake_case, starts_lower, trim_start, trim_end,
  candidate_of, canonicalize_name,
}
use apcore_python.Names.Shape.{
  is_lowered, to_snake_case-lowered, join_words-words, segment_of_words,
}

words_lowered : (text : Text) → all is_word text ≡ true → all is_lowered text ≡ true
words_lowered [] e = refl
words_lowered (c ∷ text) e = ground (arith, e, words_lowered text)

pub to_snake_case-fixed : (text : Text) → all is_lowered text ≡ true → to_snake_case text ≡ text
unfolding to_snake_case
to_snake_case-fixed [] e = refl
to_snake_case-fixed (c ∷ text) e = ground (arith, none_upper (c ∷ text) e)
  where
    none_upper : (text : Text) → all is_lowered text ≡ true → any is_upper text ≡ false
    none_upper [] e = refl
    none_upper (c ∷ text) e = ground (arith, none_upper text)

trim_start-fixed : (text : Text) → all is_word text ≡ true → trim_start text ≡ text
trim_start-fixed [] e = refl
trim_start-fixed (c ∷ text) e = ground (arith, e)

trim_end-fixed : (text : Text) → all is_word text ≡ true → trim_end text ≡ text
trim_end-fixed [] e = refl
trim_end-fixed (c ∷ text) e =
    let rest : trim_end text ≡ text = trim_end-fixed text (ground arith) in
    let name : is_name_char c ≡ true = ground (arith, e) in ground (arith, name, rest)

join_words-fixed : (text : Text) → all is_word text ≡ true → join_words false text ≡ text
join_words-fixed [] e = refl
join_words-fixed (c ∷ text) e = ground (arith, e, join_words-fixed text)

words_ascii : (text : Text) → all is_word text ≡ true → all (λ c. ltb c 128) text ≡ true
words_ascii [] e = refl
words_ascii (c ∷ text) e = ground (arith, e, words_ascii text)

candidate_of-fixed : (text : Text) → all is_word text ≡ true → candidate_of text ≡ text
candidate_of-fixed text e =
    ap (λ t. join_words false (to_snake_case (trim_end t))) (trim_start-fixed text e)
    ∙ ap (λ t. join_words false (to_snake_case t)) (trim_end-fixed text e)
    ∙ ap (join_words false) (to_snake_case-fixed text (words_lowered text e))
    ∙ join_words-fixed text e

candidate_of-words : (name : Text) → all is_word (candidate_of name) ≡ true
candidate_of-words name =
    join_words-words false (to_snake_case (trim_end (trim_start name)))
      (to_snake_case-lowered (trim_end (trim_start name)))

segment-words : (text : Text) → is_segment text ≡ true → all is_word text ≡ true
segment-words [] e = ground (arith, e)
segment-words (c ∷ text) e = ground (arith, e)

segment-starts : (text : Text) → is_segment text ≡ true → starts_lower text ≡ true
segment-starts [] e = e
segment-starts (c ∷ text) e = ground (arith, e)

-- A canonical segment: `[a-z][a-z0-9_]*` of at most 192 characters
abbrev pub IsCanonical : Text → Type 0
IsCanonical text = (is_segment text ≡ true) × (length text ≤ 192)

canonical-kept :
    (text : Text) → IsCanonical text → (canonicalize_name text).canonical_name ≡ some text
unfolding canonicalize_name
canonical-kept text (segment, short) = ground (
  arith,
  candidate_of-fixed text (segment-words text segment),
  words_ascii text (segment-words text segment),
  segment-starts text segment,
  segment-filled text segment,
  short,
)
  where
    segment-filled : (text : Text) → is_segment text ≡ true → is_empty text ≡ false
    segment-filled [] e = ground (arith, e)
    segment-filled (c ∷ text) e = refl

pub some-inj : {x y : Text} → some x ≡ some y → x ≡ y
some-inj e = cc

given : (name out : Text) → (canonicalize_name name).canonical_name ≡ some out → IsCanonical out
unfolding canonicalize_name
given name out e = elim (Bool-cases (all (λ c. ltb c 128) name)) [
  | inr other ↦ ground (arith, other, e)
  | inl ascii ↦ elim (Bool-cases (is_empty (candidate_of name))) [
    | inl empty ↦ ground (arith, ascii, empty, e)
    | inr filled ↦ elim (Bool-cases (starts_lower (candidate_of name))) [
      | inr wrong ↦ ground (arith, ascii, filled, wrong, e)
      | inl right ↦ elim (Bool-cases (ltb 192 (length (candidate_of name)))) [
        | inl long ↦ ground (arith, ascii, filled, right, long, e)
        | inr short ↦
            let same : some (candidate_of name) ≡ some out =
              ground (arith, ascii, filled, right, short, e) in
            subst IsCanonical (some-inj same) (
              segment_of_words (candidate_of name) (candidate_of-words name) right,
              ground (arith, short),
            )
      ]
    ]
  ]
]

-- Every name that `canonicalize_name` gives is canonical, and it keeps that name, so converting twice
-- is converting once.
pub canonicalize_name-Canonical :
    (name out : Text)
    → (canonicalize_name name).canonical_name ≡ some out
    → IsCanonical out × ((canonicalize_name out).canonical_name ≡ some out)
canonicalize_name-Canonical name out e =
    let canonical = given name out e in (canonical, canonical-kept out canonical)
