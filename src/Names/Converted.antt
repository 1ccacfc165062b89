-- ===== src/Names/Converted.antt =====
-- utils/normalize.py: canonical module IDs are kept.
use apcore_python.Prelude.{
  either_case, ℕ, ◌≡◌, refl, ap, sym, ◌∙◌, inl, inr, Bool, true, false, none, some, List, [], ◌∷◌,
  Text, codes, all, ◌==◌, arith, Bool-cases,
}
use apcore_python.Pattern.{split, dot, cons_head, is_empty}
use apcore_python.ModuleIds.{matches_id_pattern, chomp}
use apcore_python.ModuleIds.Valid.{is_id_char, segments_words, split-all, chomp-all}
use apcore_python.Names.{
  Option, snake_all, join_dots, split_local, normalize_to_canonical_id, conforming, converted,
  Language, language_of,
}
use apcore_python.Names.Shape.{is_lowered}
use apcore_python.Names.Fixed.{to_snake_case-fixed, some-inj}

abbrev is_filled : List Text → Bool
is_filled [] = false
is_filled (segment ∷ segments) = true

split-filled : (text : Text) → is_filled (split dot text) ≡ true
unfolding split
split-filled [] = refl
split-filled (c ∷ text) = elim (Bool-cases (c == dot)) [
  | inl e ↦ ground (arith, e)
  | inr e ↦ ground (arith, e, head_filled (split dot text))
]
  where
    head_filled : (segments : List Text) → is_filled (cons_head c segments) ≡ true
    head_filled [] = refl
    head_filled (segment ∷ segments) = refl

join_dots-cons_head :
    (c : ℕ) (segments : List Text) → join_dots (cons_head c segments) ≡ c ∷ join_dots segments
join_dots-cons_head c [] = refl
join_dots-cons_head c (segment ∷ []) = refl
join_dots-cons_head c (segment ∷ next ∷ segments) = refl

join_dots-dot :
    (segments : List Text)
    → is_filled segments ≡ true
    → join_dots ([] ∷ segments) ≡ dot ∷ join_dots segments
join_dots-dot [] e = ground (arith, e)
join_dots-dot (segment ∷ segments) e = refl

join_dots-split : (text : Text) → join_dots (split dot text) ≡ text
unfolding split
join_dots-split [] = refl
join_dots-split (c ∷ text) =
    either_case (λ segments. join_dots segments ≡ c ∷ text) (c == dot)
      (λ e.
        join_dots-dot (split dot text) (split-filled text)
        ∙ ground (arith, e, join_dots-split text))
      (λ e. join_dots-cons_head c (split dot text) ∙ ap (λ t. c ∷ t) (join_dots-split text))

lowered_id : (text : Text) → all is_id_char text ≡ true → all is_lowered text ≡ true
lowered_id [] e = refl
lowered_id (c ∷ text) e = ground (arith, e, lowered_id text)

split-lowered :
    (text : Text) → all is_lowered text ≡ true → all (all is_lowered) (split dot text) ≡ true
unfolding split
split-lowered [] e = refl
split-lowered (c ∷ text) e =
    either_case (λ segments. all (all is_lowered) segments ≡ true) (c == dot)
      (λ b. split-lowered text (ground arith))
      (λ b. head (split dot text) (ground arith) (split-lowered text (ground arith)))
  where
    head :
        (segments : List Text)
        → is_lowered c ≡ true
        → all (all is_lowered) segments ≡ true
        → all (all is_lowered) (cons_head c segments) ≡ true
    head [] f g = ground (arith, f)
    head (segment ∷ segments) f g = ground (arith, f, g)

snake_all-fixed :
    (segments : List Text) → all (all is_lowered) segments ≡ true → snake_all segments ≡ segments
snake_all-fixed [] e = refl
snake_all-fixed (segment ∷ segments) e =
    ap (λ t. t ∷ snake_all segments) (to_snake_case-fixed segment (ground arith))
    ∙ ap (λ t. segment ∷ t) (snake_all-fixed segments (ground arith))

id_fixed : (id : Text) → matches_id_pattern id ≡ true → join_dots (snake_all (split dot id)) ≡ id
unfolding matches_id_pattern
id_fixed id e =
    ap join_dots (
      snake_all-fixed (split dot id) (
        split-lowered id (
          lowered_id id
            (chomp-all id (split-all (chomp id) (segments_words (split dot (chomp id)) e))))))
    ∙ join_dots-split id

id_filled : (id : Text) → matches_id_pattern id ≡ true → is_empty id ≡ false
unfolding matches_id_pattern split
id_filled [] e = ground (arith, e)
id_filled (c ∷ id) e = refl

id_kept :
    (id : Text)
    → matches_id_pattern id ≡ true
    → normalize_to_canonical_id id (codes "python") ≡ some id
unfolding normalize_to_canonical_id language_of
id_kept id e =
    let again : conforming (join_dots (snake_all (split dot id))) ≡ some id =
      ap conforming (id_fixed id e) ∙ ground (arith, e) in
    ground (arith, id_filled id e, again)

conforming-matches : (text id : Text) → conforming text ≡ some id → matches_id_pattern id ≡ true
conforming-matches text id e = elim (Bool-cases (matches_id_pattern text)) [
  | inl fits ↦
      let same : some text ≡ some id = ground (arith, fits, e) in
      ap matches_id_pattern (sym (some-inj same)) ∙ fits
  | inr other ↦ ground (arith, other, e)
]

-- What `normalize_to_canonical_id` gives for any language is of the pattern of canonical IDs, and as
-- an ID of Python it is kept as it is, so normalizing twice is normalizing once.
pub normalize_to_canonical_id-Canonical :
    (local_id language id : Text)
    → normalize_to_canonical_id local_id language ≡ some id
    → (matches_id_pattern id ≡ true) × (normalize_to_canonical_id id (codes "python") ≡ some id)
unfolding normalize_to_canonical_id
normalize_to_canonical_id-Canonical local_id language id e =
    let matches = by_language (language_of language) (ground (arith, e)) in
    (matches, id_kept id matches)
  where
    by_language :
        (found : Option Language)
        → converted local_id found ≡ some id
        → matches_id_pattern id ≡ true
    by_language none e = ground (arith, e)
    by_language (some language) e =
        conforming-matches (join_dots (snake_all (split_local language local_id))) id e
