-- ===== src/ModuleIds/Valid.antt =====
-- registry/registry.py: what a valid module ID is made of.
use apcore_python.Prelude.{
  ℕ, ◌≤◌, ◌≡◌, refl, ap, ◌∙◌, inl, inr, Bool, true, false, not, ◌&&◌, ◌||◌, none, some, List, [],
  ◌∷◌, Text, text_eq, all, length, ltb, ◌==◌, arith, if◌then◌else◌, Bool-cases,
}
use apcore_python.Pattern.{split, dot, first, cons_head}
use apcore_python.Conflicts.{lower, lower_char, is_in}
use apcore_python.ModuleIds.{
  reserved, too_long, malformed, empty_id, is_word, is_segment, chomp, matches_id_pattern,
  validate_module_id, max_module_id_length, reserved_words,
}

-- The characters of an ID, and a newline.
abbrev pub is_id_char : ℕ → Bool
is_id_char c = is_word c || (c == dot) || (c == 10)

word_segment : (text : Text) → is_segment text ≡ true → all is_id_char text ≡ true
word_segment [] s = refl
word_segment (c ∷ text) s = ground (arith, words text)
  where
    words : (text : Text) → all is_word text ≡ true → all is_id_char text ≡ true
    words [] s = refl
    words (c ∷ text) s = ground (arith, words text)

pub segments_words :
    (segments : List Text) → all is_segment segments ≡ true → all (all is_id_char) segments ≡ true
segments_words [] s = refl
segments_words (segment ∷ segments) s =
    ground (arith, s, word_segment segment, segments_words segments)

cons_head-all :
    (c : ℕ) (segments : List Text)
    → all (all is_id_char) (cons_head c segments) ≡ true
    → (is_id_char c ≡ true) × (all (all is_id_char) segments ≡ true)
cons_head-all c [] s = (ground arith, refl)
cons_head-all c (segment ∷ segments) s = (ground arith, ground arith)

pub split-all :
    (text : Text) → all (all is_id_char) (split dot text) ≡ true → all is_id_char text ≡ true
unfolding split
split-all [] s = refl
split-all (c ∷ text) s = go (c == dot) refl s (split-all text)
  where
    go :
        (b : Bool)
        → (c == dot) ≡ b
        → all (all is_id_char) (if b then [] ∷ split dot text else cons_head c (split dot text))
          ≡ true
        → (all (all is_id_char) (split dot text) ≡ true → all is_id_char text ≡ true)
        → all is_id_char (c ∷ text) ≡ true
    go true e s ih = ground (arith, e, ih s)
    go false e s ih =
        let (one, rest) = cons_head-all c (split dot text) s in ground (arith, one, ih rest)

pub chomp-all : (text : Text) → all is_id_char (chomp text) ≡ true → all is_id_char text ≡ true
chomp-all [] s = refl
chomp-all (c ∷ []) s = elim (Bool-cases (c == 10)) [
  | inl newline ↦ ground (arith, newline)
  | inr other ↦ ground (arith, other, s)
]
chomp-all (c ∷ d ∷ text) s = ground (arith, s, chomp-all (d ∷ text))

lower_id : (text : Text) → all is_id_char text ≡ true → lower text ≡ text
lower_id [] s = refl
lower_id (c ∷ text) s =
    let same : lower_char c ≡ c = ground arith in
    ap (λ d. d ∷ lower text) same ∙ ap (λ rest. c ∷ rest) (lower_id text (ground arith))

-- All four checks pass.
checks_pass :
    (a b c d : Bool)
    → (if a
        then some empty_id
        else if not b
        then some malformed
        else if c
        then some too_long
        else if d
        then some reserved
        else none)
      ≡ none
    → (a ≡ false) × ((b ≡ true) × ((c ≡ false) × (d ≡ false)))
checks_pass a b c d e = ground (arith, e)

-- A valid ID is not empty, is its own lower case, has at most 192 characters, and does not begin with
-- a reserved segment unless reserved words are allowed.
pub validate_module_id-valid :
    (allow_reserved : Bool) (module_id : Text)
    → validate_module_id allow_reserved module_id ≡ none
    → (text_eq module_id [] ≡ false)
      × ((lower module_id ≡ module_id)
          × ((length module_id ≤ max_module_id_length)
              × ((not allow_reserved && is_in (first (split dot module_id)) reserved_words)
                  ≡ false)))
unfolding validate_module_id matches_id_pattern
validate_module_id-valid allow_reserved module_id e =
    let (some_text, (matches, (short, free))) =
      checks_pass (text_eq module_id []) (matches_id_pattern module_id)
        (ltb max_module_id_length (length module_id))
        (not allow_reserved && is_in (first (split dot module_id)) reserved_words) e in
    (
      some_text,
      (
        lower_id module_id (
            chomp-all module_id
              (split-all (chomp module_id) (segments_words (split dot (chomp module_id)) matches))),
        (not_above (length module_id) short, free),
      ),
    )
  where
    not_above : (n : ℕ) → ltb max_module_id_length n ≡ false → n ≤ max_module_id_length
    not_above n e = ground (arith, e)
