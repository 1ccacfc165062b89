-- ===== src/Pattern/Matching.antt =====
-- `match_pattern` decides whether the module ID matches the pattern (Algorithm A08).
use mathlib.Core.Option
use apcore_python.Prelude.{
  ℕ, ◌≡◌, refl, sym, ap, ◌∙◌, ◌≢◌, ◌↔◌, Bool, true, false, ◌&&◌, Option, none, some, List, [], ◌∷◌,
  ◌++◌, append-nil, length, drop, Text, text_eq, text_eq_iff, arith, inl, inr, Bool-cases,
  Option-cases, if◌then◌else◌, IsSuffix, IsSuffix-trans, IsSuffix-drop, IsSuffix-of_length_le,
  is_some, &&_iff,
}
use apcore_python.Pattern.{
  star, same_char, split, first, rest_of, last, contains, starts_with, ends_with, scan, finish,
  match_pattern, cons_head,
}
use apcore_python.Pattern.Segments.{Ends, greedy, greedy_sound, greedy_complete, scan_lem}
use apcore_python.Pattern.Meaning.{Matches, Covers, Covers-iff, split-cons}
use apcore_python.Pattern.Anchors.{
  ends_with_iff, match_prefix-same_char, match_prefix_self, drop-all, IsSuffix-last, length-last,
  Ends-anchor,
}

split-of_no_star : (text : Text) → contains star text ≡ false → split star text ≡ text ∷ []
unfolding split
split-of_no_star [] h = refl
split-of_no_star (c ∷ text) h = ground (arith, split-of_no_star text)

rest_of-split : (text : Text) → contains star text ≡ true → rest_of (split star text) ≢ []
unfolding split
rest_of-split [] h = cc
rest_of-split (c ∷ text) h = ground (arith, rest_of-split text, split-cons star text)

first-split : (text : Text) → starts_with text (star ∷ []) ≡ true → first (split star text) ≡ []
unfolding split
first-split [] h = cc
first-split (c ∷ text) h = ground arith

last-cons :
    (segment : Text) (segments : List Text)
    → segments ≢ []
    → last (segment ∷ segments) ≡ last segments
last-cons segment [] h = absurd (h refl)
last-cons segment (next ∷ segments) h = refl

contains-end : (front : Text) → contains star (front ++ star ∷ []) ≡ true
contains-end [] = refl
contains-end (c ∷ front) = ground (arith, contains-end front)

last-cons_head :
    (c : ℕ) (segments : List Text)
    → rest_of segments ≢ []
    → last (cons_head c segments) ≡ last segments
last-cons_head c [] h = absurd (h refl)
last-cons_head c (segment ∷ segments) h =
    last-cons (c ∷ segment) segments h ∙ sym (last-cons segment segments h)

pub split-ne-nil : (text : Text) → split star text ≢ []
split-ne-nil text e = cc (split-cons star text)

last-split : (front : Text) → last (split star (front ++ star ∷ [])) ≡ []
unfolding split
last-split [] = refl
last-split (c ∷ front) =
    let text = front ++ star ∷ [] in
    let longer = last-cons [] (split star text) (split-ne-nil text) in
    let kept = last-cons_head c (split star text) (rest_of-split text (contains-end front)) in
    ground (arith, last-split front, longer, kept)

-- Whether or not the pattern ends in a star, its last segment has to end the module ID.
finish_lem :
    (pattern module_id : Text) (result : Option ℕ)
    → finish pattern (split star pattern) module_id result
      ≡ (is_some result && ends_with module_id (last (split star pattern)))
finish_lem pattern module_id none = refl
finish_lem pattern module_id (some pos) = elim (Bool-cases (ends_with pattern (star ∷ []))) [
  | inl e ↦
      let (front, split_up) = (ends_with_iff pattern (star ∷ [])).0 e in
      let nothing : last (split star pattern) ≡ [] = rw split_up (last-split front) in
      let always : ends_with module_id [] ≡ true =
        (ends_with_iff module_id []).1 (module_id, sym (append-nil module_id)) in
      rw (e, nothing, always)
  | inr e ↦ rw e
]

-- The search in `match_pattern`, from the first segment on.
covers : Text → Text → Bool
covers pattern module_id =
    let segments = split star pattern in
    if starts_with module_id (first segments)
    then finish pattern segments module_id
        (scan (rest_of segments) module_id (length (first segments)))
    else false

covers-match_pattern :
    (pattern module_id : Text)
    → contains star pattern ≡ true
    → match_pattern pattern module_id ≡ covers pattern module_id
unfolding match_pattern covers
covers-match_pattern pattern module_id h = elim (Bool-cases (text_eq pattern (star ∷ []))) [
  | inl e ↦ let only : pattern ≡ star ∷ [] = (text_eq_iff pattern _).0 e in rw only
  | inr e ↦ elim (Bool-cases (starts_with pattern (star ∷ []))) [
    | inl s ↦ rw (e, h, s, first-split pattern s)
    | inr s ↦ rw (e, h, s)
  ]
]

scan-is_some :
    (segments : List Text) (text : Text) (pos : ℕ)
    → is_some (scan segments text pos) ≡ is_some (greedy same_char segments (drop pos text))
scan-is_some segments text pos = rw (← scan_lem segments text pos) (go (scan segments text pos))
  where
    go : (o : Option ℕ) → is_some o ≡ is_some (Option.map (λ p. drop p text) o)
    go none = refl
    go (some p) = refl

Ends-split :
    (segments : List Text) (text whole : Text)
    → segments ≢ []
    → IsSuffix text whole
    → ((is_some (greedy same_char segments text) && ends_with whole (last segments)) ≡ true)
      ↔ Ends same_char segments text []
Ends-split [] text whole h s = absurd (h refl)
Ends-split (segment ∷ segments) text whole h s = (to, from)
  where
    to :
        (is_some (greedy same_char (segment ∷ segments) text)
            && ends_with whole (last (segment ∷ segments)))
          ≡ true
        → Ends same_char (segment ∷ segments) text []
    to e =
        let (found, ended) =
          (&&_iff (is_some (greedy same_char (segment ∷ segments) text))
              (ends_with whole (last (segment ∷ segments)))).0
            e in
        elim (Option-cases (greedy same_char (segment ∷ segments) text)) [
          | inl missed ↦ absurd (ground arith)
          | inr (rest, run) ↦
              let stand = greedy_sound same_char (segment ∷ segments) text rest run in
              Ends-anchor segment segments text rest stand (
                IsSuffix-of_length_le _ text whole
                  ((ends_with_iff whole (last (segment ∷ segments))).0 ended) s
                  (length-last segment segments text rest stand))
        ]

    from :
        Ends same_char (segment ∷ segments) text []
        → (is_some (greedy same_char (segment ∷ segments) text)
            && ends_with whole (last (segment ∷ segments)))
          ≡ true
    from e =
        let (r, run, _) =
          greedy_complete same_char (segment ∷ segments) text [] text e ([], refl) in
        let ended =
          (ends_with_iff whole (last (segment ∷ segments))).1
            (IsSuffix-trans _ text whole (IsSuffix-last segment segments text e) s) in
        rw (run, ended)

covers_lem :
    (pattern module_id : Text)
    → contains star pattern ≡ true
    → starts_with module_id (first (split star pattern)) ≡ true
    → covers pattern module_id ≡ (
        is_some (
          greedy same_char
            (rest_of (split star pattern))
            (drop (length (first (split star pattern))) module_id))
        && ends_with module_id (last (rest_of (split star pattern))))
unfolding covers
covers_lem pattern module_id h s =
    let segments = split star pattern in
    let same_last : last segments ≡ last (rest_of segments) =
      ap last (split-cons star pattern)
      ∙ last-cons (first segments) (rest_of segments) (rest_of-split pattern h) in
    rw (
      s,
      finish_lem pattern module_id (scan (rest_of segments) module_id (length (first segments))),
      scan-is_some (rest_of segments) module_id (length (first segments)),
      same_last,
    )

covers_iff :
    (pattern module_id : Text)
    → contains star pattern ≡ true
    → (covers pattern module_id ≡ true) ↔ Covers same_char (split star pattern) module_id
covers_iff pattern module_id h =
    elim (Bool-cases (starts_with module_id (first (split star pattern)))) [
      | inl s ↦
          let (to, from) =
            Ends-split (rest_of (split star pattern))
              (drop (length (first (split star pattern))) module_id) module_id
              (rest_of-split pattern h)
              (IsSuffix-drop (length (first (split star pattern))) module_id) in
          (
            λ e. (s, to (sym (covers_lem pattern module_id h s) ∙ e)),
            λ (_, stand). covers_lem pattern module_id h s ∙ from stand,
          )
      | inr s ↦ (λ e. absurd (unfold covers in ground arith), λ (m, _). cc)
    ]

match_pattern-of_no_star :
    (pattern module_id : Text)
    → contains star pattern ≡ false
    → match_pattern pattern module_id ≡ text_eq pattern module_id
unfolding match_pattern
match_pattern-of_no_star pattern module_id h = rw (not_star, h)
  where
    not_star : text_eq pattern (star ∷ []) ≡ false
    not_star = elim (Bool-cases (text_eq pattern (star ∷ []))) [
      | inl e ↦
          let only : pattern ≡ star ∷ [] = (text_eq_iff pattern (star ∷ [])).0 e in
          let has : contains star pattern ≡ true = rw only in absurd (cc)
      | inr e ↦ e
    ]

no_star_iff :
    (pattern module_id : Text)
    → contains star pattern ≡ false
    → (match_pattern pattern module_id ≡ true) ↔ Covers same_char (split star pattern) module_id
no_star_iff pattern module_id h = rw (split-of_no_star pattern h) (
  λ e.
      let same : pattern ≡ module_id =
        (text_eq_iff pattern module_id).0
          (sym (match_pattern-of_no_star pattern module_id h) ∙ e) in
      rw (← same) (match_prefix_self pattern, drop-all pattern),
  λ (m, end).
      let same : module_id ≡ pattern =
        match_prefix-same_char pattern module_id m
        ∙ ap (λ t. pattern ++ t) end
        ∙ append-nil pattern in
      match_pattern-of_no_star pattern module_id h ∙ (text_eq_iff pattern module_id).1 (sym same),
)

-- A08: `match_pattern` answers True exactly on the module IDs that the pattern matches, where a
-- star covers any part of the ID, dots included, and every other character covers itself.
pub match_pattern_iff :
    (pattern module_id : Text)
    → (match_pattern pattern module_id ≡ true) ↔ Matches same_char pattern module_id
match_pattern_iff pattern module_id =
    let (to, from) = Covers-iff same_char pattern module_id in
    elim (Bool-cases (contains star pattern)) [
      | inl h ↦
          let same = covers-match_pattern pattern module_id h in
          let (there, back) = covers_iff pattern module_id h in
          (λ e. from (there (sym same ∙ e)), λ m. same ∙ back (to m))
      | inr h ↦
          let (there, back) = no_star_iff pattern module_id h in
          (λ e. from (there e), λ m. back (to m))
    ]
