-- ===== src/Pattern/Meaning.antt =====
-- What a wildcard pattern means, character by character, and that splitting it at its stars does
-- not change the meaning.
use apcore_python.Prelude.{
  ℕ, ◌≡◌, refl, ◌↔◌, Bool, true, false, List, [], ◌∷◌, ◌++◌, length, drop, Text, arith, inl, inr,
  Bool-cases, ◌==◌, if◌then◌else◌,
}
use apcore_python.Pattern.{star, match_prefix, split, first, rest_of, cons_head}
use apcore_python.Pattern.Segments.{Ends}

abbrev pub AfterGap : (Text → Type 0) → Text → Type 0
AfterGap P text = (gap : Text) × (here : Text) × (text ≡ gap ++ here) × P here

abbrev pub AfterChar : (ℕ → ℕ → Bool) → ℕ → (Text → Type 0) → Text → Type 0
AfterChar accepts p P text =
    (c : ℕ) × (here : Text) × (text ≡ c ∷ here) × (accepts p c ≡ true) × P here

-- A star covers any part of the text; any other character covers one that it accepts.
abbrev pub Matches : (ℕ → ℕ → Bool) → Text → Text → Type 0
Matches accepts [] text = text ≡ []
Matches accepts (p ∷ pattern) text =
    if p == star
    then AfterGap (Matches accepts pattern) text
    else AfterChar accepts p (Matches accepts pattern) text

pub split-cons :
    (sep : ℕ) (text : Text) → split sep text ≡ first (split sep text) ∷ rest_of (split sep text)
unfolding split
split-cons sep [] = refl
split-cons sep (c ∷ text) = go (c == sep) (split sep text) (split-cons sep text)
  where
    go :
        (b : Bool) (segments : List Text)
        → segments ≡ first segments ∷ rest_of segments
        → (if b then [] ∷ segments else cons_head c segments)
          ≡ first (if b then [] ∷ segments else cons_head c segments)
            ∷ rest_of (if b then [] ∷ segments else cons_head c segments)
    go true segments e = refl
    go false [] e = refl
    go false (segment ∷ segments) e = refl

module _ (accepts : ℕ → ℕ → Bool) where
  -- The first segment stands at the front, and the last ends the text.
  abbrev pub Covers : List Text → Text → Type 0
  Covers segments text =
      (match_prefix accepts (first segments) text ≡ true)
      × Ends accepts (rest_of segments) (drop (length (first segments)) text) []

  star_iff :
      {P : Text → Type 0} (segments : List Text) (text : Text)
      → segments ≡ first segments ∷ rest_of segments
      → ((t : Text) → P t ↔ Covers segments t)
      → AfterGap P text ↔ Covers ([] ∷ segments) text
  star_iff [] text e ih = ground arith
  star_iff (segment ∷ segments) text e ih = (
    λ (gap, here, e, h). let (m, later) = (ih here).0 h in (refl, (gap, here, e, m, later)),
    λ (_, (gap, here, e, m, later)). (gap, here, e, (ih here).1 (m, later)),
  )

  char_iff :
      {P : Text → Type 0} (p : ℕ) (segments : List Text) (text : Text)
      → segments ≡ first segments ∷ rest_of segments
      → ((t : Text) → P t ↔ Covers segments t)
      → AfterChar accepts p P text ↔ Covers (cons_head p segments) text
  char_iff p [] text e ih = ground arith
  char_iff p (segment ∷ segments) [] e ih = (λ (c, here, e, a, h). cc, λ (m, later). cc)
  char_iff p (segment ∷ segments) (c ∷ text) _ ih = (
    λ (d, here, e, a, h).
        let tails : text ≡ here = cc in
        let (m, later) = (ih text).0 (rw tails h) in (ground arith, later),
    λ (m, later). (c, text, refl, ground arith, (ih text).1 (ground arith, later)),
  )

  -- A text matches a pattern exactly if the pattern's segments cover it.
  pub Covers-iff :
      (pattern text : Text) → Matches accepts pattern text ↔ Covers (split star pattern) text
  unfolding split
  Covers-iff [] text = (λ e. (refl, e), λ h. h.1)
  Covers-iff (p ∷ pattern) text = elim (Bool-cases (p == star)) [
    | inl e ↦
        rw e (star_iff (split star pattern) text (split-cons star pattern) (Covers-iff pattern))
    | inr e ↦
        rw e (char_iff p (split star pattern) text (split-cons star pattern) (Covers-iff pattern))
  ]
