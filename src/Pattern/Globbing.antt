-- ===== src/Pattern/Globbing.antt =====
-- `match_glob` decides whether the value matches the pattern (Algorithm A25), and agrees with
-- `match_pattern` on the patterns that have no `?`.
use mathlib.Core.Path.{subst}
use mathlib.Core.Option
use apcore_python.Prelude.{
  ℕ, suc, ◌-◌, ◌≡◌, refl, sym, ap, ◌∙◌, ◌≢◌, ◌↔◌, Bool, true, false, none, some, List, [], ◌∷◌,
  ◌++◌, append-nil, length, drop, length-drop, Text, arith, inl, inr, Bool-cases, Option-cases,
  IsSuffix, IsSuffix-trans, IsSuffix-drop, drop-front, length-suffix, IsSuffix-of_length_le, leb,
  leb_iff, ◌==◌,
}
use apcore_python.Pattern.{
  star, question, same_char, glob_char, match_prefix, match_exact, split, last, all_but_last,
  contains, glob_scan, glob_finish, glob_segments, match_glob, match_pattern,
}
use apcore_python.Pattern.Find.{length-match_prefix}
use apcore_python.Pattern.Segments.{Ends, greedy, greedy_sound, greedy_complete, glob_scan_lem}
use apcore_python.Pattern.Meaning.{Matches, Covers, Covers-iff}
use apcore_python.Pattern.Matching.{split-ne-nil, match_pattern_iff}

some_injective : {a b : Text} → some a ≡ some b → a ≡ b
some_injective h = cc

-- Segments up to the last, and the last at the end.
Ends-append :
    (segments : List Text) (segment text rest : Text)
    → Ends glob_char segments text rest
    → Ends glob_char (segment ∷ []) rest []
    → Ends glob_char (segments ++ segment ∷ []) text []
Ends-append [] segment text rest e h = rw e h
Ends-append (s ∷ segments) segment text rest (gap, here, e, m, later) h =
    (gap, here, e, m, Ends-append segments segment (drop (length s) here) rest later h)

Ends-unappend :
    (segments : List Text) (segment text : Text)
    → Ends glob_char (segments ++ segment ∷ []) text []
    → (rest : Text) × Ends glob_char segments text rest × Ends glob_char (segment ∷ []) rest []
Ends-unappend [] segment text h = (text, refl, h)
Ends-unappend (s ∷ segments) segment text (gap, here, e, m, later) =
    let (rest, front, end) = Ends-unappend segments segment (drop (length s) here) later in
    (rest, (gap, here, e, m, front), end)

all_but_last-append :
    (segment : Text) (segments : List Text)
    → all_but_last (segment ∷ segments) ++ last (segment ∷ segments) ∷ [] ≡ segment ∷ segments
all_but_last-append segment [] = refl
all_but_last-append segment (next ∷ segments) = rw (all_but_last-append next segments)

match_exact_iff :
    (segment text : Text)
    → (match_exact glob_char segment text ≡ true)
      ↔ ((match_prefix glob_char segment text ≡ true) × (drop (length segment) text ≡ []))
match_exact_iff [] [] = ground arith
match_exact_iff [] (c ∷ text) = ground arith
match_exact_iff (p ∷ segment) [] = ground arith
match_exact_iff (p ∷ segment) (c ∷ text) = ground (arith, match_exact_iff segment text)

-- The last test of the source, on the text that is left.
last_iff :
    (segment value rest : Text) (pos : ℕ)
    → drop pos value ≡ rest
    → (glob_finish segment value (some pos) ≡ true) ↔ Ends glob_char (segment ∷ []) rest []
last_iff [] value rest pos d = (λ _. (rest, [], sym (append-nil rest), refl, refl), λ _. refl)
last_iff (p ∷ segment) value rest pos d = (to, from)
  where
    size : length rest ≡ length value - pos
    size = rw (← d) (length-drop pos value)

    back : IsSuffix rest value
    back = rw (← d) (IsSuffix-drop pos value)

    to :
        glob_finish (p ∷ segment) value (some pos) ≡ true
        → Ends glob_char ((p ∷ segment) ∷ []) rest []
    to h =
        let end = drop (length value - suc (length segment)) value in
        let exact : match_exact glob_char (p ∷ segment) end ≡ true = ground arith in
        let fits : leb (suc (length segment)) (length value - pos) ≡ true = ground arith in
        let (m, nothing) = (match_exact_iff (p ∷ segment) end).0 exact in
        let (gap, e) =
          IsSuffix-of_length_le end rest value
            (IsSuffix-drop (length value - suc (length segment)) value) back
            (omega (
              arith,
              size,
              (leb_iff _ _).0 fits,
              length-drop (length value - suc (length segment)) value,
            )) in
        (gap, end, e, m, nothing)

    from :
        Ends glob_char ((p ∷ segment) ∷ []) rest []
        → glob_finish (p ∷ segment) value (some pos) ≡ true
    from (gap, here, e, m, nothing) =
        let low = length-match_prefix glob_char (p ∷ segment) here m in
        let high : length here - suc (length segment) ≡ 0 =
          sym (length-drop (suc (length segment)) here) ∙ ap length nothing in
        let whole : length here ≡ suc (length segment) = omega (arith, low, high) in
        let fits : leb (suc (length segment)) (length value - pos) ≡ true =
          (leb_iff _ _).1 (omega (arith, size, whole, length-suffix here rest (gap, e))) in
        let (front, split_up) = IsSuffix-trans here rest value (gap, e) back in
        let same : drop (length value - suc (length segment)) value ≡ here =
          rw (← whole, split_up) (drop-front front here) in
        rw (fits, same) ((match_exact_iff (p ∷ segment) here).1 (m, nothing))

finish_iff :
    (middle : List Text) (tail value : Text) (pos : ℕ)
    → (glob_finish tail value (glob_scan middle value pos) ≡ true)
      ↔ Ends glob_char (middle ++ tail ∷ []) (drop pos value) []
finish_iff middle tail value pos = elim (Option-cases (glob_scan middle value pos)) [
  | inl e ↦
      let missed : greedy glob_char middle (drop pos value) ≡ none =
        sym (glob_scan_lem middle value pos) ∙ ap (Option.map (λ p. drop p value)) e in
      rw e (
        λ h. cc,
        λ h.
            let (rest, front, end) = Ends-unappend middle tail (drop pos value) h in
            let (r, run, _) =
              greedy_complete glob_char middle (drop pos value) rest (drop pos value) front
                ([], refl) in
            absurd (cc),
      )
  | inr (last_pos, e) ↦
      let found : greedy glob_char middle (drop pos value) ≡ some (drop last_pos value) =
        sym (glob_scan_lem middle value pos) ∙ ap (Option.map (λ p. drop p value)) e in
      let (to, from) = last_iff tail value (drop last_pos value) last_pos refl in
      rw e (
        λ h.
            Ends-append middle tail (drop pos value) (drop last_pos value)
              (greedy_sound glob_char middle (drop pos value) (drop last_pos value) found) (to h),
        λ h.
            let (rest, front, (gap, here, split_up, m, nothing)) =
              Ends-unappend middle tail (drop pos value) h in
            let (r, run, (more, longer)) =
              greedy_complete glob_char middle (drop pos value) rest (drop pos value) front
                ([], refl) in
            let same : drop last_pos value ≡ r = some_injective (sym found ∙ run) in
            let (wider, e') =
              IsSuffix-trans here rest (drop last_pos value) (gap, split_up)
                (more, same ∙ longer) in
            from (wider, here, e', m, nothing),
      )
]

glob_finish_iff :
    (segment next : Text) (segments : List Text) (value : Text)
    → (glob_finish
          (last (next ∷ segments))
          value
          (glob_scan (all_but_last (next ∷ segments)) value (length segment))
        ≡ true)
      ↔ Ends glob_char (next ∷ segments) (drop (length segment) value) []
glob_finish_iff segment next segments value =
    subst
      (λ whole.
        (glob_finish (last (next ∷ segments)) value
            (glob_scan (all_but_last (next ∷ segments)) value (length segment))
          ≡ true)
        ↔ Ends glob_char whole (drop (length segment) value) [])
      (all_but_last-append next segments)
      (finish_iff (all_but_last (next ∷ segments)) (last (next ∷ segments)) value (length segment))

glob_segments_iff :
    (segments : List Text) (value : Text)
    → segments ≢ []
    → (glob_segments segments value ≡ true) ↔ Covers glob_char segments value
glob_segments_iff [] value h = absurd (h refl)
glob_segments_iff (segment ∷ []) value h = match_exact_iff segment value
glob_segments_iff (segment ∷ next ∷ segments) value h =
    elim (Bool-cases (match_prefix glob_char segment value)) [
      | inl m ↦
          let (to, from) = glob_finish_iff segment next segments value in
          rw m (λ e. (refl, to e), λ (_, e). from e)
      | inr m ↦ rw m (λ e. cc, λ (e, _). cc)
    ]

-- A25: `match_glob` answers True exactly on the values that the pattern matches, where a star
-- covers any part of the value, a `?` any one character, and every other character itself.
pub match_glob_iff :
    (pattern value : Text) → (match_glob pattern value ≡ true) ↔ Matches glob_char pattern value
unfolding match_glob
match_glob_iff pattern value =
    let (to, from) = Covers-iff glob_char pattern value in
    let (there, back) = glob_segments_iff (split star pattern) value (split-ne-nil pattern) in
    (λ e. from (there e), λ m. back (to m))

-- Without a `?` in the pattern the two dialects mean the same.
same_meaning :
    (pattern text : Text)
    → contains question pattern ≡ false
    → Matches glob_char pattern text ↔ Matches same_char pattern text
same_meaning [] text h = (λ e. e, λ e. e)
same_meaning (p ∷ pattern) text h = elim (Bool-cases (p == star)) [
  | inl e ↦ rw e (
    λ (gap, here, cut, m). (gap, here, cut, (same_meaning pattern here (ground arith)).0 m),
    λ (gap, here, cut, m). (gap, here, cut, (same_meaning pattern here (ground arith)).1 m),
  )
  | inr e ↦ rw e (
    λ (c, here, cut, a, m).
        (c, here, cut, ground arith, (same_meaning pattern here (ground arith)).0 m),
    λ (c, here, cut, a, m).
        (c, here, cut, ground arith, (same_meaning pattern here (ground arith)).1 m),
  )
]

Bool-eq_of_iff : (a b : Bool) → (a ≡ true) ↔ (b ≡ true) → a ≡ b
Bool-eq_of_iff a b (to, from) = ground arith

-- On a pattern with no `?` the glob matcher and the module ID matcher give the same answer, for
-- every text.
pub match_glob-eq-match_pattern :
    (pattern text : Text)
    → contains question pattern ≡ false
    → match_glob pattern text ≡ match_pattern pattern text
match_glob-eq-match_pattern pattern text h =
    let (a, b) = match_glob_iff pattern text in
    let (c, d) = match_pattern_iff pattern text in
    let (e, f) = same_meaning pattern text h in
    Bool-eq_of_iff (match_glob pattern text) (match_pattern pattern text)
      (λ x. d (e (a x)), λ x. b (f (c x)))
