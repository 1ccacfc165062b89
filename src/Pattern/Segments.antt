-- ===== src/Pattern/Segments.antt =====
-- What a list of segments means: they stand in the text in this order, without overlap. The
-- greedy search, which takes the first place for each, decides it.
use mathlib.Core.Option
use native.Mathlib.Nat.{add_assoc}
use apcore_python.Prelude.{
  ℕ, suc, ◌+◌, ◌≡◌, refl, sym, ap, ◌∙◌, Bool, true, Option, none, some, List, [], ◌∷◌, ◌++◌, length,
  drop, drop-drop, length-append, length-drop, Text, arith, inl, inr, Option-cases, append_assoc,
  IsSuffix, IsSuffix-refl, IsSuffix-trans, IsSuffix-drop, drop-IsSuffix, take, take-append-drop,
  IsSuffix-of_length_le,
}
use apcore_python.Pattern.{match_prefix, find_at, glob_char, find, same_char, scan, glob_scan}
use apcore_python.Pattern.Find.{find_at_nil, find_at_sound, find_at_first, glob_find_lem}

module _ (accepts : ℕ → ℕ → Bool) where
  -- `rest` is what is left of `text` after the last segment.
  abbrev pub Ends : List Text → Text → Text → Type 0
  Ends [] text rest = text ≡ rest
  Ends (segment ∷ segments) text rest =
      (gap : Text) × (here : Text) × (text ≡ gap ++ here)
      × (match_prefix accepts segment here ≡ true)
      × Ends segments (drop (length segment) here) rest

  pub greedy : List Text → Text → Option Text
  greedy [] text = some text
  greedy (segment ∷ segments) text = elim (find_at accepts segment text) [
    | none ↦ none
    | some i ↦ greedy segments (drop (i + length segment) text)
  ]

  pub IsSuffix-Ends :
      (segments : List Text) (text rest : Text) → Ends segments text rest → IsSuffix rest text
  IsSuffix-Ends [] text rest e = rw e (IsSuffix-refl rest)
  IsSuffix-Ends (segment ∷ segments) text rest (gap, here, e, _, later) =
      IsSuffix-trans rest here text
        (IsSuffix-trans rest (drop (length segment) here) here
          (IsSuffix-Ends segments (drop (length segment) here) rest later)
          (IsSuffix-drop (length segment) here))
        (gap, e)

  pub greedy_sound :
      (segments : List Text) (text rest : Text)
      → greedy segments text ≡ some rest
      → Ends segments text rest
  unfolding greedy
  greedy_sound [] text rest h = cc
  greedy_sound (segment ∷ segments) text rest h =
      elim (Option-cases (find_at accepts segment text)) [
        | inl missed ↦ absurd (cc (rw (missed, greedy) at h))
        | inr (i, found) ↦ (
          take i text,
          drop i text,
          sym (take-append-drop i text),
          find_at_sound accepts segment text i found,
          rw (drop-drop i (length segment) text) (
              greedy_sound segments (drop (i + length segment) text) rest
                (rw (found, greedy) at h)),
        )
      ]

  -- However the segments stand in the text, the greedy search finds them and leaves no less.
  pub greedy_complete :
      (segments : List Text) (text rest whole : Text)
      → Ends segments text rest
      → IsSuffix text whole
      → (r : Text) × (greedy segments whole ≡ some r) × IsSuffix rest r
  unfolding greedy
  greedy_complete [] text rest whole e s = (whole, refl, rw (← e) s)
  greedy_complete (segment ∷ segments) text rest whole (gap, here, e, m, later) (x, p) =
      let split : whole ≡ (x ++ gap) ++ here =
        p ∙ ap (λ t. x ++ t) e ∙ sym (append_assoc x gap here) in
      let (i, found, le) = find_at_first accepts segment (x ++ gap) here m in
      let near : IsSuffix here (drop i whole) =
        IsSuffix-of_length_le here (drop i whole) whole (x ++ gap, split) (IsSuffix-drop i whole)
          (omega (arith, length-drop i whole, length-append (x ++ gap) here, ap length split)) in
      let after : IsSuffix (drop (length segment) here) (drop (i + length segment) whole) =
        rw (← drop-drop i (length segment) whole)
          (drop-IsSuffix (length segment) here (drop i whole) near) in
      let (r, run, end) =
        greedy_complete segments (drop (length segment) here) rest (drop (i + length segment) whole)
          later after in
      let found' : find_at accepts segment whole ≡ some i = rw split found in
      (r, rw (found', greedy) run, end)

-- Both loops of the source are the greedy search, with offsets for what is left.
pub scan_lem :
    (segments : List Text) (text : Text) (pos : ℕ)
    → Option.map (λ p. drop p text) (scan segments text pos)
      ≡ greedy same_char segments (drop pos text)
unfolding scan greedy find
scan_lem [] text pos = refl
scan_lem ([] ∷ segments) text pos =
    rw (find_at_nil same_char (drop pos text), greedy) (scan_lem segments text pos)
scan_lem ((c ∷ segment) ∷ segments) text pos =
    elim (Option-cases (find_at same_char (c ∷ segment) (drop pos text))) [
      | inl missed ↦ rw (missed, scan, greedy)
      | inr (i, found) ↦
          rw
            (
              found,
              scan,
              greedy,
              drop-drop pos (i + suc (length segment)) text,
              ← add_assoc pos i (suc (length segment)),
            )
            (scan_lem segments text (pos + i + suc (length segment)))
    ]

pub glob_scan_lem :
    (segments : List Text) (value : Text) (pos : ℕ)
    → Option.map (λ p. drop p value) (glob_scan segments value pos)
      ≡ greedy glob_char segments (drop pos value)
unfolding glob_scan greedy
glob_scan_lem [] value pos = refl
glob_scan_lem ([] ∷ segments) value pos =
    rw (find_at_nil glob_char (drop pos value), greedy) (glob_scan_lem segments value pos)
glob_scan_lem ((c ∷ segment) ∷ segments) value pos =
    let loop = glob_find_lem _ pos c segment value refl in
    elim (Option-cases (find_at glob_char (c ∷ segment) (drop pos value))) [
      | inl missed ↦ rw (loop, missed, glob_scan, greedy)
      | inr (i, found) ↦
          rw
            (
              loop,
              found,
              glob_scan,
              greedy,
              drop-drop pos (i + suc (length segment)) value,
              ← add_assoc pos i (suc (length segment)),
            )
            (glob_scan_lem segments value (pos + i + suc (length segment)))
    ]
