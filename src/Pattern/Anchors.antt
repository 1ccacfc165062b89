-- ===== src/Pattern/Anchors.antt =====
-- `str.endswith`, and a last segment that has to stand at the end of the text.
use apcore_python.Prelude.{
  ◌-◌, ◌≤◌, ◌≡◌, refl, sym, ap, ◌∙◌, ◌↔◌, true, List, [], ◌∷◌, ◌++◌, append-nil, length, drop,
  length-drop, Text, text_eq, text_eq_iff, arith, IsSuffix, IsSuffix-trans, IsSuffix-drop,
  drop-front, length-suffix, IsSuffix-of_length_le, leb, leb_iff,
}
use apcore_python.Pattern.{same_char, match_prefix, last, ends_with}
use apcore_python.Pattern.Find.{length-match_prefix}
use apcore_python.Pattern.Segments.{Ends}

-- `endswith` says that the segment is the end of the text.
pub ends_with_iff : (text segment : Text) → (ends_with text segment ≡ true) ↔ IsSuffix segment text
ends_with_iff text segment = (to, from)
  where
    to : ends_with text segment ≡ true → IsSuffix segment text
    to h =
        let same : segment ≡ drop (length text - length segment) text =
          (text_eq_iff segment _).0 (ground arith) in
        rw (ap (λ t. IsSuffix t text) same) (IsSuffix-drop _ text)

    from : IsSuffix segment text → ends_with text segment ≡ true
    from (front, e) =
        let same : text_eq segment (drop (length text - length segment) text) ≡ true =
          (text_eq_iff segment _).1 (rw e (sym (drop-front front segment))) in
        let le : leb (length segment) (length text) ≡ true =
          (leb_iff _ _).1 (length-suffix segment text (front, e)) in
        rw (le, same)

-- A literal segment at the front is the front.
pub match_prefix-same_char :
    (segment text : Text)
    → match_prefix same_char segment text ≡ true
    → text ≡ segment ++ drop (length segment) text
match_prefix-same_char [] text h = refl
match_prefix-same_char (p ∷ segment) [] h = cc
match_prefix-same_char (p ∷ segment) (c ∷ text) h =
    ground (arith, match_prefix-same_char segment text)

pub match_prefix_self : (segment : Text) → match_prefix same_char segment segment ≡ true
match_prefix_self [] = refl
match_prefix_self (p ∷ segment) = ground (arith, match_prefix_self segment)

pub drop-all : (xs : Text) → drop (length xs) xs ≡ []
drop-all [] = refl
drop-all (x ∷ xs) = drop-all xs

pub IsSuffix-last :
    (segment : Text) (segments : List Text) (text : Text)
    → Ends same_char (segment ∷ segments) text []
    → IsSuffix (last (segment ∷ segments)) text
IsSuffix-last segment [] text (gap, here, e, m, later) =
    let whole : here ≡ segment =
      match_prefix-same_char segment here m ∙ ap (λ t. segment ++ t) later ∙ append-nil segment in
    (gap, rw (← whole) e)
IsSuffix-last segment (next ∷ segments) text (gap, here, e, m, later) =
    IsSuffix-trans _ here text
      (IsSuffix-trans _ (drop (length segment) here) here (IsSuffix-last next segments _ later)
        (IsSuffix-drop (length segment) here))
      (gap, e)

pub length-last :
    (segment : Text) (segments : List Text) (text rest : Text)
    → Ends same_char (segment ∷ segments) text rest
    → length (last (segment ∷ segments)) ≤ length text
length-last segment [] text rest (gap, here, e, m, later) =
    omega (arith, length-match_prefix same_char segment here m, length-suffix here text (gap, e))
length-last segment (next ∷ segments) text rest (gap, here, e, m, later) = omega (
  arith,
  length-last next segments (drop (length segment) here) rest later,
  length-drop (length segment) here,
  length-suffix here text (gap, e),
)

-- With the last segment at the end of the text, the last segment can be moved there.
pub Ends-anchor :
    (segment : Text) (segments : List Text) (text rest : Text)
    → Ends same_char (segment ∷ segments) text rest
    → IsSuffix (last (segment ∷ segments)) text
    → Ends same_char (segment ∷ segments) text []
Ends-anchor segment [] text rest _ (front, e) =
    (front, segment, e, match_prefix_self segment, drop-all segment)
Ends-anchor segment (next ∷ segments) text rest (gap, here, e, m, later) s = (
  gap,
  here,
  e,
  m,
  Ends-anchor next segments (drop (length segment) here) rest later (
      IsSuffix-of_length_le _ (drop (length segment) here) text s
        (IsSuffix-trans _ here text (IsSuffix-drop (length segment) here) (gap, e))
        (length-last next segments (drop (length segment) here) rest later)),
)
