-- ===== src/Tracing/Parents.antt =====
-- trace_context.py: `traceparent`, read from any text.
use apcore_python.Prelude.{
  text_eq_iff, ◌||◌, text_eq, either_case, ℕ, zero, suc, ◌≡◌, refl, ap, ◌∙◌, true, false, Option,
  none, some, [], ◌∷◌, ◌++◌, append-nil, Text, codes, arith, ◌==◌,
}
use apcore_python.Version.{strip}
use apcore_python.Conflicts.{lower}
use apcore_python.Tracing.Writing.{IsHex}
use apcore_python.Tracing.{
  matched_header, state_of_header, lookup_header_ci, Headers, extracted, extract, State, dash,
  TraceParent, is_hex, is_zero, keep, read_hex, drop_dash, at_end, with_flags, with_parent,
  with_trace, with_version, match_traceparent, forbidden, accepted, from_traceparent,
}

-- What a reader gives of a text: nothing, or a group of `n` digits and what is behind it.
abbrev Reads : ℕ → Text → Option (Text × Text) → Type 0
Reads n text none = Unit
Reads n text (some (group, rest)) = IsHex n group × (text ≡ group ++ rest)

read_hex-Reads : (n : ℕ) (text : Text) → Reads n text (read_hex n text)
unfolding read_hex
read_hex-Reads zero text = ((refl, refl), refl)
read_hex-Reads (suc n) [] = tt
read_hex-Reads (suc n) (c ∷ text) =
    either_case (Reads (suc n) (c ∷ text)) (is_hex c)
      (λ digit. go digit (read_hex n text) (read_hex-Reads n text)) (λ other. tt)
  where
    go :
        is_hex c ≡ true
        → (found : Option (Text × Text)) → Reads n text found
        → Reads (suc n) (c ∷ text) (keep c found)
    go digit none read = tt
    go digit (some (group, rest)) ((len, hex), e) =
        ((omega (arith, len), ground (arith, digit, hex)), ap (λ t. c ∷ t) e)

-- The same with a dash behind the group.
abbrev Dashed : ℕ → Text → Option (Text × Text) → Type 0
Dashed n text none = Unit
Dashed n text (some (group, rest)) = IsHex n group × (text ≡ group ++ dash ∷ rest)

drop_dash-Dashed :
    (n : ℕ) (text : Text) (found : Option (Text × Text))
    → Reads n text found
    → Dashed n text (drop_dash found)
drop_dash-Dashed n text none read = tt
drop_dash-Dashed n text (some (group, [])) read = tt
drop_dash-Dashed n text (some (group, c ∷ rest)) (hex, e) =
    either_case (Dashed n text) (c == dash)
      (λ same.
        let sign : c ≡ dash = ground (arith, same) in (hex, e ∙ ap (λ d. group ++ d ∷ rest) sign))
      (λ other. tt)

-- The fields of a traceparent of the format of W3C, written in order in a text.
abbrev pub Fields : Text → TraceParent → Type 0
Fields text tp =
    (IsHex 2 tp.version × (IsHex 32 tp.trace_id × (IsHex 16 tp.parent_id × IsHex 2 tp.trace_flags)))
    × (text ≡ tp.version ++ dash ∷ (tp.trace_id ++ dash ∷ (tp.parent_id ++ dash ∷ tp.trace_flags)))

-- `"0" * n`
abbrev zeros : ℕ → Text
zeros zero = []
zeros (suc n) = 48 ∷ zeros n

-- None of what W3C rules out: version ff, and IDs that are all zero.
abbrev pub Allowed : TraceParent → Type 0
Allowed tp =
    ¬ (tp.version ≡ codes "ff") × (¬ (tp.trace_id ≡ zeros 32) × ¬ (tp.parent_id ≡ zeros 16))

abbrev Formed : Text → Option TraceParent → Type 0
Formed text none = Unit
Formed text (some tp) = Fields text tp

with_version-Formed :
    (text : Text) (found : Option (Text × Text))
    → Dashed 2 text found
    → Formed text (with_version found)
with_version-Formed text none read = tt
with_version-Formed text (some (version, r)) (v, ev) =
    trace (drop_dash (read_hex 32 r)) (drop_dash-Dashed 32 r _ (read_hex-Reads 32 r))
  where
    flags :
        (trace_id parent_id s u : Text)
        → IsHex 32 trace_id
        → r ≡ trace_id ++ dash ∷ s
        → IsHex 16 parent_id
        → s ≡ parent_id ++ dash ∷ u
        → (found : Option (Text × Text)) → Reads 2 u found
        → Formed text (with_flags version trace_id parent_id (at_end found))
    flags trace_id parent_id s u t et p ep none read = tt
    flags trace_id parent_id s u t et p ep (some (group, [])) (f, ef) = (
      (v, (t, (p, f))),
      ev
          ∙ ap (λ r. version ++ dash ∷ r)
              (et
                ∙ ap (λ s. trace_id ++ dash ∷ s)
                    (ep ∙ ap (λ u. parent_id ++ dash ∷ u) (ef ∙ append-nil group))),
    )
    flags trace_id parent_id s u t et p ep (some (group, c ∷ rest)) read = tt

    parent :
        (trace_id s : Text)
        → IsHex 32 trace_id
        → r ≡ trace_id ++ dash ∷ s
        → (found : Option (Text × Text)) → Dashed 16 s found
        → Formed text (with_parent version trace_id found)
    parent trace_id s t et none read = tt
    parent trace_id s t et (some (parent_id, u)) (p, ep) =
        flags trace_id parent_id s u t et p ep (read_hex 2 u) (read_hex-Reads 2 u)

    trace :
        (found : Option (Text × Text)) → Dashed 32 r found → Formed text (with_trace version found)
    trace none read = tt
    trace (some (trace_id, s)) (t, et) =
        parent trace_id s t et (drop_dash (read_hex 16 s))
          (drop_dash-Dashed 16 s _ (read_hex-Reads 16 s))

match_traceparent-Formed : (text : Text) → Formed text (match_traceparent text)
unfolding match_traceparent
match_traceparent-Formed text =
    with_version-Formed text _ (drop_dash-Dashed 2 text _ (read_hex-Reads 2 text))

-- The tests leave only what is allowed.
tests-Allowed :
    (tp : TraceParent)
    → text_eq tp.version (codes "ff") ≡ false
    → (is_zero tp.trace_id || is_zero tp.parent_id) ≡ false
    → Allowed tp
tests-Allowed tp version ids = (
  (λ e. cc ((text_eq_iff tp.version (codes "ff")).1 e, version)),
  ((λ e. ground (arith, ids, ap is_zero e)), (λ e. ground (arith, ids, ap is_zero e))),
)

-- What a reader makes of a header: nothing where there is none; otherwise nothing, or what the text,
-- stripped and in lower case, has in its four fields, if that is allowed.
abbrev pub WellFormed : Option Text → Option TraceParent → Type 0
WellFormed none found = found ≡ none
WellFormed (some raw) none = Unit
WellFormed (some raw) (some tp) = Fields (lower (strip raw)) tp × Allowed tp

accepted-WellFormed :
    (raw : Text) (found : Option TraceParent)
    → Formed (lower (strip raw)) found
    → WellFormed (some raw) (accepted found)
accepted-WellFormed raw none formed = tt
accepted-WellFormed raw (some tp) formed =
    either_case (WellFormed (some raw)) (forbidden tp) (λ bad. tt)
      (λ fine. (formed, tests-Allowed tp (ground (arith, fine)) (ground (arith, fine))))

extracted-WellFormed :
    (raw : Text) (state : State) (found : Option TraceParent)
    → Formed (lower (strip raw)) found
    → WellFormed (some raw) (extracted state found)
extracted-WellFormed raw state none formed = tt
extracted-WellFormed raw state (some tp) formed =
    either_case (WellFormed (some raw)) (text_eq tp.version (codes "ff")) (λ bad. tt)
      (λ version.
        either_case (WellFormed (some raw)) (is_zero tp.trace_id || is_zero tp.parent_id)
          (λ bad. tt) (λ ids. (formed, tests-Allowed tp version ids)))

-- Whatever text comes in, `from_traceparent` gives only traceparents whose version, trace ID, parent ID
-- and flags are 2, 32, 16 and 2 lowercase hexadecimal digits that stand in this order, with dashes
-- between them, in the text, stripped and in lower case; the version is not ff, and neither ID is all
-- zero. So does `extract` of the `traceparent` header, and it gives nothing where there is none.
pub from_traceparent-WellFormed :
    (text : Text) (headers : Headers)
    → WellFormed (some text) (from_traceparent text)
      × WellFormed (lookup_header_ci headers (codes "traceparent")) (extract headers)
unfolding from_traceparent extract
from_traceparent-WellFormed text headers = (
  accepted-WellFormed text _ (match_traceparent-Formed (lower (strip text))),
  by_header (lookup_header_ci headers (codes "traceparent")),
)
  where
    state : State
    state = state_of_header (lookup_header_ci headers (codes "tracestate"))

    by_header : (header : Option Text) → WellFormed header (extracted state (matched_header header))
    by_header none = refl
    by_header (some raw) =
        extracted-WellFormed raw state _ (match_traceparent-Formed (lower (strip raw)))
