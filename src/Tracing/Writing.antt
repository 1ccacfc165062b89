-- ===== src/Tracing/Writing.antt =====
-- trace_context.py: a `traceparent` that was written is read.
use apcore_python.Prelude.{
  ℕ, zero, suc, ◌≡◌, refl, sym, ap, ◌∙◌, true, false, none, some, [], ◌∷◌, ◌++◌, append-nil, Text,
  codes, arith, all, length, if◌then◌else◌,
}
use apcore_python.Conflicts.{lower}
use apcore_python.Tracing.{
  dash, is_hex, is_zero, keep, read_hex, drop_dash, at_end, traceparent_of, with_flags, with_parent,
  with_trace, with_version, match_traceparent, forbidden, accepted, from_traceparent,
  traceparent_text,
}
use apcore_python.Tracing.Solid.{is_plain, all-append, all_mono, strip-plain, lower-plain}

-- `n` lowercase hexadecimal digits
abbrev pub IsHex : ℕ → Text → Type 0
IsHex n text = (length text ≡ n) × (all is_hex text ≡ true)

pub read_hex-append :
    (n : ℕ) (group rest : Text) → IsHex n group → read_hex n (group ++ rest) ≡ some (group, rest)
unfolding read_hex
read_hex-append zero [] rest (len, hex) = refl
read_hex-append zero (c ∷ group) rest (len, hex) = absurd (omega (arith, len))
read_hex-append (suc n) [] rest (len, hex) = absurd (omega (arith, len))
read_hex-append (suc n) (c ∷ group) rest (len, hex) =
    let digit : is_hex c ≡ true = ground arith in
    ap (λ b. if b then keep c (read_hex n (group ++ rest)) else none) digit
    ∙ ap (keep c) (read_hex-append n group rest (omega (arith, len), ground arith))

read_last : (n : ℕ) (group : Text) → IsHex n group → at_end (read_hex n group) ≡ some group
read_last n group hex =
    ap (λ text. at_end (read_hex n text)) (sym (append-nil group))
    ∙ ap at_end (read_hex-append n group [] hex)

-- Reading what was written gives back the four fields.
match_traceparent-text :
    (trace_id parent_id flags : Text)
    → IsHex 32 trace_id
    → IsHex 16 parent_id
    → IsHex 2 flags
    → match_traceparent (traceparent_text trace_id parent_id flags)
      ≡ some (traceparent_of (codes "00") trace_id parent_id flags)
unfolding match_traceparent
match_traceparent-text trace_id parent_id flags t p f =
    ap (λ found. with_version (drop_dash found))
      (read_hex-append 2 (codes "00") (dash ∷ (trace_id ++ dash ∷ (parent_id ++ dash ∷ flags)))
        (refl, refl))
    ∙ ap (λ found. with_trace (codes "00") (drop_dash found))
        (read_hex-append 32 trace_id (dash ∷ (parent_id ++ dash ∷ flags)) t)
    ∙ ap (λ found. with_parent (codes "00") trace_id (drop_dash found))
        (read_hex-append 16 parent_id (dash ∷ flags) p)
    ∙ ap (with_flags (codes "00") trace_id parent_id) (read_last 2 flags f)

traceparent_text-plain :
    (trace_id parent_id flags : Text)
    → all is_hex trace_id ≡ true
    → all is_hex parent_id ≡ true
    → all is_hex flags ≡ true
    → all is_plain (traceparent_text trace_id parent_id flags) ≡ true
traceparent_text-plain trace_id parent_id flags t p f =
    all-append is_plain trace_id (dash ∷ (parent_id ++ dash ∷ flags)) (all_mono trace_id t)
      (all-append is_plain parent_id (dash ∷ flags) (all_mono parent_id p) (all_mono flags f))

pub from_traceparent-text :
    (trace_id parent_id flags : Text)
    → IsHex 32 trace_id
    → IsHex 16 parent_id
    → IsHex 2 flags
    → is_zero trace_id ≡ false
    → is_zero parent_id ≡ false
    → from_traceparent (traceparent_text trace_id parent_id flags)
      ≡ some (traceparent_of (codes "00") trace_id parent_id flags)
unfolding from_traceparent
from_traceparent-text trace_id parent_id flags t p f live live' =
    let text = traceparent_text trace_id parent_id flags in
    let plain = traceparent_text-plain trace_id parent_id flags t.1 p.1 f.1 in
    ap (λ text. accepted (match_traceparent (lower text))) (strip-plain text plain)
    ∙ ap (λ text. accepted (match_traceparent text)) (lower-plain text plain)
    ∙ ap accepted (match_traceparent-text trace_id parent_id flags t p f)
    ∙ ap (λ b. if b then none else some (traceparent_of (codes "00") trace_id parent_id flags))
        refuse
  where
    refuse : forbidden (traceparent_of (codes "00") trace_id parent_id flags) ≡ false
    refuse = ground (arith, live, live')
