-- ===== src/Tracing/Headers.antt =====
-- trace_context.py: `inject` and `extract` together.
use apcore_python.Prelude.{
  arith, ◌≡◌, refl, sym, ap, ◌∙◌, Bool, true, false, ◌||◌, Option, none, some, [], ◌∷◌, append-nil,
  Text, codes, text_eq, All, if◌then◌else◌, take,
}
use apcore_python.Tracing.{
  newline, Headers, is_empty, State, TraceParent, is_zero, read_hex, Context, parent_id_matches,
  span_or, flags_or_sampled, traceparent_text, headers_of, inject, extract, from_traceparent,
  extracted, matched_header, accepted, lookup_header_ci, traceparent_of, max_entries,
  parse_tracestate, format_tracestate,
}
use apcore_python.Tracing.States.{IsEntry, parse_tracestate-format_tracestate}
use apcore_python.Tracing.Writing.{read_hex-append, IsHex, from_traceparent-text}

-- A context whose trace a receiver accepts.
abbrev pub Traceable : Context → Type 0
Traceable context =
    IsHex 32 context.trace_id
    × ((is_zero context.trace_id ≡ false)
        × (IsHex 2 (flags_or_sampled context.flags) × All IsEntry context.tracestate))

abbrev pub received : Context → Text → TraceParent
received context parent_id = record {
  version = codes "00";
  trace_id = context.trace_id;
  parent_id = parent_id;
  trace_flags = flags_or_sampled context.flags;
  tracestate = take max_entries context.tracestate;
}

abbrev with_state : State → Option TraceParent → Option TraceParent
with_state state none = none
with_state state (some tp) = some (record tp { tracestate = state })

-- The two copies of the tests agree.
extracted-accepted :
    (state : State) (found : Option TraceParent)
    → extracted state found ≡ with_state state (accepted found)
extracted-accepted state none = refl
extracted-accepted state (some tp) = ground arith

matched-from_traceparent :
    (state : State) (raw : Text)
    → extracted state (matched_header (some raw)) ≡ with_state state (from_traceparent raw)
unfolding from_traceparent
matched-from_traceparent state raw = extracted-accepted state (matched_header (some raw))

extract-headers_of :
    (context : Context) (parent_id : Text)
    → Traceable context
    → IsHex 16 parent_id
    → is_zero parent_id ≡ false
    → extract (headers_of context parent_id) ≡ some (received context parent_id)
unfolding extract lookup_header_ci
extract-headers_of context parent_id (t, (live, (f, entries))) p live' =
    go context.tracestate entries
  where
    parent :
        from_traceparent
          (traceparent_text context.trace_id parent_id (flags_or_sampled context.flags))
        ≡ some (
            traceparent_of (codes "00") context.trace_id parent_id (flags_or_sampled context.flags))
    parent =
        from_traceparent-text context.trace_id parent_id (flags_or_sampled context.flags) t p f live
          live'

    go :
        (state : State)
        → All IsEntry state
        → extract (headers_of (record context { tracestate = state }) parent_id)
          ≡ some (received (record context { tracestate = state }) parent_id)
    go [] good = matched-from_traceparent [] _ ∙ ap (with_state []) parent
    go (e ∷ es) good =
        matched-from_traceparent (parse_tracestate (format_tracestate (e ∷ es))) _
        ∙ ap (with_state (parse_tracestate (format_tracestate (e ∷ es)))) parent
        ∙ ap
            (λ state. with_state state (
              some (
                traceparent_of (codes "00") context.trace_id parent_id
                  (flags_or_sampled context.flags))))
            (parse_tracestate-format_tracestate (e ∷ es) good)

parent_id_matches-IsHex : (text : Text) → IsHex 16 text → parent_id_matches text ≡ true
unfolding parent_id_matches
parent_id_matches-IsHex text hex =
    ap
      (λ found. elim found as (λ _. Bool) [
        | none ↦ false
        | some found ↦ is_empty found.1 || text_eq found.1 (newline ∷ [])
      ])
      (ap (read_hex 16) (sym (append-nil text)) ∙ read_hex-append 16 text [] hex)

-- The parent ID that `inject` takes: the given one, the latest open span, or the random one.
abbrev pub chosen : Context → Option Text → Text → Text
chosen context none random_id = span_or random_id context.spans
chosen context (some parent_id) random_id = parent_id

-- What `inject` writes `extract` reads. For a context whose trace ID is 32 lowercase hexadecimal
-- digits, not all zero, whose flags are two, and whose trace state is made of proper entries, and a
-- parent ID of 16 digits, not all zero, `inject` raises nothing, and `extract` gives version 00, the
-- same trace ID, parent ID and flags, and the first 32 entries.
pub extract-inject :
    (context : Context) (parent : Option Text) (random_id : Text)
    → Traceable context
    → IsHex 16 (chosen context parent random_id)
    → is_zero (chosen context parent random_id) ≡ false
    → (headers : Headers) × ((inject context parent random_id ≡ some headers)
        × (extract headers ≡ some (received context (chosen context parent random_id))))
unfolding inject
extract-inject context none random_id good p live = (
  headers_of context (span_or random_id context.spans),
  (refl, extract-headers_of context _ good p live),
)
extract-inject context (some parent_id) random_id good p live = (
  headers_of context parent_id,
  (
    ap (λ b. if b then some (headers_of context parent_id) else none)
        (parent_id_matches-IsHex parent_id p),
    extract-headers_of context parent_id good p live,
  ),
)
