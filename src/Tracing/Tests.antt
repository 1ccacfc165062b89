-- ===== src/Tracing/Tests.antt =====
-- trace_context.py: examples.
use apcore_python.Prelude.{◌≡◌, refl, true, none, some, [], ◌∷◌, Text, codes}
use apcore_python.Version.{strip}
use apcore_python.Tracing.{
  traceparent_of, TraceParent, lookup_header_ci, read_hex, Context, State, Headers, inject, extract,
  from_traceparent, format_tracestate, parse_tracestate, parent_id_matches,
}
use apcore_python.Tracing.States.{parse_tracestate-format_tracestate}
use apcore_python.Tracing.Parents.{from_traceparent-WellFormed, WellFormed}
use apcore_python.Tracing.Headers.{extract-inject, received}

abbrev trace : Text
trace = codes "4bf92f3577b34da6a3ce929d0e0e4736"

abbrev parent : Text
parent = codes "00f067aa0ba902b7"

abbrev vendors : State
vendors = (codes "congo", codes "t61r=c") ∷ (codes "rojo", []) ∷ []

abbrev sampled : Context
sampled = record { trace_id = trace; spans = []; flags = none; tracestate = vendors }

read_back :
    from_traceparent (codes " 00-4BF92F3577B34DA6A3CE929D0E0E4736-00f067aa0ba902b7-01 ")
    ≡ some (record {
      version = codes "00";
      trace_id = trace;
      parent_id = parent;
      trace_flags = codes "01";
      tracestate = [];
    })
unfolding from_traceparent strip
read_back = refl

-- A parent ID with a newline behind it is taken, and stands in the header.
newline_taken : parent_id_matches (codes "00f067aa0ba902b7\n") ≡ true
unfolding parent_id_matches read_hex
newline_taken = refl

parse_tracestate-format_tracestate_example : parse_tracestate (format_tracestate vendors) ≡ vendors
unfolding strip
parse_tracestate-format_tracestate_example = parse_tracestate-format_tracestate vendors (
  (refl, (refl, (refl, (refl, (refl, refl))))),
  ((refl, (refl, (refl, (refl, (refl, refl))))), tt),
)

abbrev upper : Text
upper = codes " 00-4BF92F3577B34DA6A3CE929D0E0E4736-00f067aa0ba902b7-01 "

abbrev sent : Headers
sent = (codes "TraceParent", upper) ∷ []

version_ff_refused :
    extract
      ((codes "traceparent", codes "ff-4bf92f3577b34da6a3ce929d0e0e4736-00f067aa0ba902b7-01") ∷ [])
    ≡ none
unfolding strip extract read_hex
version_ff_refused = refl

-- The traceparent that is read from the text:
read_from_upper :
    (tp : TraceParent) × ((from_traceparent upper ≡ some tp) × (extract sent ≡ some tp))
unfolding strip extract read_hex from_traceparent
read_from_upper = (traceparent_of (codes "00") trace parent (codes "01"), (refl, refl))

from_traceparent-WellFormed_example :
    WellFormed (some upper) (from_traceparent upper)
    × WellFormed (lookup_header_ci sent (codes "traceparent")) (extract sent)
from_traceparent-WellFormed_example = from_traceparent-WellFormed upper sent

extract-inject_example :
    (headers : Headers) × ((inject sampled (some parent) [] ≡ some headers)
      × (extract headers ≡ some (received sampled parent)))
unfolding strip
extract-inject_example =
    extract-inject sampled (some parent) []
      (
        (refl, refl),
        (
          refl,
          (
            (refl, refl),
            (
              (refl, (refl, (refl, (refl, (refl, refl))))),
              ((refl, (refl, (refl, (refl, (refl, refl))))), tt),
            ),
          ),
        ),
      )
      (refl, refl) refl
