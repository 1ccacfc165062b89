-- ===== src/Tracing.antt =====
-- trace_context.py: W3C trace headers, on texts of ASCII characters. `inject` is given the random
-- parent ID that `os.urandom` would give; `none` is `InvalidParentIdError`.
use apcore_python.Prelude.{
  ℕ, zero, suc, ◌-◌, Bool, true, false, not, ◌&&◌, ◌||◌, Option, none, some, List, [], ◌∷◌, ◌++◌,
  Text, codes, text_eq, any, all, length, leb, ◌==◌, if◌then◌else◌,
}
use apcore_python.Pattern.{split}
use apcore_python.Version.{strip}
use apcore_python.Conflicts.{lower}
pub mod Solid
pub mod States
pub mod Writing
pub mod Parents
pub mod Headers
mod Tests

abbrev pub dash : ℕ
dash = 45

abbrev pub comma : ℕ
comma = 44

abbrev pub equals : ℕ
equals = 61

abbrev pub newline : ℕ
newline = 10

abbrev pub State : Type 0
State = List (Text × Text)

pub record TraceParent : Type 0 where
  pub version : Text
  pub trace_id : Text
  pub parent_id : Text
  pub trace_flags : Text
  pub tracestate : State

-- `[0-9a-f]`
abbrev pub is_hex : ℕ → Bool
is_hex c = (leb 48 c && leb c 57) || (leb 97 c && leb c 102)

abbrev pub is_zero : Text → Bool
is_zero text = all (λ c. c == 48) text

-- `text.partition(sep)`: what is in front of the first `sep` and what is behind it
abbrev pub before_first : ℕ → Text → Text
before_first sep [] = []
before_first sep (c ∷ text) = if c == sep then [] else c ∷ before_first sep text

abbrev pub behind_first : ℕ → Text → Text
behind_first sep [] = []
behind_first sep (c ∷ text) = if c == sep then text else behind_first sep text

abbrev pub is_empty : Text → Bool
is_empty [] = true
is_empty (c ∷ text) = false

-- one chunk of a `tracestate`; `none` where it is dropped
abbrev pub state_entry : Text → Option (Text × Text)
state_entry chunk =
    if not (any (λ c. c == equals) chunk)
    then none
    else let key = strip (before_first equals chunk) in
      if is_empty key then none else some (key, strip (behind_first equals chunk))

-- What follows a chunk, where `go` is the rest of the loop and `room` counts the entries that may
-- still come.
abbrev pub next_chunk : (ℕ → State) → ℕ → Option (Text × Text) → State
next_chunk go room none = go room
next_chunk go room (some found) = found ∷ (if leb room 1 then [] else go (room - 1))

-- the loop over the chunks
unfoldable pub parse_chunks : ℕ → List Text → State
parse_chunks room [] = []
parse_chunks room (chunk ∷ chunks) =
    next_chunk (λ room. parse_chunks room chunks) room (state_entry chunk)

abbrev pub max_entries : ℕ
max_entries = 32

unfoldable pub parse_tracestate : Text → State
unfolding parse_chunks
parse_tracestate raw = if is_empty raw then [] else parse_chunks max_entries (split comma raw)

-- `",".join(f"{k}={v}" ...)`
unfoldable pub format_tracestate : State → Text
format_tracestate [] = []
format_tracestate ((key, value) ∷ []) = key ++ equals ∷ value
format_tracestate ((key, value) ∷ next ∷ entries) =
    (key ++ equals ∷ value) ++ comma ∷ format_tracestate (next ∷ entries)

abbrev pub Headers : Type 0
Headers = List (Text × Text)

unfoldable pub lookup_header_ci : Headers → Text → Option Text
lookup_header_ci [] name = none
lookup_header_ci ((key, value) ∷ headers) name =
    if text_eq (lower key) (lower name) then some value else lookup_header_ci headers name

abbrev pub keep : ℕ → Option (Text × Text) → Option (Text × Text)
keep c none = none
keep c (some (group, rest)) = some (c ∷ group, rest)

-- `([0-9a-f]{n})`: the group and what is behind it
unfoldable pub read_hex : ℕ → Text → Option (Text × Text)
read_hex zero text = some ([], text)
read_hex (suc n) [] = none
read_hex (suc n) (c ∷ text) = if is_hex c then keep c (read_hex n text) else none

abbrev pub drop_dash : Option (Text × Text) → Option (Text × Text)
drop_dash none = none
drop_dash (some (group, [])) = none
drop_dash (some (group, c ∷ rest)) = if c == dash then some (group, rest) else none

-- `$`: the end of the text
abbrev pub at_end : Option (Text × Text) → Option Text
at_end none = none
at_end (some (group, [])) = some group
at_end (some (group, c ∷ rest)) = none

abbrev pub traceparent_of : Text → Text → Text → Text → TraceParent
traceparent_of version trace_id parent_id flags = record {
  version = version;
  trace_id = trace_id;
  parent_id = parent_id;
  trace_flags = flags;
  tracestate = [];
}

abbrev pub with_flags : Text → Text → Text → Option Text → Option TraceParent
with_flags version trace_id parent_id none = none
with_flags version trace_id parent_id (some flags) =
    some (traceparent_of version trace_id parent_id flags)

abbrev pub with_parent : Text → Text → Option (Text × Text) → Option TraceParent
with_parent version trace_id none = none
with_parent version trace_id (some (parent_id, rest)) =
    with_flags version trace_id parent_id (at_end (read_hex 2 rest))

abbrev pub with_trace : Text → Option (Text × Text) → Option TraceParent
with_trace version none = none
with_trace version (some (trace_id, rest)) =
    with_parent version trace_id (drop_dash (read_hex 16 rest))

abbrev pub with_version : Option (Text × Text) → Option TraceParent
with_version none = none
with_version (some (version, rest)) = with_trace version (drop_dash (read_hex 32 rest))

-- `_TRACEPARENT_RE.match`
unfoldable pub match_traceparent : Text → Option TraceParent
unfolding read_hex
match_traceparent text = with_version (drop_dash (read_hex 2 text))

-- the version and the IDs that no traceparent may have
abbrev pub forbidden : TraceParent → Bool
forbidden tp = text_eq tp.version (codes "ff") || is_zero tp.trace_id || is_zero tp.parent_id

abbrev pub accepted : Option TraceParent → Option TraceParent
accepted none = none
accepted (some tp) = if forbidden tp then none else some tp

-- `from_traceparent`, with `none` for `ValueError`
unfoldable pub from_traceparent : Text → Option TraceParent
unfolding match_traceparent
from_traceparent text = accepted (match_traceparent (lower (strip text)))

abbrev pub state_of_header : Option Text → State
state_of_header none = []
state_of_header (some raw) = parse_tracestate raw

-- `extract` has the match and the tests a second time.
abbrev pub matched_header : Option Text → Option TraceParent
matched_header none = none
matched_header (some raw) = match_traceparent (lower (strip raw))

abbrev pub extracted : State → Option TraceParent → Option TraceParent
extracted state none = none
extracted state (some tp) =
    if text_eq tp.version (codes "ff")
    then none
    else if is_zero tp.trace_id || is_zero tp.parent_id
    then none
    else some (record tp { tracestate = state })

unfoldable pub extract : Headers → Option TraceParent
unfolding lookup_header_ci match_traceparent parse_tracestate
extract headers =
    extracted (state_of_header (lookup_header_ci headers (codes "tracestate")))
      (matched_header (lookup_header_ci headers (codes "traceparent")))

-- What `inject` reads of a context: `flags` and `tracestate` of its data, and the IDs of the open
-- spans, the latest one first.
pub record Context : Type 0 where
  pub trace_id : Text
  pub spans : List Text
  pub flags : Option Text
  pub tracestate : State

-- `_PARENT_ID_RE.match`: `$` also matches in front of a last newline
unfoldable pub parent_id_matches : Text → Bool
parent_id_matches text = elim (read_hex 16 text) [
  | none ↦ false
  | some found ↦ is_empty found.1 || text_eq found.1 (newline ∷ [])
]

abbrev pub span_or : Text → List Text → Text
span_or random_id [] = random_id
span_or random_id (span ∷ spans) = span

abbrev pub flags_or_sampled : Option Text → Text
flags_or_sampled none = codes "01"
flags_or_sampled (some flags) = flags

abbrev pub traceparent_text : Text → Text → Text → Text
traceparent_text trace_id parent_id flags =
    codes "00-" ++ (trace_id ++ dash ∷ (parent_id ++ dash ∷ flags))

abbrev pub headers_of : Context → Text → Headers
headers_of context parent_id =
    (
      codes "traceparent",
      traceparent_text context.trace_id parent_id (flags_or_sampled context.flags),
    )
    ∷ (elim context.tracestate [
      | [] ↦ []
      | e ∷ es ↦ (codes "tracestate", format_tracestate (e ∷ es)) ∷ []
    ])

unfoldable pub inject : Context → Option Text → Text → Option Headers
unfolding parent_id_matches format_tracestate
inject context none random_id = some (headers_of context (span_or random_id context.spans))
inject context (some parent_id) random_id =
    if parent_id_matches parent_id then some (headers_of context parent_id) else none
