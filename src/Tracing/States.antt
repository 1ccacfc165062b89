-- ===== src/Tracing/States.antt =====
-- trace_context.py: `tracestate`, formatted and parsed.
use apcore_python.Prelude.{
  ℕ, zero, suc, ◌-◌, ◌≡◌, refl, ap, ◌∙◌, Bool, true, false, not, some, List, [], ◌∷◌, ◌++◌, Text,
  arith, any, all, All, take, leb, ◌==◌, if◌then◌else◌,
}
use apcore_python.Pattern.{split}
use apcore_python.Version.{strip}
use apcore_python.Tracing.{
  next_chunk, comma, equals, State, before_first, behind_first, is_empty, state_entry, parse_chunks,
  max_entries, parse_tracestate, format_tracestate,
}

-- The character is not in the text.
abbrev pub lacks : ℕ → Text → Bool
lacks sep text = all (λ c. not (c == sep)) text

-- What an entry must be to survive: trimmed on both sides, a key that is not empty and holds neither
-- a comma nor an equals sign, and a value without a comma.
abbrev pub IsEntry : Text × Text → Type 0
IsEntry (key, value) =
    (is_empty key ≡ false)
    × ((strip key ≡ key)
        × ((lacks equals key ≡ true)
            × ((lacks comma key ≡ true) × ((strip value ≡ value) × (lacks comma value ≡ true)))))

lacks-append :
    (sep : ℕ) (xs ys : Text)
    → lacks sep xs ≡ true
    → lacks sep ys ≡ true
    → lacks sep (xs ++ ys) ≡ true
lacks-append sep [] ys a b = b
lacks-append sep (x ∷ xs) ys a b = ground (arith, lacks-append sep xs ys)

before_first-append :
    (sep : ℕ) (xs ys : Text) → lacks sep xs ≡ true → before_first sep (xs ++ sep ∷ ys) ≡ xs
before_first-append sep [] ys a = ground arith
before_first-append sep (x ∷ xs) ys a = ground (arith, before_first-append sep xs ys)

behind_first-append :
    (sep : ℕ) (xs ys : Text) → lacks sep xs ≡ true → behind_first sep (xs ++ sep ∷ ys) ≡ ys
behind_first-append sep [] ys a = ground arith
behind_first-append sep (x ∷ xs) ys a = ground (arith, behind_first-append sep xs ys)

any-middle : (sep : ℕ) (xs ys : Text) → any (λ c. c == sep) (xs ++ sep ∷ ys) ≡ true
any-middle sep [] ys = ground arith
any-middle sep (x ∷ xs) ys = ground (arith, any-middle sep xs ys)

split_one : (sep : ℕ) (xs : Text) → lacks sep xs ≡ true → split sep xs ≡ xs ∷ []
unfolding split
split_one sep [] a = refl
split_one sep (x ∷ xs) a =
    let ih = split_one sep xs (ground arith) in
    let apart : (x == sep) ≡ false = ground arith in rw (ih, apart) refl

split_front :
    (sep : ℕ) (xs ys : Text) → lacks sep xs ≡ true → split sep (xs ++ sep ∷ ys) ≡ xs ∷ split sep ys
unfolding split
split_front sep [] ys a = let same : (sep == sep) ≡ true = ground arith in rw same refl
split_front sep (x ∷ xs) ys a =
    let ih = split_front sep xs ys (ground arith) in
    let apart : (x == sep) ≡ false = ground arith in rw (ih, apart) refl

pair_text : Text × Text → Text
pair_text (key, value) = key ++ equals ∷ value

lacks-pair_text : (e : Text × Text) → IsEntry e → lacks comma (pair_text e) ≡ true
unfolding pair_text
lacks-pair_text (key, value) (some_key, (trimmed, (no_equals, (no_comma, (trimmed', no_comma'))))) =
    lacks-append comma key (equals ∷ value) no_comma (ground arith)

state_entry-pair_text : (e : Text × Text) → IsEntry e → state_entry (pair_text e) ≡ some e
unfolding pair_text
state_entry-pair_text (key, value)
      (some_key, (trimmed, (no_equals, (no_comma, (trimmed', no_comma'))))) =
    rw
      (
        any-middle equals key value,
        before_first-append equals key value no_equals,
        behind_first-append equals key value no_equals,
        trimmed,
        trimmed',
        some_key,
      )
      refl

pair_texts : State → List Text
pair_texts [] = []
pair_texts (e ∷ es) = pair_text e ∷ pair_texts es

split-format_tracestate :
    (e : Text × Text) (es : State)
    → All IsEntry (e ∷ es)
    → split comma (format_tracestate (e ∷ es)) ≡ pair_texts (e ∷ es)
unfolding format_tracestate pair_texts pair_text
split-format_tracestate (key, value) [] (good, _) =
    split_one comma (key ++ equals ∷ value) (unfold pair_text in lacks-pair_text (key, value) good)
split-format_tracestate (key, value) (next ∷ es) (good, rest) =
    split_front comma (key ++ equals ∷ value) (format_tracestate (next ∷ es))
      (lacks-pair_text (key, value) good)
    ∙ ap (λ chunks. (key ++ equals ∷ value) ∷ chunks) (split-format_tracestate next es rest)

parse_chunks-pair_texts :
    (room : ℕ) (es : State)
    → All IsEntry es
    → parse_chunks (suc room) (pair_texts es) ≡ take (suc room) es
unfolding parse_chunks pair_texts
parse_chunks-pair_texts room [] good = refl
parse_chunks-pair_texts zero (e ∷ es) (good, rest) =
    ap (next_chunk (λ room. parse_chunks room (pair_texts es)) 1) (state_entry-pair_text e good)
parse_chunks-pair_texts (suc room) (e ∷ es) (good, rest) =
    let more : leb (suc (suc room)) 1 ≡ false = ground arith in
    let fewer : suc (suc room) - 1 ≡ suc room = omega arith in
    ap (next_chunk (λ room. parse_chunks room (pair_texts es)) (suc (suc room)))
      (state_entry-pair_text e good)
    ∙ ap (λ b. e ∷ (if b then [] else parse_chunks (suc (suc room) - 1) (pair_texts es))) more
    ∙ ap (λ n. e ∷ parse_chunks n (pair_texts es)) fewer
    ∙ ap (λ es. e ∷ es) (parse_chunks-pair_texts room es rest)

-- Parsing a formatted `tracestate` gives back its entries, the first 32 of them, if each is trimmed
-- and has a key that is not empty and holds no comma and no equals sign, and a value without a
-- comma. A value may hold equals signs, and may be empty.
pub parse_tracestate-format_tracestate :
    (entries : State)
    → All IsEntry entries
    → parse_tracestate (format_tracestate entries) ≡ take max_entries entries
unfolding parse_tracestate
parse_tracestate-format_tracestate [] good = unfold format_tracestate in refl
parse_tracestate-format_tracestate (e ∷ es) good =
    let chunks = split-format_tracestate e es good in
    ap (λ b. if b then [] else parse_chunks max_entries (split comma (format_tracestate (e ∷ es))))
      (not_empty e es)
    ∙ ap (parse_chunks max_entries) chunks
    ∙ parse_chunks-pair_texts 31 (e ∷ es) good
  where
    not_empty : (e : Text × Text) (es : State) → is_empty (format_tracestate (e ∷ es)) ≡ false
    not_empty ([], value) [] = unfold format_tracestate in refl
    not_empty (c ∷ key, value) [] = unfold format_tracestate in refl
    not_empty ([], value) (next ∷ es) = unfold format_tracestate in refl
    not_empty (c ∷ key, value) (next ∷ es) = unfold format_tracestate in refl
