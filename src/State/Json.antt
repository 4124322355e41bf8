-- ===== src/State/Json.antt =====
-- What encoding/json does to texts and raw messages between a write of the state file of
-- internal/state/store.go and a later read: json.MarshalIndent in Store.persistLocked compacts a raw
-- message (Snapshot.Data), escapes its HTML characters and indents it.
pub mod Same
use lottery.Prelude.{
  ℕ, zero, suc, ◌+◌, ◌-◌, Bool, true, false, ◌&&◌, ◌||◌, [], ◌∷◌, ◌++◌, ltb, ◌==◌, if◌then◌else◌,
  ◌≡◌, refl,
}
use lottery.Prelude.Text.{Text, codes}

-- A text as it is read back: every byte that is no UTF-8 is U+FFFD then.
unfoldable pub valid_text : Text → Text
valid_text [] = []
valid_text (c ∷ s) = (if ltb c 0x110000 then c else 0xFFFD) ∷ valid_text s

-- Where a byte of JSON stands: outside of strings, inside one, or behind a backslash.
pub data Place : Type 0 where
  outside inside escaped : Place

unfoldable pub next_place : Place → ℕ → Place
next_place outside c = if c == b'"' then inside else outside
next_place inside c = if c == b'"' then outside else if c == b'\\' then escaped else inside
next_place escaped c = inside

abbrev pub is_outside : Place → Bool
is_outside outside = true
is_outside inside = false
is_outside escaped = false

abbrev pub is_json_space : ℕ → Bool
is_json_space c = c == 32 || c == 9 || c == 10 || c == 13

-- The escapes that keep a text safe inside of HTML.
unfoldable pub html_safe : ℕ → Text
html_safe c =
    if c == b'<'
    then codes "\\u003c"
    else if c == b'>'
    then codes "\\u003e"
    else if c == b'&'
    then codes "\\u0026"
    else if c == 0x2028
    then codes "\\u2028"
    else if c == 0x2029
    then codes "\\u2029"
    else c ∷ []

-- Compaction: no white space outside of strings.
unfoldable pub compact : Place → Text → Text
unfolding next_place html_safe
compact place [] = []
compact place (c ∷ s) =
    let rest = compact (next_place place c) s in
    if is_outside place && is_json_space c then rest else html_safe c ++ rest

-- A line break and two spaces for each level.
unfoldable pub indentation : ℕ → Text
indentation zero = []
indentation (suc n) = b' ' ∷ b' ' ∷ indentation n

abbrev pub new_line : ℕ → Text
new_line depth = 10 ∷ indentation depth

-- A byte outside of strings with its spacing; `opened` says that a bracket was opened just before.
-- Also the depth after it, and whether it has opened a bracket.
unfoldable pub spaced : ℕ → Bool → ℕ → Text × ℕ × Bool
unfolding indentation
spaced depth opened c =
    let depth' = if opened then depth + 1 else depth in
    let lead = if opened then new_line depth' else [] in
    if c == b'}' || c == b']'
    then (if opened
        then (c ∷ [], depth, false)
        else (new_line (depth - 1) ++ c ∷ [], depth - 1, false))
    else if c == b'{' || c == b'['
    then (lead ++ c ∷ [], depth', true)
    else if c == b','
    then (lead ++ (c ∷ new_line depth'), depth', false)
    else if c == b':'
    then (lead ++ (c ∷ b' ' ∷ []), depth', false)
    else (lead ++ c ∷ [], depth', false)

-- Indentation of compact JSON.
unfoldable pub indent : ℕ → Bool → Place → Text → Text
unfolding spaced next_place
indent depth opened place [] = []
indent depth opened place (c ∷ s) =
    let (out, depth', opened') =
      if is_outside place then spaced depth opened c else (c ∷ [], depth, false) in
    out ++ indent depth' opened' (next_place place c) s

-- A raw message as it is read back: it stands three levels deep in the file.
unfoldable pub written_data : Text → Text
unfolding compact indent
written_data s = indent 3 false outside (compact outside s)

written_data_test :
    written_data (codes "{\"a\": [1,\"<\"], \"b\":{} }")
    ≡ codes
        "{\n        \"a\": [\n          1,\n          \"\\u003c\"\n        ],\n        \"b\": {}\n      }"
unfolding written_data
written_data_test = refl
