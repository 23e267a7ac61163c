-- ===== src/Json.antt =====
-- The JSON field extraction of src/parser_neon.h and src/parser_neon.c. The text is memory from the
-- pointer `json` on; pointers are not NULL. A field's name is a C string.
pub mod Value
pub mod First
pub mod Search
pub mod Extract
use websocket.Prelude.{
  ℕ, zero, suc, ◌+◌, ◌-◌, List, [], ◌∷◌, ◌++◌, Option, none, some, Bool, true, false, not, ◌&&◌,
  ◌||◌, ltb, leb, ◌==◌, if◌then◌else◌, length, take, Memory, bytes_at, sub_size, codes, strstr,
}

-- The search pattern, as snprintf makes it, and its length; the buffer has 256 bytes.
abbrev pub search_pattern : List ℕ → List ℕ
search_pattern field_name = b'"' ∷ field_name ++ codes "\":"

-- `memcmp(json + p, pattern, strlen(pattern)) == 0`
unfoldable pub matches : Memory → ℕ → List ℕ → Bool
matches m p [] = true
matches m p (c ∷ pattern) = (m p == c) && matches m (p + 1) pattern

-- The loop over a chunk of sixteen bytes, with `left` of them left from `p` on: where the pattern
-- ends.
unfoldable pub search_chunk : Memory → ℕ → List ℕ → ℕ → ℕ → Option ℕ
search_chunk m json_len pattern p zero = none
search_chunk m json_len pattern p (suc left) =
    let rest = search_chunk m json_len pattern (p + 1) left in
    if (m p == b'"') && leb (p + length pattern) json_len && matches m p pattern
    then some (p + length pattern)
    else rest

-- The scalar search of the remaining bytes, with `left` positions left from `p` on.
unfoldable pub search_tail : Memory → List ℕ → ℕ → ℕ → Option ℕ
search_tail m pattern p zero = none
search_tail m pattern p (suc left) =
    let rest = search_tail m pattern (p + 1) left in
    if matches m p pattern then some (p + length pattern) else rest

-- The loop over the chunks from `i` on, at most `fuel` of them, and what follows it.
unfoldable pub search_chunks : Memory → ℕ → List ℕ → ℕ → ℕ → Option ℕ
search_chunks m json_len pattern i zero =
    search_tail m pattern i (sub_size json_len (length pattern) - i)
search_chunks m json_len pattern i (suc fuel) =
    let rest = search_chunks m json_len pattern (i + 16) fuel in
    let tail = search_tail m pattern i (sub_size json_len (length pattern) - i) in
    if leb (i + 16) json_len
    then elim (search_chunk m json_len pattern i 16) [ none ↦ rest | some start ↦ some start ]
    else tail

-- The search of neon_parse_json_market_data. Each chunk takes sixteen bytes, so that the text's
-- length is fuel enough.
unfoldable pub neon_search : Memory → ℕ → List ℕ → Option ℕ
neon_search m json_len pattern = search_chunks m json_len pattern 0 json_len

-- Skipping blanks, with `left` bytes of the text left from `p` on.
unfoldable pub skip_blanks : Memory → ℕ → ℕ → ℕ
skip_blanks m p zero = p
skip_blanks m p (suc left) =
    let rest = skip_blanks m (p + 1) left in if (m p == 32) || (m p == 9) then rest else p

-- The end of a string.
unfoldable pub ends_string : ℕ → Bool
ends_string c = (c == b'"') || (c == 0)

unfoldable pub string_end : Memory → ℕ → ℕ → ℕ
string_end m p zero = p
string_end m p (suc zero) = if ends_string (m p) then p else p + 1
string_end m p (suc (suc left)) = elim (ends_string (m p)) [
  | true ↦ p
  | false ↦ elim (m p == b'\\') [
    | true ↦ string_end m (p + 2) left
    | false ↦ string_end m (p + 1) (suc left)
  ]
]

-- The end of a number or a boolean.
unfoldable pub ends_plain : ℕ → Bool
ends_plain c =
    (c == b',') || (c == b'}') || (c == b']') || (c == 32) || (c == 9) || (c == 10) || (c == 13)

unfoldable pub plain_end : Memory → ℕ → ℕ → ℕ
plain_end m p zero = p
plain_end m p (suc left) =
    let rest = plain_end m (p + 1) left in if ends_plain (m p) then p else rest

-- `value_start` and `value_end`.
unfoldable pub value_range : Memory → ℕ → ℕ → ℕ × ℕ
value_range m json_len field_start =
    let p = skip_blanks m field_start (json_len - field_start) in
    if ltb p json_len
    then (if m p == b'"'
        then (p + 1, string_end m (p + 1) (json_len - (p + 1)))
        else (p, plain_end m p (json_len - p)))
    else (p, p)

-- The bytes copied into the buffer before the NUL; their number is `*value_len`.
unfoldable pub extract_value : Memory → ℕ → ℕ → ℕ → List ℕ
extract_value m json_len value_buf_size field_start =
    let (value_start, value_end) = value_range m json_len field_start in
    let len = value_end - value_start in
    let extracted_len = if leb value_buf_size len then sub_size value_buf_size 1 else len in
    bytes_at m value_start extracted_len

-- `neon_parse_json_market_data`: the bytes in the buffer, none for -1.
unfoldable pub neon_parse_json_market_data : Memory → ℕ → List ℕ → ℕ → Option (List ℕ)
neon_parse_json_market_data m json_len field_name value_buf_size =
    let pattern = search_pattern field_name in
    if leb 256 (length pattern) then none else elim (neon_search m json_len pattern) [
      | none ↦ none
      | some field_start ↦ some (extract_value m json_len value_buf_size field_start)
    ]

-- `strlen`, at `p`, where `room` bytes may be read: the NUL stands among them.
unfoldable pub strlen : Memory → ℕ → ℕ → ℕ
strlen m p zero = 0
strlen m p (suc room) = let rest = strlen m (p + 1) room in if m p == 0 then 0 else 1 + rest

-- `scalar_parse_json_market_data`, where `room` bytes may be read at `json`. Unlike the other,
-- strstr ends at the first NUL, and not at the length that is given.
unfoldable pub scalar_parse_json_market_data : Memory → ℕ → ℕ → List ℕ → ℕ → Option (List ℕ)
scalar_parse_json_market_data m room json_len field_name value_buf_size =
    let pattern = search_pattern field_name in
    let text = bytes_at m 0 (strlen m 0 room) in
    if leb 256 (length pattern) then none else elim (strstr pattern text) [
      | none ↦ none
      | some pos ↦ some (extract_value m json_len value_buf_size (pos + length pattern))
    ]

-- `JSONField`; of the value's pointer, whether it is set. It is the address of one local buffer.
pub record JsonField : Type 0 where
  pub field_name : Option (List ℕ)
  pub field_value : Bool
  pub value_len : ℕ
  pub found : Bool

-- One round of neon_extract_json_fields.
unfoldable pub extract_field : Memory → ℕ → JsonField → JsonField
extract_field m json_len field = go field.field_name
  where
    put : Option (List ℕ) → JsonField
    put none = record field { found = false }
    put (some value) = record field { found = true; field_value = true; value_len = length value }

    go : Option (List ℕ) → JsonField
    go none = field
    go (some name) = put (neon_parse_json_market_data m json_len name 256)

-- Whether a round counts a field.
unfoldable pub counts : Memory → ℕ → JsonField → ℕ
counts m json_len field = go field.field_name
  where
    go : Option (List ℕ) → ℕ
    go none = 0
    go (some name) = elim (neon_parse_json_market_data m json_len name 256) [
      | none ↦ 0
      | some value ↦ 1
    ]

unfoldable pub extract_loop : Memory → ℕ → List JsonField → ℕ × List JsonField
extract_loop m json_len [] = (0, [])
extract_loop m json_len (field ∷ fields) =
    let (found_count, rest) = extract_loop m json_len fields in
    (counts m json_len field + found_count, extract_field m json_len field ∷ rest)

-- `neon_extract_json_fields`: the count, none for -1, and the fields.
unfoldable pub neon_extract_json_fields : Memory → ℕ → List JsonField → Option ℕ × List JsonField
neon_extract_json_fields m json_len [] = (none, [])
neon_extract_json_fields m json_len (field ∷ fields) =
    let (found_count, after) = extract_loop m json_len (field ∷ fields) in (some found_count, after)
