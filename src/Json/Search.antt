-- ===== src/Json/Search.antt =====
-- The search for a field (src/parser_neon.c): the Neon search against strstr.
use websocket.Prelude.{
  ◌≢◌, ℕ, zero, suc, ◌+◌, ◌-◌, ◌*◌, ◌^◌, ◌≤◌, ◌<◌, ◌≡◌, ◌∙◌, refl, sym, ap, List, [], ◌∷◌, none,
  some, Bool-cases, inl, inr, true, false, ◌&&◌, ltb, leb, ◌==◌, if◌then◌else◌, length, Memory,
  bytes_at, tabulate, tabulate_congr, sub_size, has_prefix, strstr, later, arith,
}
use native.Mathlib.Nat.{zero-add, suc-add}
use websocket.Json.{
  strlen, search_pattern, matches, search_chunk, search_tail, search_chunks, neon_search,
  value_range, skip_blanks, extract_value, neon_parse_json_market_data,
  scalar_parse_json_market_data,
}
use websocket.Json.First.{
  IsFirst, IsFirst-next, IsFirst-zero, IsFirst-suc, IsFirst-skip, search_tail_lem,
  search_chunk-found, search_chunk-missed,
}

module _ (m : Memory) (json_len : ℕ) (field_name : List ℕ) (small : json_len < 2 ^ 64) where
  abbrev quoted_name : List ℕ
  quoted_name = search_pattern field_name

  search_chunks-found :
      (i k fuel : ℕ)
      → IsFirst m quoted_name i k
      → i + k + length quoted_name < json_len
      → json_len ≤ i + 16 * fuel
      → search_chunks m json_len quoted_name i fuel ≡ some (i + k + length quoted_name)
  unfolding search_chunks
  search_chunks-found i k zero f h q = absurd (omega arith)
  search_chunks-found i k (suc fuel) f h q = elim (Bool-cases (leb (i + 16) json_len)) [
    | inr last ↦ rw last (search_tail_lem m quoted_name i k _ f (omega arith))
    | inl whole ↦ elim (Bool-cases (ltb k 16)) [
      | inl here ↦
          rw (whole, search_chunk-found m json_len field_name i k 16 f (ground arith) (omega arith))
            refl
      | inr later ↦
          let skipped = IsFirst-skip m quoted_name i k 16 f (ground arith) in
          let rest : search_chunks m json_len quoted_name (i + 16) fuel
              ≡ some (i + k + length quoted_name) =
            search_chunks-found (i + 16) (k - 16) fuel skipped (ground arith) (omega arith)
            ∙ ap some (ground arith) in
          rw (whole, search_chunk-missed m json_len field_name i k 16 f (ground arith)) rest
    ]
  ]

search_chunks-enough :
    (m : Memory) (json_len : ℕ) (pattern : List ℕ) (i fuel more : ℕ)
    → json_len < i + 16 + 16 * fuel
    → search_chunks m json_len pattern i (fuel + more) ≡ search_chunks m json_len pattern i fuel
unfolding search_chunks
search_chunks-enough m json_len pattern i zero zero h = refl
search_chunks-enough m json_len pattern i zero (suc more) h =
    let past : leb (i + 16) json_len ≡ false = ground arith in rw zero-add (rw past refl)
search_chunks-enough m json_len pattern i (suc fuel) more h = rw suc-add (
    ap
      (λ rest.
        if leb (i + 16) json_len
        then elim (search_chunk m json_len pattern i 16) [ none ↦ rest | some start ↦ some start ]
        else search_tail m pattern i (sub_size json_len (length pattern) - i))
      (search_chunks-enough m json_len pattern (i + 16) fuel more (omega arith)))

-- However many rounds more are allowed, the Neon search comes to the same end: the loop over the
-- chunks ends before it has made as many rounds as the text has bytes.
pub neon_search_ends :
    (m : Memory) (json_len : ℕ) (pattern : List ℕ) (more : ℕ)
    → search_chunks m json_len pattern 0 (json_len + more) ≡ neon_search m json_len pattern
unfolding neon_search
neon_search_ends m json_len pattern more =
    search_chunks-enough m json_len pattern 0 json_len more (omega arith)

-- strstr finds the first occurrence, too.
bytes_at-suc : (m : Memory) (p n : ℕ) → bytes_at m p (suc n) ≡ m p ∷ bytes_at m (p + 1) n
bytes_at-suc m p n =
    ap (λ c. c ∷ tabulate n (λ k. m (p + suc k))) (ap m (omega arith))
    ∙ ap (λ t. m p ∷ t) (tabulate_congr n _ _ (λ k h. ap m (omega arith)))

has_prefix-matches :
    (m : Memory) (pattern : List ℕ) (p n : ℕ)
    → length pattern ≤ n
    → has_prefix pattern (bytes_at m p n) ≡ matches m p pattern
unfolding has_prefix matches
has_prefix-matches m [] p n h = refl
has_prefix-matches m (c ∷ pattern) p zero h = absurd (omega arith)
has_prefix-matches m (c ∷ pattern) p (suc n) h =
    let rest = has_prefix-matches m pattern (p + 1) n (omega arith) in
    ap (has_prefix (c ∷ pattern)) (bytes_at-suc m p n)
    ∙ ap (λ t. (c == m p) && t) rest
    ∙ ground arith

strstr-first :
    (m : Memory) (pattern : List ℕ) (p k n : ℕ)
    → IsFirst m pattern p k
    → k + length pattern < n
    → strstr pattern (bytes_at m p n) ≡ some k
unfolding strstr
strstr-first m pattern p k zero f h = absurd (omega arith)
strstr-first m pattern p zero (suc n) f h =
    let here : has_prefix pattern (bytes_at m p (suc n)) ≡ true =
      has_prefix-matches m pattern p (suc n) (omega arith) ∙ IsFirst-zero m pattern p f in
    rw here refl
strstr-first m pattern p (suc k) (suc n) f h =
    let not_here : has_prefix pattern (bytes_at m p (suc n)) ≡ false =
      has_prefix-matches m pattern p (suc n) (omega arith) ∙ IsFirst-suc m pattern p k f in
    let rest : strstr pattern (bytes_at m (p + 1) n) ≡ some k =
      strstr-first m pattern (p + 1) k n (IsFirst-next m pattern p k f) (omega arith) in
    ap (strstr pattern) (bytes_at-suc m p n)
    ∙ rw (sym (ap (has_prefix pattern) (bytes_at-suc m p n)) ∙ not_here) (ap later rest)

-- A text is as long as it has no NUL.
strlen-past :
    (m : Memory) (p q room : ℕ) → ((j : ℕ) → j < q → m (p + j) ≢ 0) → q ≤ room → q ≤ strlen m p room
unfolding strlen
strlen-past m p zero room h r = omega arith
strlen-past m p (suc q) zero h r = absurd (omega arith)
strlen-past m p (suc q) (suc room) h r =
    let first : m p ≢ 0 = λ e. h 0 (omega arith) (ap m (omega arith) ∙ e) in
    let rest =
      strlen-past m (p + 1) q room (λ j less e. h (suc j) (omega arith) (ap m (omega arith) ∙ e))
        (omega arith) in
    ground (arith, first, rest)

-- The Neon parser finds the first occurrence of the quoted name and its colon.
pub neon_parse_json_market_data-found :
    (m : Memory) (json_len : ℕ) (field_name : List ℕ) (value_buf_size k : ℕ)
    → json_len < 2 ^ 64
    → length (search_pattern field_name) < 256
    → IsFirst m (search_pattern field_name) 0 k
    → k + length (search_pattern field_name) < json_len
    → neon_parse_json_market_data m json_len field_name value_buf_size
      ≡ some (extract_value m json_len value_buf_size (k + length (search_pattern field_name)))
unfolding neon_parse_json_market_data neon_search
neon_parse_json_market_data-found m json_len field_name value_buf_size k small fits f h =
    let short : leb 256 (length (search_pattern field_name)) ≡ false = ground arith in
    let found =
      search_chunks-found m json_len field_name small 0 k json_len f (omega arith) (omega arith) in
    rw (short, found) (ap some (ap (extract_value m json_len value_buf_size) (omega arith)))

-- Where the first occurrence of the quoted name and its colon ends before the text does, the name
-- fits the pattern's buffer, and no NUL stands up to the byte behind the colon, both parsers
-- succeed with the value behind it.
pub neon_json-eq-scalar_json :
    (m : Memory) (room json_len : ℕ) (field_name : List ℕ) (value_buf_size k : ℕ)
    → json_len < 2 ^ 64
    → length (search_pattern field_name) < 256
    → IsFirst m (search_pattern field_name) 0 k
    → k + length (search_pattern field_name) < json_len
    → ((j : ℕ) → j ≤ k + length (search_pattern field_name) → m j ≢ 0)
    → k + length (search_pattern field_name) < room
    → let value =
        extract_value m json_len value_buf_size (k + length (search_pattern field_name)) in
      (neon_parse_json_market_data m json_len field_name value_buf_size ≡ some value)
      × (scalar_parse_json_market_data m room json_len field_name value_buf_size ≡ some value)
unfolding scalar_parse_json_market_data
neon_json-eq-scalar_json m room json_len field_name value_buf_size k small fits f h text enough =
    let short : leb 256 (length (search_pattern field_name)) ≡ false = ground arith in
    let long =
      strlen-past m 0 (suc (k + length (search_pattern field_name))) room
        (λ j less e. text j (omega arith) (ap m (omega arith) ∙ e)) (omega arith) in
    let found' = strstr-first m (search_pattern field_name) 0 k (strlen m 0 room) f (omega arith) in
    (
      neon_parse_json_market_data-found m json_len field_name value_buf_size k small fits f h,
      rw (short, found') refl,
    )

search_short :
    (m : Memory) (json_len : ℕ) (pattern : List ℕ) (k : ℕ)
    → json_len < 16
    → json_len < length pattern
    → IsFirst m pattern 0 k
    → k + length pattern < 2 ^ 64
    → neon_search m json_len pattern ≡ some (k + length pattern)
unfolding neon_search search_chunks
search_short m zero pattern k short past f h =
    search_tail_lem m pattern 0 k _ f (omega arith) ∙ ap some (omega arith)
search_short m (suc n) pattern k short past f h =
    let no_chunk : leb (0 + 16) (suc n) ≡ false = ground arith in
    rw no_chunk (search_tail_lem m pattern 0 k _ f (omega arith) ∙ ap some (omega arith))

extract_past :
    (m : Memory) (json_len size start : ℕ)
    → 0 < size
    → json_len < start
    → extract_value m json_len size start ≡ []
unfolding extract_value value_range skip_blanks
extract_past m json_len size start h q =
    let none_left : json_len - start ≡ 0 = omega arith in
    let outside : ltb start json_len ≡ false = ground arith in
    let nothing : start - start ≡ 0 = omega arith in
    let shorter : leb size 0 ≡ false = ground arith in
    rw (none_left, outside, nothing, shorter) refl

-- A text shorter than sixteen bytes and shorter than the pattern: the search does not stay inside
-- it. It goes on to the pattern's first occurrence in the memory behind, and the parser returns 0
-- with an empty value.
pub neon_json_overrun :
    (m : Memory) (json_len : ℕ) (field_name : List ℕ) (value_buf_size k : ℕ)
    → json_len < 16
    → json_len < length (search_pattern field_name)
    → length (search_pattern field_name) < 256
    → 0 < value_buf_size
    → IsFirst m (search_pattern field_name) 0 k
    → k + length (search_pattern field_name) < 2 ^ 64
    → (neon_search m json_len (search_pattern field_name)
        ≡ some (k + length (search_pattern field_name)))
      × (neon_parse_json_market_data m json_len field_name value_buf_size ≡ some [])
unfolding neon_parse_json_market_data
neon_json_overrun m json_len field_name value_buf_size k short past fits room f h =
    let pattern = search_pattern field_name in
    let brief : leb 256 (length pattern) ≡ false = ground arith in
    let found = search_short m json_len pattern k short past f h in
    (
      found,
      rw (brief, found)
          (ap some
            (extract_past m json_len value_buf_size (k + length pattern) room (omega arith))),
    )
