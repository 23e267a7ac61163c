-- ===== src/Tests/Fields.antt =====
-- Texts of market data.
use websocket.Prelude.{
  ◌≤◌, ◌≢◌, ◌∷◌, true, length, lacks, ℕ, zero, suc, ◌+◌, ◌<◌, ◌≡◌, refl, List, [], some, false,
  codes, arith,
}
use websocket.Frame.Build.{as_memory}
use websocket.Json.{
  search_pattern, matches, ends_plain, neon_search, extract_value, neon_parse_json_market_data,
  scalar_parse_json_market_data,
}
use websocket.Json.First.{IsFirst}
use websocket.Json.Search.{neon_json-eq-scalar_json, neon_json_overrun}
use websocket.Json.Extract.{plain, extract_value-token}

abbrev market : List ℕ
market = codes "{\"s\":\"BTC\",\"p\": 42,\"q\":1}"

-- The price stands at offset 11 and its value behind offset 15.
abbrev price : List ℕ
price = codes "p"

market-IsFirst : IsFirst (as_memory market) (search_pattern price) 0 11
unfolding matches
market-IsFirst = record { there = refl; none_before = early }
  where
    early : (j : ℕ) → j < 11 → matches (as_memory market) (0 + j) (search_pattern price) ≡ false
    early zero h = refl
    early (suc zero) h = refl
    early (suc (suc zero)) h = refl
    early (suc (suc (suc zero))) h = refl
    early (suc (suc (suc (suc zero)))) h = refl
    early (suc (suc (suc (suc (suc zero))))) h = refl
    early (suc (suc (suc (suc (suc (suc zero)))))) h = refl
    early (suc (suc (suc (suc (suc (suc (suc zero))))))) h = refl
    early (suc (suc (suc (suc (suc (suc (suc (suc zero)))))))) h = refl
    early (suc (suc (suc (suc (suc (suc (suc (suc (suc zero))))))))) h = refl
    early (suc (suc (suc (suc (suc (suc (suc (suc (suc (suc zero)))))))))) h = refl
    early (suc (suc (suc (suc (suc (suc (suc (suc (suc (suc (suc j))))))))))) h =
        absurd (omega arith)

lacks-as_memory : (s : List ℕ) → lacks 0 s ≡ true → (j : ℕ) → j < length s → as_memory s j ≢ 0
unfolding lacks
lacks-as_memory [] h j less = absurd (omega arith)
lacks-as_memory (x ∷ s) h zero less = ground arith
lacks-as_memory (x ∷ s) h (suc j) less = lacks-as_memory s (ground arith) j (omega arith)

market_text : (j : ℕ) → j ≤ 15 → as_memory market j ≢ 0
unfolding lacks
market_text j h = lacks-as_memory market refl j (omega arith)

neon_json-eq-scalar_json_example :
    let value = extract_value (as_memory market) 26 256 15 in
    (neon_parse_json_market_data (as_memory market) 26 price 256 ≡ some value)
    × (scalar_parse_json_market_data (as_memory market) 27 26 price 256 ≡ some value)
neon_json-eq-scalar_json_example =
    neon_json-eq-scalar_json (as_memory market) 27 26 price 256 11 (omega arith) (omega arith)
      market-IsFirst (omega arith) market_text (omega arith)

extract_value-token_example : extract_value (as_memory market) 26 256 15 ≡ codes "42"
unfolding matches ends_plain
extract_value-token_example =
    extract_value-token (as_memory market) 26 256 15 (codes " ") (plain b'4' (codes "2") b',') refl
      refl refl (omega arith) (omega arith)

-- A text of two bytes, given with the length 1, in front of memory that holds the name.
abbrev behind : List ℕ
behind = codes " \"p\":7"

behind-IsFirst : IsFirst (as_memory behind) (search_pattern price) 0 1
unfolding matches
behind-IsFirst = record { there = refl; none_before = early }
  where
    early : (j : ℕ) → j < 1 → matches (as_memory behind) (0 + j) (search_pattern price) ≡ false
    early zero h = refl
    early (suc j) h = absurd (omega arith)

neon_json_overrun_example :
    (neon_search (as_memory behind) 1 (search_pattern price) ≡ some 5)
    × (neon_parse_json_market_data (as_memory behind) 1 price 256 ≡ some [])
neon_json_overrun_example =
    neon_json_overrun (as_memory behind) 1 price 256 1 (omega arith) (omega arith) (omega arith)
      (omega arith) behind-IsFirst (omega arith)
