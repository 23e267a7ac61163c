-- ===== src/Tests/Ticker.antt =====
-- Messages of the example client.
use websocket.Prelude.{
  ℕ, zero, suc, ◌+◌, ◌<◌, ◌≡◌, refl, List, [], some, none, false, codes, arith, Bool, not, ◌&&◌,
  Bool-cases, inl, inr, true, ◌==◌, ap, ◌∙◌,
}
use websocket.Frame.Build.{as_memory}
use websocket.Json.{
  search_pattern, matches, ends_string, neon_search, search_chunks, search_chunk, search_tail,
  neon_parse_json_market_data,
}
use websocket.Json.First.{IsFirst}
use websocket.Ticker.{on_message}
use websocket.Json.Extract.{quoted}
use websocket.Ticker.Wrapped.{IsField, on_message_wrapped, on_message_direct}

abbrev wrapped_text : List ℕ
wrapped_text = codes "{\"data\":{\"e\":\"trade\",\"s\":\"BTC\",\"p\":\"42\"}}"

wrapped-IsFirst : IsFirst (as_memory wrapped_text) (search_pattern (codes "data")) 0 1
unfolding matches
wrapped-IsFirst = record { there = refl; none_before = early }
  where
    early :
        (j : ℕ)
        → j < 1
        → matches (as_memory wrapped_text) (0 + j) (search_pattern (codes "data")) ≡ false
    early zero h = refl
    early (suc j) h = absurd (omega arith)

on_message_wrapped_example : on_message (as_memory wrapped_text) 42 (λ _. 0) ≡ none
unfolding matches
on_message_wrapped_example =
    on_message_wrapped (as_memory wrapped_text) 42 1 [] (λ _. 0) (omega arith) wrapped-IsFirst refl
      refl (omega arith)

abbrev direct_text : List ℕ
direct_text = codes "{\"s\":\"B\",\"p\":\"4\",\"q\":\"1\"}"

-- No earlier position.
none_below : ℕ → List ℕ → Bool
none_below zero name = true
none_below (suc k) name =
    none_below k name && not (matches (as_memory direct_text) k (search_pattern name))

none_before-none_below :
    (k : ℕ) (name : List ℕ)
    → none_below k name ≡ true
    → (j : ℕ) → j < k
    → matches (as_memory direct_text) (0 + j) (search_pattern name) ≡ false
unfolding none_below
none_before-none_below zero name a j h = absurd (omega arith)
none_before-none_below (suc k) name a j h = elim (Bool-cases (j == k)) [
  | inl same ↦
      ap (λ t. matches (as_memory direct_text) t (search_pattern name)) {x = 0 + j} {y = k}
        (ground arith)
      ∙ ground arith
  | inr other ↦ none_before-none_below k name (ground arith) j (ground arith)
]

IsFirst-at :
    (k : ℕ) (name : List ℕ)
    → matches (as_memory direct_text) (0 + k) (search_pattern name) ≡ true
    → none_below k name ≡ true
    → IsFirst (as_memory direct_text) (search_pattern name) 0 k
IsFirst-at k name h a = record { there = h; none_before = none_before-none_below k name a }

symbol-IsField : IsField (as_memory direct_text) 25 (codes "s") (quoted (codes "B"))
unfolding matches ends_string none_below
symbol-IsField = record {
  pos = 1;
  blanks = [];
  first = IsFirst-at 1 (codes "s") refl refl;
  begins = refl;
  blank = refl;
  whole = refl;
  inside = omega arith;
}

price-IsField : IsField (as_memory direct_text) 25 (codes "p") (quoted (codes "4"))
unfolding matches ends_string none_below
price-IsField = record {
  pos = 9;
  blanks = [];
  first = IsFirst-at 9 (codes "p") refl refl;
  begins = refl;
  blank = refl;
  whole = refl;
  inside = omega arith;
}

volume-IsField : IsField (as_memory direct_text) 25 (codes "q") (quoted (codes "1"))
unfolding matches ends_string none_below
volume-IsField = record {
  pos = 17;
  blanks = [];
  first = IsFirst-at 17 (codes "q") refl refl;
  begins = refl;
  blank = refl;
  whole = refl;
  inside = omega arith;
}

no_wrapper : neon_parse_json_market_data (as_memory direct_text) 25 (codes "data") 4096 ≡ none
unfolding neon_parse_json_market_data neon_search search_chunks search_chunk search_tail matches
no_wrapper = refl

on_message_direct_example :
    on_message (as_memory direct_text) 25 (λ _. 0)
    ≡ some (record { symbol = codes "B"; price = codes "4"; volume = codes "1" })
on_message_direct_example =
    on_message_direct (as_memory direct_text) 25 (λ _. 0) (codes "B") (codes "4") (codes "1")
      (omega arith) no_wrapper symbol-IsField price-IsField volume-IsField (omega arith)
      (omega arith) (omega arith)
