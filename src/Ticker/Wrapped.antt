-- ===== src/Ticker/Wrapped.antt =====
-- What the example client makes of the messages of the stream that it connects to
-- (examples/binance_ticker.c), and how its address parses (src/websocket.c).
use websocket.Prelude.{
  ℕ, ◌+◌, ◌^◌, ◌≤◌, ◌<◌, ◌≡◌, ◌∙◌, refl, ap, List, [], ◌∷◌, ◌++◌, none, some, true, false, codes,
  length, length-append, Memory, memcpy, arith, ◌==◌, c_string,
}
use websocket.Json.{
  search_pattern, matches, neon_search, search_chunks, search_tail, neon_parse_json_market_data,
  ends_plain, ends_string,
}
use websocket.Json.First.{IsFirst}
use websocket.Json.Search.{neon_parse_json_market_data-found}
use websocket.Json.Extract.{
  Token, plain, quoted, is_string_text, token_text, token_value, is_token, is_blank,
  extract_value-token,
}
use websocket.Ticker.{field_of, field_or, direct_trade, wrapped_trade, print_trade, on_message}

-- The first member of a trade, up to the comma.
abbrev pub first_member : List ℕ
first_member = codes "{\"e\":\"trade\""

abbrev pub member_token : Token
member_token = plain b'{' (codes "\"e\":\"trade\"") b','

field_of-some :
    (m : Memory) (len : ℕ) (name : List ℕ) (size : ℕ) {value : List ℕ}
    → neon_parse_json_market_data m len name size ≡ some value
    → field_of m len name size ≡ value
unfolding field_of
field_of-some m len name size h = ground (arith, h)

field_of-none :
    (m : Memory) (len : ℕ) (name : List ℕ) (size : ℕ)
    → neon_parse_json_market_data m len name size ≡ none
    → field_of m len name size ≡ []
unfolding field_of
field_of-none m len name size h = ground (arith, h)

member-is_token : is_token member_token ≡ true
unfolding ends_plain
member-is_token = refl

-- It holds neither symbol nor price.
first_member_empty :
    (stack : Memory)
    → wrapped_trade (memcpy stack 0 (first_member ++ 0 ∷ [])) (length first_member) ≡ none
unfolding wrapped_trade print_trade neon_parse_json_market_data neon_search search_chunks
    search_tail matches
first_member_empty stack = refl

-- The text holds the name first with this value, blanks before it allowed.
pub record IsField (m : Memory) (len : ℕ) (name : List ℕ) (token : Token) : Type 0 where
  pub pos : ℕ
  pub blanks : List ℕ
  pub first : IsFirst m (search_pattern name) 0 pos
  pub begins : matches m (pos + length (search_pattern name)) (blanks ++ token_text token) ≡ true
  pub blank : is_blank blanks ≡ true
  pub whole : is_token token ≡ true
  pub inside : pos + length (search_pattern name) + length (blanks ++ token_text token) ≤ len

length-token_text : (token : Token) → 0 < length (token_text token)
length-token_text (plain c s end) = omega arith
length-token_text (quoted s) = omega arith

field_of-IsField :
    (m : Memory) (len : ℕ) (name : List ℕ) (size : ℕ) (token : Token)
    → len < 2 ^ 64
    → length (search_pattern name) < 256
    → IsField m len name token
    → length (token_value token) < size
    → field_of m len name size ≡ token_value token
field_of-IsField m len name size token small short f fits =
    let text = length-append f.blanks (token_text token) in
    let found =
      (neon_parse_json_market_data-found m len name size f.pos small short f.first
        (omega (arith, f.inside, text, length-token_text token))) in
    field_of-some m len name size found
    ∙ extract_value-token m len size _ f.blanks token f.begins f.blank f.whole f.inside fits

c_string-string_text : (s : List ℕ) → is_string_text s ≡ true → c_string s ≡ s
unfolding c_string ends_string
c_string-string_text [] h = refl
c_string-string_text (x ∷ s) h =
    let rest = c_string-string_text s (ground arith) in
    let here : (x == 0) ≡ false = ground arith in rw here (ap (λ t. x ∷ t) rest)

print_trade-some :
    (s p q : List ℕ)
    → is_string_text s ≡ true
    → is_string_text p ≡ true
    → is_string_text q ≡ true
    → 0 < length s
    → 0 < length p
    → print_trade s p q ≡ some (record { symbol = s; price = p; volume = q })
unfolding print_trade
print_trade-some s p q hs hp hq some_s some_p =
    let s_there : (length s == 0) ≡ false = ground arith in
    let p_there : (length p == 0) ≡ false = ground arith in
    rw (
      s_there,
      p_there,
      c_string-string_text s hs,
      c_string-string_text p hp,
      c_string-string_text q hq,
    )

-- Of a text without the name "data" that holds symbol, price and volume as strings without escapes,
-- none empty and none longer than its buffer, exactly these are printed.
pub on_message_direct :
    (m : Memory) (len : ℕ) (stack : Memory) (s p q : List ℕ)
    → len < 2 ^ 64
    → neon_parse_json_market_data m len (codes "data") 4096 ≡ none
    → IsField m len (codes "s") (quoted s)
    → IsField m len (codes "p") (quoted p)
    → IsField m len (codes "q") (quoted q)
    → (0 < length s) × (length s < 32)
    → (0 < length p) × (length p < 32)
    → (0 < length q) × (length q < 32)
    → on_message m len stack ≡ some (record { symbol = s; price = p; volume = q })
unfolding on_message direct_trade field_or
on_message_direct m len stack s p q small bare fs fp fq (s0, s1) (p0, p1) (q0, q1) =
    let nothing : field_of m len (codes "data") 4096 ≡ [] =
      field_of-none m len (codes "data") 4096 bare in
    let symbol = field_of-IsField m len (codes "s") 32 (quoted s) small (omega arith) fs s1 in
    let price = field_of-IsField m len (codes "p") 32 (quoted p) small (omega arith) fp p1 in
    let volume = field_of-IsField m len (codes "q") 32 (quoted q) small (omega arith) fq q1 in
    let p_there : (length p == 0) ≡ false = ground arith in
    let q_there : (length q == 0) ≡ false = ground arith in
    rw (nothing, symbol, price, volume, p_there, q_there)
      (print_trade-some s p q fs.whole fp.whole fq.whole s0 p0)

-- Where the value of "data" is an object that begins as the program says, with the event's type,
-- its text is cut off at the first comma, and nothing of the trade is printed.
pub on_message_wrapped :
    (m : Memory) (len pos : ℕ) (blanks : List ℕ) (stack : Memory)
    → len < 2 ^ 64
    → IsFirst m (search_pattern (codes "data")) 0 pos
    → matches m (pos + 7) (blanks ++ token_text member_token) ≡ true
    → is_blank blanks ≡ true
    → pos + 7 + length (blanks ++ token_text member_token) ≤ len
    → on_message m len stack ≡ none
unfolding on_message
on_message_wrapped m len pos blanks stack small first begins blank room =
    let found =
      (neon_parse_json_market_data-found m len (codes "data") 4096 pos small (omega arith) first
        (omega (arith, length-append blanks (token_text member_token)))) in
    let cut =
      extract_value-token m len 4096 (pos + 7) blanks member_token begins blank member-is_token room
        (omega arith) in
    let text : field_of m len (codes "data") 4096 ≡ first_member =
      field_of-some m len (codes "data") 4096 found ∙ cut in
    rw text (first_member_empty stack)
