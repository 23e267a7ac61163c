-- ===== src/Json/Extract.antt =====
-- What is extracted from a text that holds a value (src/parser_neon.c).
use websocket.Prelude.{
  ℕ, zero, suc, ◌+◌, ◌-◌, ◌≤◌, ◌<◌, ◌≡◌, ◌∙◌, refl, sym, ap, ap₂, List, [], ◌∷◌, ◌++◌, Bool, true,
  false, not, ◌&&◌, ◌||◌, ltb, leb, ◌==◌, length, length-append, Memory, bytes_at, tabulate_congr,
  arith,
}
use websocket.Json.{
  matches, skip_blanks, ends_string, string_end, ends_plain, plain_end, value_range, extract_value,
}

abbrev pub is_blank : List ℕ → Bool
is_blank [] = true
is_blank (c ∷ s) = ((c == 32) || (c == 9)) && is_blank s

-- The bytes of a number or a boolean, and of a string without escapes.
abbrev pub is_plain_text : List ℕ → Bool
is_plain_text [] = true
is_plain_text (c ∷ s) = not (ends_plain c) && is_plain_text s

abbrev pub is_string_text : List ℕ → Bool
is_string_text [] = true
is_string_text (c ∷ s) = not (ends_string c) && not (c == b'\\') && is_string_text s

-- A value as it stands in the text, with the byte that ends it.
pub data Token : Type 0 where
  plain : (c : ℕ) (s : List ℕ) (end : ℕ) → Token
  quoted : List ℕ → Token

abbrev pub token_text : Token → List ℕ
token_text (plain c s end) = c ∷ s ++ end ∷ []
token_text (quoted s) = b'"' ∷ s ++ b'"' ∷ []

abbrev pub token_value : Token → List ℕ
token_value (plain c s end) = c ∷ s
token_value (quoted s) = s

abbrev pub is_token : Token → Bool
is_token (plain c s end) = not (c == b'"') && is_plain_text (c ∷ s) && ends_plain end
is_token (quoted s) = is_string_text s

matches-append :
    (m : Memory) (p : ℕ) (s t : List ℕ)
    → matches m p (s ++ t) ≡ true
    → (matches m p s ≡ true) × (matches m (p + length s) t ≡ true)
unfolding matches
matches-append m p [] t h = (refl, ap (λ q. matches m q t) (omega arith) ∙ h)
matches-append m p (c ∷ s) t h =
    let (front, back) = matches-append m (p + 1) s t (ground arith) in
    (ground arith, ap (λ q. matches m q t) (omega arith) ∙ back)

matches-bytes_at :
    (m : Memory) (p : ℕ) (s : List ℕ) → matches m p s ≡ true → bytes_at m p (length s) ≡ s
unfolding matches
matches-bytes_at m p [] h = refl
matches-bytes_at m p (c ∷ s) h =
    let here : m p ≡ c = ground arith in
    ap₂ ◌∷◌ (ap m {x = p + 0} {y = p} (omega arith) ∙ here) (
      tabulate_congr (length s) _ _ (λ k q. ap m (omega arith))
      ∙ matches-bytes_at m (p + 1) s (ground arith))

skip_blanks_lem :
    (m : Memory) (p left : ℕ) (s : List ℕ)
    → matches m p s ≡ true
    → is_blank s ≡ true
    → ((m (p + length s) == 32) || (m (p + length s) == 9)) ≡ false
    → length s < left
    → skip_blanks m p left ≡ p + length s
unfolding skip_blanks matches
skip_blanks_lem m p zero s h b e q = absurd (omega arith)
skip_blanks_lem m p (suc left) [] h b e q = rw (ap m (p-same)) (ground arith)
  where
    p-same : p ≡ p + 0
    p-same = omega arith
skip_blanks_lem m p (suc left) (c ∷ s) h b e q =
    let next : p + suc (length s) ≡ p + 1 + length s = omega arith in
    let rest =
      skip_blanks_lem m (p + 1) left s (ground arith) (ground arith) (rw next at e) (omega arith) in
    ground (arith, rest)

plain_end_lem :
    (m : Memory) (p left : ℕ) (s : List ℕ)
    → matches m p s ≡ true
    → is_plain_text s ≡ true
    → ends_plain (m (p + length s)) ≡ true
    → length s < left
    → plain_end m p left ≡ p + length s
unfolding plain_end matches
plain_end_lem m p zero s h b e q = absurd (omega arith)
plain_end_lem m p (suc left) [] h b e q =
    let same : p + 0 ≡ p = omega arith in
    let stop : ends_plain (m p) ≡ true = rw same at e in rw stop (sym same)
plain_end_lem m p (suc left) (c ∷ s) h b e q =
    let next : p + suc (length s) ≡ p + 1 + length s = omega arith in
    let rest =
      plain_end_lem m (p + 1) left s (ground arith) (ground arith) (rw next at e) (omega arith) in
    let here : m p ≡ c = ground arith in
    let not_yet : ends_plain (m p) ≡ false = rw here (ground arith) in
    rw not_yet (rest ∙ omega arith)

string_end-stop :
    (m : Memory) (p left : ℕ) → ends_string (m p) ≡ true → string_end m p (suc left) ≡ p
unfolding string_end
string_end-stop m p zero h = rw h refl
string_end-stop m p (suc left) h = ground arith

string_end-step :
    (m : Memory) (p left : ℕ)
    → ends_string (m p) ≡ false
    → (m p == b'\\') ≡ false
    → string_end m p (suc left) ≡ string_end m (p + 1) left
unfolding string_end
string_end-step m p zero h q = rw h refl
string_end-step m p (suc left) h q = ground arith

string_end_lem :
    (m : Memory) (p left : ℕ) (s : List ℕ)
    → matches m p s ≡ true
    → is_string_text s ≡ true
    → ends_string (m (p + length s)) ≡ true
    → length s < left
    → string_end m p left ≡ p + length s
unfolding matches
string_end_lem m p zero s h b e q = absurd (omega arith)
string_end_lem m p (suc left) [] h b e q =
    let same : p + 0 ≡ p = omega arith in string_end-stop m p left (rw same at e) ∙ sym same
string_end_lem m p (suc left) (c ∷ s) h b e q =
    let next : p + suc (length s) ≡ p + 1 + length s = omega arith in
    let here : m p ≡ c = ground arith in
    let goes_on : ends_string (m p) ≡ false = rw here (ground arith) in
    let unescaped : (m p == b'\\') ≡ false = rw here (ground arith) in
    string_end-step m p left goes_on unescaped
    ∙ string_end_lem m (p + 1) left s (ground arith) (ground arith) (rw next at e) (omega arith)
    ∙ sym next

-- The value once its range is known.
extract_value-range :
    (m : Memory) (json_len size p start : ℕ) (s : List ℕ)
    → value_range m json_len p ≡ (start, start + length s)
    → length s < size
    → matches m start s ≡ true
    → extract_value m json_len size p ≡ s
unfolding extract_value
extract_value-range m json_len size p start s e fits h =
    let amount : start + length s - start ≡ length s = omega arith in
    let shorter : leb size (length s) ≡ false = ground arith in
    rw (e, amount, shorter) (matches-bytes_at m start s h)

value_range-plain :
    (m : Memory) (json_len p q e : ℕ)
    → skip_blanks m p (json_len - p) ≡ q
    → q < json_len
    → (m q == b'"') ≡ false
    → plain_end m q (json_len - q) ≡ e
    → value_range m json_len p ≡ (q, e)
unfolding value_range
value_range-plain m json_len p q e skipped within bare ends =
    let inside : ltb q json_len ≡ true = ground arith in rw (skipped, inside, bare, ends) refl

value_range-quoted :
    (m : Memory) (json_len p q e : ℕ)
    → skip_blanks m p (json_len - p) ≡ q
    → q < json_len
    → (m q == b'"') ≡ true
    → string_end m (q + 1) (json_len - (q + 1)) ≡ e
    → value_range m json_len p ≡ (q + 1, e)
unfolding value_range
value_range-quoted m json_len p q e skipped within bare ends =
    let inside : ltb q json_len ≡ true = ground arith in rw (skipped, inside, bare, ends) refl

-- Where blanks and then a value stand in the text, a number or boolean with the byte that ends it
-- or a string without escapes, and the value is shorter than the buffer, exactly the value is
-- extracted.
pub extract_value-token :
    (m : Memory) (json_len value_buf_size field_start : ℕ) (blanks : List ℕ) (token : Token)
    → matches m field_start (blanks ++ token_text token) ≡ true
    → is_blank blanks ≡ true
    → is_token token ≡ true
    → field_start + length (blanks ++ token_text token) ≤ json_len
    → length (token_value token) < value_buf_size
    → extract_value m json_len value_buf_size field_start ≡ token_value token
unfolding matches ends_plain ends_string
extract_value-token m json_len size p blanks (plain c s end) h b t room fits =
    let q = p + length blanks in
    let total : length (blanks ++ token_text (plain c s end)) ≡ length blanks + length s + 2 =
      omega
        (arith, length-append blanks (token_text (plain c s end)), length-append s (end ∷ [])) in
    let (front, back) = matches-append m p blanks (token_text (plain c s end)) h in
    let (whole, last) = matches-append m q (c ∷ s) (end ∷ []) back in
    let skipped =
      skip_blanks_lem m p (json_len - p) blanks front b (ground (arith, back)) (omega arith) in
    let byte : m (q + length (c ∷ s)) ≡ end = ground (arith, last) in
    let ended : ends_plain end ≡ true = ground arith in
    let stop =
      plain_end_lem m q (json_len - q) (c ∷ s) whole (ground arith) (ap ends_plain byte ∙ ended)
        (omega arith) in
    extract_value-range m json_len size p q (c ∷ s)
      (value_range-plain m json_len p q _ skipped (omega arith) (ground (arith, back)) stop) fits
      whole
extract_value-token m json_len size p blanks (quoted s) h b t room fits =
    let q = p + length blanks in
    let total : length (blanks ++ token_text (quoted s)) ≡ length blanks + length s + 2 =
      omega (arith, length-append blanks (token_text (quoted s)), length-append s (b'"' ∷ [])) in
    let (front, back) = matches-append m p blanks (token_text (quoted s)) h in
    let (whole, last) = matches-append m (q + 1) s (b'"' ∷ []) (ground arith) in
    let skipped =
      skip_blanks_lem m p (json_len - p) blanks front b (ground (arith, back)) (omega arith) in
    let stop =
      string_end_lem m (q + 1) (json_len - (q + 1)) s whole t (ground (arith, last))
        (omega arith) in
    extract_value-range m json_len size p (q + 1) s
      (value_range-quoted m json_len p q _ skipped (omega arith) (ground (arith, back)) stop) fits
      whole
