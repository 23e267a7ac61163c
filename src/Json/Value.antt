-- ===== src/Json/Value.antt =====
-- The value behind a field's colon (src/parser_neon.c).
use websocket.Prelude.{
  ℕ, zero, suc, ◌+◌, ◌-◌, ◌^◌, ◌≤◌, ◌<◌, ◌≡◌, sym, ap, leb, if◌then◌else◌, length, length-tabulate,
  Memory, bytes_at, sub_size, arith,
}
use websocket.Json.{skip_blanks, string_end, plain_end, value_range, extract_value}

skip_blanks_bounds :
    (m : Memory) (p left : ℕ) → (p ≤ skip_blanks m p left) × (skip_blanks m p left ≤ p + left)
unfolding skip_blanks
skip_blanks_bounds m p zero = (omega arith, omega arith)
skip_blanks_bounds m p (suc left) =
    let (low, high) = skip_blanks_bounds m (p + 1) left in ground arith

plain_end_bounds :
    (m : Memory) (p left : ℕ) → (p ≤ plain_end m p left) × (plain_end m p left ≤ p + left)
unfolding plain_end
plain_end_bounds m p zero = (omega arith, omega arith)
plain_end_bounds m p (suc left) = let (low, high) = plain_end_bounds m (p + 1) left in ground arith

string_end_bounds :
    (m : Memory) (p left : ℕ) → (p ≤ string_end m p left) × (string_end m p left ≤ p + left)
unfolding string_end
string_end_bounds m p zero = (omega arith, omega arith)
string_end_bounds m p (suc zero) = ground arith
string_end_bounds m p (suc (suc left)) =
    let (low, high) = string_end_bounds m (p + 1) (suc left) in
    let (low', high') = string_end_bounds m (p + 2) left in ground arith

value_range_bounds :
    (m : Memory) (json_len field_start : ℕ)
    → field_start ≤ json_len
    → let (value_start, value_end) = value_range m json_len field_start in
      (field_start ≤ value_start) × (value_start ≤ value_end) × (value_end ≤ json_len)
unfolding value_range
value_range_bounds m json_len field_start h =
    let p = skip_blanks m field_start (json_len - field_start) in
    ground (
      arith,
      skip_blanks_bounds m field_start (json_len - field_start),
      plain_end_bounds m p (json_len - p),
      string_end_bounds m (p + 1) (json_len - (p + 1)),
    )

-- From inside the text and with a buffer that is not empty, the value that is copied is a part of
-- the text and leaves room for the NUL.
pub extract_value_bounds :
    (m : Memory) (json_len value_buf_size field_start : ℕ)
    → field_start ≤ json_len
    → 0 < value_buf_size
    → value_buf_size < 2 ^ 64
    → let value = extract_value m json_len value_buf_size field_start in
      (start : ℕ) × (e : value ≡ bytes_at m start (length value)) × (field_start ≤ start)
      × (start + length value ≤ json_len)
      × (length value < value_buf_size)
unfolding extract_value
extract_value_bounds m json_len value_buf_size field_start h pos small =
    let (value_start, value_end) = value_range m json_len field_start in
    let len = value_end - value_start in
    let n = if leb value_buf_size len then sub_size value_buf_size 1 else len in
    let size : length (bytes_at m value_start n) ≡ n =
      length-tabulate n (λ k. m (value_start + k)) in
    let bounds = value_range_bounds m json_len field_start h in
    (
      value_start,
      ap (bytes_at m value_start) (sym size),
      ground (arith, bounds),
      ground (arith, bounds),
      ground (arith, bounds),
    )
