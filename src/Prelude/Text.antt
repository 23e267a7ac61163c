-- ===== src/Prelude/Text.antt =====
-- C strings, as the list of their bytes before the terminating NUL, and the functions of <string.h>
-- on them.
use Prim.Native.Nat.{ℕ, zero, suc, min, ◌+◌, ◌-◌, ◌*◌, ◌%◌, ◌^◌}
use Prim.Native.Char.{code}
use Prim.Native.String.{String}
use mathlib.Core.Path.{◌≡◌, refl}
use mathlib.Core.Bool.{Bool, true, false, ◌&&◌, ◌||◌}
use mathlib.Core.Option.{Option, none, some}
use mathlib.Core.List.{List, [], ◌∷◌, ◌++◌}
use native.Mathlib.Omega.{arith}
use websocket.Prelude.Tests.{leb, ltb, ◌==◌, if◌then◌else◌}
use websocket.Prelude.Lists.{length}
use websocket.Prelude.Words.{ℤ, pos, negsuc}

-- The bytes of a literal.
abbrev pub codes : String → List ℕ
codes String.[] = []
codes (String.◌∷◌ c s) = code c ∷ codes s

-- `strncmp(s, pattern, strlen(pattern)) == 0`
unfoldable pub has_prefix : List ℕ → List ℕ → Bool
has_prefix [] s = true
has_prefix (c ∷ pattern) [] = false
has_prefix (c ∷ pattern) (x ∷ s) = (c == x) && has_prefix pattern s

-- An index, seen from one byte before.
abbrev pub later : Option ℕ → Option ℕ
later none = none
later (some i) = some (suc i)

-- `strchr(s, c)`, as an index.
unfoldable pub strchr : ℕ → List ℕ → Option ℕ
strchr c [] = none
strchr c (x ∷ s) = if x == c then some 0 else later (strchr c s)

-- `strstr(s, pattern)`, as an index; the pattern is not empty.
unfoldable pub strstr : List ℕ → List ℕ → Option ℕ
strstr pattern [] = none
strstr pattern (x ∷ s) = if has_prefix pattern (x ∷ s) then some 0 else later (strstr pattern s)

-- The C string that stands at the beginning of the bytes.
unfoldable pub c_string : List ℕ → List ℕ
c_string [] = []
c_string (x ∷ s) = let rest = c_string s in if x == 0 then [] else x ∷ rest

-- `tolower` in the C locale.
unfoldable pub to_lower : ℕ → ℕ
to_lower c = if leb b'A' c && leb c b'Z' then c + 32 else c

-- `isspace` in the C locale.
unfoldable pub is_space : ℕ → Bool
is_space c = (c == 32) || (leb 9 c && leb c 13)

unfoldable pub is_digit : ℕ → Bool
is_digit c = leb b'0' c && leb c b'9'

-- The value of the leading decimal digits, behind those that make up `n`.
unfoldable pub digits_value : ℕ → List ℕ → ℕ
digits_value n [] = n
digits_value n (c ∷ s) =
    let more = digits_value (n * 10 + (c - b'0')) s in if is_digit c then more else n

unfoldable pub negated : ℕ → ℤ
negated zero = pos 0
negated (suc n) = negsuc n

-- The number that a text begins with, as strtol reads it in base 10.
unfoldable pub decimal : List ℕ → ℤ
decimal [] = pos 0
decimal (c ∷ s) =
    let skipped = decimal s in
    if is_space c
    then skipped
    else if c == b'-'
    then negated (digits_value 0 s)
    else if c == b'+'
    then pos (digits_value 0 s)
    else pos (digits_value 0 (c ∷ s))

-- strtol's result, which ends at the bounds of a long, as an int.
unfoldable pub long_to_int : ℤ → ℤ
long_to_int (pos n) =
    let low = min n (2 ^ 63 - 1) % 2 ^ 32 in
    if ltb low (2 ^ 31) then pos low else negsuc (2 ^ 32 - 1 - low)
long_to_int (negsuc n) =
    let low = min n (2 ^ 63 - 1) % 2 ^ 32 in
    if ltb low (2 ^ 31) then negsuc low else pos (2 ^ 32 - 1 - low)

-- `atoi`, which on macOS is `(int)strtol(s, NULL, 10)`.
unfoldable pub atoi : List ℕ → ℤ
atoi s = long_to_int (decimal s)

-- A byte that does not occur is not found, and a first occurrence is.
unfoldable pub lacks : ℕ → List ℕ → Bool
lacks c [] = true
lacks c (x ∷ s) = if x == c then false else lacks c s

pub strchr_absent : (c : ℕ) (s : List ℕ) → lacks c s ≡ true → strchr c s ≡ none
unfolding strchr lacks
strchr_absent c [] h = refl
strchr_absent c (x ∷ s) h = ground (arith, strchr_absent c s)

pub strchr-append :
    (c : ℕ) (s t : List ℕ) → lacks c s ≡ true → strchr c (s ++ c ∷ t) ≡ some (length s)
unfolding strchr lacks
strchr-append c [] t h = ground arith
strchr-append c (x ∷ s) t h = ground (arith, strchr-append c s t)

pub has_prefix-append : (p s : List ℕ) → has_prefix p (p ++ s) ≡ true
unfolding has_prefix
has_prefix-append [] s = refl
has_prefix-append (c ∷ p) s = ground (arith, has_prefix-append p s)
