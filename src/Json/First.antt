-- ===== src/Json/First.antt =====
-- The first occurrence of a field in the text, and the loops of the search (src/parser_neon.c).
use websocket.Prelude.{
  ℕ, zero, suc, ◌+◌, ◌-◌, ◌≤◌, ◌<◌, ◌≡◌, ◌∙◌, refl, ap, List, none, some, true, false, leb, ◌==◌,
  length, Memory, arith,
}
use websocket.Json.{search_pattern, matches, search_chunk, search_tail}

-- The pattern's first occurrence from `p` on is `k` bytes later.
pub record IsFirst (m : Memory) (pattern : List ℕ) (p k : ℕ) : Type 0 where
  pub there : matches m (p + k) pattern ≡ true
  pub none_before : (j : ℕ) → j < k → matches m (p + j) pattern ≡ false

pub IsFirst-next :
    (m : Memory) (pattern : List ℕ) (p k : ℕ)
    → IsFirst m pattern p (suc k)
    → IsFirst m pattern (p + 1) k
IsFirst-next m pattern p k f = record {
  there = ap (λ q. matches m q pattern) (omega arith) ∙ f.there;
  none_before =
      λ j h. ap (λ q. matches m q pattern) (omega arith) ∙ f.none_before (suc j) (omega arith);
}

pub IsFirst-zero :
    (m : Memory) (pattern : List ℕ) (p : ℕ) → IsFirst m pattern p 0 → matches m p pattern ≡ true
IsFirst-zero m pattern p f = ap (λ q. matches m q pattern) (omega arith) ∙ f.there

pub IsFirst-suc :
    (m : Memory) (pattern : List ℕ) (p k : ℕ)
    → IsFirst m pattern p (suc k)
    → matches m p pattern ≡ false
IsFirst-suc m pattern p k f =
    ap (λ q. matches m q pattern) (omega arith) ∙ f.none_before 0 (omega arith)

-- The scalar search finds it among the positions that it looks at.
pub search_tail_lem :
    (m : Memory) (pattern : List ℕ) (p k left : ℕ)
    → IsFirst m pattern p k
    → k < left
    → search_tail m pattern p left ≡ some (p + k + length pattern)
unfolding search_tail
search_tail_lem m pattern p k zero f h = absurd (omega arith)
search_tail_lem m pattern p zero (suc left) f h =
    rw (IsFirst-zero m pattern p f) (ap some (omega arith))
search_tail_lem m pattern p (suc k) (suc left) f h = rw (IsFirst-suc m pattern p k f) (
    search_tail_lem m pattern (p + 1) k left (IsFirst-next m pattern p k f) (omega arith)
    ∙ ap some (omega arith))

module _ (m : Memory) (json_len : ℕ) (field_name : List ℕ) where
  abbrev wanted : List ℕ
  wanted = search_pattern field_name

  quoted : (p : ℕ) → matches m p wanted ≡ true → (m p == b'"') ≡ true
  unfolding matches
  quoted p h = ground arith

  -- A chunk that the first occurrence begins in finds it,
  pub search_chunk-found :
      (p k left : ℕ)
      → IsFirst m wanted p k
      → k < left
      → p + k + length wanted ≤ json_len
      → search_chunk m json_len wanted p left ≡ some (p + k + length wanted)
  unfolding search_chunk
  search_chunk-found p k zero f h q = absurd (omega arith)
  search_chunk-found p zero (suc left) f h q =
      let first = IsFirst-zero m wanted p f in
      let fits : leb (p + length wanted) json_len ≡ true = ground arith in
      rw (quoted p first, first, fits) (ap some (omega arith))
  search_chunk-found p (suc k) (suc left) f h q =
      let rest : search_chunk m json_len wanted (p + 1) left ≡ some (p + suc k + length wanted) =
        search_chunk-found (p + 1) k left (IsFirst-next m wanted p k f) (omega arith) (omega arith)
        ∙ ap some (omega arith) in
      ground (arith, IsFirst-suc m wanted p k f)

  -- and one that it comes after does not.
  pub search_chunk-missed :
      (p k left : ℕ)
      → IsFirst m wanted p k
      → left ≤ k
      → search_chunk m json_len wanted p left ≡ none
  unfolding search_chunk
  search_chunk-missed p k zero f h = refl
  search_chunk-missed p zero (suc left) f h = absurd (omega arith)
  search_chunk-missed p (suc k) (suc left) f h =
      let rest = search_chunk-missed (p + 1) k left (IsFirst-next m wanted p k f) (omega arith) in
      ground (arith, IsFirst-suc m wanted p k f)

pub IsFirst-skip :
    (m : Memory) (pattern : List ℕ) (p k n : ℕ)
    → IsFirst m pattern p k
    → n ≤ k
    → IsFirst m pattern (p + n) (k - n)
IsFirst-skip m pattern p k n f h = record {
  there = ap (λ q. matches m q pattern) (omega arith) ∙ f.there;
  none_before =
      λ j q. ap (λ q. matches m q pattern) (omega arith) ∙ f.none_before (n + j) (omega arith);
}
