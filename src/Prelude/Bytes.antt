-- ===== src/Prelude/Bytes.antt =====
-- Byte memory, as offsets from a base pointer, and memcpy.
use Prim.Native.Nat.{ℕ, zero, suc, ◌+◌, ◌-◌, ◌≤◌, ◌<◌}
use mathlib.Core.Path.{◌≡◌, refl}
use mathlib.Core.List.{List, [], ◌∷◌}
use mathlib.Core.Logic.{◌⊎◌}
use native.Mathlib.Omega.{arith}
use websocket.Prelude.Tests.{ltb, if◌then◌else◌}
use websocket.Prelude.Lists.{length, get_or, tabulate}

abbrev pub Memory : Type 0
Memory = ℕ → ℕ

-- The `n` bytes at `p`.
abbrev pub bytes_at : Memory → ℕ → ℕ → List ℕ
bytes_at m p n = tabulate n (λ k. m (p + k))

-- memcpy(m + p, xs, length xs): a byte outside the copied range keeps its value.
abbrev pub memcpy : Memory → ℕ → List ℕ → Memory
memcpy m p xs j = if ltb j p then m j else get_or xs (j - p) (m j)

get_or_past : (xs : List ℕ) (k d : ℕ) → length xs ≤ k → get_or xs k d ≡ d
get_or_past [] k d h = refl
get_or_past (x ∷ xs) zero d h = absurd (omega arith)
get_or_past (x ∷ xs) (suc k) d h = get_or_past xs k d (omega arith)

get_or_default : (xs : List ℕ) (k d e : ℕ) → k < length xs → get_or xs k d ≡ get_or xs k e
get_or_default [] k d e h = absurd (omega arith)
get_or_default (x ∷ xs) zero d e h = refl
get_or_default (x ∷ xs) (suc k) d e h = get_or_default xs k d e (omega arith)

pub memcpy_inside :
    (m : Memory) (p : ℕ) (xs : List ℕ) (j k : ℕ)
    → j ≡ p + k
    → k < length xs
    → memcpy m p xs j ≡ get_or xs k 0
memcpy_inside m p xs j k e h = ground (arith, get_or_default xs k (m j) 0 h, e')
  where
    e' : j - p ≡ k
    e' = omega arith

pub memcpy_outside :
    (m : Memory) (p : ℕ) (xs : List ℕ) (j : ℕ)
    → (j < p) ⊎ (p + length xs ≤ j)
    → memcpy m p xs j ≡ m j
memcpy_outside m p xs j h = ground (arith, get_or_past xs (j - p) (m j))
