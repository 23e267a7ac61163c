-- ===== src/Frame/Mask.antt =====
-- The masking loops: of websocket_send_pong into a new buffer, and of process_frames in place.
use websocket.Prelude.{
  ℕ, zero, suc, ◌+◌, ◌%◌, ◌≡◌, ◌<◌, ◌≤◌, ◌⊎◌, inl, List, [], ◌∷◌, bit_xor, bit_xor_undo, ap, ap₂,
  refl, ◌==◌, if◌then◌else◌, Memory, bytes_at, length, arith, ◌∙◌, sym, tabulate_congr,
}
use websocket.Frame.Build.{key_byte}

-- masked_payload[i] = payload[i] ^ ((uint8_t *) &masking_key)[i % 4], from index `i` on.
unfoldable pub mask_from : ℕ → ℕ → List ℕ → List ℕ
mask_from key i [] = []
mask_from key i (x ∷ xs) = bit_xor x (key_byte key (i % 4)) ∷ mask_from key (i + 1) xs

-- m[p] = x
abbrev pub store : Memory → ℕ → ℕ → Memory
store m p x j = if j == p then x else m j

-- for (i = 0; i < len; i++) payload[i] ^= ..., with `left` rounds left at index `i`.
unfoldable pub unmask_loop : ℕ → ℕ → ℕ → ℕ → Memory → Memory
unmask_loop p key zero i m = m
unmask_loop p key (suc left) i m =
    unmask_loop p key left (i + 1) (store m (p + i) (bit_xor (m (p + i)) (key_byte key (i % 4))))

-- Masking twice with one key gives the payload back.
pub mask_from_undo : (key i : ℕ) (xs : List ℕ) → mask_from key i (mask_from key i xs) ≡ xs
unfolding mask_from
mask_from_undo key i [] = refl
mask_from_undo key i (x ∷ xs) = ap₂ ◌∷◌ (bit_xor_undo x _) (mask_from_undo key (i + 1) xs)

pub length-mask_from : (key i : ℕ) (xs : List ℕ) → length (mask_from key i xs) ≡ length xs
unfolding mask_from
length-mask_from key i [] = refl
length-mask_from key i (x ∷ xs) = ap suc (length-mask_from key (i + 1) xs)

-- The loop changes no byte outside the range it goes over,
pub unmask_loop_outside :
    (p key left i : ℕ) (m : Memory) (j : ℕ)
    → (j < p + i) ⊎ (p + i + left ≤ j)
    → unmask_loop p key left i m j ≡ m j
unfolding unmask_loop
unmask_loop_outside p key zero i m j h = refl
unmask_loop_outside p key (suc left) i m j h = ground (
  arith,
  unmask_loop_outside p key left (i + 1)
      (store m (p + i) (bit_xor (m (p + i)) (key_byte key (i % 4)))) j,
)

-- One round at index `i`.
abbrev round : ℕ → ℕ → ℕ → Memory → Memory
round p key i m = store m (p + i) (bit_xor (m (p + i)) (key_byte key (i % 4)))

unmask_loop-suc :
    (p key left i : ℕ) (m : Memory)
    → unmask_loop p key (suc left) i m ≡ unmask_loop p key left (i + 1) (round p key i m)
unfolding unmask_loop
unmask_loop-suc p key left i m = refl

-- and masks the bytes inside as `mask_from` does.
pub unmask_loop_lem :
    (p key left i : ℕ) (m : Memory)
    → bytes_at (unmask_loop p key left i m) (p + i) left ≡ mask_from key i (bytes_at m (p + i) left)
unfolding mask_from
unmask_loop_lem p key zero i m = refl
unmask_loop_lem p key (suc left) i m = rw unmask_loop-suc (
    ap₂ ◌∷◌ (first ∙ ap (λ t. bit_xor (m t) (key_byte key (i % 4))) (sym here)) (
      tabulate_congr left _ _
        (λ k h. ap (unmask_loop p key left (i + 1) (round p key i m)) (omega arith))
      ∙ unmask_loop_lem p key left (i + 1) (round p key i m)
      ∙ ap (mask_from key (i + 1)) (tabulate_congr left _ _ after)))
  where
    here : p + i + 0 ≡ p + i
    here = omega arith

    first :
        unmask_loop p key left (i + 1) (round p key i m) (p + i + 0)
        ≡ bit_xor (m (p + i)) (key_byte key (i % 4))
    first = rw here (
        unmask_loop_outside p key left (i + 1) (round p key i m) (p + i) (inl (omega arith))
        ∙ ground arith)

    after : (k : ℕ) → k < left → round p key i m (p + (i + 1) + k) ≡ m (p + i + suc k)
    after k h = ground (arith, ap m moved)
      where
        moved : p + (i + 1) + k ≡ p + i + suc k
        moved = omega arith

-- The whole loop masks the payload in place.
pub unmask_loop_whole :
    (p key n : ℕ) (m : Memory)
    → bytes_at (unmask_loop p key n 0 m) p n ≡ mask_from key 0 (bytes_at m p n)
unmask_loop_whole p key n m =
    let e : p + 0 ≡ p = omega arith in rw e at (unmask_loop_lem p key n 0 m)
