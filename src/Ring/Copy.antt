-- ===== src/Ring/Copy.antt =====
-- The two-part copies of ringbuffer.c, read round the end of the buffer.
use native.Mathlib.Nat.{mod-eq_of_lt, mod-eq-sub-mod}
use native.Mathlib.Decide.{dec_lt}
use websocket.Prelude.{
  ℕ, ◌+◌, ◌-◌, ◌*◌, ◌%◌, ◌^◌, ◌≤◌, ◌<◌, ◌≡◌, ◌∙◌, List, ◌++◌, length, refl, ◌⊎◌, true, false, arith,
  ap, ap₂, sym, length-take, length-drop, add_size, sub_size, ltb, leb, if◌then◌else◌, inl, inr,
  take, drop, get_or, get_or-take, get_or-drop, Memory, memcpy, memcpy_inside, memcpy_outside,
  tabulate, tabulate_congr, tabulate-add,
}
use websocket.Ring.{copy_in, copy_out}

-- The byte `k` places after `p`, round the end.
abbrev pub around : Memory → ℕ → ℕ → ℕ → ℕ
around buf size p k = buf ((p + k) % size)

-- (p + k) % size, by cases.
pub wrap_lem :
    (size p k : ℕ)
    → p < size
    → k < size
    → (p + k) % size ≡ (if ltb (p + k) size then p + k else p + k - size)
wrap_lem size p k h q = elim (dec_lt (p + k) size) [
  | yes below ↦ ground (arith, mod-eq_of_lt below)
  | no past ↦ ground (
    arith,
    mod-eq-sub-mod {n = p + k} {m = size} (omega arith),
    mod-eq_of_lt {n = p + k - size} {m = size} (omega arith),
  )
]

wrap_after : {size a : ℕ} → size ≤ a → a < 2 * size → a % size ≡ a - size
wrap_after {size} {a} h q =
    mod-eq-sub-mod {n = a} {m = size} h ∙ mod-eq_of_lt {n = a - size} {m = size} (omega arith)

module _ (buf : Memory) (size wp : ℕ) (xs : List ℕ) (small : size ≤ 2 ^ 62)
    (inside : wp < size) where
  pub copy_in_straight : wp + length xs ≤ size → copy_in buf size wp xs ≡ memcpy buf wp xs
  unfolding copy_in
  copy_in_straight h = ground arith

  abbrev split_copy : Memory
  split_copy = memcpy (memcpy buf wp (take (size - wp) xs)) 0 (drop (size - wp) xs)

  copy_in_split : size < wp + length xs → length xs ≤ size → copy_in buf size wp xs ≡ split_copy
  unfolding copy_in
  copy_in_split h fits =
      let first : sub_size size wp ≡ size - wp = omega arith in rw first (ground arith)

  split_copy_before :
      (k : ℕ)
      → length xs ≤ size
      → k < length xs
      → wp + k < size
      → split_copy (wp + k) ≡ get_or xs k 0
  split_copy_before k fits h before =
      memcpy_outside (memcpy buf wp (take (size - wp) xs)) 0 (drop (size - wp) xs) (wp + k)
        (inr (omega (arith, length-drop (size - wp) xs)))
      ∙ memcpy_inside buf wp (take (size - wp) xs) (wp + k) k refl
          (omega (arith, length-take (size - wp) xs))
      ∙ get_or-take (size - wp) xs k 0 (omega arith)

  split_copy_after :
      (k : ℕ) → k < length xs → size ≤ wp + k → split_copy (wp + k - size) ≡ get_or xs k 0
  split_copy_after k h after =
      memcpy_inside (memcpy buf wp (take (size - wp) xs)) 0 (drop (size - wp) xs) (wp + k - size)
        (wp + k - size) (omega arith) (omega (arith, length-drop (size - wp) xs))
      ∙ get_or-drop (size - wp) xs (wp + k - size) 0
      ∙ ap (λ (t : ℕ). get_or xs t 0) (omega arith)

  split_copy_elsewhere :
      (j : ℕ)
      → size < wp + length xs
      → ((wp + length xs - size ≤ j) × (j < wp)) ⊎ (size ≤ j)
      → length xs ≤ size
      → split_copy j ≡ buf j
  split_copy_elsewhere j long away fits =
      memcpy_outside (memcpy buf wp (take (size - wp) xs)) 0 (drop (size - wp) xs) j
        (inr (ground (arith, length-drop (size - wp) xs)))
      ∙ memcpy_outside buf wp (take (size - wp) xs) j (ground (arith, length-take (size - wp) xs))

  -- The byte `k` of what is copied stands `k` places after the write position.
  pub copy_in_inside :
      (k : ℕ)
      → length xs ≤ size
      → k < length xs
      → around (copy_in buf size wp xs) size wp k ≡ get_or xs k 0
  copy_in_inside k fits h = elim (dec_lt size (wp + length xs)) [
    | no short ↦
        rw (copy_in_straight (omega arith), mod-eq_of_lt {n = wp + k} {m = size} (omega arith))
          (memcpy_inside buf wp xs (wp + k) k refl h)
    | yes long ↦ rw (copy_in_split long fits) (elim (dec_lt (wp + k) size) [
      | yes before ↦ rw (mod-eq_of_lt before) (split_copy_before k fits h before)
      | no after ↦
          rw (wrap_after {size = size} {a = wp + k} (omega arith) (omega arith))
            (split_copy_after k h (omega arith))
    ])
  ]

  -- The other bytes of the ring keep their values.
  pub copy_in_outside :
      (k : ℕ)
      → length xs ≤ k
      → k < size
      → around (copy_in buf size wp xs) size wp k ≡ around buf size wp k
  copy_in_outside k h q = elim (dec_lt size (wp + length xs)) [
    | no short ↦
        rw (copy_in_straight (omega arith))
          (memcpy_outside buf wp xs ((wp + k) % size) (ground (arith, wrap_lem size wp k inside q)))
    | yes long ↦ rw (copy_in_split long (omega arith)) (
        split_copy_elsewhere ((wp + k) % size) long
          (inl (
            ground (arith, wrap_lem size wp k inside q),
            ground (arith, wrap_lem size wp k inside q),
          ))
          (omega arith))
  ]

  -- Nothing past the ring is written.
  pub copy_in_past : (j : ℕ) → length xs ≤ size → size ≤ j → copy_in buf size wp xs j ≡ buf j
  copy_in_past j fits h = elim (dec_lt size (wp + length xs)) [
    | no short ↦
        rw (copy_in_straight (omega arith)) (memcpy_outside buf wp xs j (inr (omega arith)))
    | yes long ↦ rw (copy_in_split long fits) (split_copy_elsewhere j long (inr h) fits)
  ]

pub copy_out_lem :
    (buf : Memory) (size rp n : ℕ)
    → size ≤ 2 ^ 62
    → rp < size
    → n ≤ size
    → copy_out buf size rp n ≡ tabulate n (around buf size rp)
unfolding copy_out
copy_out_lem buf size rp n small inside fits = elim (dec_lt size (rp + n)) [
  | no short ↦
      let one_part : leb (add_size rp n) size ≡ true = ground arith in
      rw one_part (tabulate_congr n _ _ (λ k h. ap buf (sym (mod-eq_of_lt (omega arith)))))
  | yes long ↦
      let two_parts : leb (add_size rp n) size ≡ false = ground arith in
      let first : sub_size size rp ≡ size - rp = omega arith in
      let second : sub_size n (size - rp) ≡ n - (size - rp) = omega arith in
      let whole : n ≡ (size - rp) + (n - (size - rp)) = omega arith in
      rw (two_parts, first, second)
        (ap₂ ◌++◌
            (tabulate_congr (size - rp) _ _ (λ k h. ap buf (sym (mod-eq_of_lt (omega arith)))))
            (tabulate_congr (n - (size - rp)) _ _
              (λ k h. ap buf (sym (wrap_after (omega arith) (omega arith) ∙ (omega arith)))))
          ∙ sym (tabulate-add (size - rp) (n - (size - rp)) (around buf size rp))
          ∙ ap (λ t. tabulate t (around buf size rp)) (sym whole))
]
