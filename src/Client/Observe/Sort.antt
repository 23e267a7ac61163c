-- ===== src/Client/Observe/Sort.antt =====
-- The bubble sort of calculate_latency_percentiles (src/websocket.c) sorts.
use mathlib.Core.List.{Perm}
use mathlib.Core.List.Perm
use websocket.Prelude.{
  ℕ, zero, suc, ◌-◌, ◌≤◌, ◌≡◌, refl, ap, List, [], ◌∷◌, ◌++◌, append-nil, Bool, true, Bool-cases,
  inl, inr, ◌&&◌, ltb, leb, length, arith,
}
use websocket.Client.Observe.{bubble_pass, bubble_loop, bubble_sort}

-- No element is greater than `b`.
unfoldable pub all_le : ℕ → List ℕ → Bool
all_le b [] = true
all_le b (x ∷ xs) = leb x b && all_le b xs

unfoldable pub is_sorted : List ℕ → Bool
is_sorted [] = true
is_sorted (x ∷ []) = true
is_sorted (x ∷ y ∷ xs) = leb x y && is_sorted (y ∷ xs)

-- `pre` may stand before `post`: its elements are no greater than the first of those.
unfoldable pub may_precede : List ℕ → List ℕ → Bool
may_precede pre [] = true
may_precede pre (y ∷ post) = all_le y pre

pub bubble_pass-perm : (n : ℕ) (xs : List ℕ) → Perm (bubble_pass n xs) xs
unfolding bubble_pass
bubble_pass-perm zero xs = Perm.refl xs
bubble_pass-perm (suc n) [] = Perm.refl []
bubble_pass-perm (suc n) (x ∷ []) = Perm.refl (x ∷ [])
bubble_pass-perm (suc n) (x ∷ y ∷ xs) = elim (Bool-cases (ltb y x)) [
  | inl less ↦ rw less (Perm.trans (Perm.cons y (bubble_pass-perm n (x ∷ xs))) (Perm.swap x y xs))
  | inr ordered ↦ rw ordered (Perm.cons x (bubble_pass-perm n (y ∷ xs)))
]

pub bubble_loop-perm : (left : ℕ) (xs : List ℕ) → Perm (bubble_loop left xs) xs
unfolding bubble_loop
bubble_loop-perm zero xs = Perm.refl xs
bubble_loop-perm (suc left) xs =
    Perm.trans (bubble_loop-perm left (bubble_pass (suc left) xs)) (bubble_pass-perm (suc left) xs)

-- A pass takes the greatest of the elements that it looks at to the end of them, and leaves those
-- behind.
record Passed (n x : ℕ) (xs post : List ℕ) : Type 0 where
  front : List ℕ
  greatest : ℕ
  result : bubble_pass n (x ∷ xs ++ post) ≡ front ++ greatest ∷ post
  size : length front ≡ n
  above : all_le greatest front ≡ true
  least : x ≤ greatest
  bounded : (b : ℕ) → all_le b (x ∷ xs) ≡ true → greatest ≤ b

passed : (n x : ℕ) (xs post : List ℕ) → length xs ≡ n → Passed n x xs post
unfolding bubble_pass all_le
passed zero x [] post h = record {
  front = [];
  greatest = x;
  result = refl;
  size = refl;
  above = refl;
  least = omega arith;
  bounded = λ b q. ground arith;
}
passed zero x (y ∷ xs) post h = absurd (omega arith)
passed (suc n) x [] post h = absurd (omega arith)
passed (suc n) x (y ∷ xs) post h = elim (Bool-cases (ltb y x)) [
  | inl less ↦
      let p = passed n x xs post (omega arith) in
      record {
        front = y ∷ p.front;
        greatest = p.greatest;
        result = rw less (ap (λ t. y ∷ t) p.result);
        size = omega (arith, p.size);
        above = ground (arith, p.above, p.least);
        least = p.least;
        bounded = λ b q. ground (arith, p.bounded b);
      }
  | inr ordered ↦
      let p = passed n y xs post (omega arith) in
      record {
        front = x ∷ p.front;
        greatest = p.greatest;
        result = rw ordered (ap (λ t. x ∷ t) p.result);
        size = omega (arith, p.size);
        above = ground (arith, p.above, p.least);
        least = ground (arith, p.least);
        bounded = λ b q. ground (arith, p.bounded b);
      }
]

prepend-is_sorted :
    (x : ℕ) (post : List ℕ)
    → is_sorted post ≡ true
    → ((y : ℕ) (rest : List ℕ) → post ≡ y ∷ rest → x ≤ y)
    → is_sorted (x ∷ post) ≡ true
unfolding is_sorted
prepend-is_sorted x [] s h = refl
prepend-is_sorted x (y ∷ post) s h = ground (arith, h y post refl)

first_le :
    (x y : ℕ) (xs rest post : List ℕ)
    → may_precede (x ∷ xs) post ≡ true
    → post ≡ y ∷ rest
    → all_le y (x ∷ xs) ≡ true
unfolding may_precede
first_le x y xs rest post h e = rw e at h

-- The loop sorts what it looks at before what is sorted already.
bubble_loop-is_sorted :
    (left x : ℕ) (xs post : List ℕ)
    → length xs ≡ left
    → is_sorted post ≡ true
    → may_precede (x ∷ xs) post ≡ true
    → is_sorted (bubble_loop left (x ∷ xs ++ post)) ≡ true
unfolding bubble_loop
bubble_loop-is_sorted zero x (y ∷ xs) post h s q = absurd (omega arith)
bubble_loop-is_sorted zero x [] post h s q =
    prepend-is_sorted x post s
      (λ y rest e. unfold all_le in ground (arith, first_le x y [] rest post q e))
bubble_loop-is_sorted (suc left) x xs post h s q =
    go p.front p.result p.size p.above (λ f fs. bubble_loop-is_sorted left f fs (p.greatest ∷ post))
  where
    p : Passed (suc left) x xs post
    p = passed (suc left) x xs post h

    go :
        (front : List ℕ)
        → bubble_pass (suc left) (x ∷ xs ++ post) ≡ front ++ p.greatest ∷ post
        → length front ≡ suc left
        → all_le p.greatest front ≡ true
        → ((f : ℕ) (fs : List ℕ)
            → length fs ≡ left
            → is_sorted (p.greatest ∷ post) ≡ true
            → may_precede (f ∷ fs) (p.greatest ∷ post) ≡ true
            → is_sorted (bubble_loop left (f ∷ fs ++ p.greatest ∷ post)) ≡ true)
        → is_sorted (bubble_loop left (bubble_pass (suc left) (x ∷ xs ++ post))) ≡ true
    go [] e size above rest = absurd (omega arith)
    go (f ∷ fs) e size above sorts = rw e (
        sorts f fs (omega arith)
          (prepend-is_sorted p.greatest post s
            (λ y rest e'. p.bounded y (first_le x y xs rest post q e')))
          (unfold may_precede in above))

-- The bubble sort of calculate_latency_percentiles returns the elements that it is given, in
-- ascending order.
pub bubble_sort_lem : (xs : List ℕ) → (is_sorted (bubble_sort xs) ≡ true) × Perm (bubble_sort xs) xs
unfolding bubble_sort is_sorted all_le may_precede bubble_loop
bubble_sort_lem [] = (refl, bubble_loop-perm 0 [])
bubble_sort_lem (x ∷ xs) =
    let passes : length (x ∷ xs) - 1 ≡ length xs = omega arith in
    rw passes (
      rw append-nil at (bubble_loop-is_sorted (length xs) x xs [] refl refl refl),
      bubble_loop-perm (length xs) (x ∷ xs),
    )
