-- ===== src/Client/Samples/Window.antt =====
-- The array of latency samples as the window of the newest ones.
use native.Mathlib.Nat.{mod-eq_of_lt, mod-eq-sub-mod}
use native.Mathlib.Decide.{dec_lt}
use websocket.Prelude.{
  ℕ, zero, suc, ◌+◌, ◌-◌, ◌%◌, ◌≤◌, ◌<◌, ◌≡◌, ◌≢◌, ◌∙◌, refl, sym, ap, ap₂, List, [], ◌∷◌, some,
  Bool-cases, inl, inr, false, ltb, ◌==◌, if◌then◌else◌, length, get_or, take, take_of_le, tabulate,
  tabulate_congr, take-tabulate, length-tabulate, arith,
}
use websocket.Client.{Latency}
use websocket.Client.Samples.{set_at, update_latency_sample}

-- The array and its fields agree: the next place to fill is behind the filled ones until the array
-- is full.
pub record IsWindow (l : Latency) (samples : List ℕ) : Type 0 where
  pub given : l.samples ≡ some samples
  pub whole : length samples ≡ l.capacity
  pub inside : l.idx < l.capacity
  pub bounded : l.count ≤ l.capacity

-- The samples, newest first.
unfoldable pub recent : Latency → List ℕ → List ℕ
recent l samples =
    tabulate l.count (λ k. get_or samples ((l.idx + l.capacity - 1 - k) % l.capacity) 0)

length-set_at : (xs : List ℕ) (i x : ℕ) → length (set_at xs i x) ≡ length xs
unfolding set_at
length-set_at [] i x = refl
length-set_at (y ∷ ys) zero x = refl
length-set_at (y ∷ ys) (suc i) x = ap suc (length-set_at ys i x)

get_or-set_at : (xs : List ℕ) (i x : ℕ) → i < length xs → get_or (set_at xs i x) i 0 ≡ x
unfolding set_at
get_or-set_at [] i x h = absurd (omega arith)
get_or-set_at (y ∷ ys) zero x h = refl
get_or-set_at (y ∷ ys) (suc i) x h = get_or-set_at ys i x (omega arith)

get_or-set_at_other : (xs : List ℕ) (i j x : ℕ) → i ≢ j → get_or (set_at xs i x) j 0 ≡ get_or xs j 0
unfolding set_at
get_or-set_at_other [] i j x h = refl
get_or-set_at_other (y ∷ ys) zero zero x h = absurd (h refl)
get_or-set_at_other (y ∷ ys) zero (suc j) x h = refl
get_or-set_at_other (y ∷ ys) (suc i) zero x h = refl
get_or-set_at_other (y ∷ ys) (suc i) (suc j) x h = get_or-set_at_other ys i j x (λ e. h (ap suc e))

-- A place that is counted back from another.
back_lem : (cap a : ℕ) → a < cap + cap → 0 < cap → a % cap ≡ (if ltb a cap then a else a - cap)
back_lem cap a h p = elim (dec_lt a cap) [
  | yes below ↦ ground (arith, mod-eq_of_lt below)
  | no past ↦ ground (
    arith,
    mod-eq-sub-mod {n = a} {m = cap} (omega arith),
    mod-eq_of_lt {n = a - cap} {m = cap} (omega arith),
  )
]

-- The next place to fill, as a place counted back from itself.
module _ (cap idx : ℕ) (q : idx < cap) where
  newest : ((idx + 1) % cap + cap - 1 - 0) % cap ≡ idx
  newest = ground (arith, back_lem cap (idx + 1), back_lem cap ((idx + 1) % cap + cap - 1 - 0))

  older :
      (k : ℕ) → suc k < cap → ((idx + 1) % cap + cap - 1 - suc k) % cap ≡ (idx + cap - 1 - k) % cap
  older k h = ground (
    arith,
    back_lem cap (idx + 1),
    back_lem cap ((idx + 1) % cap + cap - 1 - suc k),
    back_lem cap (idx + cap - 1 - k),
  )

  elsewhere : (k : ℕ) → suc k < cap → idx ≢ (idx + cap - 1 - k) % cap
  elsewhere k h = ground (arith, back_lem cap (idx + cap - 1 - k))

abbrev filled : Latency → List ℕ → ℕ → Latency
filled l samples x = record l {
  samples = some (set_at samples l.idx x);
  idx = (l.idx + 1) % l.capacity;
  count = if ltb l.count l.capacity then l.count + 1 else l.count;
}

update_latency_sample-filled :
    {l : Latency} {samples : List ℕ} (x : ℕ)
    → IsWindow l samples
    → update_latency_sample l x ≡ filled l samples x
unfolding update_latency_sample
update_latency_sample-filled {l} {samples} x w =
    let some_room : (l.capacity == 0) ≡ false = ground (arith, w.inside) in rw (w.given, some_room)

module _ {l : Latency} {samples : List ℕ} (x : ℕ) (w : IsWindow l samples) where
  filled-IsWindow : IsWindow (filled l samples x) (set_at samples l.idx x)
  filled-IsWindow = record {
    given = refl;
    whole = length-set_at samples l.idx x ∙ w.whole;
    inside = ground (arith, w.inside, back_lem l.capacity (l.idx + 1));
    bounded = ground (arith, w.bounded);
  }

  -- The places after the newest hold what they held.
  kept :
      (n : ℕ)
      → n < l.capacity
      → tabulate n (λ k.
        get_or
          (set_at samples l.idx x)
          (((l.idx + 1) % l.capacity + l.capacity - 1 - suc k) % l.capacity)
          0)
        ≡ tabulate n (λ k. get_or samples ((l.idx + l.capacity - 1 - k) % l.capacity) 0)
  kept n h = tabulate_congr n _ _ (λ k q.
      ap (λ t. get_or (set_at samples l.idx x) t 0)
        (older l.capacity l.idx w.inside k (omega arith))
      ∙ get_or-set_at_other samples l.idx _ x (elsewhere l.capacity l.idx w.inside k (omega arith)))

  first_sample :
      get_or
        (set_at samples l.idx x)
        (((l.idx + 1) % l.capacity + l.capacity - 1 - 0) % l.capacity)
        0
      ≡ x
  first_sample =
      ap (λ t. get_or (set_at samples l.idx x) t 0) (newest l.capacity l.idx w.inside)
      ∙ get_or-set_at samples l.idx x (omega (arith, w.inside, w.whole))

  abbrev place : ℕ → ℕ
  place k = get_or samples ((l.idx + l.capacity - 1 - k) % l.capacity) 0

  abbrev place_after : ℕ → ℕ
  place_after k =
      get_or (set_at samples l.idx x) (((l.idx + 1) % l.capacity + l.capacity - 1 - k) % l.capacity)
        0

  shifted : (m n : ℕ) → m ≡ suc n → n < l.capacity → tabulate m place_after ≡ x ∷ tabulate n place
  shifted m n e h = ap (λ t. tabulate t place_after) e ∙ ap₂ ◌∷◌ first_sample (kept n h)

  recent-filled :
      recent (filled l samples x) (set_at samples l.idx x)
      ≡ x ∷ take (l.capacity - 1) (recent l samples)
  unfolding recent
  recent-filled = elim (Bool-cases (ltb l.count l.capacity)) [
    | inl growing ↦
        let short : l.count < l.capacity = ground arith in
        rw growing (
          shifted (l.count + 1) l.count (omega arith) short
          ∙ ap (λ t. x ∷ t)
              (sym (
                take_of_le (l.capacity - 1) (tabulate l.count place)
                  (omega (arith, length-tabulate l.count place)))))
    | inr full ↦
        let all : l.count ≡ l.capacity - 1 + 1 = ground (arith, w.bounded, w.inside) in
        rw full (
          shifted l.count (l.capacity - 1) (omega arith) (omega (arith, w.inside))
          ∙ ap (λ t. x ∷ t)
              (sym (take-tabulate (l.capacity - 1) 1 place)
                ∙ ap (λ t. take (l.capacity - 1) (tabulate t place)) (sym all)))
  ]

-- update_latency_sample puts the new sample before the others and forgets the oldest once the array
-- is full.
pub update_latency_sample_lem :
    {l : Latency} {samples : List ℕ} (x : ℕ)
    → IsWindow l samples
    → let samples' = set_at samples l.idx x in
      (w : IsWindow (update_latency_sample l x) samples') × (recent
          (update_latency_sample l x)
          samples'
        ≡ x ∷ take (l.capacity - 1) (recent l samples))
update_latency_sample_lem {l} {samples} x w =
    rw (update_latency_sample-filled x w) (filled-IsWindow x w, recent-filled x w)
