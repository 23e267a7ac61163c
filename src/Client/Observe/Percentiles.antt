-- ===== src/Client/Observe/Percentiles.antt =====
-- What calculate_latency_percentiles reads off the sorted window (src/websocket.c).
use mathlib.Core.List.{Perm}
use websocket.Prelude.{ℕ, ◌/◌, ◌<◌, ◌≡◌, refl, List, some, true, false, ◌==◌, get_or, take, arith}
use websocket.Client.{Double, Latency}
use websocket.Client.Observe.{
  Floating, half, ninety_nine, bubble_sort, clamp, calculate_latency_percentiles,
}
use websocket.Client.Observe.Sort.{is_sorted, bubble_sort_lem}

-- Both percentiles are elements of the sorted window: `p50` the one at half its length.
pub record ArePercentiles (f : Floating) (l : Latency) (samples : List ℕ) (p : Double × Double)
    : Type 0 where
  pub sorted : List ℕ
  pub ascending : is_sorted sorted ≡ true
  pub same : Perm sorted (take l.count samples)
  pub p50_in : l.count / 2 < l.count
  pub p50 : p.0 ≡ f.of_integer (get_or sorted (l.count / 2) 0)
  pub p99_index : ℕ
  pub p99_in : p99_index < l.count
  pub p99 : p.1 ≡ f.of_integer (get_or sorted p99_index 0)

clamp_lt : (index count : ℕ) → 0 < count → clamp index count < count
unfolding clamp
clamp_lt index count h = ground arith

-- Where there are samples and memory, and half the count as a double, cut off, is half the count,
-- both percentiles are elements of the window's samples in ascending order, read inside them: `p50`
-- the one at half the count, rounded down.
pub percentiles_lem :
    (f : Floating) (l : Latency) (samples : List ℕ)
    → l.samples ≡ some samples
    → 0 < l.count
    → f.to_integer (f.mul (f.of_integer l.count) half) ≡ l.count / 2
    → ArePercentiles f l samples (calculate_latency_percentiles f l true)
unfolding calculate_latency_percentiles
percentiles_lem f l samples e h exact =
    let some_there : (l.count == 0) ≡ false = ground arith in
    let index = clamp (f.to_integer (f.mul (f.of_integer l.count) ninety_nine)) l.count in
    let (ascending, same) = bubble_sort_lem (take l.count samples) in
    record {
      sorted = bubble_sort (take l.count samples);
      ascending = ascending;
      same = same;
      p50_in = omega arith;
      p50 = rw (e, some_there, exact) refl;
      p99_index = index;
      p99_in = clamp_lt _ l.count h;
      p99 = rw (e, some_there) refl;
    }
