-- ===== src/Client/Samples.antt =====
-- The rolling window of latencies (src/websocket.c, update_latency_sample).
pub mod Window
use websocket.Prelude.{
  ℕ, zero, suc, ◌+◌, ◌%◌, List, [], ◌∷◌, Option, none, some, ltb, ◌==◌, if◌then◌else◌,
}
use websocket.Client.{Latency}

-- xs[i] = x
unfoldable pub set_at : List ℕ → ℕ → ℕ → List ℕ
set_at [] i x = []
set_at (y ∷ ys) zero x = x ∷ ys
set_at (y ∷ ys) (suc i) x = y ∷ set_at ys i x

-- `update_latency_sample`
unfoldable pub update_latency_sample : Latency → ℕ → Latency
update_latency_sample l latency_ns = go l.samples
  where
    go : Option (List ℕ) → Latency
    go none = l
    go (some samples) = if l.capacity == 0 then l else (record l {
      samples = some (set_at samples l.idx latency_ns);
      idx = (l.idx + 1) % l.capacity;
      count = if ltb l.count l.capacity then l.count + 1 else l.count;
    })
