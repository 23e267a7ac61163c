-- ===== src/Client/Process/Drained.antt =====
-- The loop that empties the receive ring ends (src/websocket.c).
use websocket.Prelude.{ℕ, zero, suc, ◌+◌, ◌<◌, ◌≡◌, refl, Bool-cases, inl, inr, false, ◌==◌, arith}
use native.Mathlib.Nat.{suc-add, mod-eq_of_lt}
use websocket.Ring.{readable}
use websocket.Ring.Invariant.{IsValid}
use websocket.Client.Receive.{process_frames}
use websocket.Client.Receive.Robust.{process_frames-consumes}
use websocket.Client.Process.{World, Run, pass}
use websocket.Client.Process.Turn.{drain}

pass-rx-IsValid : (w : World) (s : Run) → IsValid s.ws.rx_ring → IsValid (pass w s).ws.rx_ring
unfolding pass
pass-rx-IsValid w s v = (process_frames-consumes s.ws (w.passes s.passed) v).0

-- A call that moves the read position takes at least one byte.
pass-readable :
    (w : World) (s : Run)
    → IsValid s.ws.rx_ring
    → ((pass w s).ws.rx_ring.read_ptr == s.ws.rx_ring.read_ptr) ≡ false
    → readable (pass w s).ws.rx_ring < readable s.ws.rx_ring
unfolding pass
pass-readable w s v moved =
    let r = s.ws.rx_ring in
    let (v', rest) = process_frames-consumes s.ws (w.passes s.passed) v in
    let (n, h, p, total) = rest in
    elim (Bool-cases (n == 0)) [
      | inr some_consumed ↦ ground arith
      | inl none_consumed ↦
          let stays : (process_frames s.ws (w.passes s.passed)).rx_ring.read_ptr ≡ r.read_ptr =
            ground
              (arith, p.read_ptr, v.read_in, v.small, mod-eq_of_lt {n = r.read_ptr} {m = r.size}) in
          absurd (ground arith)
    ]

-- On a well-formed receive ring, with more calls allowed than there are bytes, the loop ends by
-- itself: it comes to the same end with any greater number.
pub drain_ends :
    (w : World) (fuel more : ℕ) (s : Run)
    → IsValid s.ws.rx_ring
    → readable s.ws.rx_ring < fuel
    → drain w (fuel + more) s ≡ drain w fuel s
unfolding drain
drain_ends w zero more s v h = absurd (omega arith)
drain_ends w (suc fuel) more s v h =
    elim (Bool-cases ((pass w s).ws.rx_ring.read_ptr == s.ws.rx_ring.read_ptr)) [
      | inl stays ↦ rw (suc-add, stays) refl
      | inr moved ↦
          rw (suc-add, moved)
            (drain_ends w fuel more (pass w s) (pass-rx-IsValid w s v)
              (omega (arith, pass-readable w s v moved)))
    ]
