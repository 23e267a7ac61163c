-- ===== src/Client/Receive/Delivery.antt =====
-- What process_frames delivers of a buffer of whole data frames.
use websocket.Prelude.{
  ℕ, ◌+◌, ◌-◌, ◌%◌, ◌≤◌, ◌<◌, ◌≡◌, ◌∙◌, refl, ap, sym, List, [], ◌∷◌, ◌++◌, append-nil, Bool,
  Bool-cases, ==_iff, tabulate, inl, inr, true, false, ◌==◌, length, length-append, get_or,
  get_or-tabulate, add_size, arith,
}
use websocket.Ring.{Ring, read_inline, used}
use websocket.Ring.Invariant.{IsValid, readable-eq-used}
use websocket.Ring.Inline.{straight_read, straight_used}
use websocket.Ring.Stored.{contents, length-contents}
use websocket.Ring.Copy.{around}
use websocket.Frame.Build.{send_header}
use websocket.Client.{WebSocket}
use websocket.Client.Receive.Rounds.{frames, announced, Holds, length-send_header, frame_loop_lem}
use native.Mathlib.Nat.{mod-eq_of_lt}
use websocket.Client.Receive.{Outside, frame_loop, advance_read, loop_start, process_frames}

pub no_frames : (messages : List (Bool × List ℕ)) → length (frames messages) ≡ 0 → messages ≡ []
unfolding frames
no_frames [] h = refl
no_frames ((is_text, xs) ∷ messages) h =
    let header = send_header is_text (length xs) in
    absurd (
      omega (
        arith,
        length-send_header is_text (length xs),
        length-append (header ++ xs) (frames messages),
        length-append header xs,
      ))

module _ (r : Ring) (v : IsValid r) (straight : r.read_ptr ≤ r.write_ptr) where
  pub straight_Holds : (xs : List ℕ) → contents r ≡ xs → Holds r.buf (r.read_ptr + 0) xs
  straight_Holds xs h k q =
      let within : k < used r.size r.read_ptr r.write_ptr =
        omega
          (arith, straight_used r v straight, ap length h, length-contents r, readable-eq-used r) in
      let place : (r.read_ptr + k) % r.size ≡ r.read_ptr + 0 + k = ground (
        arith,
        straight_used r v straight,
        v.write_in,
        mod-eq_of_lt {n = r.read_ptr + k} {m = r.size},
      ) in
      ap r.buf (sym place)
      ∙ sym (
          get_or-tabulate (used r.size r.read_ptr r.write_ptr) (around r.buf r.size r.read_ptr) k 0
            within)
      ∙ ap (λ t. get_or t k 0) h

  -- Consuming all of it leaves the ring empty.
  drained :
      (total : ℕ)
      → total ≡ r.write_ptr - r.read_ptr
      → contents (record r { read_ptr = add_size r.read_ptr total % r.size }) ≡ []
  unfolding used
  drained total h =
      let end : add_size r.read_ptr total % r.size ≡ r.write_ptr =
        ground (arith, v.write_in, v.small, mod-eq_of_lt {n = r.write_ptr} {m = r.size}) in
      let empty : used r.size (add_size r.read_ptr total % r.size) r.write_ptr ≡ 0 = ground arith in
      ap (λ t. tabulate t (around r.buf r.size (add_size r.read_ptr total % r.size))) empty

  advance_read-drained :
      (ws : WebSocket) (total : ℕ)
      → ws.rx_ring ≡ r
      → total ≡ r.write_ptr - r.read_ptr
      → 0 < total
      → contents (advance_read ws total).rx_ring ≡ []
  unfolding advance_read
  advance_read-drained ws total same h pos =
      let some_there : (total == 0) ≡ false = ground arith in
      rw some_there (
        ap (λ (r' : Ring). contents (record r' { read_ptr = add_size r'.read_ptr total % r'.size }))
          same
        ∙ drained total h)

advance_read-same :
    (ws : WebSocket) (total : ℕ)
    → let ws' = advance_read ws total in
      (ws'.events ≡ ws.events)
      × (ws'.frame_parse_errors ≡ ws.frame_parse_errors)
      × (ws'.state ≡ ws.state)
unfolding advance_read
advance_read-same ws total = elim (Bool-cases (total == 0)) [
  | inl h ↦ rw h (refl, refl, refl)
  | inr h ↦ rw h (refl, refl, refl)
]

module _ (ws : WebSocket) (outside : ℕ → Outside) (start len : ℕ)
    (given : read_inline ws.rx_ring ≡ (start, len)) where
  pub process_frames-nothing : (len == 0) ≡ true → process_frames ws outside ≡ ws
  unfolding process_frames
  process_frames-nothing h = rw (given, h)

  pub process_frames-some :
      (len == 0) ≡ false
      → let done = frame_loop 1000 outside start len (loop_start ws) in
        process_frames ws outside ≡ advance_read done.ws done.total_consumed
  unfolding process_frames
  process_frames-some h = rw (given, h)

-- With on_message set, on a well-formed receive ring that holds data frames and nothing else, that
-- does not wrap round its end and holds at most a thousand of them, process_frames hands every
-- message to the callback, in order and unchanged, counts no parse error, keeps the connection's
-- state and leaves the ring empty.
pub process_frames-delivers :
    (ws : WebSocket) (messages : List (Bool × List ℕ)) (outside : ℕ → Outside)
    → IsValid ws.rx_ring
    → ws.rx_ring.read_ptr ≤ ws.rx_ring.write_ptr
    → contents ws.rx_ring ≡ frames messages
    → length messages ≤ 1000
    → ws.on_message ≡ true
    → let ws' = process_frames ws outside in
      (ws'.events ≡ ws.events ++ announced messages)
      × (ws'.frame_parse_errors ≡ ws.frame_parse_errors)
      × (ws'.state ≡ ws.state)
      × (contents ws'.rx_ring ≡ [])
unfolding announced frames
process_frames-delivers ws messages outside v straight whole few set =
    let r = ws.rx_ring in
    let start = straight_read r v straight in
    let len = r.write_ptr - r.read_ptr in
    let lengths : length (frames messages) ≡ len =
      omega (
        arith,
        straight_used r v straight,
        ap length whole,
        length-contents r,
        readable-eq-used r,
      ) in
    elim (Bool-cases (len == 0)) [
      | inl nothing ↦
          let none_sent = no_frames messages (lengths ∙ (==_iff _ _).0 nothing) in
          rw (process_frames-nothing ws outside _ len start nothing) (
            sym (append-nil ws.events) ∙ ap (λ t. ws.events ++ announced t) (sym none_sent),
            refl,
            refl,
            whole ∙ ap frames none_sent,
          )
      | inr some_there ↦
          let l = loop_start ws in
          let (d, total) =
            frame_loop_lem messages 1000 outside r.read_ptr len l few
              (omega (arith, v.small, v.write_in)) refl (omega (arith, lengths))
              (straight_Holds r v straight (frames messages) whole) set in
          let done = frame_loop 1000 outside r.read_ptr len l in
          let kept = advance_read-same done.ws done.total_consumed in
          rw (process_frames-some ws outside _ len start some_there) (
            kept.0 ∙ d.told,
            kept.1 ∙ d.same_errors,
            kept.2 ∙ d.same_state,
            advance_read-drained r v straight done.ws done.total_consumed d.same_ring total
                (ground (arith, total)),
          )
    ]
