-- ===== src/Client/Receive/Stream.antt =====
-- process_frames (src/websocket.c) as a consumer of a stream of data frames.
use mathlib.Core.Path.{subst}
use websocket.Prelude.{
  ◌⊎◌, ◌∷◌, ℕ, ◌-◌, ◌≤◌, ◌≡◌, ◌∙◌, refl, ap, sym, List, [], ◌++◌, append-nil, append_split, Bool,
  Bool-cases, inl, inr, true, ◌==◌, ==_iff, length, length-append, drop, arith,
}
use websocket.Ring.{Ring, readable}
use websocket.Ring.Invariant.{IsValid, readable-eq-used}
use websocket.Ring.Inline.{straight_read, straight_used}
use websocket.Ring.Stored.{contents, length-contents, consume-IsValid, contents-consume}
use websocket.Frame.Build.{send_header}
use websocket.Client.{WebSocket}
use websocket.Client.Receive.{Outside, frame_loop, advance_read, loop_start, process_frames}
use websocket.Client.Receive.Rounds.{frames}
use websocket.Client.Receive.Delivery.{straight_Holds, process_frames-nothing, process_frames-some}
use websocket.Client.Receive.Partial.{messages_in, payloads, frames-append}
use websocket.Client.Receive.Prefix.{AreShort, IsCut, frame_loop-Took}

-- The receiver takes the messages `done` off the stream, of which `later` has not arrived yet.
pub record Advanced (messages : List (Bool × List ℕ)) (later : List ℕ) (ws ws' : WebSocket)
    : Type 0 where
  pub done : List (Bool × List ℕ)
  pub rest : List (Bool × List ℕ)
  pub split : messages ≡ done ++ rest
  pub told : messages_in ws'.events ≡ messages_in ws.events ++ payloads done
  pub left : contents ws'.rx_ring ++ later ≡ frames rest
  pub valid : IsValid ws'.rx_ring
  pub same_callback : ws'.on_message ≡ ws.on_message
  pub same_state : ws'.state ≡ ws.state
  pub same_ssl : ws'.use_ssl ≡ ws.use_ssl
  pub full : (length done ≡ 1000) ⊎ IsCut (length (contents ws'.rx_ring)) rest

-- The beginning of a frame is no frame.
IsCut-zero : (messages : List (Bool × List ℕ)) → IsCut 0 messages
IsCut-zero [] = tt
IsCut-zero ((is_text, xs) ∷ messages) = unfold send_header in ground arith

no_more : (rest : List (Bool × List ℕ)) → length rest ≡ 0 → rest ≡ []
no_more [] h = refl
no_more (x ∷ rest) h = absurd (omega arith)

uncut : (rest : List (Bool × List ℕ)) (n : ℕ) → IsCut n rest → n ≡ length (frames rest) → rest ≡ []
unfolding frames
uncut [] n h e = refl
uncut ((is_text, xs) ∷ rest) n h e =
    let header = send_header is_text (length xs) in
    absurd (omega (arith, length-append header xs, length-append (header ++ xs) (frames rest)))

-- If all has arrived, and the rounds are enough, then nothing is left.
pub Advanced-all :
    {messages : List (Bool × List ℕ)} {later : List ℕ} {ws ws' : WebSocket}
    → (a : Advanced messages later ws ws') → length messages ≤ 1000
    → later ≡ []
    → a.rest ≡ []
Advanced-all {later = later} {ws' = ws'} a few none_later = elim a.full [
  | inl used_up ↦ no_more a.rest (omega (arith, ap length a.split, length-append a.done a.rest))
  | inr cut_off ↦ uncut a.rest (length (contents ws'.rx_ring)) cut_off (
      omega
        (arith, ap length a.left, ap length none_later, length-append (contents ws'.rx_ring) later))
]

-- advance_read consumes, and changes nothing else.
record Consumed (ws : WebSocket) (total : ℕ) (ws' : WebSocket) : Type 0 where
  bytes : contents ws'.rx_ring ≡ drop total (contents ws.rx_ring)
  valid : IsValid ws'.rx_ring
  same_events : ws'.events ≡ ws.events
  same_callback : ws'.on_message ≡ ws.on_message
  same_state : ws'.state ≡ ws.state
  same_ssl : ws'.use_ssl ≡ ws.use_ssl

advance_read-Consumed :
    (ws : WebSocket) (total : ℕ)
    → IsValid ws.rx_ring
    → total ≤ readable ws.rx_ring
    → Consumed ws total (advance_read ws total)
unfolding advance_read
advance_read-Consumed ws total v h = elim (Bool-cases (total == 0)) [
  | inl nothing ↦ rw nothing (record {
    bytes = ap (λ (t : ℕ). drop t (contents ws.rx_ring)) {x = 0} (ground arith);
    valid = v;
    same_events = refl;
    same_callback = refl;
    same_state = refl;
    same_ssl = refl;
  })
  | inr some_bytes ↦ rw some_bytes (record {
    bytes = contents-consume total v h;
    valid = consume-IsValid total v;
    same_events = refl;
    same_callback = refl;
    same_state = refl;
    same_ssl = refl;
  })
]

-- On a well-formed receive ring that does not wrap round its end and holds the beginning of a
-- stream of data frames of fewer than 2 ^ 62 bytes each, with on_message set, process_frames hands
-- the messages of a first part of the stream to the callback, in order and unchanged, and leaves in
-- the ring what follows. That part has a thousand messages, or what is left in the ring is less
-- than a whole frame: every message that has wholly arrived has been handed out.
pub process_frames-Advanced :
    (ws : WebSocket) (messages : List (Bool × List ℕ)) (later : List ℕ) (outside : ℕ → Outside)
    → IsValid ws.rx_ring
    → ws.rx_ring.read_ptr ≤ ws.rx_ring.write_ptr
    → contents ws.rx_ring ++ later ≡ frames messages
    → AreShort messages
    → ws.on_message ≡ true
    → Advanced messages later ws (process_frames ws outside)
unfolding frames
process_frames-Advanced ws messages later outside v straight cut short set =
    let r = ws.rx_ring in
    let start = straight_read r v straight in
    let len = r.write_ptr - r.read_ptr in
    let lengths : length (contents r) ≡ len =
      omega (arith, straight_used r v straight, length-contents r, readable-eq-used r) in
    let t =
      frame_loop-Took messages (contents r) later 1000 outside r.read_ptr len (loop_start ws) short
        (omega (arith, v.small, v.write_in)) refl (omega (arith, lengths)) cut
        (straight_Holds r v straight (contents r) refl) set in
    let l' = frame_loop 1000 outside r.read_ptr len (loop_start ws) in
    elim (Bool-cases (len == 0)) [
      | inl nothing ↦ rw (process_frames-nothing ws outside _ len start nothing) (record {
        done = [];
        rest = messages;
        split = refl;
        told = sym (append-nil (messages_in ws.events));
        left = cut;
        valid = v;
        same_callback = refl;
        same_state = refl;
        same_ssl = refl;
        full = inr (
            subst (λ n. IsCut n messages) (omega (arith, (==_iff len 0).0 nothing, lengths))
              (IsCut-zero messages));
      })
      | inr some_there ↦
          let count : l'.total_consumed ≡ length (frames t.done) = omega (arith, t.consumed) in
          let behind =
            append_split (contents r) later (frames t.done) (frames t.rest)
              (cut ∙ ap frames t.split ∙ frames-append t.done t.rest) t.within in
          let c =
            advance_read-Consumed l'.ws l'.total_consumed (subst IsValid (sym t.told.same_ring) v) (
              subst (λ (x : Ring). l'.total_consumed ≤ readable x) (sym t.told.same_ring)
                (omega (arith, t.consumed, t.within, length-contents r))) in
          let taken : contents (advance_read l'.ws l'.total_consumed).rx_ring ++ later
              ≡ frames t.rest =
            ap (λ xs. xs ++ later)
              (c.bytes
                ∙ ap (λ k. drop k (contents l'.ws.rx_ring)) count
                ∙ ap (λ (x : Ring). drop (length (frames t.done)) (contents x)) t.told.same_ring)
            ∙ behind.1 in
          let remains : length (contents r) - length (frames t.done)
              ≡ length (contents (advance_read l'.ws l'.total_consumed).rx_ring) =
            omega (
              arith,
              ap length taken,
              length-append (contents (advance_read l'.ws l'.total_consumed).rx_ring) later,
              ap length (cut ∙ ap frames t.split ∙ frames-append t.done t.rest),
              length-append (contents r) later,
              length-append (frames t.done) (frames t.rest),
            ) in
          rw (process_frames-some ws outside _ len start some_there) (record {
            done = t.done;
            rest = t.rest;
            split = t.split;
            told = ap messages_in c.same_events ∙ t.told.told;
            left = taken;
            valid = c.valid;
            same_callback = c.same_callback ∙ t.told.same_callback;
            same_state = c.same_state ∙ t.told.same_state;
            same_ssl = c.same_ssl ∙ t.told.same_ssl;
            full = elim t.full [
              | inl used_up ↦ inl used_up
              | inr cut_off ↦ inr (subst (λ n. IsCut n t.rest) remains cut_off)
            ];
          })
    ]
