-- ===== src/Client/Send/Queued.antt =====
-- What websocket_send and websocket_send_pong leave in the transmit ring.
use websocket.Prelude.{
  ℕ, suc, suc-==-zero, [], ◌∷◌, none, Option, ◌⊎◌, ◌+◌, ◌-◌, ◌≤◌, ◌<◌, ◌≡◌, ◌∙◌, List, ◌++◌,
  append_assoc, some, Bool, Bool-cases, inl, inr, append-nil, true, false, ◌==◌, leb, if◌then◌else◌,
  length, take, take-append, length-append, length-take, arith, ap, ap₂, sym, min, refl, ◌&&◌,
}
use websocket.Ring.{Ring, writeable, readable}
use websocket.Ring.Invariant.{IsValid, write-IsValid, writeable-add-readable}
use websocket.Ring.Stored.{contents, length-contents}
use websocket.Ring.Refine.{write_lem, write-size}
use websocket.Frame.Build.{send_header, pong_header}
use websocket.Frame.Mask.{mask_from}
use websocket.Client.{WebSocket, Flush, flush, u64_add}
use websocket.Client.Send.{is_connected, wrote_all, websocket_send, websocket_send_pong}

-- `message` is appended to the bytes of `r`, all of it if `ok` and else as much as there is room
-- for.
pub record Queues (r : Ring) (message : List ℕ) (ok : Bool) (r' : Ring) : Type 0 where
  pub fits : ok ≡ leb (length message) (writeable r)
  pub bytes : contents r' ≡ contents r ++ take (writeable r) message
  pub valid : IsValid r'

wrote_all-Queues :
    {r : Ring} (xs : List ℕ) → IsValid r → Queues r xs (wrote_all r xs).0 (wrote_all r xs).1
unfolding wrote_all
wrote_all-Queues {r} xs v = record {
  fits = ground (arith, (write_lem xs v).0);
  bytes = (write_lem xs v).1;
  valid = write-IsValid (some xs) v;
}

wrote_all-size : (r : Ring) (xs : List ℕ) → (wrote_all r xs).1.size ≡ r.size
unfolding wrote_all
wrote_all-size r xs = write-size r (some xs)

-- The room that is left.
left_over :
    {r : Ring} {xs : List ℕ} {ok : Bool} {r' : Ring}
    → IsValid r
    → Queues r xs ok r'
    → r'.size ≡ r.size
    → writeable r' ≡ writeable r - length xs
left_over {r} {xs} {ok} {r'} v q same =
    let held : readable r' ≡ readable r + min (writeable r) (length xs) =
      sym (length-contents r')
      ∙ ap length q.bytes
      ∙ length-append (contents r) _
      ∙ ap₂ ◌+◌ (length-contents r) (length-take (writeable r) xs) in
    omega (arith, held, writeable-add-readable v, writeable-add-readable q.valid)

-- Bytes that all fit are followed by what fits of the next ones.
then-Queues :
    {r r1 r2 : Ring} {ok : Bool} (xs ys : List ℕ)
    → IsValid r
    → r1.size ≡ r.size
    → Queues r xs true r1
    → Queues r1 ys ok r2
    → Queues r (xs ++ ys) ok r2
then-Queues {r} {r1} {r2} {ok} xs ys v same q1 q2 =
    let room = left_over v q1 same in
    let fitted : length xs ≤ writeable r = ground (arith, q1.fits) in
    record {
      fits = ground (arith, q2.fits, length-append xs ys);
      bytes =
          q2.bytes
          ∙ ap₂ ◌++◌ q1.bytes (ap (λ t. take t ys) room)
          ∙ append_assoc (contents r) _ _
          ∙ ap (λ t. contents r ++ t) (sym (take-append (writeable r) xs ys));
      valid = q2.valid;
    }

-- Bytes that do not all fit leave no room for more.
short-Queues : {r r1 : Ring} (xs ys : List ℕ) → Queues r xs false r1 → Queues r (xs ++ ys) false r1
short-Queues {r} {r1} xs ys q =
    let none_left : 0 ≡ writeable r - length xs = ground (arith, q.fits) in
    record {
      fits = ground (arith, q.fits, length-append xs ys);
      bytes =
          q.bytes
          ∙ ap (λ t. contents r ++ t)
              (sym (append-nil (take (writeable r) xs))
                ∙ ap (λ t. take (writeable r) xs ++ take t ys) {x = 0} none_left
                ∙ sym (take-append (writeable r) xs ys));
      valid = q.valid;
    }

-- A header and then a payload, the payload only after the whole header.
both_parts :
    {r : Ring} (xs ys : List ℕ)
    → IsValid r
    → let (ok1, r1) = wrote_all r xs in
      let (ok2, r2) = wrote_all r1 ys in Queues r (xs ++ ys) (ok1 && ok2) (if ok1 then r2 else r1)
both_parts {r} xs ys v =
    let q = wrote_all-Queues xs v in
    elim (Bool-cases (wrote_all r xs).0) [
      | inl h ↦
          rw h (then-Queues xs ys v (wrote_all-size r xs) (rw h at q) (wrote_all-Queues ys q.valid))
      | inr h ↦ rw h (short-Queues xs ys (rw h at q))
    ]

-- Sending at least one byte on a live connection with a well-formed transmit ring appends the frame
-- to the transmit ring, as far as there is room, and returns 0 exactly if all of it fits; only then
-- is a transfer started and the message counted.
pub websocket_send_lem :
    (ws : WebSocket) (bytes : List ℕ) (is_text : Bool) (out : Flush)
    → IsValid ws.tx_ring
    → is_connected ws.state ≡ true
    → 0 < length bytes
    → let (sent, ws') = websocket_send ws (some bytes) is_text out in
      (r : Ring) × (q : Queues ws.tx_ring (send_header is_text (length bytes) ++ bytes) sent r)
      × (ws'.tx_ring ≡ (if sent then (flush (record ws { tx_ring = r }) out).tx_ring else r))
      × (ws'.wire ≡ (if sent then (flush (record ws { tx_ring = r }) out).wire else ws.wire))
      × (ws'.metrics.messages_sent
          ≡ (if sent then u64_add ws.metrics.messages_sent 1 else ws.metrics.messages_sent))
unfolding websocket_send flush
websocket_send_lem ws bytes is_text out v up some_bytes =
    let header = send_header is_text (length bytes) in
    let both = both_parts header bytes v in
    let given : (length bytes == 0) ≡ false = ground arith in
    elim (Bool-cases (wrote_all ws.tx_ring header).0) [
      | inr h ↦ rw (given, up, h) (_, rw h at both, refl, refl, refl)
      | inl h ↦ elim (Bool-cases (wrote_all (wrote_all ws.tx_ring header).1 bytes).0) [
        | inr h' ↦ rw (given, up, h, h') (_, rw (h, h') at both, refl, refl, refl)
        | inl h' ↦ rw (given, up, h, h') (_, rw (h, h') at both, refl, refl, refl)
      ]
    ]

-- A NULL pointer, no bytes or a connection that is not open: nothing is sent or queued.
pub websocket_send_refused :
    (ws : WebSocket) (message : Option (List ℕ)) (is_text : Bool) (out : Flush)
    → (message ≡ none) ⊎ (message ≡ some []) ⊎ (is_connected ws.state ≡ false)
    → websocket_send ws message is_text out ≡ (false, ws)
unfolding websocket_send
websocket_send_refused ws none is_text out h = refl
websocket_send_refused ws (some []) is_text out h = refl
websocket_send_refused ws (some (x ∷ xs)) is_text out h = ground arith

-- A pong on a live connection with a well-formed transmit ring and memory for the masked copy
-- appends the masked frame to the transmit ring, as far as there is room, and returns 0 exactly if
-- all of it fits; only then is a transfer started.
pub websocket_send_pong_lem :
    (ws : WebSocket) (payload : List ℕ) (key : ℕ) (out : Flush)
    → IsValid ws.tx_ring
    → is_connected ws.state ≡ true
    → let (sent, ws') = websocket_send_pong ws payload key true out in
      (r : Ring) × (q : Queues ws.tx_ring
        (pong_header key (length payload) ++ mask_from key 0 payload)
        sent
        r)
      × (ws'.tx_ring ≡ (if sent then (flush (record ws { tx_ring = r }) out).tx_ring else r))
unfolding websocket_send_pong flush mask_from
websocket_send_pong_lem ws [] key out v up =
    let header = pong_header key 0 in
    let whole = wrote_all-Queues header v in
    elim (Bool-cases (wrote_all ws.tx_ring header).0) [
      | inr h ↦ rw (up, h, append-nil header) (_, rw h at whole, refl)
      | inl h ↦ rw (up, h, append-nil header) (_, rw h at whole, refl)
    ]
websocket_send_pong_lem ws (x ∷ xs) key out v up =
    let header = pong_header key (suc (length xs)) in
    let masked = mask_from key 0 (x ∷ xs) in
    let both = both_parts header masked v in
    elim (Bool-cases (wrote_all ws.tx_ring header).0) [
      | inr h ↦ rw (up, h) (_, rw h at both, refl)
      | inl h ↦ elim (Bool-cases (wrote_all (wrote_all ws.tx_ring header).1 masked).0) [
        | inr h' ↦ rw (up, h, suc-==-zero, h') (_, rw (h, h') at both, refl)
        | inl h' ↦ rw (up, h, suc-==-zero, h') (_, rw (h, h') at both, refl)
      ]
    ]
