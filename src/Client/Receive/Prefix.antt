-- ===== src/Client/Receive/Prefix.antt =====
-- process_frames (src/websocket.c) on a receive ring that holds the beginning of a stream of data
-- frames.
use websocket.Prelude.{
  ◌⊎◌, ◌-◌, ℕ, zero, suc, ◌+◌, ◌^◌, ◌≤◌, ◌<◌, ◌≡◌, ◌∙◌, refl, ap, sym, List, [], ◌∷◌, ◌++◌,
  append_assoc, append_split, Bool, Bool-cases, inl, inr, true, false, ltb, ◌==◌, if◌then◌else◌,
  length, length-append, get_or_append_left, sub_size, arith, drop,
}
use native.Mathlib.Decide.{dec_lt}
use mathlib.Core.Path.{subst}
use websocket.Frame.{zero_frame, neon_parse_ws_frame}
use websocket.Frame.Bounds.{parse_reads_within, parse_invalid_iff}
use websocket.Frame.Build.{send_header, as_memory}
use websocket.Frame.Partial.{parse_part}
use websocket.Ring.{Ring}
use websocket.Client.Receive.{
  Outside, Loop, get_frame_from_pool, skip_byte, parse_error, frame_round, frame_loop,
}
use websocket.Client.Receive.Handled.{get_frame_from_pool-Delivered}
use websocket.Client.Receive.Rounds.{
  frames, Holds, Holds-right, after_frame, round_lem, after_frame-Delivered, loop_end, loop_more,
}
use websocket.Client.Receive.Partial.{
  payloads, Told, Told-nothing, Told-trans, Delivered-Told, parse_error-Told, after_parse_more,
  after_parse_invalid,
}

-- The messages are of a length that a size_t holds with room for a header.
abbrev pub AreShort : List (Bool × List ℕ) → Type 0
AreShort [] = Unit {0}
AreShort ((is_text, xs) ∷ messages) = (length xs < 2 ^ 62) × AreShort messages

pub AreShort-append :
    (ms ns : List (Bool × List ℕ)) → AreShort ms → AreShort ns → AreShort (ms ++ ns)
AreShort-append [] ns h k = k
AreShort-append ((is_text, xs) ∷ ms) ns (h, hs) k = (h, AreShort-append ms ns hs k)

pub AreShort-right : (ms ns : List (Bool × List ℕ)) → AreShort (ms ++ ns) → AreShort ns
AreShort-right [] ns h = h
AreShort-right ((is_text, xs) ∷ ms) ns (h, hs) = AreShort-right ms ns hs

-- Of the next frame only `n` bytes have arrived, fewer than it has.
abbrev pub IsCut : ℕ → List (Bool × List ℕ) → Type 0
IsCut n [] = Unit {0}
IsCut n ((is_text, xs) ∷ messages) = n < length (send_header is_text (length xs)) + length xs

stopped :
    (left : ℕ) (outside : ℕ → Outside) (start len : ℕ) (l l' : Loop)
    → frame_round l (outside left) start len ≡ (false, l')
    → frame_loop (suc left) outside start len l ≡ l'
unfolding frame_loop
stopped left outside start len l l' h = rw h

module _ (l : Loop) (start : ℕ) (is_text : Bool) (xs here later more : List ℕ)
    (cut : here ++ later ≡ (send_header is_text (length xs) ++ xs) ++ more)
    (holds : Holds l.ws.rx_ring.buf (start + l.offset) here) where
  -- The parser sees the beginning of the frame.
  parse_tail :
      neon_parse_ws_frame (λ i. l.ws.rx_ring.buf (start + l.offset + i)) (length here) zero_frame
      ≡ neon_parse_ws_frame
          (as_memory (send_header is_text (length xs) ++ (xs ++ more)))
          (length here)
          zero_frame
  parse_tail =
      parse_reads_within (λ i. l.ws.rx_ring.buf (start + l.offset + i)) (as_memory here) _
        zero_frame holds
      ∙ parse_reads_within (as_memory here) (as_memory (here ++ later)) _ zero_frame
          (λ k q. sym (get_or_append_left here later k 0 q))
      ∙ ap (λ t. neon_parse_ws_frame (as_memory t) (length here) zero_frame)
          (cut ∙ append_assoc (send_header is_text (length xs)) xs more)

  -- A single byte is taken for a parse error, a longer part of a frame is left.
  tail_round :
      (o : Outside) (len : ℕ)
      → length xs < 2 ^ 62
      → len ≤ 2 ^ 62
      → l.offset + length here ≡ len
      → 0 < length here
      → length here < length (send_header is_text (length xs)) + length xs
      → let pooled = record l { ws = get_frame_from_pool l.ws } in
        frame_round l o start len
        ≡ (if ltb (length here) 2 then (true, parse_error pooled) else (false, pooled))
  unfolding frame_round
  tail_round o len short small whole some_byte partly =
      let inside : ltb l.offset len ≡ true = ground arith in
      let left : sub_size len l.offset ≡ length here = omega arith in
      let pooled = record l { ws = get_frame_from_pool l.ws } in
      let out =
        neon_parse_ws_frame (λ i. l.ws.rx_ring.buf (start + l.offset + i)) (length here)
          zero_frame in
      elim (Bool-cases (ltb (length here) 2)) [
        | inl single ↦
            rw (inside, left, single)
              (after_parse_invalid pooled o start len out
                ((parse_invalid_iff _ _ _).1 (ground arith)))
        | inr several ↦
            rw (inside, left, several)
              (after_parse_more pooled o start len out (
                ap (λ t. t.0) parse_tail
                ∙ parse_part is_text (length xs) (length here) (xs ++ more) zero_frame short
                    (ground arith) partly))
      ]

  -- So nothing is consumed of it, and no message is handed out.
  tail_loop :
      (left : ℕ) (outside : ℕ → Outside) (len : ℕ)
      → length xs < 2 ^ 62
      → len ≤ 2 ^ 62
      → l.offset + length here ≡ len
      → length here < length (send_header is_text (length xs)) + length xs
      → let l' = frame_loop left outside start len l in
        Told l.ws [] l'.ws × (l'.total_consumed ≡ l.total_consumed)
  unfolding parse_error skip_byte
  tail_loop zero outside len short small whole partly =
      unfold frame_loop in (Told-nothing l.ws, refl)
  tail_loop (suc left) outside len short small whole partly =
      let pooled = record l { ws = get_frame_from_pool l.ws } in
      let kept : Told l.ws [] pooled.ws = Delivered-Told (get_frame_from_pool-Delivered l.ws) in
      elim (Bool-cases (length here == 0)) [
        | inl nothing ↦
            rw (loop_end (suc left) outside start len l (ground arith)) (Told-nothing l.ws, refl)
        | inr some_byte ↦
            let round = tail_round (outside left) len short small whole (ground arith) partly in
            elim (Bool-cases (ltb (length here) 2)) [
              | inr several ↦
                  rw (stopped left outside start len l pooled (rw several at round)) (kept, refl)
              | inl single ↦
                  let end : (parse_error pooled).offset ≡ len = ground arith in
                  rw
                    (
                      loop_more left outside start len l (parse_error pooled) (rw single at round),
                      loop_end left outside start len (parse_error pooled) end,
                    )
                    (Told-trans kept (parse_error-Told pooled), refl)
            ]
      ]

-- What the loop makes of `here`, the beginning of the frames of `messages`: it takes the frames of
-- `done` and leaves those of `rest`, of which none has wholly arrived, unless its rounds are used
-- up.
pub record Took (messages : List (Bool × List ℕ)) (here later : List ℕ) (left : ℕ) (l l' : Loop)
    : Type 0 where
  pub done : List (Bool × List ℕ)
  pub rest : List (Bool × List ℕ)
  pub split : messages ≡ done ++ rest
  pub told : Told l.ws (payloads done) l'.ws
  pub consumed : l'.total_consumed ≡ l.total_consumed + length (frames done)
  pub within : length (frames done) ≤ length here
  pub full : (length done ≡ left) ⊎ IsCut (length here - length (frames done)) rest

frame_len : (is_text : Bool) (xs : List ℕ) → ℕ
frame_len is_text xs = length (send_header is_text (length xs)) + length xs

Took-nothing :
    (messages : List (Bool × List ℕ)) (here later : List ℕ) (left : ℕ) (l l' : Loop)
    → Told l.ws [] l'.ws
    → l'.total_consumed ≡ l.total_consumed
    → (0 ≡ left) ⊎ IsCut (length here) messages
    → Took messages here later left l l'
unfolding frames
Took-nothing messages here later left l l' told same full = record {
  done = [];
  rest = messages;
  split = refl;
  told = told;
  consumed = omega arith;
  within = omega arith;
  full = elim full [
    | inl used_up ↦ inl used_up
    | inr cut_off ↦ inr (subst (λ n. IsCut n messages) (omega arith) cut_off)
  ];
}

Took-more :
    (is_text : Bool) (xs : List ℕ) (messages : List (Bool × List ℕ)) (here here' later : List ℕ)
    → (left : ℕ) (l l1 l2 : Loop) → here ≡ (send_header is_text (length xs) ++ xs) ++ here'
    → Told l.ws (xs ∷ []) l1.ws
    → l1.total_consumed ≡ l.total_consumed + (length (send_header is_text (length xs)) + length xs)
    → Took messages here' later left l1 l2
    → Took ((is_text, xs) ∷ messages) here later (suc left) l l2
unfolding frames
Took-more is_text xs messages here here' later left l l1 l2 cut now count t =
    let header = send_header is_text (length xs) in
    let lengths = length-append header xs in
    let more = length-append (header ++ xs) (frames t.done) in
    record {
      done = (is_text, xs) ∷ t.done;
      rest = t.rest;
      split = ap (λ u. (is_text, xs) ∷ u) t.split;
      told = Told-trans now t.told;
      consumed = omega (arith, t.consumed, count);
      within = omega (arith, t.within, ap length cut, length-append (header ++ xs) here');
      full = elim t.full [
        | inl used_up ↦ inl (omega arith)
        | inr cut_off ↦ inr (
            subst (λ n. IsCut n t.rest)
              (omega (arith, lengths, more, ap length cut, length-append (header ++ xs) here'))
              cut_off)
      ];
    }

-- The loop takes the frames that have wholly arrived, as far as its rounds go.
pub frame_loop-Took :
    (messages : List (Bool × List ℕ)) (here later : List ℕ) (left : ℕ) (outside : ℕ → Outside)
    → (start len : ℕ) (l : Loop) → AreShort messages
    → len ≤ 2 ^ 62
    → l.total_consumed ≡ l.offset
    → l.offset + length here ≡ len
    → here ++ later ≡ frames messages
    → Holds l.ws.rx_ring.buf (start + l.offset) here
    → l.ws.on_message ≡ true
    → Took messages here later left l (frame_loop left outside start len l)
unfolding frames
frame_loop-Took [] here later left outside start len l short small same whole cut holds set =
    let nothing : length here ≡ 0 = omega (arith, ap length cut, length-append here later) in
    rw (loop_end left outside start len l (omega arith))
      (Took-nothing [] here later left l l (Told-nothing l.ws) refl (inr tt))
frame_loop-Took (x ∷ messages) here later zero outside start len l short small same whole cut holds
      set =
    unfold frame_loop in
    Took-nothing (x ∷ messages) here later 0 l l (Told-nothing l.ws) refl (inl refl)
frame_loop-Took ((is_text, xs) ∷ messages) here later (suc left) outside start len l (short, shorts)
      small same whole cut holds set =
    let header = send_header is_text (length xs) in
    let l' = frame_loop (suc left) outside start len l in
    elim (dec_lt (length here) (length header + length xs)) [
      | yes partly ↦
          let (told, count) =
            tail_loop l start is_text xs here later (frames messages) cut holds (suc left) outside
              len short small whole partly in
          Took-nothing ((is_text, xs) ∷ messages) here later (suc left) l l' told count (inr partly)
      | no wholly ↦
          let (front, back) =
            append_split here later (header ++ xs) (frames messages) cut
              (omega (arith, length-append header xs)) in
          let here' = drop (length (header ++ xs)) here in
          let holds' : Holds l.ws.rx_ring.buf (start + l.offset) ((header ++ xs) ++ here') =
            subst (λ t. Holds l.ws.rx_ring.buf (start + l.offset) t) front holds in
          let whole' : l.offset + length ((header ++ xs) ++ here') ≡ len =
            ap (λ t. l.offset + length t) (sym front) ∙ whole in
          let l1 = after_frame l (outside left) start is_text xs in
          let now = after_frame-Delivered l (outside left) start is_text xs here' holds' set in
          let next : Holds l1.ws.rx_ring.buf (start + l1.offset) here' = λ k q.
            ap (λ (r : Ring). r.buf (start + l1.offset + k)) now.same_ring
            ∙ ap l.ws.rx_ring.buf (omega (arith, length-append header xs))
            ∙ Holds-right l.ws.rx_ring.buf (start + l.offset) (header ++ xs) here' holds' k q in
          let lengths = length-append (header ++ xs) here' in
          let step = loop_more left outside start len l l1 (
            round_lem l (outside left) start len is_text xs here' small (omega arith) whole'
              holds') in
          rw step (
            Took-more is_text xs messages here here' later left l l1 _ front (Delivered-Told now)
              refl
              (frame_loop-Took messages here' later left outside start len l1 shorts small
                (omega arith) (omega (arith, lengths, length-append header xs)) back next
                (now.same_callback ∙ set)))
    ]
