-- ===== src/Client/Receive/Rounds.antt =====
-- The loop of process_frames over whole data frames.
use websocket.Prelude.{
  ℕ, zero, suc, ◌+◌, ◌-◌, ◌^◌, ◌≤◌, ◌<◌, ◌≡◌, ◌∙◌, refl, ap, List, [], ◌∷◌, ◌++◌, append_assoc,
  Bool, true, false, ltb, ◌==◌, length, length-append, get_or, get_or_append_left,
  get_or_append_right, tabulate_congr, tabulate-get_or, Memory, bytes_at, add_size, sub_size, arith,
}
use websocket.Ring.{Ring}
use websocket.Frame.{Frame, success, zero_frame, neon_parse_ws_frame}
use websocket.Frame.Bounds.{parse_reads_within}
use websocket.Frame.Build.{send_header, as_memory}
use websocket.Frame.Roundtrip.{parsed, parse_send, data_byte, length_type}
use websocket.Client.{Event, message}
use websocket.Client.Receive.Handled.{
  Delivered, Delivered-nothing, Delivered-trans, Delivered-events, get_frame_from_pool-Delivered,
  handle_data_frame,
}
use websocket.Client.Receive.{
  Outside, Loop, get_frame_from_pool, handle_frame, take_frame, after_parse, frame_round,
  frame_loop,
}

-- Data frames one after another, each of a text or binary message.
unfoldable pub frames : List (Bool × List ℕ) → List ℕ
frames [] = []
frames ((is_text, xs) ∷ messages) = (send_header is_text (length xs) ++ xs) ++ frames messages

-- The calls of on_message for them.
unfoldable pub announced : List (Bool × List ℕ) → List Event
announced [] = []
announced ((is_text, xs) ∷ messages) = message xs ∷ announced messages

-- The memory holds the bytes of the list from `p` on.
abbrev pub Holds : Memory → ℕ → List ℕ → Type 0
Holds m p xs = (k : ℕ) → k < length xs → m (p + k) ≡ get_or xs k 0

pub Holds-right :
    (m : Memory) (p : ℕ) (xs ys : List ℕ) → Holds m p (xs ++ ys) → Holds m (p + length xs) ys
Holds-right m p xs ys h k q =
    ap m (omega arith)
    ∙ h (length xs + k) (omega (arith, length-append xs ys))
    ∙ get_or_append_right xs ys k 0

Holds-left : (m : Memory) (p : ℕ) (xs ys : List ℕ) → Holds m p (xs ++ ys) → Holds m p xs
Holds-left m p xs ys h k q =
    h k (omega (arith, length-append xs ys)) ∙ get_or_append_left xs ys k 0 q

Holds-bytes : (m : Memory) (p : ℕ) (xs : List ℕ) → Holds m p xs → bytes_at m p (length xs) ≡ xs
Holds-bytes m p xs h = tabulate_congr (length xs) _ _ h ∙ tabulate-get_or xs 0

-- A frame that lies inside the buffer is handled and consumed.
take_frame_lem :
    (l : Loop) (o : Outside) (start len : ℕ) (frame : Frame)
    → len ≤ 2 ^ 62
    → l.total_consumed ≤ l.offset
    → 0 < frame.header_size
    → l.offset + (frame.header_size + frame.payload_len) ≤ len
    → take_frame l o start len frame ≡ record {
      ws = handle_frame l.ws o frame (start + l.offset + frame.header_size);
      offset = l.offset + (frame.header_size + frame.payload_len);
      total_consumed = l.total_consumed + (frame.header_size + frame.payload_len);
    }
unfolding take_frame
take_frame_lem l o start len frame small behind some_header inside =
    let size : add_size frame.header_size frame.payload_len
        ≡ frame.header_size + frame.payload_len =
      omega arith in
    let left : sub_size len l.offset ≡ len - l.offset = omega arith in
    let nonempty : (frame.header_size + frame.payload_len == 0) ≡ false = ground arith in
    let fits : ltb (len - l.offset) (frame.header_size + frame.payload_len) ≡ false =
      ground arith in
    let offset : add_size l.offset (frame.header_size + frame.payload_len)
        ≡ l.offset + (frame.header_size + frame.payload_len) =
      omega arith in
    let total : add_size l.total_consumed (frame.header_size + frame.payload_len)
        ≡ l.total_consumed + (frame.header_size + frame.payload_len) =
      omega arith in
    rw (size, left, nonempty, fits, offset, total)

pub length-send_header : (is_text : Bool) (n : ℕ) → 2 ≤ length (send_header is_text n)
unfolding send_header
length-send_header is_text n = ground arith

-- A data frame at the start of the bytes that the memory holds is parsed.
parse_here :
    (m : Memory) (p : ℕ) (is_text : Bool) (xs rest : List ℕ)
    → length xs < 2 ^ 62
    → let header = send_header is_text (length xs) in
      Holds m p ((header ++ xs) ++ rest)
      → neon_parse_ws_frame (λ i. m (p + i)) (length ((header ++ xs) ++ rest)) zero_frame ≡ (
        success,
        parsed (data_byte is_text) 0 (length_type (length xs)) (length xs) 0 (length header),
      )
parse_here m p is_text xs rest small holds =
    let header = send_header is_text (length xs) in
    parse_reads_within (λ i. m (p + i)) (as_memory ((header ++ xs) ++ rest)) _ zero_frame holds
    ∙ ap (λ t. neon_parse_ws_frame (as_memory t) (length ((header ++ xs) ++ rest)) zero_frame)
        (append_assoc header xs rest)
    ∙ parse_send is_text (length xs) _ (xs ++ rest) zero_frame small
        (omega (arith, length-append (header ++ xs) rest, length-append header xs))

-- The variables of the loop after a data frame.
abbrev pub after_frame : Loop → Outside → ℕ → Bool → List ℕ → Loop
after_frame l o start is_text xs =
    let header = send_header is_text (length xs) in
    record {
      ws =
          handle_frame (get_frame_from_pool l.ws) o
            (parsed (data_byte is_text) 0 (length_type (length xs)) (length xs) 0 (length header))
            (start + l.offset + length header);
      offset = l.offset + (length header + length xs);
      total_consumed = l.total_consumed + (length header + length xs);
    }

-- A round at the start of a data frame that has wholly arrived takes it.
pub round_lem :
    (l : Loop) (o : Outside) (start len : ℕ) (is_text : Bool) (xs rest : List ℕ)
    → len ≤ 2 ^ 62
    → l.total_consumed ≤ l.offset
    → l.offset + length ((send_header is_text (length xs) ++ xs) ++ rest) ≡ len
    → Holds l.ws.rx_ring.buf (start + l.offset) ((send_header is_text (length xs) ++ xs) ++ rest)
    → frame_round l o start len ≡ (true, after_frame l o start is_text xs)
unfolding frame_round get_frame_from_pool after_parse
round_lem l o start len is_text xs rest small behind whole holds =
    let header = send_header is_text (length xs) in
    let lengths : length ((header ++ xs) ++ rest) ≡ length header + length xs + length rest =
      omega (arith, length-append (header ++ xs) rest, length-append header xs) in
    let inside : ltb l.offset len ≡ true = ground (arith, length-send_header is_text (length xs)) in
    let left : sub_size len l.offset ≡ length ((header ++ xs) ++ rest) = omega arith in
    let parse =
      parse_here l.ws.rx_ring.buf (start + l.offset) is_text xs rest
        (omega (arith, length-send_header is_text (length xs))) holds in
    rw (inside, left, parse)
      (ap (λ t. (true, t))
        (take_frame_lem _ o start len _ small behind
          (omega (arith, length-send_header is_text (length xs))) (omega arith)))

-- It hands the message to the callback.
pub after_frame-Delivered :
    (l : Loop) (o : Outside) (start : ℕ) (is_text : Bool) (xs rest : List ℕ)
    → Holds l.ws.rx_ring.buf (start + l.offset) ((send_header is_text (length xs) ++ xs) ++ rest)
    → l.ws.on_message ≡ true
    → Delivered l.ws (message xs ∷ []) (after_frame l o start is_text xs).ws
after_frame-Delivered l o start is_text xs rest holds set =
    let header = send_header is_text (length xs) in
    let m = l.ws.rx_ring.buf in
    let p = start + l.offset + length header in
    let pooled = get_frame_from_pool-Delivered l.ws in
    let payload : bytes_at (get_frame_from_pool l.ws).rx_ring.buf p (length xs) ≡ xs =
      ap (λ (r : Ring). bytes_at r.buf p (length xs)) pooled.same_ring
      ∙ Holds-bytes m p xs (
          Holds-right m (start + l.offset) header xs
            (Holds-left m (start + l.offset) (header ++ xs) rest holds)) in
    let handled =
      handle_data_frame (get_frame_from_pool l.ws) o is_text (length_type (length xs)) (length xs)
        (length header) p (pooled.same_callback ∙ set) in
    Delivered-trans pooled (Delivered-events (ap (λ t. message t ∷ []) payload) handled)

pub loop_end :
    (left : ℕ) (outside : ℕ → Outside) (start len : ℕ) (l : Loop)
    → l.offset ≡ len
    → frame_loop left outside start len l ≡ l
unfolding frame_loop frame_round
loop_end zero outside start len l h = refl
loop_end (suc left) outside start len l h =
    let stop : ltb l.offset len ≡ false = ground arith in rw stop

pub loop_more :
    (left : ℕ) (outside : ℕ → Outside) (start len : ℕ) (l l' : Loop)
    → frame_round l (outside left) start len ≡ (true, l')
    → frame_loop (suc left) outside start len l ≡ frame_loop left outside start len l'
unfolding frame_loop
loop_more left outside start len l l' h = rw h

-- The loop hands every message to the callback and consumes all the bytes.
pub frame_loop_lem :
    (messages : List (Bool × List ℕ)) (left : ℕ) (outside : ℕ → Outside) (start len : ℕ) (l : Loop)
    → length messages ≤ left
    → len ≤ 2 ^ 62
    → l.total_consumed ≡ l.offset
    → l.offset + length (frames messages) ≡ len
    → Holds l.ws.rx_ring.buf (start + l.offset) (frames messages)
    → l.ws.on_message ≡ true
    → let l' = frame_loop left outside start len l in
      Delivered l.ws (announced messages) l'.ws × (l'.total_consumed ≡ len)
unfolding frames announced
frame_loop_lem [] left outside start len l enough small same whole holds set =
    rw (loop_end left outside start len l (omega arith)) (Delivered-nothing l.ws, omega arith)
frame_loop_lem (x ∷ messages) zero outside start len l enough small same whole holds set =
    absurd (omega arith)
frame_loop_lem ((is_text, xs) ∷ messages) (suc left) outside start len l enough small same whole
      holds set =
    let header = send_header is_text (length xs) in
    let o = outside left in
    let l' = after_frame l o start is_text xs in
    let lengths : length ((header ++ xs) ++ frames messages)
        ≡ length header + length xs + length (frames messages) =
      omega (arith, length-append (header ++ xs) (frames messages), length-append header xs) in
    let now = after_frame-Delivered l o start is_text xs (frames messages) holds set in
    let next : Holds l'.ws.rx_ring.buf (start + l'.offset) (frames messages) = λ k q.
      ap (λ (r : Ring). r.buf (start + l'.offset + k)) now.same_ring
      ∙ ap l.ws.rx_ring.buf (omega (arith, length-append header xs))
      ∙ Holds-right l.ws.rx_ring.buf (start + l.offset) (header ++ xs) (frames messages) holds k
          q in
    let rest =
      frame_loop_lem messages left outside start len l' (omega arith) small (omega arith)
        (omega arith) next (now.same_callback ∙ set) in
    let step =
      loop_more left outside start len l l'
        (round_lem l o start len is_text xs (frames messages) small (omega arith) whole holds) in
    rw step (Delivered-trans now rest.0, rest.1)
