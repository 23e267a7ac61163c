-- ===== src/Client/Receive/Robust.antt =====
-- What process_frames does to the receive ring on any input (src/websocket.c).
use websocket.Prelude.{
  ℕ, zero, suc, ◌+◌, ◌^◌, ◌≤◌, ◌<◌, ◌≡◌, refl, Bool-cases, inl, inr, ltb, ◌==◌, ◌||◌, add_size,
  sub_size, arith,
}
use websocket.Ring.{Ring, read_inline, readable, used}
use websocket.Ring.Invariant.{IsValid, readable-eq-used, used-lt, used-advance_read}
use native.Mathlib.Nat.{mod-eq_of_lt}
use websocket.Ring.Inline.{read_inline_overrun}
use websocket.Ring.Stored.{consume, consume-IsValid}
use websocket.Frame.{Frame, Outcome, success, need_more, invalid}
use websocket.Client.{WebSocket, ws_log}
use websocket.Client.Receive.{
  Outside, Loop, get_frame_from_pool, skip_byte, parse_error, take_frame, after_parse, frame_round,
  frame_loop, loop_start, advance_read, process_frames,
}
use websocket.Client.Receive.Same.{
  SamePositions, SamePositions-eq, SamePositions-trans, handle_frame_same,
}

-- The loop's variables while it runs over `len` bytes of the ring `r`.
record Runs (r : Ring) (len : ℕ) (l : Loop) : Type 0 where
  same : SamePositions r l.ws.rx_ring
  behind : l.total_consumed ≤ l.offset
  within : l.offset ≤ len

module _ (r : Ring) (len : ℕ) (small : len ≤ 2 ^ 62) where
  skip_byte-Runs : (l : Loop) → Runs r len l → l.offset < len → Runs r len (skip_byte l)
  unfolding skip_byte
  skip_byte-Runs l v more = record {
    same = v.same;
    behind = omega (arith, v.behind);
    within = omega arith;
  }

  parse_error-Runs : (l : Loop) → Runs r len l → l.offset < len → Runs r len (parse_error l)
  unfolding parse_error skip_byte ws_log
  parse_error-Runs l v more = record {
    same = record { size = v.same.size; read_ptr = v.same.read_ptr; write_ptr = v.same.write_ptr };
    behind = omega (arith, v.behind);
    within = omega arith;
  }

  take_frame-Runs :
      (l : Loop) (o : Outside) (start : ℕ) (frame : Frame)
      → Runs r len l
      → l.offset < len
      → Runs r len (take_frame l o start len frame)
  unfolding take_frame
  take_frame-Runs l o start frame v more =
      let frame_size = add_size frame.header_size frame.payload_len in
      elim (Bool-cases ((frame_size == 0) || ltb (sub_size len l.offset) frame_size)) [
        | inl bad ↦ rw bad (skip_byte-Runs l v more)
        | inr good ↦
            let fits : l.offset + frame_size ≤ len = ground arith in
            rw good (record {
              same = SamePositions-trans v.same (handle_frame_same l.ws o frame _);
              behind = omega (arith, v.behind);
              within = omega arith;
            })
      ]

  after_parse-Runs :
      (l : Loop) (o : Outside) (start : ℕ) (parsed : Outcome × Frame)
      → Runs r len l
      → l.offset < len
      → Runs r len (after_parse l o start len parsed).1
  unfolding after_parse
  after_parse-Runs l o start (need_more, frame) v more = v
  after_parse-Runs l o start (invalid, frame) v more = parse_error-Runs l v more
  after_parse-Runs l o start (success, frame) v more = take_frame-Runs l o start frame v more

  frame_round-Runs :
      (l : Loop) (o : Outside) (start : ℕ) → Runs r len l → Runs r len (frame_round l o start len).1
  unfolding frame_round get_frame_from_pool
  frame_round-Runs l o start v = elim (Bool-cases (ltb l.offset len)) [
    | inr over ↦ rw over v
    | inl more ↦
        let pooled = record l { ws = get_frame_from_pool l.ws } in
        let v' : Runs r len pooled = record {
          same = record {
            size = v.same.size;
            read_ptr = v.same.read_ptr;
            write_ptr = v.same.write_ptr;
          };
          behind = v.behind;
          within = v.within;
        } in
        rw more (after_parse-Runs pooled o start _ v' (ground arith))
  ]

  frame_loop-Runs :
      (left : ℕ) (outside : ℕ → Outside) (start : ℕ) (l : Loop)
      → Runs r len l
      → Runs r len (frame_loop left outside start len l)
  unfolding frame_loop
  frame_loop-Runs zero outside start l v = v
  frame_loop-Runs (suc left) outside start l v =
      let v' = frame_round-Runs l (outside left) start v in
      let rest = frame_loop-Runs left outside start (frame_round l (outside left) start len).1 v' in
      elim (Bool-cases (frame_round l (outside left) start len).0) [
        | inl more ↦ rw more rest
        | inr over ↦ rw over v'
      ]

  loop_start-Runs : (ws : WebSocket) → ws.rx_ring ≡ r → Runs r len (loop_start ws)
  loop_start-Runs ws e = record {
    same = SamePositions-eq e;
    behind = omega arith;
    within = omega arith;
  }

SamePositions-IsValid : {r r' : Ring} → SamePositions r r' → IsValid r → IsValid r'
SamePositions-IsValid p v = record {
  nonempty = omega (arith, p.size, v.nonempty);
  small = omega (arith, p.size, v.small);
  read_in = omega (arith, p.size, p.read_ptr, v.read_in);
  write_in = omega (arith, p.size, p.write_ptr, v.write_in);
}

SamePositions-readable : {r r' : Ring} → SamePositions r r' → readable r' ≡ readable r
unfolding readable
SamePositions-readable p = rw (p.size, p.read_ptr, p.write_ptr) refl

consume-readable :
    {r : Ring} (n : ℕ) → IsValid r → n ≤ readable r → readable (consume r n) + n ≡ readable r
consume-readable {r} n v h =
    let within : n ≤ used r.size r.read_ptr r.write_ptr = rw readable-eq-used at h in
    omega (
      arith,
      readable-eq-used r,
      readable-eq-used (consume r n),
      used-advance_read r.size r.read_ptr r.write_ptr n v.small v.read_in v.write_in within,
    )

consume_nothing : {r : Ring} → IsValid r → SamePositions (consume r 0) r
consume_nothing {r} v = record {
  size = refl;
  read_ptr = ground (arith, v.read_in, v.small, mod-eq_of_lt {n = r.read_ptr} {m = r.size});
  write_ptr = refl;
}

advance_read_lem :
    {r : Ring} (ws : WebSocket) (n : ℕ)
    → IsValid r
    → SamePositions r ws.rx_ring
    → SamePositions (consume r n) (advance_read ws n).rx_ring
unfolding advance_read
advance_read_lem {r} ws n v p = elim (Bool-cases (n == 0)) [
  | inl none_consumed ↦
      let zero_bytes : n ≡ 0 = ground arith in
      rw none_consumed (SamePositions-trans (rw zero_bytes (consume_nothing v)) p)
  | inr some_consumed ↦
      rw some_consumed
        (record { size = p.size; read_ptr = rw (p.size, p.read_ptr) refl; write_ptr = p.write_ptr })
]

-- Where the loop stands when process_frames stops.
process_frames-advance :
    (ws : WebSocket) (outside : ℕ → Outside)
    → IsValid ws.rx_ring
    → (n : ℕ) × (h : n ≤ readable ws.rx_ring) × SamePositions
        (consume ws.rx_ring n)
        (process_frames ws outside).rx_ring
unfolding process_frames
process_frames-advance ws outside v =
    let r = ws.rx_ring in
    let (start, len) = read_inline r in
    let all : len ≡ readable r = (read_inline_overrun v).0 in
    let small : len ≤ 2 ^ 62 = omega (
      arith,
      readable-eq-used r,
      used-lt r.size r.read_ptr r.write_ptr v.small v.read_in v.write_in,
      v.small,
    ) in
    let done = frame_loop 1000 outside start len (loop_start ws) in
    let runs =
      frame_loop-Runs r len small 1000 outside start (loop_start ws)
        (loop_start-Runs r len small ws refl) in
    elim (Bool-cases (len == 0)) [
      | inl empty ↦ rw empty (0, omega arith, consume_nothing v)
      | inr some_there ↦ rw some_there (
        done.total_consumed,
        omega (arith, runs.behind, runs.within),
        advance_read_lem done.ws done.total_consumed v runs.same,
      )
    ]

-- On any bytes, whole frames or not, process_frames keeps the receive ring well formed. It moves
-- the read position on by some number of bytes, no more than are stored, and leaves the ring's size
-- and write position alone.
pub process_frames-consumes :
    (ws : WebSocket) (outside : ℕ → Outside)
    → IsValid ws.rx_ring
    → let r = ws.rx_ring in
      let r' = (process_frames ws outside).rx_ring in
      IsValid r'
      × ((n : ℕ) × (n ≤ readable r)
          × (SamePositions (consume r n) r')
          × (readable r' + n ≡ readable r))
process_frames-consumes ws outside v =
    let (n, h, p) = process_frames-advance ws outside v in
    (
      SamePositions-IsValid p (consume-IsValid n v),
      (n, h, p, omega (arith, SamePositions-readable p, consume-readable n v h)),
    )
