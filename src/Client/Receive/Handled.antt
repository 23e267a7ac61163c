-- ===== src/Client/Receive/Handled.antt =====
-- What the handling of one data frame by process_frames changes.
use websocket.Prelude.{
  ℕ, ◌≡◌, ◌∙◌, refl, ap, sym, List, [], ◌∷◌, ◌++◌, append_assoc, append-nil, Bool, Bool-cases, inl,
  inr, true, false, ◌==◌, bytes_at,
}
use websocket.Ring.{Ring}
use websocket.Frame.{Frame}
use websocket.Frame.Roundtrip.{parsed, data_byte}
use websocket.Client.{WebSocket, Event, message}
use websocket.Client.Receive.{
  Outside, get_frame_from_pool, handle_frame, receive_message, sample_latency, count_message,
  call_on_message, unmask, websocket_get_last_nic_timestamp_ns,
}

-- From `ws` to `ws'`, the messages were handed to the callback and nothing else was noted.
pub record Delivered (ws : WebSocket) (events : List Event) (ws' : WebSocket) : Type 0 where
  pub told : ws'.events ≡ ws.events ++ events
  pub same_ring : ws'.rx_ring ≡ ws.rx_ring
  pub same_callback : ws'.on_message ≡ ws.on_message
  pub same_errors : ws'.frame_parse_errors ≡ ws.frame_parse_errors
  pub same_state : ws'.state ≡ ws.state
  pub same_ssl : ws'.use_ssl ≡ ws.use_ssl

pub Delivered-nothing : (ws : WebSocket) → Delivered ws [] ws
Delivered-nothing ws = record {
  told = sym (append-nil ws.events);
  same_ring = refl;
  same_callback = refl;
  same_errors = refl;
  same_state = refl;
  same_ssl = refl;
}

pub Delivered-trans :
    {ws1 ws2 ws3 : WebSocket} {es fs : List Event}
    → Delivered ws1 es ws2
    → Delivered ws2 fs ws3
    → Delivered ws1 (es ++ fs) ws3
Delivered-trans {ws1} {ws2} {ws3} {es} {fs} d e = record {
  told = e.told ∙ ap (λ t. t ++ fs) d.told ∙ append_assoc ws1.events es fs;
  same_ring = e.same_ring ∙ d.same_ring;
  same_callback = e.same_callback ∙ d.same_callback;
  same_errors = e.same_errors ∙ d.same_errors;
  same_state = e.same_state ∙ d.same_state;
  same_ssl = e.same_ssl ∙ d.same_ssl;
}

pub Delivered-events :
    {ws ws' : WebSocket} {es fs : List Event} → es ≡ fs → Delivered ws es ws' → Delivered ws fs ws'
Delivered-events {ws} {ws'} {es} {fs} e d = record {
  told = d.told ∙ ap (λ t. ws.events ++ t) e;
  same_ring = d.same_ring;
  same_callback = d.same_callback;
  same_errors = d.same_errors;
  same_state = d.same_state;
  same_ssl = d.same_ssl;
}

sample_latency-Delivered :
    (ws : WebSocket) (now_ns : ℕ) → Delivered ws [] (sample_latency ws now_ns)
unfolding sample_latency
sample_latency-Delivered ws now_ns =
    elim (Bool-cases (websocket_get_last_nic_timestamp_ns ws == 0)) [
      | inl none_known ↦ rw none_known (Delivered-nothing ws)
      | inr known ↦ rw known (record {
        told = sym (append-nil ws.events);
        same_ring = refl;
        same_callback = refl;
        same_errors = refl;
        same_state = refl;
        same_ssl = refl;
      })
    ]

unmask-plain : (ws : WebSocket) (frame : Frame) (p : ℕ) → frame.mask ≡ 0 → unmask ws frame p ≡ ws
unfolding unmask
unmask-plain ws frame p plain = rw plain

count_message-Delivered : (ws : WebSocket) (len : ℕ) → Delivered ws [] (count_message ws len)
unfolding count_message
count_message-Delivered ws len = record {
  told = sym (append-nil ws.events);
  same_ring = refl;
  same_callback = refl;
  same_errors = refl;
  same_state = refl;
  same_ssl = refl;
}

pub get_frame_from_pool-Delivered : (ws : WebSocket) → Delivered ws [] (get_frame_from_pool ws)
unfolding get_frame_from_pool
get_frame_from_pool-Delivered ws = record {
  told = sym (append-nil ws.events);
  same_ring = refl;
  same_callback = refl;
  same_errors = refl;
  same_state = refl;
  same_ssl = refl;
}

call_on_message-Delivered :
    (ws : WebSocket) (payload : List ℕ)
    → ws.on_message ≡ true
    → Delivered ws (message payload ∷ []) (call_on_message ws payload)
unfolding call_on_message
call_on_message-Delivered ws payload h = record {
  told = rw h;
  same_ring = refl;
  same_callback = refl;
  same_errors = refl;
  same_state = refl;
  same_ssl = refl;
}

-- An unmasked data frame is handed to the callback as it stands in the buffer.
receive_message-Delivered :
    (ws : WebSocket) (o : Outside) (frame : Frame) (p : ℕ)
    → frame.mask ≡ 0
    → ws.on_message ≡ true
    → Delivered ws
        (message (bytes_at ws.rx_ring.buf p frame.payload_len) ∷ [])
        (receive_message ws o frame p)
unfolding receive_message
receive_message-Delivered ws o frame p plain h =
    let counted = count_message ws frame.payload_len in
    let before : Delivered ws [] (sample_latency counted o.now_ns) =
      Delivered-trans (count_message-Delivered ws frame.payload_len)
        (sample_latency-Delivered counted o.now_ns) in
    let ws1 = sample_latency counted o.now_ns in
    rw (unmask-plain ws frame p plain) (
      Delivered-events
        (ap (λ (r : Ring). message (bytes_at r.buf p frame.payload_len) ∷ []) before.same_ring)
        (Delivered-trans before (
          call_on_message-Delivered ws1 (bytes_at ws1.rx_ring.buf p frame.payload_len)
            (before.same_callback ∙ h))))

pub handle_data_frame :
    (ws : WebSocket) (o : Outside) (is_text : Bool) (type n header p : ℕ)
    → ws.on_message ≡ true
    → Delivered ws
        (message (bytes_at ws.rx_ring.buf p n) ∷ [])
        (handle_frame ws o (parsed (data_byte is_text) 0 type n 0 header) p)
unfolding handle_frame
handle_data_frame ws o true type n header p h = receive_message-Delivered ws o _ p refl h
handle_data_frame ws o false type n header p h = receive_message-Delivered ws o _ p refl h
