-- ===== src/Client/Receive/Partial.antt =====
-- The loop of process_frames (src/websocket.c) over data frames of which the last may have arrived
-- in part.
use websocket.Prelude.{
  ℕ, ◌≡◌, ◌∙◌, refl, ap, sym, List, [], ◌∷◌, ◌++◌, append_assoc, append-nil, Bool, Bool-cases, inl,
  inr, true, false, length,
}
use websocket.Frame.{Frame, Outcome, success, need_more, invalid}
use websocket.Frame.Build.{send_header}
use websocket.Client.{
  WebSocket, Event, message, failed, log, metrics, health, heartbeat_timeout, ws_log, warn,
}
use websocket.Client.Receive.{Outside, Loop, skip_byte, parse_error, after_parse}
use websocket.Client.Receive.Handled.{Delivered}
use websocket.Client.Receive.Rounds.{frames}

-- The messages that on_message was called with, oldest first.
abbrev pub messages_in : List Event → List (List ℕ)
messages_in [] = []
messages_in (message xs ∷ events) = xs ∷ messages_in events
messages_in (failed ∷ events) = messages_in events
messages_in (log l ∷ events) = messages_in events
messages_in (metrics m ∷ events) = messages_in events
messages_in (health h ∷ events) = messages_in events
messages_in (heartbeat_timeout ∷ events) = messages_in events

pub messages_in-append :
    (es fs : List Event) → messages_in (es ++ fs) ≡ messages_in es ++ messages_in fs
messages_in-append [] fs = refl
messages_in-append (message xs ∷ es) fs = ap (λ t. xs ∷ t) (messages_in-append es fs)
messages_in-append (failed ∷ es) fs = messages_in-append es fs
messages_in-append (log l ∷ es) fs = messages_in-append es fs
messages_in-append (metrics m ∷ es) fs = messages_in-append es fs
messages_in-append (health h ∷ es) fs = messages_in-append es fs
messages_in-append (heartbeat_timeout ∷ es) fs = messages_in-append es fs

-- The payloads of messages.
abbrev pub payloads : List (Bool × List ℕ) → List (List ℕ)
payloads [] = []
payloads ((is_text, xs) ∷ messages) = xs ∷ payloads messages

pub payloads-append :
    (ms ns : List (Bool × List ℕ)) → payloads (ms ++ ns) ≡ payloads ms ++ payloads ns
payloads-append [] ns = refl
payloads-append ((is_text, xs) ∷ ms) ns = ap (λ t. xs ∷ t) (payloads-append ms ns)

pub frames-append : (ms ns : List (Bool × List ℕ)) → frames (ms ++ ns) ≡ frames ms ++ frames ns
unfolding frames
frames-append [] ns = refl
frames-append ((is_text, xs) ∷ ms) ns =
    ap (λ t. (send_header is_text (length xs) ++ xs) ++ t) (frames-append ms ns)
    ∙ sym (append_assoc _ (frames ms) (frames ns))

-- From `ws` to `ws'` exactly these messages were handed to the callback.
pub record Told (ws : WebSocket) (new : List (List ℕ)) (ws' : WebSocket) : Type 0 where
  pub told : messages_in ws'.events ≡ messages_in ws.events ++ new
  pub same_ring : ws'.rx_ring ≡ ws.rx_ring
  pub same_callback : ws'.on_message ≡ ws.on_message
  pub same_state : ws'.state ≡ ws.state
  pub same_ssl : ws'.use_ssl ≡ ws.use_ssl

pub Told-nothing : (ws : WebSocket) → Told ws [] ws
Told-nothing ws = record {
  told = sym (append-nil (messages_in ws.events));
  same_ring = refl;
  same_callback = refl;
  same_state = refl;
  same_ssl = refl;
}

pub Told-trans :
    {ws1 ws2 ws3 : WebSocket} {xs ys : List (List ℕ)}
    → Told ws1 xs ws2
    → Told ws2 ys ws3
    → Told ws1 (xs ++ ys) ws3
Told-trans {ws1} {ws2} {ws3} {xs} {ys} d e = record {
  told = e.told ∙ ap (λ t. t ++ ys) d.told ∙ append_assoc (messages_in ws1.events) xs ys;
  same_ring = e.same_ring ∙ d.same_ring;
  same_callback = e.same_callback ∙ d.same_callback;
  same_state = e.same_state ∙ d.same_state;
  same_ssl = e.same_ssl ∙ d.same_ssl;
}

pub Delivered-Told :
    {ws ws' : WebSocket} {es : List Event} → Delivered ws es ws' → Told ws (messages_in es) ws'
Delivered-Told {ws} {ws'} {es} d = record {
  told = ap messages_in d.told ∙ messages_in-append ws.events es;
  same_ring = d.same_ring;
  same_callback = d.same_callback;
  same_state = d.same_state;
  same_ssl = d.same_ssl;
}

-- A parse error is no message.
pub parse_error-Told : (l : Loop) → Told l.ws [] (parse_error l).ws
unfolding parse_error skip_byte ws_log
parse_error-Told l = elim (Bool-cases l.ws.log_callback) [
  | inl h ↦ rw h (record {
    told = messages_in-append l.ws.events (log warn ∷ []);
    same_ring = refl;
    same_callback = refl;
    same_state = refl;
    same_ssl = refl;
  })
  | inr h ↦ rw h (record {
    told = sym (append-nil (messages_in l.ws.events));
    same_ring = refl;
    same_callback = refl;
    same_state = refl;
    same_ssl = refl;
  })
]

pub after_parse_more :
    (l : Loop) (o : Outside) (start len : ℕ) (out : Outcome × Frame)
    → out.0 ≡ need_more
    → after_parse l o start len out ≡ (false, l)
unfolding after_parse
after_parse_more l o start len (need_more, frame) h = refl
after_parse_more l o start len (invalid, frame) h = cc
after_parse_more l o start len (success, frame) h = cc

pub after_parse_invalid :
    (l : Loop) (o : Outside) (start len : ℕ) (out : Outcome × Frame)
    → out.0 ≡ invalid
    → after_parse l o start len out ≡ (true, parse_error l)
unfolding after_parse
after_parse_invalid l o start len (need_more, frame) h = cc
after_parse_invalid l o start len (invalid, frame) h = refl
after_parse_invalid l o start len (success, frame) h = cc
