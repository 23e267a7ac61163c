-- ===== src/Client/Process/Hands.antt =====
-- One turn of websocket_process (src/websocket.c) on an open plain connection on which bytes have
-- arrived.
use mathlib.Core.Path.{subst}
use websocket.Prelude.{
  inl, inr, ℕ, ◌≤◌, ◌<◌, ◌≡◌, ◌∙◌, refl, ap, sym, List, [], ◌∷◌, ◌++◌, append_assoc, Option, none,
  some, Bool, true, false, length, arith,
}
use websocket.Ring.{Ring, write_inline, writeable}
use websocket.Ring.Invariant.{IsValid}
use websocket.Ring.Stored.{contents}
use websocket.Io.{IoContext}
use websocket.Transfer.{arrived, io_ready, io_read, receive}
use websocket.Transfer.Plain.{receive_lem}
use websocket.Client.{WebSocket, connected}
use websocket.Client.Send.{is_connected}
use websocket.Client.Observe.{Floating}
use websocket.Client.Receive.Rounds.{frames}
use websocket.Client.Receive.Partial.{messages_in, payloads}
use websocket.Client.Receive.Prefix.{AreShort, IsCut}
use websocket.Client.Link.Kept.{io_read-receive}
use websocket.Client.Process.{World, Run, Kevent, pass, io_poll, rearm, rearm_all, call_io_read}
use websocket.Client.Process.Unheard.{Unheard, observe-Unheard}
use websocket.Client.Process.Onward.{
  IsReceiving, Onward, Onward-trans, pass-Onward, drain_all-Onward,
}
use websocket.Client.Process.Turn.{
  handle_event, handle_events, drain_all, drain_connection, turn_start, after_poll,
  websocket_process,
}

handle_event-read :
    (w : World) (s : Run) (event : Kevent)
    → s.ws.use_ssl ≡ false
    → event.broken ≡ false
    → event.readable_filter ≡ true
    → s.ws.state ≡ connected
    → handle_event w s event ≡ drain_all w (call_io_read w s event.udata)
unfolding handle_event call_io_read
handle_event-read w s event plain live readable up = ground arith

drain_connection-plain :
    (w : World) (s : Run)
    → s.ws.use_ssl ≡ false
    → s.ws.state ≡ connected
    → drain_connection w s ≡ pass w s
unfolding drain_connection is_connected
drain_connection-plain w s plain up = ground arith

rearm-ready :
    (ctx : IoContext) (idx : Option ℕ)
    → io_ready (some ctx) idx (λ k. k.rx_ring) ≡ true
    → io_ready (some (rearm ctx idx)) idx (λ k. k.rx_ring) ≡ true
unfolding rearm io_ready
rearm-ready ctx none ready = ready
rearm-ready ctx (some i) ready = ground arith

-- io_poll passes the event on, and the socket stays as it was.
io_poll-one :
    (io : Option IoContext) (event : Kevent)
    → io_ready io event.udata (λ k. k.rx_ring) ≡ true
    → let (events, io') = io_poll io (some (event ∷ [])) in
      (events ≡ some (event ∷ [])) × (io_ready io' event.udata (λ k. k.rx_ring) ≡ true)
unfolding io_poll rearm_all
io_poll-one none event ready = let no : false ≡ true = unfold io_ready in ready in cc
io_poll-one (some ctx) event ready = (refl, rearm-ready ctx event.udata ready)

Onward-Unheard :
    {messages : List (Bool × List ℕ)} {later : List ℕ} {a b c : WebSocket}
    → Onward true messages later a b
    → Unheard b c
    → Onward true messages later a c
Onward-Unheard {later = later} p u = record {
  done = p.done;
  rest = p.rest;
  split = p.split;
  told = u.same_messages ∙ p.told;
  next = record {
    stream = ap (λ (r : Ring). contents r ++ later) u.same_ring ∙ p.next.stream;
    valid = subst IsValid (sym u.same_ring) p.next.valid;
    straight = subst (λ (r : Ring). r.read_ptr ≤ r.write_ptr) (sym u.same_ring) p.next.straight;
    listens = u.same_callback ∙ p.next.listens;
    short = p.next.short;
  };
  same_state = u.same_state ∙ p.same_state;
  same_ssl = u.same_ssl ∙ p.same_ssl;
  full = λ yes_whole. elim (p.full yes_whole) [
    | inl many ↦ inl many
    | inr cut_off ↦
        inr (subst (λ (r : Ring). IsCut (length (contents r)) p.rest) (sym u.same_ring) cut_off)
  ];
}

-- The read leaves the messages, the state and the transport as they are.
Onward-from :
    {messages : List (Bool × List ℕ)} {later : List ℕ} {a a' b : WebSocket}
    → Onward true messages later a b
    → a.events ≡ a'.events
    → a.state ≡ a'.state
    → a.use_ssl ≡ a'.use_ssl
    → Onward true messages later a' b
Onward-from p events state ssl = record {
  done = p.done;
  rest = p.rest;
  split = p.split;
  told = p.told ∙ ap (λ t. messages_in t ++ payloads p.done) events;
  next = p.next;
  same_state = p.same_state ∙ state;
  same_ssl = p.same_ssl ∙ ssl;
  full = p.full;
}

call_io_read-rx :
    (w : World) (s : Run) (index : Option ℕ) (xs : List ℕ)
    → (w.receives s.received).0 ≡ arrived xs
    → io_ready s.ws.io_ctx index (λ k. k.rx_ring) ≡ true
    → 0 < (write_inline s.ws.rx_ring).1
    → (call_io_read w s index).ws.rx_ring ≡ (receive s.ws.rx_ring (arrived xs)).1
unfolding call_io_read
call_io_read-rx w s index xs came ready room =
    let (arrival, clock, stamp) = w.receives s.received in
    ap (λ a. (io_read s.ws.io_ctx index s.ws.rx_ring a clock stamp).2) came
    ∙ io_read-receive s.ws.io_ctx index s.ws.rx_ring xs clock stamp ready room

-- What a turn does on a connection that is open, once io_read has put the bytes into the ring.
turn_read :
    (f : Floating) (w : World) (ws : WebSocket) (event : Kevent) (io : Option IoContext)
    → {messages : List (Bool × List ℕ)} {later : List ℕ} → ws.state ≡ connected
    → ws.use_ssl ≡ false
    → event.broken ≡ false
    → event.readable_filter ≡ true
    → IsReceiving messages later
        (call_io_read w (turn_start (record ws { io_ctx = io })) event.udata).ws
    → Onward true messages later ws (after_poll f w ws (some (event ∷ []), io)).1
unfolding after_poll handle_events call_io_read turn_start
turn_read f w ws event io {messages} {later} up plain live readable r =
    let s = turn_start (record ws { io_ctx = io }) in
    let s1 = call_io_read w s event.udata in
    let handled = drain_all-Onward w s1 r in
    let t = drain_all w s1 in
    let last : drain_connection w t ≡ pass w t =
      drain_connection-plain w t (handled.same_ssl ∙ plain) (handled.same_state ∙ up) in
    let read = handle_event-read w s event plain live readable up in
    let done : drain_connection w (handle_event w s event) ≡ pass w t =
      ap (drain_connection w) read ∙ last in
    let all_handled = Onward-trans handled (pass-Onward w t handled.next) in
    Onward-from
      (Onward-Unheard
        (subst (λ (x : Run). Onward true messages later s1.ws x.ws) (sym done) all_handled)
        (observe-Unheard f w (drain_connection w (handle_event w s event)).ws))
      refl refl refl

-- One turn on an open plain connection, with a well-formed receive ring and on_message set, for
-- which kevent() reports that bytes can be read on its registered socket: with the bytes that
-- recvmsg delivers, at least one, the receive ring holds the beginning of a stream of data frames
-- of fewer than 2 ^ 62 bytes each and does not wrap round its end, and the bytes fit the room that
-- recvmsg is given and leave the reserved byte free. Then the turn hands a first part of the
-- stream's messages to the callback, in order and unchanged, and keeps what follows in the ring.
-- That part has at least a thousand messages, or what is left in the ring is less than a whole
-- frame: every message that has wholly arrived has been handed out.
pub websocket_process-Onward :
    (f : Floating) (w : World) (ws : WebSocket) (event : Kevent) (xs later : List ℕ)
    → (messages : List (Bool × List ℕ)) → ws.state ≡ connected
    → ws.use_ssl ≡ false
    → ws.on_message ≡ true
    → IsValid ws.rx_ring
    → io_ready ws.io_ctx event.udata (λ k. k.rx_ring) ≡ true
    → event.broken ≡ false
    → event.readable_filter ≡ true
    → (w.receives 0).0 ≡ arrived xs
    → 0 < length xs
    → length xs ≤ (write_inline ws.rx_ring).1
    → length xs ≤ writeable ws.rx_ring
    → (let r' = (receive ws.rx_ring (arrived xs)).1 in r'.read_ptr ≤ r'.write_ptr)
    → contents ws.rx_ring ++ (xs ++ later) ≡ frames messages
    → AreShort messages
    → Onward true messages later ws (websocket_process f w ws (some (event ∷ []))).1
unfolding websocket_process turn_start call_io_read
websocket_process-Onward f w ws event xs later messages up plain listens v ready live readable came
      pos offer room straight stream short =
    let (polled, ready') = io_poll-one ws.io_ctx event ready in
    let io = (io_poll ws.io_ctx (some (event ∷ []))).1 in
    let kept = receive_lem xs v pos offer room in
    let s = turn_start (record ws { io_ctx = io }) in
    let same : (call_io_read w s event.udata).ws.rx_ring ≡ (receive ws.rx_ring (arrived xs)).1 =
      call_io_read-rx w s event.udata xs came ready' (omega arith) in
    let r : IsReceiving messages later (call_io_read w s event.udata).ws = record {
      stream =
          ap (λ (r : Ring). contents r ++ later) same
          ∙ ap (λ t. t ++ later) kept.1
          ∙ append_assoc (contents ws.rx_ring) xs later
          ∙ stream;
      valid = subst IsValid (sym same) kept.2;
      straight = subst (λ (r : Ring). r.read_ptr ≤ r.write_ptr) (sym same) straight;
      listens = listens;
      short = short;
    } in
    subst (λ t. Onward true messages later ws (after_poll f w ws (t, io)).1) (sym polled)
      (turn_read f w ws event io up plain live readable r)
