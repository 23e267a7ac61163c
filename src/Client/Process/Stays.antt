-- ===== src/Client/Process/Stays.antt =====
-- websocket_process (src/websocket.c) on a connection that is closing or closed.
use mathlib.Core.Path.{subst}
use websocket.Prelude.{
  ℕ, ◌≡◌, ◌∙◌, refl, sym, List, [], ◌∷◌, Option, none, some, Bool, inl, inr, ◌⊎◌, true, false, not,
  arith, if◌then◌else◌,
}
use websocket.Io.{IoContext}
use websocket.Client.{WebSocket, WsState, connecting, connected, closing, closed}
use websocket.Client.Send.{is_connected}
use websocket.Client.Lifecycle.{is_open}
use websocket.Client.Observe.{Floating}
use websocket.Client.Process.{World, Run, Kevent, io_poll, call_ssl_read, call_io_read}
use websocket.Client.Process.Lost.{lose-closed}
use websocket.Client.Process.Turn.{
  lose, handle_event, handle_events, drain_connection, observe, turn_start, after_poll,
  websocket_process,
}

-- Nothing but the receive ring and the contexts of the transport is changed.
pub record Stays (ws ws' : WebSocket) : Type 0 where
  pub state : ws'.state ≡ ws.state
  pub events : ws'.events ≡ ws.events
  pub closed_fds : ws'.closed_fds ≡ ws.closed_fds
  pub tx_ring : ws'.tx_ring ≡ ws.tx_ring
  pub metrics : ws'.metrics ≡ ws.metrics

Stays-refl : (ws : WebSocket) → Stays ws ws
Stays-refl ws = record {
  state = refl;
  events = refl;
  closed_fds = refl;
  tx_ring = refl;
  metrics = refl;
}

Stays-trans : {a b c : WebSocket} → Stays a b → Stays b c → Stays a c
Stays-trans p q = record {
  state = q.state ∙ p.state;
  events = q.events ∙ p.events;
  closed_fds = q.closed_fds ∙ p.closed_fds;
  tx_ring = q.tx_ring ∙ p.tx_ring;
  metrics = q.metrics ∙ p.metrics;
}

call_ssl_read-Stays : (w : World) (s : Run) → Stays s.ws (call_ssl_read w s).1.ws
unfolding call_ssl_read
call_ssl_read-Stays w s = record {
  state = ground arith;
  events = ground arith;
  closed_fds = ground arith;
  tx_ring = ground arith;
  metrics = ground arith;
}

call_io_read-Stays :
    (w : World) (s : Run) (index : Option ℕ) → Stays s.ws (call_io_read w s index).ws
unfolding call_io_read
call_io_read-Stays w s index = record {
  state = refl;
  events = refl;
  closed_fds = refl;
  tx_ring = refl;
  metrics = refl;
}

Stays-if :
    (b : Bool) (ws : WebSocket) (s t : Run)
    → Stays ws s.ws
    → Stays ws t.ws
    → Stays ws (if b then s else t).ws
Stays-if true ws s t h k = h
Stays-if false ws s t h k = k

-- The state of a connection on which no event does more than read.
abbrev pub IsOver : WsState → Type 0
IsOver state = (state ≡ closing) ⊎ (state ≡ closed)

over_not_open : (state : WsState) → IsOver state → is_open state ≡ false
unfolding is_open
over_not_open connecting over = elim over [ inl e ↦ cc | inr e ↦ cc ]
over_not_open connected over = elim over [ inl e ↦ cc | inr e ↦ cc ]
over_not_open closing over = refl
over_not_open closed over = refl

lose-over : (ws : WebSocket) → IsOver ws.state → Stays ws (lose ws)
lose-over ws over =
    subst (Stays ws) (sym (lose-closed ws (over_not_open ws.state over))) (Stays-refl ws)

dispatch-Stays :
    (state : WsState) (ws : WebSocket) (opening running s : Run)
    → IsOver state
    → Stays ws s.ws
    → Stays ws
        (elim state as (λ _. Run) [
          | connecting ↦ opening
          | connected ↦ running
          | closing ↦ s
          | closed ↦ s
        ]).ws
dispatch-Stays connecting ws opening running s over h =
    absurd (elim over [ inl e ↦ cc | inr e ↦ cc ])
dispatch-Stays connected ws opening running s over h =
    absurd (elim over [ inl e ↦ cc | inr e ↦ cc ])
dispatch-Stays closing ws opening running s over h = h
dispatch-Stays closed ws opening running s over h = h

handle_event-Stays :
    (w : World) (s : Run) (event : Kevent)
    → IsOver s.ws.state
    → Stays s.ws (handle_event w s event).ws
unfolding handle_event
handle_event-Stays w s event over =
    let read = call_ssl_read-Stays w s in
    let received = call_io_read-Stays w s event.udata in
    let s1 = if s.ws.use_ssl then (call_ssl_read w s).1 else call_io_read w s event.udata in
    let arrived =
      Stays-if s.ws.use_ssl s.ws (call_ssl_read w s).1 (call_io_read w s event.udata) read
        received in
    Stays-if event.broken s.ws (record s { ws = lose s.ws }) _ (lose-over s.ws over)
      (Stays-if (not event.readable_filter) s.ws s _ (Stays-refl s.ws)
        (dispatch-Stays s1.ws.state s.ws _ _ s1 (subst IsOver (sym arrived.state) over) arrived))

handle_events-Stays :
    (w : World) (s : Run) (events : List Kevent)
    → IsOver s.ws.state
    → Stays s.ws (handle_events w s events).ws
unfolding handle_events
handle_events-Stays w s [] over = Stays-refl s.ws
handle_events-Stays w s (event ∷ events) over =
    let first = handle_event-Stays w s event over in
    Stays-trans first
      (handle_events-Stays w (handle_event w s event) events (subst IsOver (sym first.state) over))

over_not_connected : (state : WsState) → IsOver state → is_connected state ≡ false
unfolding is_connected
over_not_connected connecting over = refl
over_not_connected connected over = elim over [ inl e ↦ cc | inr e ↦ cc ]
over_not_connected closing over = refl
over_not_connected closed over = refl

after_poll-Stays :
    (f : Floating) (w : World) (ws : WebSocket) (given : Option (List Kevent) × Option IoContext)
    → IsOver ws.state
    → Stays ws (after_poll f w ws given).1
unfolding after_poll drain_connection observe turn_start
after_poll-Stays f w ws (none, io) over = Stays-refl ws
after_poll-Stays f w ws (some events, io) over =
    let s = turn_start (record ws { io_ctx = io }) in
    let handled = handle_events-Stays w s events over in
    let kept : Stays ws (handle_events w s events).ws = record {
      state = handled.state;
      events = handled.events;
      closed_fds = handled.closed_fds;
      tx_ring = handled.tx_ring;
      metrics = handled.metrics;
    } in
    let idle =
      over_not_connected (handle_events w s events).ws.state
        (subst IsOver (sym handled.state) over) in
    rw (idle, idle) kept

-- On a connection that is closing or closed, websocket_process at most reads: it calls no
-- callback, answers nothing, closes no descriptor and keeps the state, whatever the events are.
pub websocket_process-Stays :
    (f : Floating) (w : World) (ws : WebSocket) (polled : Option (List Kevent))
    → IsOver ws.state
    → Stays ws (websocket_process f w ws polled).1
unfolding websocket_process
websocket_process-Stays f w ws polled over = after_poll-Stays f w ws (io_poll ws.io_ctx polled) over
