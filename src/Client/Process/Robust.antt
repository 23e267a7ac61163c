-- ===== src/Client/Process/Robust.antt =====
-- What websocket_process (src/websocket.c) leaves of the receive ring, whatever arrives.
use mathlib.Core.Path.{subst}
use websocket.Prelude.{
  ℕ, zero, suc, ◌+◌, ◌-◌, ◌≡◌, sym, List, [], ◌∷◌, Option, none, some, Bool, false, not, ◌&&◌, ◌||◌,
  ltb, ◌==◌, if◌then◌else◌, arith, codes,
}
use websocket.Ring.{read_inline, readable}
use websocket.Ring.Invariant.{Fits}
use websocket.Io.{IoContext}
use websocket.Client.{WebSocket, WsState, connecting, connected, closing, closed, ws_log}
use websocket.Client.Send.{is_connected}
use websocket.Client.Handshake.{
  HandshakeResult, complete, more_data, refused, contains, string_at, parse_handshake_response,
}
use websocket.Client.Lifecycle.{websocket_close}
use websocket.Client.Observe.{Floating}
use websocket.Client.Process.{
  World, Run, Kevent, io_poll, call_ssl_read, call_ssl_write, call_io_read, pass, is_positive,
  is_zero, call_on_error, drive_ssl, read_while, establish,
}
use websocket.Client.Process.Sound.{
  IsSound, IsSound-if, pass-IsSound, call_ssl_read-IsSound, call_ssl_write-IsSound,
  call_io_read-IsSound, drive_ssl-IsSound, read_while-IsSound, parse_handshake_response-Fits,
}
use websocket.Client.Process.Unheard.{observe-Unheard}
use websocket.Client.Process.Turn.{
  take_response, go_on_connecting, drain, drain_all, lose, handle_event, handle_events, drain_some,
  drain_ssl, drain_connection, turn_start, after_poll, websocket_process,
}

module _ (size : ℕ) where
  establish-rx : (ws : WebSocket) (now_ns : ℕ) → (establish ws now_ns).rx_ring ≡ ws.rx_ring
  unfolding establish ws_log
  establish-rx ws now_ns = ground arith

  websocket_close-rx : (ws : WebSocket) → (websocket_close ws).rx_ring ≡ ws.rx_ring
  unfolding websocket_close
  websocket_close-rx ws = ground arith

  response_cases :
      (result : HandshakeResult) (a b c : Run)
      → IsSound size a
      → IsSound size b
      → IsSound size c
      → IsSound size (elim result as (λ _. Run) [ complete ↦ a | more_data ↦ b | refused ↦ c ])
  response_cases complete a b c h k l = h
  response_cases more_data a b c h k l = k
  response_cases refused a b c h k l = l

  take_response-IsSound : (w : World) (s : Run) → IsSound size s → IsSound size (take_response w s)
  unfolding take_response call_on_error
  take_response-IsSound w s v =
      let (p, test_len) = read_inline s.ws.rx_ring in
      let (result, ws') = parse_handshake_response s.ws (w.mallocs s.parsed) in
      let parsed = record s { parsed = s.parsed + 1 } in
      let v' : Fits size ws'.rx_ring =
        parse_handshake_response-Fits size s.ws (w.mallocs s.parsed) v in
      let established : Fits size (establish ws' w.established_ns).rx_ring =
        subst (Fits size) (sym (establish-rx ws' w.established_ns)) v' in
      let shut : Fits size (websocket_close (call_on_error ws')).rx_ring =
        subst (Fits size) (sym (websocket_close-rx (call_on_error ws'))) v' in
      let go_on = record parsed { ws = ws' } in
      let failed = record parsed { ws = websocket_close (call_on_error ws') } in
      let bad = ltb 200 test_len && contains (codes "HTTP") (string_at ws'.rx_ring p) in
      IsSound-if size (test_len == 0) s _ v (
        response_cases result (record parsed { ws = establish ws' w.established_ns }) go_on
          (if bad then failed else go_on) established v' (IsSound-if size bad failed go_on shut v'))

  go_on_connecting-IsSound :
      (w : World) (s : Run) → IsSound size s → IsSound size (go_on_connecting w s)
  unfolding go_on_connecting
  go_on_connecting-IsSound w s v =
      let driven = (call_ssl_write w (drive_ssl w 20 false s)).1 in
      let d : IsSound size driven =
        call_ssl_write-IsSound size w (drive_ssl w 20 false s)
          (drive_ssl-IsSound size w 20 false s v) in
      IsSound-if size s.ws.use_ssl (take_response w (read_while w 20 driven)) (take_response w s)
        (take_response-IsSound w (read_while w 20 driven) (read_while-IsSound size w 20 driven d))
        (take_response-IsSound w s v)

  drain-IsSound : (w : World) (fuel : ℕ) (s : Run) → IsSound size s → IsSound size (drain w fuel s)
  unfolding drain
  drain-IsSound w zero s v = v
  drain-IsSound w (suc fuel) s v =
      let v' = pass-IsSound size w s v in
      IsSound-if size ((pass w s).ws.rx_ring.read_ptr == s.ws.rx_ring.read_ptr) (pass w s)
        (drain w fuel (pass w s)) v' (drain-IsSound w fuel (pass w s) v')

  state_cases :
      (state : WsState) (a b c : Run)
      → IsSound size a
      → IsSound size b
      → IsSound size c
      → IsSound size
          (elim state as (λ _. Run) [ connecting ↦ a | connected ↦ b | closing ↦ c | closed ↦ c ])
  state_cases connecting a b c h k l = h
  state_cases connected a b c h k l = k
  state_cases closing a b c h k l = l
  state_cases closed a b c h k l = l

  lose-rx : (ws : WebSocket) → (lose ws).rx_ring ≡ ws.rx_ring
  unfolding lose call_on_error
  lose-rx ws = ground arith

  handle_event-IsSound :
      (w : World) (s : Run) (event : Kevent)
      → IsSound size s
      → IsSound size (handle_event w s event)
  unfolding handle_event drain_all
  handle_event-IsSound w s event v =
      let read = (call_ssl_read w s).1 in
      let received = call_io_read w s event.udata in
      let s1 = if s.ws.use_ssl then read else received in
      let v1 : IsSound size s1 =
        IsSound-if size s.ws.use_ssl read received (call_ssl_read-IsSound size w s v)
          (call_io_read-IsSound size w s event.udata v) in
      let drained = drain w (readable (pass w s1).ws.rx_ring + 1) (pass w s1) in
      let lost = record s { ws = lose s.ws } in
      let state = s1.ws.state in
      IsSound-if size event.broken lost _ (subst (Fits size) (sym (lose-rx s.ws)) v) (
        IsSound-if size (not event.readable_filter) s _ v (
          state_cases state (go_on_connecting w s1) drained s1 (go_on_connecting-IsSound w s1 v1)
            (drain-IsSound w (readable (pass w s1).ws.rx_ring + 1) (pass w s1)
              (pass-IsSound size w s1 v1))
            v1))

  handle_events-IsSound :
      (w : World) (s : Run) (events : List Kevent)
      → IsSound size s
      → IsSound size (handle_events w s events)
  unfolding handle_events
  handle_events-IsSound w s [] v = v
  handle_events-IsSound w s (event ∷ events) v =
      handle_events-IsSound w (handle_event w s event) events (handle_event-IsSound w s event v)

  drain_some-IsSound :
      (w : World) (left : ℕ) (s : Run) → IsSound size s → IsSound size (drain_some w left s)
  unfolding drain_some
  drain_some-IsSound w zero s v = v
  drain_some-IsSound w (suc left) s v =
      let s' = pass w s in
      let v' : IsSound size s' = pass-IsSound size w s v in
      let rest = drain_some w left s' in
      let more = if not (is_connected s'.ws.state) then s' else rest in
      let stays = s'.ws.rx_ring.read_ptr == s.ws.rx_ring.read_ptr in
      IsSound-if size (not (is_connected s.ws.state)) s (if stays then s' else more) v (
        IsSound-if size stays s' more v' (
          IsSound-if size (not (is_connected s'.ws.state)) s' rest v'
            (drain_some-IsSound w left s' v')))

  call_on_error-Fits :
      (ws : WebSocket) → Fits size ws.rx_ring → Fits size (call_on_error ws).rx_ring
  unfolding call_on_error
  call_on_error-Fits ws v = v

  drain_ssl-IsSound :
      (w : World) (left : ℕ) (made_progress : Bool) (s : Run)
      → IsSound size s
      → IsSound size (drain_ssl w left made_progress s)
  unfolding drain_ssl
  drain_ssl-IsSound w zero made_progress s v = v
  drain_ssl-IsSound w (suc left) made_progress s v =
      let (result, s1) = call_ssl_read w s in
      let v1 : IsSound size s1 = call_ssl_read-IsSound size w s v in
      let passed = pass w s1 in
      let vp : IsSound size passed = pass-IsSound size w s1 v1 in
      let gained = is_positive result in
      let some_drained = drain_some w 50 passed in
      let handled = if gained then some_drained else passed in
      let vh : IsSound size handled =
        IsSound-if size gained some_drained passed (drain_some-IsSound w 50 passed vp) vp in
      let rest = drain_ssl w left (made_progress || gained) handled in
      let vr : IsSound size rest = drain_ssl-IsSound w left (made_progress || gained) handled vh in
      let lost = record s1 { ws = call_on_error (record (s1.ws) { state = closed }) } in
      let vl : IsSound size (pass w lost) = pass-IsSound size w lost (call_on_error-Fits _ v1) in
      let again = made_progress && ltb (200 - left) 5 in
      let idle = if again then rest else passed in
      let other = if is_zero result then idle else pass w lost in
      let read_on = if gained then rest else other in
      let up = is_connected s1.ws.state in
      IsSound-if size (not (is_connected s.ws.state)) s (if not up then passed else read_on) v (
        IsSound-if size (not up) passed read_on vp (
          IsSound-if size gained rest other vr (
            IsSound-if size (is_zero result) idle (pass w lost)
              (IsSound-if size again rest passed vr vp) vl)))

  drain_connection-IsSound :
      (w : World) (s : Run) → IsSound size s → IsSound size (drain_connection w s)
  unfolding drain_connection
  drain_connection-IsSound w s v =
      let drained = drain_ssl w 200 false s in
      let vd : IsSound size drained = drain_ssl-IsSound w 200 false s v in
      let up = is_connected drained.ws.state in
      let over_tls = if up then pass w drained else drained in
      let plain = not s.ws.use_ssl in
      IsSound-if size (not (is_connected s.ws.state)) s (if plain then pass w s else over_tls) v (
        IsSound-if size plain (pass w s) over_tls (pass-IsSound size w s v)
          (IsSound-if size up (pass w drained) drained (pass-IsSound size w drained vd) vd))

  after_poll-Fits :
      (f : Floating) (w : World) (ws : WebSocket) (given : Option (List Kevent) × Option IoContext)
      → Fits size ws.rx_ring
      → Fits size (after_poll f w ws given).1.rx_ring
  unfolding after_poll turn_start
  after_poll-Fits f w ws (none, io) v = v
  after_poll-Fits f w ws (some events, io) v =
      let handled = handle_events w (turn_start (record ws { io_ctx = io })) events in
      let drained = drain_connection w handled in
      subst (Fits size) (sym (observe-Unheard f w drained.ws).same_ring) (
        drain_connection-IsSound w handled
          (handle_events-IsSound w (turn_start (record ws { io_ctx = io })) events v))

-- Whatever events kevent() reports, whatever the socket and the TLS library deliver and in whatever
-- state the connection is, over TLS or not, websocket_process leaves a well-formed receive ring of
-- some size well formed and of that size: both positions stay inside the buffer.
pub websocket_process-Fits :
    (size : ℕ) (f : Floating) (w : World) (ws : WebSocket) (polled : Option (List Kevent))
    → Fits size ws.rx_ring
    → Fits size (websocket_process f w ws polled).1.rx_ring
unfolding websocket_process
websocket_process-Fits size f w ws polled v =
    after_poll-Fits size f w ws (io_poll ws.io_ctx polled) v
