-- ===== src/Client/Process/Unheard.antt =====
-- The periodic checks at the end of websocket_process (src/websocket.c).
use websocket.Prelude.{
  ℕ, ◌≡◌, ◌∙◌, refl, ap, List, [], ◌∷◌, ◌++◌, append-nil, Bool, true, false, not, ◌||◌, ltb,
  sub_size, arith, if◌then◌else◌,
}
use websocket.Client.{
  WebSocket, Event, health, log, heartbeat_timeout, Flush, flush, ws_log, WsLogLevel, debug, warn,
}
use websocket.Client.Send.{is_connected}
use websocket.Client.Observe.{
  Floating, check_health, report_metrics_if_needed, websocket_get_metrics, websocket_get_health,
}
use websocket.Client.Pings.{ping_due, check_heartbeat, send_ping, report_timeout}
use websocket.Client.Receive.Partial.{messages_in, messages_in-append}
use websocket.Client.Process.{World}
use websocket.Client.Process.Turn.{observe}

-- The periodic checks tell no message and leave the receive ring alone.
pub record Unheard (ws ws' : WebSocket) : Type 0 where
  pub same_messages : messages_in ws'.events ≡ messages_in ws.events
  pub same_ring : ws'.rx_ring ≡ ws.rx_ring
  pub same_state : ws'.state ≡ ws.state
  pub same_callback : ws'.on_message ≡ ws.on_message
  pub same_ssl : ws'.use_ssl ≡ ws.use_ssl

pub Unheard-trans : {a b c : WebSocket} → Unheard a b → Unheard b c → Unheard a c
Unheard-trans p q = record {
  same_messages = q.same_messages ∙ p.same_messages;
  same_ring = q.same_ring ∙ p.same_ring;
  same_state = q.same_state ∙ p.same_state;
  same_callback = q.same_callback ∙ p.same_callback;
  same_ssl = q.same_ssl ∙ p.same_ssl;
}

no_message :
    (events : List Event) (e : Event)
    → messages_in (e ∷ []) ≡ []
    → messages_in (events ++ e ∷ []) ≡ messages_in events
no_message events e h =
    messages_in-append events (e ∷ [])
    ∙ ap (λ t. messages_in events ++ t) h
    ∙ append-nil (messages_in events)

check_health-Unheard :
    (f : Floating) (ws : WebSocket) (now_ns : ℕ) → Unheard ws (check_health f ws now_ns)
unfolding check_health
check_health-Unheard f ws now_ns = record {
  same_messages = ground (arith, no_message ws.events (health (websocket_get_health f ws)) refl);
  same_ring = ground arith;
  same_state = ground arith;
  same_callback = ground arith;
  same_ssl = ground arith;
}

pub Unheard-refl : (ws : WebSocket) → Unheard ws ws
Unheard-refl ws = record {
  same_messages = refl;
  same_ring = refl;
  same_state = refl;
  same_callback = refl;
  same_ssl = refl;
}

pub Unheard-if :
    (b : Bool) (ws x y : WebSocket) → Unheard ws x → Unheard ws y → Unheard ws (if b then x else y)
Unheard-if true ws x y h k = h
Unheard-if false ws x y h k = k

report-Unheard :
    (f : Floating) (ws : WebSocket) (now_ns now2_ns : ℕ) (malloc : Bool)
    → Unheard ws (report_metrics_if_needed f ws now_ns now2_ns malloc)
unfolding report_metrics_if_needed websocket_get_metrics
report-Unheard f ws now_ns now2_ns malloc =
    Unheard-if (not ws.on_metrics) ws ws _ (Unheard-refl ws) (
      Unheard-if (ltb (sub_size now_ns ws.metrics_last_report_ns) 1000000000) ws ws _
        (Unheard-refl ws)
        (record {
          same_messages = no_message ws.events _ refl;
          same_ring = refl;
          same_state = refl;
          same_callback = refl;
          same_ssl = refl;
        }))

ws_log-Unheard : (ws : WebSocket) (level : WsLogLevel) → Unheard ws (ws_log ws level)
unfolding ws_log
ws_log-Unheard ws level = record {
  same_messages = ground (arith, no_message ws.events (log level) refl);
  same_ring = refl;
  same_state = refl;
  same_callback = refl;
  same_ssl = refl;
}

send_ping-Unheard :
    (ws : WebSocket) (now_ns : ℕ) (out : Flush) → Unheard ws (send_ping ws now_ns out)
unfolding send_ping flush
send_ping-Unheard ws now_ns out =
    Unheard-if _ ws _ _
      (Unheard-trans
        (record {
          same_messages = refl;
          same_ring = refl;
          same_state = refl;
          same_callback = refl;
          same_ssl = refl;
        })
        (ws_log-Unheard _ debug))
      (record {
        same_messages = refl;
        same_ring = refl;
        same_state = refl;
        same_callback = refl;
        same_ssl = refl;
      })

timeout_told :
    (ws : WebSocket) (b : Bool)
    → messages_in (if b then ws.events ++ heartbeat_timeout ∷ [] else ws.events)
      ≡ messages_in ws.events
timeout_told ws true = no_message ws.events heartbeat_timeout refl
timeout_told ws false = refl

report_timeout-Unheard : (ws : WebSocket) → Unheard ws (report_timeout ws)
unfolding report_timeout
report_timeout-Unheard ws = Unheard-trans (ws_log-Unheard ws warn) (record {
  same_messages = timeout_told (ws_log ws warn) (ws_log ws warn).heartbeat.on_heartbeat_timeout;
  same_ring = refl;
  same_state = refl;
  same_callback = refl;
  same_ssl = refl;
})

check_heartbeat-Unheard :
    (ws : WebSocket) (now_ns : ℕ) (out : Flush) → Unheard ws (check_heartbeat ws now_ns out)
unfolding check_heartbeat
check_heartbeat-Unheard ws now_ns out =
    let pinged =
      Unheard-if (ping_due ws.heartbeat now_ns) ws (send_ping ws now_ns out) ws
        (send_ping-Unheard ws now_ns out) (Unheard-refl ws) in
    Unheard-if (not ws.heartbeat.enable_heartbeat || not (is_connected ws.state)) ws ws _
      (Unheard-refl ws)
      (Unheard-if _ ws _ _ (Unheard-trans pinged (report_timeout-Unheard _)) pinged)

pub observe-Unheard : (f : Floating) (w : World) (ws : WebSocket) → Unheard ws (observe f w ws)
unfolding observe
observe-Unheard f w ws =
    let checked = check_health-Unheard f ws w.health_ns in
    let reported =
      Unheard-trans checked (report-Unheard f _ w.report_ns w.metrics_ns w.malloc_samples) in
    Unheard-if (is_connected ws.state) ws _ ws
      (Unheard-trans reported (check_heartbeat-Unheard _ w.heartbeat_ns w.out)) (Unheard-refl ws)
