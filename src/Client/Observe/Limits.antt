-- ===== src/Client/Observe/Limits.antt =====
-- The limit on reconnections (src/websocket.c).
use websocket.Prelude.{
  ℕ, ◌+◌, ◌^◌, ◌≤◌, ◌<◌, ◌≡◌, refl, true, ltb, leb, min, arith, Bool-cases, inl, inr,
}
use websocket.Client.{WebSocket, ws_log}
use websocket.Client.Observe.{Floating, trigger_reconnect}

ws_log-reconnect : (ws : WebSocket) (level : _) → (ws_log ws level).reconnect ≡ ws.reconnect
unfolding ws_log
ws_log-reconnect ws level = refl

-- With automatic reconnection and a limit on the attempts that is not passed yet, trigger_reconnect
-- counts one more attempt below the limit, and at the limit it leaves the state of reconnection as
-- it is.
pub trigger_reconnect_lem :
    (f : Floating) (ws : WebSocket) (now_ns : ℕ)
    → ws.reconnect.auto_reconnect ≡ true
    → 0 < ws.reconnect.max_retries
    → ws.reconnect.max_retries < 2 ^ 32
    → ws.reconnect.reconnect_attempts ≤ ws.reconnect.max_retries
    → let r = ws.reconnect in
      let r' = (trigger_reconnect f ws now_ns).reconnect in
      (r'.reconnect_attempts ≡ min (r.reconnect_attempts + 1) r.max_retries)
      × (r.reconnect_attempts ≡ r.max_retries → r' ≡ r)
unfolding trigger_reconnect
trigger_reconnect_lem f ws now_ns auto h small q =
    elim (Bool-cases (leb ws.reconnect.max_retries ws.reconnect.reconnect_attempts)) [
      | inl all ↦
          let limited : ltb 0 ws.reconnect.max_retries ≡ true = ground arith in
          rw (auto, limited, all, ws_log-reconnect) (ground arith, λ e. refl)
      | inr left ↦
          let limited : ltb 0 ws.reconnect.max_retries ≡ true = ground arith in
          rw (auto, limited, left, ws_log-reconnect) (ground arith, λ e. absurd (ground arith))
    ]
