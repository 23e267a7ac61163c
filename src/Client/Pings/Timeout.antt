-- ===== src/Client/Pings/Timeout.antt =====
-- When check_heartbeat can report a missing pong.
use websocket.Prelude.{ℕ, ◌≡◌, refl, true, false, not, ◌||◌, arith}
use websocket.Client.{WebSocket, Flush, ws_log}
use websocket.Client.Send.{is_connected}
use websocket.Client.Pings.{ping_due, pong_overdue, report_timeout, check_heartbeat}

report_timeout-ping_due :
    (ws : WebSocket) (now_ns : ℕ) → ping_due (report_timeout ws).heartbeat now_ns ≡ true
unfolding report_timeout ping_due ws_log
report_timeout-ping_due ws now_ns = refl

-- On a live connection with the heartbeat on, when no ping is due and the last one has gone without
-- a pong for the timeout, a check reports the missing pong and makes a ping due again.
pub check_heartbeat_overdue :
    (ws : WebSocket) (now_ns : ℕ) (out : Flush)
    → ws.heartbeat.enable_heartbeat ≡ true
    → is_connected ws.state ≡ true
    → ping_due ws.heartbeat now_ns ≡ false
    → pong_overdue ws.heartbeat now_ns ≡ true
    → let ws' = check_heartbeat ws now_ns out in
      (ws' ≡ report_timeout ws) × (ping_due ws'.heartbeat now_ns ≡ true)
unfolding check_heartbeat
check_heartbeat_overdue ws now_ns out on up early late =
    let runs : (not ws.heartbeat.enable_heartbeat || not (is_connected ws.state)) ≡ false =
      ground arith in
    rw (runs, early, late) (refl, report_timeout-ping_due ws now_ns)
