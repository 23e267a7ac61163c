-- ===== src/Client/Connect/Release.antt =====
-- What a websocket_connect that fails leaves behind (src/websocket.c).
use websocket.Prelude.{◌++◌, ℕ, ◌≡◌, List, none, Bool, true}
use websocket.Ring.Setup.{zeroed}
use websocket.Transfer.Session.{listed}
use websocket.Client.{WebSocket, Freed}
use websocket.Client.Lifecycle.{io_freed, url_freed}
use websocket.Client.Lifecycle.Destroy.{held}
use websocket.Client.Connect.{Dial, then_try, open_all, note_url}
use websocket.Client.Connect.Blocks.{Blocks, Freeable}

-- Where the connection stands after a step: after a failure both rings can be cleaned up.
record Sound (p : Bool × WebSocket) : Type 0 where
  on_success : p.0 ≡ true → Blocks p.1
  always : Freeable p.1

-- What a connection holds.
abbrev pub held_by : WebSocket → List Freed
held_by ws = io_freed ws.io_ctx ++ (url_freed ws.url ++ (held ws.rx_ring ++ held ws.tx_ring))

-- Where websocket_connect stands when it ends, before the label.
abbrev pub reached : WebSocket → List ℕ → Bool → Dial → WebSocket
reached ws url disable d = (then_try (note_url ws url disable) (open_all disable d)).1

-- Nothing that `before` holds is kept: the descriptor is closed, all else given back, once.
pub record IsReleased (before after : WebSocket) : Type 0 where
  pub closed_fds : after.closed_fds ≡ before.closed_fds ++ listed before.fd
  pub freed : after.freed ≡ before.freed ++ held_by before
  pub fd : after.fd ≡ none
  pub io_ctx : after.io_ctx ≡ none
  pub url : after.url ≡ none
  pub rx_ring : after.rx_ring ≡ zeroed
  pub tx_ring : after.tx_ring ≡ zeroed
