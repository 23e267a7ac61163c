-- ===== src/Client/Lifecycle/Destroy.antt =====
-- What websocket_destroy leaves behind (src/websocket.c).
use websocket.Prelude.{
  List, Bool-cases, inl, inr, ◌==◌, if◌then◌else◌, ℕ, ◌≡◌, refl, [], ◌∷◌, ◌++◌, append_assoc, none,
  some, true, false, arith,
}
use websocket.Ring.{Ring}
use websocket.Ring.Setup.{align_down, cleanup}
use websocket.Transfer.Session.{ssl_cleanup}
use websocket.Client.{WebSocket, Freed, block, WsState, connecting, connected, closing, closed}
use websocket.Client.Lifecycle.{
  unregister, io_freed, block_freed, url_freed, samples_freed, has_some, drop_ssl, is_closed,
  is_open, websocket_close, websocket_destroy,
}

not_closed : (state : WsState) → is_open state ≡ true → is_closed state ≡ false
unfolding is_open is_closed
not_closed connecting h = refl
not_closed connected h = refl
not_closed closing h = refl
not_closed closed h = absurd (ground arith)

-- The block that a ring owns; a ring without one is at address 0.
abbrev pub held : Ring → List Freed
held r = if r.base == 0 then [] else block (align_down r.base) ∷ []

pub cleanup-held : (r : Ring) → block_freed (cleanup r).freed ≡ held r
unfolding cleanup block_freed
cleanup-held r = elim (Bool-cases (r.base == 0)) [ inl h ↦ rw h refl | inr h ↦ rw h refl ]

pub cleanup-base : (r : Ring) → (cleanup r).ring.base ≡ 0
unfolding cleanup
cleanup-base r = ground arith

-- An open WebSocket with a descriptor: websocket_destroy closes it, and closes the descriptor of
-- its TLS context too, which is the same one after ssl_connect. It gives back the I/O context, from
-- which the socket has been removed, the blocks of both rings, the samples and the URL, each once,
-- and keeps none of them.
pub websocket_destroy_lem :
    (ws : WebSocket) (fd : ℕ)
    → is_open ws.state ≡ true
    → ws.fd ≡ some fd
    → let ws' = websocket_destroy ws in
      (ws'.closed_fds ≡ ws.closed_fds ++ fd ∷ ssl_cleanup ws.ssl_ctx)
      × (ws'.freed
          ≡ ws.freed
            ++ (io_freed (unregister ws)
                ++ (held ws.rx_ring
                    ++ (held ws.tx_ring
                        ++ (samples_freed ws.latency.samples ++ url_freed ws.url)))))
      × (ws'.fd ≡ none)
      × (ws'.ssl_ctx ≡ none)
      × (ws'.io_ctx ≡ none)
      × (ws'.rx_ring.base ≡ 0)
      × (ws'.tx_ring.base ≡ 0)
      × (ws'.url ≡ none)
      × (ws'.latency.samples ≡ none)
unfolding websocket_destroy websocket_close drop_ssl has_some is_open is_closed
websocket_destroy_lem ws fd live h =
    let still : is_closed ws.state ≡ false = not_closed ws.state live in
    rw (live, still, h)
      (
        append_assoc ws.closed_fds (fd ∷ []) (ssl_cleanup ws.ssl_ctx),
        rw (cleanup-held ws.rx_ring, cleanup-held ws.tx_ring) refl,
        refl,
        refl,
        refl,
        cleanup-base ws.rx_ring,
        cleanup-base ws.tx_ring,
        refl,
        refl,
      )
