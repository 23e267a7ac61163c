-- ===== src/Client/Connect.antt =====
-- websocket_connect and tcp_connect (src/websocket.c). What the allocator, the kernel, the resolver
-- and the TLS library return is the argument `Dial`.
pub mod Addresses
pub mod Blocks
pub mod Opened
pub mod Release
use websocket.Prelude.{
  ℕ, ◌^◌, List, [], ◌∷◌, ◌++◌, Option, none, some, Bool, true, false, ◌||◌, if◌then◌else◌, pos,
  tabulate, Memory,
}
use websocket.Ring.Setup.{init, zeroed, cleanup}
use websocket.Io.{IoContext, io_init, io_add_socket, io_remove_socket}
use websocket.Transfer.Session.{SslStart, SslPeer, ssl_init, ssl_connect, ssl_cleanup, listed}
use websocket.Client.{
  WebSocket, WsState, connecting, connected, closing, closed, healthy, Metrics, Latency, Flush,
}
use websocket.Client.Url.{UrlParts, parse_url}
use websocket.Client.Handshake.{send_handshake}
use websocket.Client.Lifecycle.{has_some, drop_ssl, io_freed, block_freed, url_freed}

-- The loop of tcp_connect over the addresses: for each, what socket() returns and whether connect()
-- succeeds. The result is the connected descriptor, and those that were closed.
unfoldable pub tcp_attempts : List (Option ℕ × Bool) → Option ℕ × List ℕ
tcp_attempts [] = (none, [])
tcp_attempts ((none, reached) ∷ addresses) = tcp_attempts addresses
tcp_attempts ((some fd, true) ∷ addresses) = (some fd, [])
tcp_attempts ((some fd, false) ∷ addresses) =
    let (found, rest) = tcp_attempts addresses in (found, fd ∷ rest)

-- `tcp_connect`; none if getaddrinfo fails.
unfoldable pub tcp_connect : Option (List (Option ℕ × Bool)) → Option ℕ × List ℕ
tcp_connect none = (none, [])
tcp_connect (some addresses) = tcp_attempts addresses

-- What websocket_connect takes from outside: vm_allocate's block and mlock for each ring, whether
-- malloc gives the I/O context, kqueue, the thread's pinning, the addresses, the calls of the TLS
-- library, fcntl, kevent, the encoded key, and what the first transfer returns.
pub record Dial : Type 0 where
  pub rx_block : Option (ℕ × Memory)
  pub rx_locks : Bool
  pub tx_block : Option (ℕ × Memory)
  pub tx_locks : Bool
  pub malloc : Bool
  pub kqueue : Bool
  pub pinned : Bool
  pub addresses : Option (List (Option ℕ × Bool))
  pub ssl : SslStart
  pub peer : SslPeer
  pub fcntl : Bool
  pub kevent : Bool
  pub encoded : Option (List ℕ)
  pub out : Flush

-- Sizes of the buffers `host` and `path`.
abbrev pub host_size : ℕ
host_size = 256

abbrev pub path_size : ℕ
path_size = 1024

-- The number by which a socket's entry names each ring, and the WebSocket as user data.
abbrev pub rx_name : ℕ
rx_name = 0

abbrev pub tx_name : ℕ
tx_name = 1

abbrev pub ws_name : ℕ
ws_name = 2

-- The label `cleanup`.
unfoldable pub release : WebSocket → WebSocket
release ws = record ws {
  closed_fds = ws.closed_fds ++ listed ws.fd;
  fd = none;
  io_ctx = none;
  url = none;
  freed =
      ws.freed
      ++ (io_freed ws.io_ctx
          ++ (url_freed ws.url
              ++ (block_freed (cleanup ws.rx_ring).freed
                  ++ block_freed (cleanup ws.tx_ring).freed)));
  rx_ring = (cleanup ws.rx_ring).ring;
  tx_ring = (cleanup ws.tx_ring).ring;
}

-- A step of websocket_connect: whether it went well, and the WebSocket. One that did not goes to
-- the label, and so do those that follow it.
unfoldable pub then_try : Bool × WebSocket → (WebSocket → Bool × WebSocket) → Bool × WebSocket
then_try (ok, ws) step = if ok then step ws else (false, ws)

-- Both rings; the second is not initialised if the first fails.
unfoldable pub open_rings : Dial → WebSocket → Bool × WebSocket
open_rings d ws =
    let (rx_ok, rx) = init ws.rx_ring d.rx_block d.rx_locks in
    let (tx_ok, tx) = init ws.tx_ring d.tx_block d.tx_locks in
    if rx_ok
    then (tx_ok, record ws { rx_ring = rx; tx_ring = tx })
    else (false, record ws { rx_ring = rx })

unfoldable pub open_io : Dial → WebSocket → Bool × WebSocket
open_io d ws =
    let (ok, ctx) = io_init d.kqueue d.pinned in
    if d.malloc then (ok, record ws { io_ctx = some ctx }) else (false, record ws { io_ctx = none })

unfoldable pub open_tcp : Dial → WebSocket → Bool × WebSocket
open_tcp d ws =
    let (fd, lost) = tcp_connect d.addresses in
    (has_some fd, record ws { fd = fd; closed_fds = ws.closed_fds ++ lost })

-- ssl_init and ssl_connect.
unfoldable pub open_ssl : Bool → Dial → WebSocket → Bool × WebSocket
open_ssl disable_cert_validation d ws =
    if ws.use_ssl
    then elim (ssl_init disable_cert_validation d.ssl) [
      | none ↦ (false, ws)
      | some ctx ↦
          let (ok, ctx') = ssl_connect ctx ws.fd ws.host d.peer in
          let kept = record ws { ssl_ctx = some ctx' } in (ok, if ok then kept else drop_ssl kept)
    ]
    else (true, ws)

-- io_add_socket, for which a NULL context is one more error.
unfoldable pub register : Dial → WebSocket → Bool × WebSocket
register d ws = go ws.io_ctx
  where
    unregistered : WebSocket → Bool × WebSocket
    unregistered left = (false, if left.use_ssl then drop_ssl left else left)

    go : Option IoContext → Bool × WebSocket
    go none = unregistered (record ws { socket_index = none })
    go (some ctx) =
        let (index, ctx') = io_add_socket ctx ws.fd rx_name tx_name ws_name d.fcntl d.kevent in
        let kept = record ws { socket_index = index; io_ctx = some ctx' } in
        if has_some index then (true, kept) else unregistered kept

-- What follows parse_url, up to the handshake.
unfoldable pub open_all : Bool → Dial → WebSocket → Bool × WebSocket
open_all disable_cert_validation d ws =
    then_try
      (then_try
        (then_try (then_try (then_try (open_rings d ws) (open_io d)) (open_tcp d))
          (open_ssl disable_cert_validation d))
        (register d))
      (λ ready. send_handshake ready d.encoded d.out)

-- What websocket_connect does first: it keeps a copy of the URL, for which there is memory, and
-- parses it.
unfoldable pub note_url : WebSocket → List ℕ → Bool → Bool × WebSocket
note_url ws url disable_cert_validation =
    let (ok, u) =
      parse_url url host_size path_size
        (record { use_ssl = ws.use_ssl; host = ws.host; port = ws.port; path = ws.path }) in
    (
      ok,
      record ws {
        url = some url;
        cert_validation_disabled = disable_cert_validation;
        host = u.host;
        path = u.path;
        port = u.port;
        use_ssl = u.use_ssl;
      },
    )

-- How it ends, behind the parsing.
unfoldable pub conclude : Bool × WebSocket → Bool × WebSocket
conclude (opened, ws) =
    if opened then (true, record ws { state = connecting }) else (false, release ws)

-- `websocket_connect`: whether it returns 0. The URL is not NULL.
unfoldable pub websocket_connect : WebSocket → List ℕ → Bool → Dial → Bool × WebSocket
websocket_connect ws url disable_cert_validation d =
    let (ok, named) = note_url ws url disable_cert_validation in
    if ok
    then conclude (open_all disable_cert_validation d named)
    else (false, record named { url = none; freed = named.freed ++ url_freed named.url })
