-- ===== src/Client/Connect/Opened.antt =====
-- What a websocket_connect that succeeds has opened (src/websocket.c).
use websocket.Prelude.{
  ℕ, ◌≡◌, ◌∙◌, refl, List, Option, none, some, Bool, Bool-cases, inl, inr, true, false, arith,
}
use websocket.Io.{IoContext, io_init, io_add_socket}
use websocket.Client.{WebSocket, connecting, Flush, flush}
use websocket.Client.Handshake.{send_handshake}
use websocket.Client.Lifecycle.{has_some, drop_ssl}
use websocket.Client.Connect.{
  Dial, then_try, open_rings, open_io, open_tcp, open_ssl, register, open_all, note_url, conclude,
  websocket_connect,
}

-- A descriptor, registered in a new I/O context as the only socket and watched by the kernel.
pub record IsOpened (ws : WebSocket) : Type 0 where
  pub fd : ℕ
  pub has_fd : ws.fd ≡ some fd
  pub ctx : IoContext
  pub has_ctx : ws.io_ctx ≡ some ctx
  pub index : ws.socket_index ≡ some 0
  pub only : ctx.socket_count ≡ 1
  pub entry : (ctx.sockets 0).fd ≡ some fd
  pub watched : ctx.watch fd ≡ some 0

then_try_ok :
    (p : Bool × WebSocket) (step : WebSocket → Bool × WebSocket)
    → (then_try p step).0 ≡ true
    → (p.0 ≡ true) × (then_try p step ≡ step p.1)
unfolding then_try
then_try_ok (true, ws) step h = (refl, refl)
then_try_ok (false, ws) step h = absurd (ground arith)

open_io_ok :
    (d : Dial) (ws : WebSocket)
    → (open_io d ws).0 ≡ true
    → (open_io d ws).1.io_ctx ≡ some (io_init d.kqueue d.pinned).1
unfolding open_io
open_io_ok d ws h = elim (Bool-cases d.malloc) [
  | inl there ↦ rw there refl
  | inr missing ↦ absurd (ground (arith, rw missing at h))
]

has_some_lem : (o : Option ℕ) → has_some o ≡ true → (fd : ℕ) × (o ≡ some fd)
unfolding has_some
has_some_lem none h = absurd (ground arith)
has_some_lem (some fd) h = (fd, refl)

open_tcp_ok :
    (d : Dial) (ws : WebSocket)
    → (open_tcp d ws).0 ≡ true
    → ((fd : ℕ) × ((open_tcp d ws).1.fd ≡ some fd)) × ((open_tcp d ws).1.io_ctx ≡ ws.io_ctx)
unfolding open_tcp
open_tcp_ok d ws h = (has_some_lem _ h, refl)

open_ssl_same :
    (disable : Bool) (d : Dial) (ws : WebSocket)
    → ((open_ssl disable d ws).1.fd ≡ ws.fd) × ((open_ssl disable d ws).1.io_ctx ≡ ws.io_ctx)
unfolding open_ssl drop_ssl
open_ssl_same disable d ws = (ground arith, ground arith)

register-IsOpened :
    (d : Dial) (ws : WebSocket) (fd : ℕ) (kqueue pinned : Bool)
    → ws.fd ≡ some fd
    → ws.io_ctx ≡ some (io_init kqueue pinned).1
    → (register d ws).0 ≡ true
    → IsOpened (register d ws).1
unfolding register io_add_socket io_init has_some
register-IsOpened d ws fd kqueue pinned has_fd has_ctx h = elim (Bool-cases d.fcntl) [
  | inr f ↦ absurd (ground (arith, rw (has_ctx, has_fd, f) at h))
  | inl f ↦ elim (Bool-cases d.kevent) [
    | inr k ↦ absurd (ground (arith, rw (has_ctx, has_fd, f, k) at h))
    | inl k ↦
        rw (has_ctx, has_fd, f, k)
          (record {
            fd = fd;
            has_fd = refl;
            ctx = _;
            has_ctx = refl;
            index = refl;
            only = refl;
            entry = refl;
            watched = ground arith;
          })
  ]
]

send_handshake-IsOpened :
    (ws : WebSocket) (encoded : Option (List ℕ)) (out : Flush)
    → IsOpened ws
    → IsOpened (send_handshake ws encoded out).1
unfolding send_handshake flush
send_handshake-IsOpened ws encoded out o = record {
  fd = o.fd;
  has_fd = ground (arith, o.has_fd);
  ctx = o.ctx;
  has_ctx = ground (arith, o.has_ctx);
  index = ground (arith, o.index);
  only = o.only;
  entry = o.entry;
  watched = o.watched;
}

open_all-IsOpened :
    (disable_cert_validation : Bool) (d : Dial) (ws : WebSocket)
    → (open_all disable_cert_validation d ws).0 ≡ true
    → IsOpened (open_all disable_cert_validation d ws).1
unfolding open_all
open_all-IsOpened disable d ws h =
    let rings = open_rings d ws in
    let io = then_try rings (open_io d) in
    let tcp = then_try io (open_tcp d) in
    let ssl = then_try tcp (open_ssl disable d) in
    let registered = then_try ssl (register d) in
    let send = λ (ready : WebSocket). send_handshake ready d.encoded d.out in
    let (ok4, e5) = then_try_ok registered send h in
    let (ok3, e4) = then_try_ok ssl (register d) ok4 in
    let (ok2, e3) = then_try_ok tcp (open_ssl disable d) ok3 in
    let (ok1, e2) = then_try_ok io (open_tcp d) ok2 in
    let (ok0, e1) = then_try_ok rings (open_io d) ok1 in
    let has_io : io.1.io_ctx ≡ some (io_init d.kqueue d.pinned).1 =
      rw e1 (open_io_ok d rings.1 (rw e1 at ok1)) in
    let (found, same) = open_tcp_ok d io.1 (rw e2 at ok2) in
    let (fd, has_fd) = found in
    let (kept_fd, kept_io) = open_ssl_same disable d tcp.1 in
    let has_fd' : ssl.1.fd ≡ some fd = rw e3 (kept_fd ∙ rw e2 has_fd) in
    let has_io' : ssl.1.io_ctx ≡ some (io_init d.kqueue d.pinned).1 =
      rw e3 (kept_io ∙ rw e2 (same ∙ has_io)) in
    let opened : IsOpened registered.1 =
      rw e4 (register-IsOpened d ssl.1 fd d.kqueue d.pinned has_fd' has_io' (rw e4 at ok4)) in
    rw e5 (send_handshake-IsOpened registered.1 d.encoded d.out opened)

conclude-IsOpened :
    (p : Bool × WebSocket)
    → (p.0 ≡ true → IsOpened p.1)
    → (conclude p).0 ≡ true
    → ((conclude p).1.state ≡ connecting) × IsOpened (conclude p).1
unfolding conclude
conclude-IsOpened (false, ws) o h = absurd (ground arith)
conclude-IsOpened (true, ws) o h =
    let opened = o refl in
    (
      refl,
      record {
        fd = opened.fd;
        has_fd = opened.has_fd;
        ctx = opened.ctx;
        has_ctx = opened.has_ctx;
        index = opened.index;
        only = opened.only;
        entry = opened.entry;
        watched = opened.watched;
      },
    )

-- When websocket_connect returns 0, the connection is in the state of connecting and has a
-- descriptor, which is the only socket of a new I/O context, at index 0, and watched by the kernel
-- under that index.
pub websocket_connect-IsOpened :
    (ws : WebSocket) (url : List ℕ) (disable_cert_validation : Bool) (d : Dial)
    → (websocket_connect ws url disable_cert_validation d).0 ≡ true
    → let ws' = (websocket_connect ws url disable_cert_validation d).1 in
      (ws'.state ≡ connecting) × IsOpened ws'
unfolding websocket_connect
websocket_connect-IsOpened ws url disable d h = elim (Bool-cases (note_url ws url disable).0) [
  | inr bad ↦ absurd (ground (arith, rw bad at h))
  | inl good ↦
      let named = (note_url ws url disable).1 in
      let rest : (conclude (open_all disable d named)).0 ≡ true = rw good at h in
      rw good (conclude-IsOpened _ (open_all-IsOpened disable d named) rest)
]
