-- ===== src/Transfer/Session.antt =====
-- ssl_init, ssl_connect, ssl_cleanup and the small queries of src/ssl.c, with SecureTransport. What
-- the TLS library and the allocator return is an argument.
use websocket.Prelude.{
  ℕ, ◌*◌, List, [], ◌∷◌, Option, none, some, Bool, true, false, not, ◌&&◌, if◌then◌else◌, take,
}
use websocket.Transfer.{SslContext}

-- What ssl_init calls: whether calloc and malloc give memory, whether SSLNewContext gives a
-- context, and whether SSLSetIOFuncs returns noErr.
pub record SslStart : Type 0 where
  pub calloc : Bool
  pub malloc : Bool
  pub new_context : Bool
  pub set_io_funcs : Bool

-- `ssl_init`: the new context, none for -1, which leaves `*out_ctx` alone. Without OpenSSL a
-- failure of SecureTransport has no fallback.
unfoldable pub ssl_init : Bool → SslStart → Option SslContext
ssl_init disable_cert_validation s =
    if s.calloc && s.malloc && s.new_context && s.set_io_funcs
    then some (record {
      fd = none;
      cert_validation_disabled = disable_cert_validation;
      peer_hostname = [];
      st_ctx = true;
      st_conn = false;
      read_buf = true;
      read_buf_size = 64 * 1024;
      last_nic_timestamp_ns = 0;
      last_nic_timestamp_ticks = 0;
    })
    else none

-- The results of SSLHandshake that ssl_connect tells apart.
pub data HandshakeStatus : Type 0 where
  done in_progress protocol_error failed : HandshakeStatus

-- What ssl_connect calls: whether SSLSetConnection and SSLSetPeerDomainName return noErr, and
-- SSLHandshake's status.
pub record SslPeer : Type 0 where
  pub set_connection : Bool
  pub set_peer : Bool
  pub handshake : HandshakeStatus

unfoldable pub may_go_on : HandshakeStatus → Bool
may_go_on done = true
may_go_on in_progress = true
may_go_on protocol_error = true
may_go_on failed = false

-- `ssl_connect`: whether it returns 0, and the context.
unfoldable pub ssl_connect : SslContext → Option ℕ → List ℕ → SslPeer → Bool × SslContext
ssl_connect ctx none hostname peer = (false, ctx)
ssl_connect ctx (some fd) hostname peer =
    let named = record ctx { fd = some fd; peer_hostname = take 255 hostname } in
    if not peer.set_connection
    then (false, named)
    else (peer.set_peer && may_go_on peer.handshake, record named { st_conn = true })

-- A descriptor as an argument of close(), where it is not -1.
abbrev pub listed : Option ℕ → List ℕ
listed none = []
listed (some fd) = fd ∷ []

-- `ssl_cleanup`: the descriptors that it closes. The context is gone afterwards.
unfoldable pub ssl_cleanup : Option SslContext → List ℕ
ssl_cleanup none = []
ssl_cleanup (some ctx) = listed ctx.fd

-- `ssl_get_last_nic_timestamp_ns` and `ssl_get_last_nic_timestamp_ticks`
unfoldable pub ssl_get_last_nic_timestamp_ns : Option SslContext → ℕ
ssl_get_last_nic_timestamp_ns none = 0
ssl_get_last_nic_timestamp_ns (some ctx) = ctx.last_nic_timestamp_ns

unfoldable pub ssl_get_last_nic_timestamp_ticks : Option SslContext → ℕ
ssl_get_last_nic_timestamp_ticks none = 0
ssl_get_last_nic_timestamp_ticks (some ctx) = ctx.last_nic_timestamp_ticks

-- `ssl_is_handshake_complete`
unfoldable pub ssl_is_handshake_complete : Option SslContext → Bool
ssl_is_handshake_complete none = false
ssl_is_handshake_complete (some ctx) = true
