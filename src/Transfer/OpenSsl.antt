-- ===== src/Transfer/OpenSsl.antt =====
-- src/ssl.c as it is compiled with HAVE_OPENSSL: each function with both of its branches. What
-- OpenSSL returns is an argument; for the SecureTransport branches the functions of the parent and
-- of Session are called.
pub mod Reads
pub mod Writes
pub mod Handles
use websocket.Prelude.{
  ℕ, zero, suc, ◌+◌, ◌-◌, ◌%◌, ◌*◌, List, [], ◌∷◌, Option, none, some, Bool, true, false, not, ◌&&◌,
  ltb, ◌==◌, if◌then◌else◌, memcpy, length, take, add_size,
}
use websocket.Ring.{Ring, read_inline, write_inline}
use websocket.Transfer.{SslContext, OsStatus, Clock, Stamp, ssl_read, ssl_write}
use websocket.Transfer.Session.{SslStart, ssl_init, SslPeer, ssl_connect, ssl_cleanup}

-- `SSLBackend`
pub data SslBackend : Type 0 where
  secure_transport openssl : SslBackend

-- `struct SSLContext` with HAVE_OPENSSL: whether the pointers `ossl_ctx` and `ossl_ssl` are set.
pub record DualContext : Type 0 where
  pub base : SslContext
  pub backend : SslBackend
  pub ossl_ctx : Bool
  pub ossl_ssl : Bool

-- The objects of the TLS libraries that are live: SSLContextRef, SSL_CTX and SSL.
pub record Live : Type 0 where
  pub st : ℕ
  pub ctx : ℕ
  pub ssl : ℕ

abbrev pub nothing_live : Live
nothing_live = record { st = 0; ctx = 0; ssl = 0 }

-- The context before a backend is chosen.
unfoldable pub blank : Bool → Bool → SslContext
blank disable_cert_validation st_ctx = record {
  fd = none;
  cert_validation_disabled = disable_cert_validation;
  peer_hostname = [];
  st_ctx = st_ctx;
  st_conn = false;
  read_buf = true;
  read_buf_size = 64 * 1024;
  last_nic_timestamp_ns = 0;
  last_nic_timestamp_ticks = 0;
}

-- `ssl_init`, where `tls` says whether SSL_CTX_new gives a context: the new context, none for -1,
-- and what is live.
unfoldable pub dual_init : Bool → SslStart → Bool → Live → Option DualContext × Live
unfolding blank
dual_init disable_cert_validation s tls live =
    let made = if s.new_context then record live { st = live.st + 1 } else live in
    let fresh = blank disable_cert_validation s.new_context in
    if not (s.calloc && s.malloc)
    then (none, live)
    else if s.new_context && s.set_io_funcs
    then (
      some
          (record { base = fresh; backend = secure_transport; ossl_ctx = false; ossl_ssl = false }),
      made,
    )
    else if not tls
    then (none, made)
    else (
      some (record { base = fresh; backend = openssl; ossl_ctx = true; ossl_ssl = false }),
      record made { ctx = live.ctx + 1 },
    )

-- `ssl_cleanup`: the descriptors that it closes, and what is live afterwards.
unfoldable pub dual_cleanup : Option DualContext → Live → List ℕ × Live
dual_cleanup none live = ([], live)
dual_cleanup (some c) live = (ssl_cleanup (some c.base), by_backend c.backend)
  where
    by_backend : SslBackend → Live
    by_backend secure_transport = if c.base.st_ctx then record live { st = live.st - 1 } else live
    by_backend openssl = record live {
      ssl = if c.ossl_ssl then live.ssl - 1 else live.ssl;
      ctx = if c.ossl_ctx then live.ctx - 1 else live.ctx;
    }

-- The loop of clear_ssl_errors over OpenSSL's queue of error codes: ERR_get_error takes the
-- earliest one, and returns 0 where there is none.
unfoldable pub clear_loop : List ℕ → List ℕ
clear_loop [] = []
clear_loop (code ∷ codes) = let rest = clear_loop codes in if code == 0 then codes else rest

-- `clear_ssl_errors`
unfoldable pub clear_ssl_errors : Option DualContext → List ℕ → List ℕ
clear_ssl_errors none queue = queue
clear_ssl_errors (some c) queue = elim c.backend [
  | secure_transport ↦ queue
  | openssl ↦ clear_loop queue
]

-- The results of SSL_get_error that ssl.c tells apart.
pub data SslError : Type 0 where
  want_read want_write other : SslError

unfoldable pub wants_more : SslError → Bool
wants_more want_read = true
wants_more want_write = true
wants_more other = false

-- What ssl_connect calls of OpenSSL: whether SSL_new gives an object, whether SSL_connect returns
-- 1, and SSL_get_error.
pub record OpensslPeer : Type 0 where
  pub new_ssl : Bool
  pub connected : Bool
  pub error : SslError

-- What a connection attempt leaves: whether it returns 0, the context, what is live and the queue
-- of errors.
pub record Attempt : Type 0 where
  pub success : Bool
  pub ctx : DualContext
  pub live : Live
  pub queue : List ℕ

-- The OpenSSL branch of ssl_connect, on a context that has the descriptor and the name.
unfoldable pub openssl_connect : DualContext → OpensslPeer → Live → List ℕ → Attempt
unfolding wants_more
openssl_connect c peer live queue =
    let made = record live { ssl = live.ssl + 1 } in
    if not peer.new_ssl
    then record {
      success = false;
      ctx = record c { ossl_ssl = false };
      live = live;
      queue = clear_ssl_errors (some c) queue;
    }
    else if peer.connected
    then record { success = true; ctx = record c { ossl_ssl = true }; live = made; queue = queue }
    else if wants_more peer.error
    then record { success = true; ctx = record c { ossl_ssl = true }; live = made; queue = queue }
    else (record {
      success = false;
      ctx = record c { ossl_ssl = true };
      live = made;
      queue = clear_ssl_errors (some c) queue;
    })

-- `ssl_connect`
unfoldable pub dual_connect :
    DualContext → Option ℕ → List ℕ → SslPeer → OpensslPeer → Live → List ℕ → Attempt
dual_connect c none hostname peer opeer live queue = record {
  success = false;
  ctx = c;
  live = live;
  queue = queue;
}
dual_connect c (some fd) hostname peer opeer live queue = elim c.backend [
  | secure_transport ↦
      let (success, base) = ssl_connect c.base (some fd) hostname peer in
      record { success = success; ctx = record c { base = base }; live = live; queue = queue }
  | openssl ↦
      let named = record (c.base) { fd = some fd; peer_hostname = take 255 hostname } in
      openssl_connect (record c { base = named }) opeer live queue
]

-- What SSL_read returns: bytes, at least one, or a failure with its SSL_get_error.
pub data OpensslRead : Type 0 where
  got : List ℕ → OpensslRead
  no_bytes : SslError → OpensslRead

-- The OpenSSL branch of ssl_read.
unfoldable pub openssl_read : Ring → OpensslRead → Option ℕ × Ring
unfolding wants_more
openssl_read r result =
    let (p, available) = write_inline r in
    if available == 0 then (some 0, r) else elim result [
      | got xs ↦ (
        some (length xs),
        record r { buf = memcpy r.buf p xs; write_ptr = add_size r.write_ptr (length xs) % r.size },
      )
      | no_bytes e ↦ (if wants_more e then some 0 else none, r)
    ]

-- `ssl_read`
unfoldable pub dual_read :
    DualContext
    → Ring
    → OsStatus
    → List ℕ
    → List (ℕ × Clock × Option Stamp)
    → OpensslRead
    → Option ℕ × DualContext × Ring
dual_read c r status xs arrivals result = elim c.backend [
  | secure_transport ↦
      let (n, base, r') = ssl_read c.base r status xs arrivals in (n, record c { base = base }, r')
  | openssl ↦ let (n, r') = openssl_read r result in (n, c, r')
]

-- What SSL_write returns: a count, at least one, or a failure with its SSL_get_error.
pub data OpensslWrite : Type 0 where
  took : ℕ → OpensslWrite
  not_taken : SslError → OpensslWrite

-- The OpenSSL branch of ssl_write.
unfoldable pub openssl_write : Ring → OpensslWrite → Option ℕ × Ring
unfolding wants_more
openssl_write r result =
    let available = (read_inline r).1 in
    if available == 0 then (some 0, r) else elim result [
      | took n ↦ (some n, record r { read_ptr = add_size r.read_ptr n % r.size })
      | not_taken e ↦ (if wants_more e then some 0 else none, r)
    ]

-- `ssl_write`
unfoldable pub dual_write : DualContext → Ring → OsStatus → ℕ → OpensslWrite → Option ℕ × Ring
dual_write c r status written result = elim c.backend [
  | secure_transport ↦ ssl_write r status written
  | openssl ↦ openssl_write r result
]

-- `ssl_get_backend`
unfoldable pub ssl_get_backend : Option DualContext → SslBackend
ssl_get_backend none = secure_transport
ssl_get_backend (some c) = c.backend

-- `ssl_is_handshake_complete`, where `finished` says whether SSL_is_init_finished holds.
unfoldable pub dual_is_handshake_complete : Option DualContext → Bool → Bool
dual_is_handshake_complete none finished = false
dual_is_handshake_complete (some c) finished = elim c.backend [
  | secure_transport ↦ true
  | openssl ↦ c.ossl_ssl && finished
]
