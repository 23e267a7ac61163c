-- ===== src/Transfer/OpenSsl/Handles.antt =====
-- What ssl_init, ssl_connect and ssl_cleanup of src/ssl.c leave alive, as they are compiled with
-- HAVE_OPENSSL.
use websocket.Prelude.{
  ℕ, ◌≡◌, ◌≢◌, ◌↔◌, List, [], Option, none, some, Bool, true, false, not, arith, ◌||◌, ◌&&◌,
  if◌then◌else◌,
}
use websocket.Transfer.Session.{SslStart, SslPeer, ssl_connect, ssl_cleanup, listed}
use websocket.Transfer.OpenSsl.{
  DualContext, Live, nothing_live, dual_init, dual_cleanup, OpensslPeer, openssl_connect,
  dual_connect,
}

-- The SecureTransport context that ssl_init makes and does not use: SSLSetIOFuncs refused it.
abbrev pub IsRefused : SslStart → Type 0
IsRefused s =
    (s.calloc ≡ true) × (s.malloc ≡ true) × (s.new_context ≡ true) × (s.set_io_funcs ≡ false)

-- What ssl_connect and ssl_cleanup make of the result of ssl_init: the descriptors that are closed,
-- and what is alive at the end.
unfoldable pub connect_and_clean :
    Option DualContext × Live → Option ℕ → List ℕ → SslPeer → OpensslPeer → List ℕ → List ℕ × Live
connect_and_clean (none, live) fd hostname peer opeer queue = dual_cleanup none live
connect_and_clean (some c, live) fd hostname peer opeer queue =
    let attempt = dual_connect c fd hostname peer opeer live queue in
    dual_cleanup (some attempt.ctx) attempt.live

clean_live :
    (disable : Bool) (s : SslStart) (tls : Bool) (fd : Option ℕ) (hostname : List ℕ)
    → (peer : SslPeer) (opeer : OpensslPeer) (queue : List ℕ)
    → (connect_and_clean (dual_init disable s tls nothing_live) fd hostname peer opeer queue).1
      ≡ (record {
        st = if s.calloc && s.malloc && s.new_context && not s.set_io_funcs then 1 else 0;
        ctx = 0;
        ssl = 0;
      })
unfolding connect_and_clean dual_init dual_connect dual_cleanup openssl_connect ssl_connect
clean_live disable s tls none hostname peer opeer queue = ground arith
clean_live disable s tls (some fd) hostname peer opeer queue = ground arith

clean_closed :
    (disable : Bool) (s : SslStart) (tls : Bool) (fd : Option ℕ) (hostname : List ℕ)
    → (peer : SslPeer) (opeer : OpensslPeer) (queue : List ℕ)
    → (connect_and_clean (dual_init disable s tls nothing_live) fd hostname peer opeer queue).0 ≡ (
        if s.calloc && s.malloc && ((s.new_context && s.set_io_funcs) || tls)
        then listed fd
        else [])
unfolding connect_and_clean dual_init dual_connect dual_cleanup openssl_connect ssl_connect
    ssl_cleanup
clean_closed disable s tls none hostname peer opeer queue = ground arith
clean_closed disable s tls (some fd) hostname peer opeer queue = ground arith

-- Whatever the TLS libraries answer, ssl_init, then ssl_connect where there is a context, and then
-- ssl_cleanup leave no SSL_CTX and no SSL alive, nor a SSLContextRef but the one that SSLSetIOFuncs
-- refuses, which is never disposed of. The descriptor is closed exactly if ssl_init succeeds.
pub connect_and_clean_lem :
    (disable : Bool) (s : SslStart) (tls : Bool) (fd : Option ℕ) (hostname : List ℕ)
    → (peer : SslPeer) (opeer : OpensslPeer) (queue : List ℕ)
    → let (closed, live) =
        connect_and_clean (dual_init disable s tls nothing_live) fd hostname peer opeer queue in
      (live.ctx ≡ 0)
      × (live.ssl ≡ 0)
      × ((live.st ≢ 0) ↔ IsRefused s)
      × (closed ≡ (
          if s.calloc && s.malloc && ((s.new_context && s.set_io_funcs) || tls)
          then listed fd
          else []))
connect_and_clean_lem disable s tls fd hostname peer opeer queue =
    let alive = clean_live disable s tls fd hostname peer opeer queue in
    rw (alive, clean_closed disable s tls fd hostname peer opeer queue) (ground arith)
