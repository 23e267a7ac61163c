-- ===== src/Tests/Tls.antt =====
-- Reads and writes over TLS, with either backend.
use websocket.Prelude.{
  ℕ, ◌≤◌, ◌≡◌, ◌≢◌, ◌↔◌, List, [], ◌∷◌, none, some, true, false, arith, length, memcpy,
}
use websocket.Transfer.{no_err, would_block, arrived, Clock, Stamp, stamp_ns, timespec}
use websocket.Transfer.Callbacks.{ssl_read_func, ticks_of, ns_of, ssl_read_func_lem}
use websocket.Transfer.Session.{SslStart, in_progress}
use websocket.Transfer.OpenSsl.{
  DualContext, openssl, secure_transport, dual_init, nothing_live, want_read,
}
use websocket.Transfer.OpenSsl.Handles.{connect_and_clean, IsRefused, connect_and_clean_lem}
use websocket.Tests.Wire.{secure, hi}

abbrev by_openssl : DualContext
by_openssl = record { base = secure; backend = openssl; ossl_ctx = true; ossl_ssl = true }

-- SecureTransport delivers two bytes and reports success; it takes two and would block.
abbrev by_secure_transport : DualContext
by_secure_transport = record by_openssl { backend = secure_transport }

abbrev ticking : Clock
ticking = record { now_ticks = 100; numer = 1; denom = 1 }

ssl_read_func_lem_example :
    let d =
      ssl_read_func (some secure) (λ _. 0) 0 16 90 (arrived hi) ticking (some (timespec 0 80)) in
    ((d.status ≡ no_err) ↔ ((secure.fd ≢ none) × ((xs : List ℕ) × (arrived hi ≡ arrived xs))))
    × ((xs : List ℕ)
        → arrived hi ≡ arrived xs
        → d.status ≡ no_err
        → (d.block ≡ memcpy (λ _. 0) 0 xs)
          × (d.len ≡ length xs)
          × (ticks_of d.ctx ≤ 100)
          × ((s : Stamp) → some (timespec 0 80) ≡ some s → ns_of d.ctx ≡ stamp_ns s))
    × (d.status ≢ no_err → (d.block ≡ (λ _. 0)) × (d.ctx ≡ some secure))
    × (d.status ≡ would_block → d.len ≡ 0)
ssl_read_func_lem_example =
    ssl_read_func_lem secure (λ _. 0) 0 16 90 (arrived hi) ticking (some (timespec 0 80))
      (omega arith) (omega arith)

-- SecureTransport refuses the callbacks, and OpenSSL takes over.
abbrev refused_start : SslStart
refused_start = record { calloc = true; malloc = true; new_context = true; set_io_funcs = false }

connect_and_clean_lem_example :
    let (closed, live) =
      connect_and_clean
        (dual_init true refused_start true nothing_live)
        (some 5)
        hi
        (record { set_connection = true; set_peer = true; handshake = in_progress })
        (record { new_ssl = true; connected = false; error = want_read })
        [] in
    (live.ctx ≡ 0) × (live.ssl ≡ 0) × ((live.st ≢ 0) ↔ IsRefused refused_start) × (closed ≡ 5 ∷ [])
connect_and_clean_lem_example =
    connect_and_clean_lem true refused_start true (some 5) hi
      (record { set_connection = true; set_peer = true; handshake = in_progress })
      (record { new_ssl = true; connected = false; error = want_read }) []
