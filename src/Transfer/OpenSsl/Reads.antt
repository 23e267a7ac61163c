-- ===== src/Transfer/OpenSsl/Reads.antt =====
-- ssl_read of src/ssl.c on well-formed rings, whichever backend the context has.
use websocket.Prelude.{
  Bool, true, memcpy, ℕ, ◌<◌, ◌≡◌, ◌⊎◌, refl, List, [], ◌++◌, Option, some, inl, inr, false, length,
}
use websocket.Ring.{Ring, write_inline}
use websocket.Ring.Invariant.{IsValid}
use websocket.Ring.Stored.{contents}
use websocket.Transfer.{
  OsStatus, no_err, would_block, closed_graceful, closed_abort, other_error, ssl_requested,
}
use websocket.Transfer.OpenSsl.{
  SslBackend, secure_transport, openssl, DualContext, OpensslRead, got, no_bytes,
}

-- Whether a status is noErr.
abbrev pub is_no_err : OsStatus → Bool
is_no_err no_err = true
is_no_err would_block = false
is_no_err closed_graceful = false
is_no_err closed_abort = false
is_no_err other_error = false

abbrev pub openssl_bytes : OpensslRead → List ℕ
openssl_bytes (got xs) = xs
openssl_bytes (no_bytes e) = []

-- The bytes that the backend of a context has put into the ring, whatever it reports.
unfoldable pub delivered : DualContext → List ℕ → OpensslRead → List ℕ
delivered c xs result = elim c.backend [ secure_transport ↦ xs | openssl ↦ openssl_bytes result ]

-- Whether the backend reports success where it delivers: SSL_read always does, SSLRead may deliver
-- bytes together with errSSLWouldBlock.
unfoldable pub reports_success : DualContext → OsStatus → Bool
reports_success c status = elim c.backend [ secure_transport ↦ is_no_err status | openssl ↦ true ]

-- The number of bytes that ssl_read asks the backend for.
unfoldable pub dual_requested : DualContext → Ring → ℕ
dual_requested c r = elim c.backend [
  | secure_transport ↦ ssl_requested c.base r
  | openssl ↦ (write_inline r).1
]

-- What a read comes to: `new` is appended to the ring, and its length returned unless it is empty.
pub record Appends (r : Ring) (new : List ℕ) (n : Option ℕ) (r' : Ring) : Type 0 where
  pub bytes : contents r' ≡ contents r ++ new
  pub valid : IsValid r'
  pub count : 0 < length new → n ≡ some (length new)

-- The ring with bytes put behind the write position, which is not moved.
abbrev pub filled : Ring → List ℕ → Ring
filled r xs = record r { buf = memcpy r.buf (write_inline r).0 xs }

pub Backend-cases : (b : SslBackend) → (b ≡ secure_transport) ⊎ (b ≡ openssl)
Backend-cases secure_transport = inl refl
Backend-cases openssl = inr refl
