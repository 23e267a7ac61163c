-- ===== src/Transfer/OpenSsl/Writes.antt =====
-- ssl_write of src/ssl.c on well-formed rings, whichever backend the context has.
use websocket.Prelude.{inl, inr, ℕ, ◌<◌, ◌≡◌, Option, some, inl, inr, drop}
use websocket.Ring.{Ring}
use websocket.Ring.Invariant.{IsValid}
use websocket.Ring.Stored.{contents}
use websocket.Transfer.OpenSsl.{
  secure_transport, openssl, DualContext, OpensslWrite, took, not_taken,
}

abbrev pub openssl_taken : OpensslWrite → ℕ
openssl_taken (took n) = n
openssl_taken (not_taken e) = 0

-- The number of bytes that the backend of a context takes, whatever it reports.
unfoldable pub taken : DualContext → ℕ → OpensslWrite → ℕ
taken c written result = elim c.backend [
  | secure_transport ↦ written
  | openssl ↦ openssl_taken result
]

-- What a write comes to: `k` bytes are gone from the front of the ring, and `k` is returned unless
-- it is 0.
pub record Drops (r : Ring) (k : ℕ) (n : Option ℕ) (r' : Ring) : Type 0 where
  pub bytes : contents r' ≡ drop k (contents r)
  pub valid : IsValid r'
  pub count : 0 < k → n ≡ some k
