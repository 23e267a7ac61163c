-- ===== src/Transfer/Secure.antt =====
-- ssl_read and ssl_write on well-formed rings.
use websocket.Prelude.{
  ℕ, ◌+◌, ◌≤◌, ◌<◌, ◌≡◌, ◌⊎◌, ◌≢◌, ◌↔◌, refl, List, Option, none, some, true, false, ltb, ◌==◌,
  drop, length, arith,
}
use websocket.Ring.{Ring, write_inline, readable}
use websocket.Ring.Invariant.{IsValid, Fits}
use websocket.Ring.Copy.{copy_in_straight}
use websocket.Ring.Stored.{contents, publish, consume, consume-IsValid, contents-consume}
use websocket.Ring.Inline.{read_inline_overrun, read_inline-contents, write_inline_room}
use websocket.Transfer.{
  Clock, Stamp, stamp_all, SslContext, OsStatus, no_err, would_block, closed_graceful, closed_abort,
  other_error, ssl_requested, ssl_read, ssl_write, ssl_offered,
}

pub ssl_read-publish :
    {r : Ring} (ctx : SslContext) (xs : List ℕ) (arrivals : List (ℕ × Clock × Option Stamp))
    → IsValid r
    → 0 < length xs
    → length xs ≤ ssl_requested ctx r
    → ssl_read ctx r no_err xs arrivals ≡ (some (length xs), stamp_all ctx arrivals, publish r xs)
unfolding ssl_read
ssl_read-publish {r} ctx xs arrivals v pos h =
    let offer : length xs ≤ (write_inline r).1 = unfold ssl_requested in ground arith in
    let room : ((write_inline r).1 == 0) ≡ false = ground arith in
    let start : (write_inline r).0 ≡ r.write_ptr = unfold write_inline in refl in
    let straight : r.write_ptr + length xs ≤ r.size = omega (arith, write_inline_room v, start) in
    let came : ltb 0 (length xs) ≡ true = ground arith in
    rw (room, came, start, copy_in_straight r.buf r.size r.write_ptr xs v.small v.write_in straight)

-- When the ring has room, ssl_read returns -1 exactly when SSLRead neither delivered bytes nor
-- would block. It then marks the socket closed and leaves the ring's positions alone.
pub ssl_read_closed :
    (ctx : SslContext) (r : Ring) (status : OsStatus) (xs : List ℕ)
    → (arrivals : List (ℕ × Clock × Option Stamp)) → 0 < (write_inline r).1
    → let (n, ctx', r') = ssl_read ctx r status xs arrivals in
      ((n ≡ none)
        ↔ (((status ≡ no_err) × (length xs ≡ 0)) ⊎ ((status ≢ no_err) × (status ≢ would_block))))
      × (n ≡ none → ctx'.fd ≡ none)
      × (n ≡ none → (r'.read_ptr ≡ r.read_ptr) × (r'.write_ptr ≡ r.write_ptr))
unfolding ssl_read
ssl_read_closed ctx r no_err xs arrivals room = ground arith
ssl_read_closed ctx r would_block xs arrivals room = ground arith
ssl_read_closed ctx r closed_graceful xs arrivals room = ground arith
ssl_read_closed ctx r closed_abort xs arrivals room = ground arith
ssl_read_closed ctx r other_error xs arrivals room = ground arith

pub ssl_write-consume :
    {r : Ring} (n : ℕ)
    → IsValid r
    → 0 < n
    → n ≤ readable r
    → ssl_write r no_err n ≡ (some n, consume r n)
unfolding ssl_write
ssl_write-consume {r} n v pos h = ground (arith, read_inline_overrun v)

-- Where the stored bytes of a well-formed ring do not go round the end of the buffer, ssl_write
-- hands SSLWrite exactly those bytes, removes from the front of the ring what it took of them, and
-- keeps the ring well formed.
pub ssl_write_lem :
    {r : Ring} (n : ℕ)
    → IsValid r
    → (r.read_ptr ≤ r.write_ptr) ⊎ (r.write_ptr ≡ 0)
    → 0 < n
    → n ≤ readable r
    → let (m, r') = ssl_write r no_err n in
      (ssl_offered r ≡ contents r) × (m ≡ some n) × (contents r' ≡ drop n (contents r)) × IsValid r'
unfolding ssl_offered
ssl_write_lem {r} n v flat pos h =
    rw (ssl_write-consume n v pos h)
      (read_inline-contents v flat, refl, contents-consume n v h, consume-IsValid n v)

pub ssl_write-base :
    (r : Ring) (status : OsStatus) (written : ℕ) → (ssl_write r status written).1.base ≡ r.base
unfolding ssl_write
ssl_write-base r no_err written = ground arith
ssl_write-base r would_block written = ground arith
ssl_write-base r closed_graceful written = ground arith
ssl_write-base r closed_abort written = ground arith
ssl_write-base r other_error written = ground arith

-- Whatever SSLRead returns, the ring stays well formed.
pub ssl_read-Fits :
    {size : ℕ} (ctx : SslContext) (r : Ring) (status : OsStatus) (xs : List ℕ)
    → (arrivals : List (ℕ × Clock × Option Stamp)) → Fits size r
    → Fits size (ssl_read ctx r status xs arrivals).2
unfolding ssl_read
ssl_read-Fits ctx r no_err xs arrivals v = ground arith
ssl_read-Fits ctx r would_block xs arrivals v = ground arith
ssl_read-Fits ctx r closed_graceful xs arrivals v = ground arith
ssl_read-Fits ctx r closed_abort xs arrivals v = ground arith
ssl_read-Fits ctx r other_error xs arrivals v = ground arith
