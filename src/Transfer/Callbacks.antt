-- ===== src/Transfer/Callbacks.antt =====
-- The callbacks through which SecureTransport reads and writes the socket: ssl_read_func and
-- ssl_write_func of src/ssl.c. What recvmsg and write return is an argument.
use websocket.Prelude.{
  ℕ, ◌≤◌, ◌<◌, ◌≡◌, ◌≢◌, ◌↔◌, refl, List, length, Option, none, some, ltb, if◌then◌else◌, Memory,
  memcpy, arith,
}
use websocket.Transfer.{
  SslContext, OsStatus, no_err, would_block, closed_graceful, Received, arrived, eof, again, error,
  Stamp, stamp_ns, Clock, nic_ticks, ssl_nic_ticks, ssl_stamped,
}

-- What ssl_read_func leaves: its status, `*length`, the block and the context.
pub record ReadDone : Type 0 where
  pub status : OsStatus
  pub len : ℕ
  pub block : Memory
  pub ctx : Option SslContext

-- `ssl_read_func`, for a block at `p` of `room` bytes.
unfoldable pub ssl_read_func :
    Option SslContext → Memory → ℕ → ℕ → ℕ → Received → Clock → Option Stamp → ReadDone
ssl_read_func none m p room arrival_ticks result clock stamp = record {
  status = closed_graceful;
  len = room;
  block = m;
  ctx = none;
}
ssl_read_func (some ctx) m p room arrival_ticks result clock stamp = by_fd ctx.fd
  where
    by_fd : Option ℕ → ReadDone
    by_fd none = record { status = closed_graceful; len = room; block = m; ctx = some ctx }
    by_fd (some fd) = elim result [
      | arrived xs ↦ record {
        status = no_err;
        len = length xs;
        block = memcpy m p xs;
        ctx = some (ssl_stamped ctx arrival_ticks clock stamp);
      }
      | eof ↦ record { status = closed_graceful; len = 0; block = m; ctx = some ctx }
      | again ↦ record { status = would_block; len = 0; block = m; ctx = some ctx }
      | error ↦ record { status = closed_graceful; len = room; block = m; ctx = some ctx }
    ]

-- What write() returns: a count, EAGAIN, another error.
pub data Wrote : Type 0 where
  wrote : ℕ → Wrote
  full broken : Wrote

-- `ssl_write_func`, for `offer` bytes: its status and `*length`.
unfoldable pub ssl_write_func : Option SslContext → ℕ → Wrote → OsStatus × ℕ
ssl_write_func none offer result = (closed_graceful, offer)
ssl_write_func (some ctx) offer result = by_fd ctx.fd
  where
    by_fd : Option ℕ → OsStatus × ℕ
    by_fd none = (closed_graceful, offer)
    by_fd (some fd) = elim result [
      | wrote n ↦ (if ltb 0 n then no_err else closed_graceful, n)
      | full ↦ (would_block, 0)
      | broken ↦ (closed_graceful, offer)
    ]

-- ssl_read_func and io_read estimate a timestamp alike, the extra test of the denominator included,
-- where the timebase has one. The estimate is never later than the reading of the clock.
pub ssl_nic_ticks-eq-nic_ticks :
    (c : Clock) (nic_ns : ℕ)
    → 0 < c.denom
    → (ssl_nic_ticks c nic_ns ≡ nic_ticks c nic_ns) × (ssl_nic_ticks c nic_ns ≤ c.now_ticks)
unfolding ssl_nic_ticks nic_ticks
ssl_nic_ticks-eq-nic_ticks c nic_ns h = ground arith

-- The ticks that a context was last stamped with.
abbrev pub ticks_of : Option SslContext → ℕ
ticks_of none = 0
ticks_of (some ctx) = ctx.last_nic_timestamp_ticks

stamped_bounds :
    (ctx : SslContext) (arrival_ticks : ℕ) (c : Clock) (stamp : Option Stamp)
    → arrival_ticks ≤ c.now_ticks
    → 0 < c.denom
    → (ssl_stamped ctx arrival_ticks c stamp).last_nic_timestamp_ticks ≤ c.now_ticks
unfolding ssl_stamped
stamped_bounds ctx arrival_ticks c none h d = h
stamped_bounds ctx arrival_ticks c (some s) h d = (ssl_nic_ticks-eq-nic_ticks c (stamp_ns s) d).1

-- The time in nanoseconds that a context was last stamped with.
abbrev pub ns_of : Option SslContext → ℕ
ns_of none = 0
ns_of (some ctx) = ctx.last_nic_timestamp_ns

stamped_ns :
    (ctx : SslContext) (arrival_ticks : ℕ) (c : Clock) (stamp : Option Stamp) (s : Stamp)
    → stamp ≡ some s
    → (ssl_stamped ctx arrival_ticks c stamp).last_nic_timestamp_ns ≡ stamp_ns s
unfolding ssl_stamped
stamped_ns ctx arrival_ticks c none s e = cc
stamped_ns ctx arrival_ticks c (some s') s e = cc

-- ssl_read_func reports success exactly when the socket is open and recvmsg delivered bytes. Then
-- they stand in the block, their number in `*length`, and the context's stamp in ticks is not later
-- than the present; its stamp in nanoseconds is the kernel's where there is one, however late. In
-- every other case block and context stay what they were, and `*length` is 0 if the read would
-- block. The clock goes forward, and its timebase has a denominator.
pub ssl_read_func_lem :
    (ctx : SslContext) (m : Memory) (p room arrival_ticks : ℕ) (result : Received)
    → (c : Clock) (stamp : Option Stamp) → arrival_ticks ≤ c.now_ticks
    → 0 < c.denom
    → let d = ssl_read_func (some ctx) m p room arrival_ticks result c stamp in
      ((d.status ≡ no_err) ↔ ((ctx.fd ≢ none) × ((xs : List ℕ) × (result ≡ arrived xs))))
      × ((xs : List ℕ)
          → result ≡ arrived xs
          → d.status ≡ no_err
          → (d.block ≡ memcpy m p xs)
            × (d.len ≡ length xs)
            × (ticks_of d.ctx ≤ c.now_ticks)
            × ((s : Stamp) → stamp ≡ some s → ns_of d.ctx ≡ stamp_ns s))
      × (d.status ≢ no_err → (d.block ≡ m) × (d.ctx ≡ some ctx))
      × (d.status ≡ would_block → d.len ≡ 0)
unfolding ssl_read_func
ssl_read_func_lem ctx m p room t (arrived xs) c stamp early denom = (
  ((λ h. (ground arith, (xs, refl))), (λ h. ground arith)),
  (λ ys e ok. (
    ground arith,
    ground arith,
    ground (arith, stamped_bounds ctx t c stamp early denom),
    (λ s same. ground (arith, stamped_ns ctx t c stamp s same)),
  )),
  (λ h. ground arith),
  (λ h. ground arith),
)
ssl_read_func_lem ctx m p room t eof c stamp early denom = ground arith
ssl_read_func_lem ctx m p room t again c stamp early denom = ground arith
ssl_read_func_lem ctx m p room t error c stamp early denom = ground arith
