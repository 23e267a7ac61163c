-- ===== src/Transfer.antt =====
-- The transfers between a ring and a connection: io_read and io_write of src/io_kqueue.c, ssl_read
-- and ssl_write of src/ssl.c (SecureTransport). What recvmsg, writev, SSLRead and SSLWrite return
-- is an argument. A result of -1 is none.
pub mod Plain
pub mod Secure
pub mod Session
pub mod Callbacks
pub mod OpenSsl
use websocket.Prelude.{
  ℕ, ◌+◌, ◌-◌, ◌*◌, ◌/◌, ◌%◌, ◌^◌, List, [], ◌∷◌, ◌++◌, Option, none, some, Bool, true, false, ltb,
  leb, ◌==◌, ◌&&◌, ◌||◌, if◌then◌else◌, memcpy, bytes_at, take, length, add_size, sub_size,
}
use websocket.Io.{IoContext, IoSocket, put_socket}
use websocket.Ring.{Ring, read_inline, write_inline}

-- What recvmsg returns: bytes (at least one), end of file, EAGAIN, another error.
pub data Received : Type 0 where
  arrived : List ℕ → Received
  eof again error : Received

-- The write position that io_read stores after `n` bytes.
unfoldable pub moved_write : ℕ → ℕ → ℕ → ℕ
moved_write size wp n =
    let new_wp = add_size wp n in
    (if leb size new_wp then sub_size n (sub_size size wp) else new_wp) % size

-- The part of io_read behind its guards, on the receive ring. -1 for EAGAIN is what recvmsg
-- returned.
unfoldable pub receive : Ring → Received → Option ℕ × Ring
receive r result =
    let (p, available) = write_inline r in
    if available == 0 then (some 0, r) else elim result [
      | arrived xs ↦ (
        some (length xs),
        record r {
          buf = memcpy r.buf p xs;
          write_ptr = moved_write r.size r.write_ptr (length xs);
        },
      )
      | eof ↦ (none, r)
      | again ↦ (none, r)
      | error ↦ (none, r)
    ]

-- The pieces that io_write hands to writev: offset and length.
unfoldable pub iovecs : Ring → List (ℕ × ℕ)
iovecs r =
    let (p, available) = read_inline r in
    if ltb r.size (add_size r.read_ptr available)
    then (let first = sub_size r.size r.read_ptr in (p, first) ∷ (0, sub_size available first) ∷ [])
    else (p, available) ∷ []

-- The bytes that writev finds in the pieces.
unfoldable pub offered : Ring → List (ℕ × ℕ) → List ℕ
offered r [] = []
offered r ((p, n) ∷ pieces) = bytes_at r.buf p n ++ offered r pieces

-- The part of io_write behind its guards, on the transmit ring, with the result of writev, none for
-- -1: what it returns, the bytes that writev took, and the ring.
unfoldable pub transmit : Ring → Option ℕ → Option ℕ × List ℕ × Ring
transmit r result =
    let available = (read_inline r).1 in
    if available == 0 then (some 0, [], r) else elim result [
      | none ↦ (none, [], r)
      | some n ↦ (
        some n,
        take n (offered r (iovecs r)),
        if ltb 0 n then record r { read_ptr = add_size r.read_ptr n % r.size } else r,
      )
    ]

-- The OSStatus values that ssl.c tells apart.
pub data OsStatus : Type 0 where
  no_err would_block closed_graceful closed_abort other_error : OsStatus

-- `SSLContext` with SecureTransport, the only backend unless HAVE_OPENSSL is defined. A descriptor
-- of -1 is none; of a pointer, the record has whether it is set.
pub record SslContext : Type 0 where
  pub fd : Option ℕ
  pub cert_validation_disabled : Bool
  pub peer_hostname : List ℕ
  pub st_ctx : Bool
  pub st_conn : Bool
  pub read_buf : Bool
  pub read_buf_size : ℕ
  pub last_nic_timestamp_ns : ℕ
  pub last_nic_timestamp_ticks : ℕ

-- The number of bytes that ssl_read asks SSLRead for.
unfoldable pub ssl_requested : SslContext → Ring → ℕ
ssl_requested ctx r =
    let available = (write_inline r).1 in
    if ltb available ctx.read_buf_size then available else ctx.read_buf_size

is_some : Option ℕ → Bool
is_some none = false
is_some (some x) = true

-- The guards of io_read and io_write: the context is not NULL, and the index names a socket that
-- has a descriptor and the ring.
unfoldable pub io_ready : Option IoContext → Option ℕ → (IoSocket → Option ℕ) → Bool
unfolding is_some
io_ready none idx ring = false
io_ready (some ctx) none ring = false
io_ready (some ctx) (some i) ring =
    ltb i ctx.socket_count && is_some (ring (ctx.sockets i)) && is_some (ctx.sockets i).fd

-- `io_write`, on the ring that the socket's `tx_ring` points at.
unfoldable pub io_write : Option IoContext → Option ℕ → Ring → Option ℕ → Option ℕ × List ℕ × Ring
io_write ctx idx r result =
    if io_ready ctx idx (λ s. s.tx_ring) then transmit r result else (none, [], r)

-- The first SCM_TIMESTAMPNS or SCM_TIMESTAMP control message, and its time in nanoseconds.
pub data Stamp : Type 0 where
  timespec : (sec nsec : ℕ) → Stamp
  timeval : (sec usec : ℕ) → Stamp

pub stamp_ns : Stamp → ℕ
stamp_ns (timespec sec nsec) = (sec * 1000000000 % 2 ^ 64 + nsec) % 2 ^ 64
stamp_ns (timeval sec usec) = (sec * 1000000000 % 2 ^ 64 + usec * 1000 % 2 ^ 64) % 2 ^ 64

-- mach_absolute_time and mach_timebase_info.
pub record Clock : Type 0 where
  pub now_ticks : ℕ
  pub numer : ℕ
  pub denom : ℕ

pub clock_ns : Clock → ℕ
clock_ns c = c.now_ticks * c.numer % 2 ^ 64 / c.denom

-- The estimate of a kernel timestamp in ticks.
pub nic_ticks : Clock → ℕ → ℕ
unfolding clock_ns
nic_ticks c nic_ns =
    let now_ns = clock_ns c in
    if leb nic_ns now_ns && ltb 0 now_ns
    then (let diff_ticks = (now_ns - nic_ns) * c.denom % 2 ^ 64 / c.numer in
        if ltb diff_ticks c.now_ticks then c.now_ticks - diff_ticks else 0)
    else c.now_ticks

-- The socket with the timestamp of what it received.
unfoldable pub stamped : Clock → Option Stamp → Received → IoSocket → IoSocket
stamped c (some s) (arrived xs) sock = record sock {
  last_nic_timestamp_ns = stamp_ns s;
  last_nic_timestamp_ticks = nic_ticks c (stamp_ns s);
}
stamped c _ _ sock = sock

-- The context in which socket `i` has the timestamp.
restamp : IoContext → ℕ → Clock → Option Stamp → Received → IoContext
restamp ctx i clock stamp result = record ctx {
  sockets = put_socket ctx.sockets i (stamped clock stamp result (ctx.sockets i));
}

-- `io_read`, on the ring that the socket's `rx_ring` points at. A timestamp is taken only from what
-- recvmsg delivers, which is not called when the ring has no room.
unfoldable pub io_read :
    Option IoContext
    → Option ℕ
    → Ring
    → Received
    → Clock
    → Option Stamp
    → Option ℕ × Option IoContext × Ring
unfolding restamp
io_read (some ctx) (some i) r result clock stamp =
    let (n, r') = receive r result in
    if io_ready (some ctx) (some i) (λ s. s.rx_ring)
    then (if (write_inline r).1 == 0
        then (some 0, some ctx, r)
        else (n, some (restamp ctx i clock stamp result), r'))
    else (none, some ctx, r)
io_read ctx idx r result clock stamp = (none, ctx, r)

-- The estimate of a kernel timestamp in ticks, as ssl_read_func makes it.
unfoldable pub ssl_nic_ticks : Clock → ℕ → ℕ
unfolding clock_ns
ssl_nic_ticks c nic_ns =
    let now_ns = clock_ns c in
    if leb nic_ns now_ns && ltb 0 now_ns && ltb 0 c.denom
    then (let diff_ticks = (now_ns - nic_ns) * c.denom % 2 ^ 64 / c.numer in
        if ltb diff_ticks c.now_ticks then c.now_ticks - diff_ticks else 0)
    else c.now_ticks

-- The timestamps of bytes that arrived: those of the control message, or else of the reading of the
-- clock before recvmsg, `arrival_ticks`.
unfoldable pub ssl_stamped : SslContext → ℕ → Clock → Option Stamp → SslContext
unfolding ssl_nic_ticks clock_ns
ssl_stamped ctx arrival_ticks c (some s) = record ctx {
  last_nic_timestamp_ns = stamp_ns s;
  last_nic_timestamp_ticks = ssl_nic_ticks c (stamp_ns s);
}
ssl_stamped ctx arrival_ticks c none = record ctx {
  last_nic_timestamp_ticks = arrival_ticks;
  last_nic_timestamp_ns = clock_ns (record c { now_ticks = arrival_ticks });
}

-- What ssl_read_func stores while SSLRead runs: for each of its calls that receives bytes, the
-- reading of the clock before recvmsg, the clock and the control message.
unfoldable pub stamp_all : SslContext → List (ℕ × Clock × Option Stamp) → SslContext
unfolding ssl_stamped
stamp_all ctx [] = ctx
stamp_all ctx ((arrival_ticks, c, stamp) ∷ arrivals) =
    stamp_all (ssl_stamped ctx arrival_ticks c stamp) arrivals

-- `ssl_read`, with the status that SSLRead returns, the bytes that it has put at the write
-- position, whatever the status, and the calls of ssl_read_func that it has made.
pub ssl_read :
    SslContext
    → Ring
    → OsStatus
    → List ℕ
    → List (ℕ × Clock × Option Stamp)
    → Option ℕ × SslContext × Ring
ssl_read ctx r status xs arrivals =
    let (p, available) = write_inline r in
    let called = stamp_all ctx arrivals in
    let filled = record r { buf = memcpy r.buf p xs } in
    let lost : Option ℕ × SslContext × Ring = (none, record called { fd = none }, filled) in
    if available == 0 then (some 0, ctx, r) else elim status [
      | no_err ↦
          if ltb 0 (length xs)
          then (
            some (length xs),
            called,
            record filled { write_ptr = add_size r.write_ptr (length xs) % r.size },
          )
          else lost
      | would_block ↦ (some 0, called, filled)
      | closed_graceful ↦ lost
      | closed_abort ↦ lost
      | other_error ↦ lost
    ]

-- `ssl_write`, with the status and the count that SSLWrite returns for the block it is handed.
pub ssl_write : Ring → OsStatus → ℕ → Option ℕ × Ring
ssl_write r status written =
    let available = (read_inline r).1 in
    if available == 0 then (some 0, r) else elim status [
      | no_err ↦
          if ltb 0 written
          then (some written, record r { read_ptr = add_size r.read_ptr written % r.size })
          else (none, r)
      | would_block ↦ (some 0, r)
      | closed_graceful ↦ (none, r)
      | closed_abort ↦ (none, r)
      | other_error ↦ (none, r)
    ]

-- The block that ssl_write hands to SSLWrite.
pub ssl_offered : Ring → List ℕ
ssl_offered r = let (p, available) = read_inline r in bytes_at r.buf p available
