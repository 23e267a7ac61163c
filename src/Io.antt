-- ===== src/Io.antt =====
-- src/io_kqueue.h and src/io_kqueue.c: the registry of sockets, and the reads and writes between a
-- socket and its rings. What the kernel returns is an argument of each call. `watch` is the
-- kernel's side of the kqueue: for each descriptor with a read filter, the index given as its
-- udata.
pub mod Registry
use websocket.Prelude.{
  ℕ, zero, suc, ◌+◌, ◌-◌, Option, none, some, Bool, true, false, ltb, leb, ◌==◌, ◌&&◌,
  if◌then◌else◌,
}

-- IO_MAX_SOCKETS
abbrev pub io_max_sockets : ℕ
io_max_sockets = 64

-- `IOSocket`. A descriptor of -1 and a NULL ring are none; rings and user data are named by
-- numbers.
pub record IoSocket : Type 0 where
  pub fd : Option ℕ
  pub rx_ring : Option ℕ
  pub tx_ring : Option ℕ
  pub user_data : ℕ
  pub last_nic_timestamp_ns : ℕ
  pub last_nic_timestamp_ticks : ℕ

-- A zeroed entry: its descriptor is 0.
abbrev pub zeroed_socket : IoSocket
zeroed_socket = record {
  fd = some 0;
  rx_ring = none;
  tx_ring = none;
  user_data = 0;
  last_nic_timestamp_ns = 0;
  last_nic_timestamp_ticks = 0;
}

-- `IOContext`, with its array of sockets as a function of the index. `opened` is `kq != -1`.
pub record IoContext : Type 0 where
  pub opened : Bool
  pub watch : ℕ → Option ℕ
  pub sockets : ℕ → IoSocket
  pub socket_count : ℕ
  pub e_core_pinned : Bool

-- The array with one entry changed, and the kernel's table after EV_ADD and EV_DELETE.
abbrev pub put_socket : (ℕ → IoSocket) → ℕ → IoSocket → ℕ → IoSocket
put_socket sockets i s j = if j == i then s else sockets j

abbrev pub ev_add : (ℕ → Option ℕ) → ℕ → ℕ → ℕ → Option ℕ
ev_add watch fd udata g = if g == fd then some udata else watch g

abbrev pub ev_delete : (ℕ → Option ℕ) → ℕ → ℕ → Option ℕ
ev_delete watch fd g = if g == fd then none else watch g

-- `io_init`: whether kqueue() succeeds and whether the thread could be pinned are arguments. The
-- context is zeroed first; the result is whether 0 is returned.
unfoldable pub io_init : Bool → Bool → Bool × IoContext
io_init kqueue pinned = (
  kqueue,
  record {
    opened = kqueue;
    watch = λ _. none;
    sockets = λ _. zeroed_socket;
    socket_count = 0;
    e_core_pinned = kqueue && pinned;
  },
)

-- `io_add_socket`: whether fcntl succeeds on the descriptor, and whether kevent does, are
-- arguments. The result is the index, none for -1.
unfoldable pub io_add_socket : IoContext → Option ℕ → ℕ → ℕ → ℕ → Bool → Bool → Option ℕ × IoContext
io_add_socket ctx none rx tx user fcntl kevent = (none, ctx)
io_add_socket ctx (some fd) rx tx user fcntl kevent =
    if leb io_max_sockets ctx.socket_count
    then (none, ctx)
    else (let idx = ctx.socket_count in
        let sock : IoSocket = record {
          fd = some fd;
          rx_ring = some rx;
          tx_ring = some tx;
          user_data = user;
          last_nic_timestamp_ns = 0;
          last_nic_timestamp_ticks = 0;
        } in
        let stored = record ctx { sockets = put_socket ctx.sockets idx sock } in
        if fcntl
        then (if kevent
            then (
              some idx,
              record stored { socket_count = idx + 1; watch = ev_add ctx.watch fd idx },
            )
            else (none, stored))
        else (none, ctx))

pub has_fd : Option ℕ → ℕ → Bool
has_fd none fd = false
has_fd (some g) fd = g == fd

-- The search of io_remove_socket, with `left` entries left from index `i` on.
pub find_socket : (ℕ → IoSocket) → ℕ → ℕ → ℕ → Option ℕ
find_socket sockets fd zero i = none
find_socket sockets fd (suc left) i =
    let rest = find_socket sockets fd left (i + 1) in
    if has_fd (sockets i).fd fd then some i else rest

-- EV_ADD for the descriptor of the socket that was moved; kevent refuses -1.
pub rewatch : (ℕ → Option ℕ) → Option ℕ → ℕ → ℕ → Option ℕ
rewatch watch none idx = watch
rewatch watch (some fd) idx = ev_add watch fd idx

-- The end of io_remove_socket, for the socket at `idx`: EV_DELETE, and the last socket moved into
-- its place and watched with its new index. The results of kevent are not looked at.
pub remove_at : IoContext → ℕ → ℕ → IoContext
remove_at ctx fd idx =
    let last = ctx.sockets (ctx.socket_count - 1) in
    let deleted = ev_delete ctx.watch fd in
    if ltb idx (ctx.socket_count - 1)
    then record ctx {
      sockets = put_socket ctx.sockets idx last;
      watch = rewatch deleted last.fd idx;
      socket_count = ctx.socket_count - 1;
    }
    else record ctx { watch = deleted; socket_count = ctx.socket_count - 1 }

-- `io_remove_socket`: whether it returns 0.
pub io_remove_socket : IoContext → Option ℕ → Bool × IoContext
io_remove_socket ctx none = (false, ctx)
io_remove_socket ctx (some fd) = elim (find_socket ctx.sockets fd ctx.socket_count 0) [
  | none ↦ (false, ctx)
  | some idx ↦ (true, remove_at ctx fd idx)
]

-- The loop of io_cleanup at index `i`, whose bound is the count that the removals change.
pub cleanup_loop : ℕ → ℕ → IoContext → IoContext
cleanup_loop zero i ctx = ctx
cleanup_loop (suc fuel) i ctx =
    let rest = cleanup_loop fuel (i + 1) (io_remove_socket ctx (ctx.sockets i).fd).1 in
    if ltb i ctx.socket_count then rest else ctx

-- `io_cleanup`. The loop runs at most once for each socket. Closing the kqueue drops its filters.
pub io_cleanup : IoContext → IoContext
io_cleanup ctx =
    let left = cleanup_loop ctx.socket_count 0 ctx in
    record left { opened = false; watch = λ _. none; socket_count = 0 }
