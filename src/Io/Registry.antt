-- ===== src/Io/Registry.antt =====
-- The registry of sockets against the kernel's table of watched descriptors.
use websocket.Prelude.{
  ℕ, zero, suc, ◌+◌, ◌-◌, ◌≤◌, ◌<◌, ◌≡◌, ◌≢◌, ◌↔◌, refl, Option, none, some, Bool, true, false,
  Bool-cases, inl, inr, ltb, arith,
}
use websocket.Io.{
  IoContext, IoSocket, put_socket, ev_delete, io_init, io_add_socket, has_fd, find_socket, rewatch,
  remove_at, io_remove_socket,
}

-- The kernel watches exactly the registered descriptors, each under its socket's index.
pub record Agrees (ctx : IoContext) : Type 0 where
  pub watched :
      (i fd : ℕ) → i < ctx.socket_count → (ctx.sockets i).fd ≡ some fd → ctx.watch fd ≡ some i
  pub listed :
      (i fd : ℕ) → ctx.watch fd ≡ some i → (i < ctx.socket_count) × ((ctx.sockets i).fd ≡ some fd)

-- A new context watches nothing.
pub io_init-Agrees : (kqueue pinned : Bool) → Agrees (io_init kqueue pinned).1
unfolding io_init
io_init-Agrees kqueue pinned = record {
  watched = λ i fd h e. absurd (omega arith);
  listed = λ i fd e. absurd (ground arith);
}

-- Adding a descriptor that is not watched yet keeps the registry and the kernel's table in
-- agreement, also where fcntl or kevent fails.
pub io_add_socket-Agrees :
    {ctx : IoContext} (fd : Option ℕ) (rx tx user : ℕ) (fcntl kevent : Bool)
    → Agrees ctx
    → ((g : ℕ) → fd ≡ some g → ctx.watch g ≡ none)
    → Agrees (io_add_socket ctx fd rx tx user fcntl kevent).1
unfolding io_add_socket
io_add_socket-Agrees none rx tx user fcntl kevent a fresh = a
io_add_socket-Agrees {ctx} (some fd) rx tx user fcntl kevent a fresh = record {
  watched = λ i g. ground (arith, a.watched i g, fresh fd refl);
  listed = λ i g. ground (arith, a.listed i g, fresh fd refl);
}

find_socket_lem :
    (sockets : ℕ → IoSocket) (fd left i idx : ℕ)
    → find_socket sockets fd left i ≡ some idx
    → (i ≤ idx) × (idx < i + left) × ((sockets idx).fd ≡ some fd)
unfolding find_socket has_fd
find_socket_lem sockets fd zero i idx h = absurd (ground arith)
find_socket_lem sockets fd (suc left) i idx h =
    ground (arith, find_socket_lem sockets fd left (i + 1) idx)

module _ {ctx : IoContext} (fd idx : ℕ) (a : Agrees ctx) (h : idx < ctx.socket_count)
    (e : (ctx.sockets idx).fd ≡ some fd) where
  -- The last socket is the one removed.
  remove_last-Agrees :
      ltb idx (ctx.socket_count - 1) ≡ false
      → Agrees (record ctx { watch = ev_delete ctx.watch fd; socket_count = ctx.socket_count - 1 })
  remove_last-Agrees at_end = record {
    watched = λ i g. ground (arith, a.watched i g, a.watched idx fd h e);
    listed = λ i g. ground (arith, a.listed i g, a.watched idx fd h e, a.listed idx g);
  }

  -- The last socket takes the place of the one removed.
  remove_middle-Agrees :
      (last : Option ℕ)
      → (ctx.sockets (ctx.socket_count - 1)).fd ≡ last
      → ltb idx (ctx.socket_count - 1) ≡ true
      → Agrees (record ctx {
        sockets = put_socket ctx.sockets idx (ctx.sockets (ctx.socket_count - 1));
        watch = rewatch (ev_delete ctx.watch fd) last idx;
        socket_count = ctx.socket_count - 1;
      })
  unfolding rewatch
  remove_middle-Agrees none moved inside = record {
    watched = λ i g. ground (arith, a.watched i g, a.watched idx fd h e);
    listed = λ i g. ground (arith, a.listed i g, a.watched idx fd h e, a.listed idx g);
  }
  remove_middle-Agrees (some f) moved inside = record {
    watched = λ i g.
        ground (arith, a.watched i g, a.watched idx fd h e, a.watched (ctx.socket_count - 1) f);
    listed = λ i g. ground (
      arith,
      a.listed i g,
      a.watched idx fd h e,
      a.listed idx g,
      a.watched (ctx.socket_count - 1) f,
    );
  }

  remove_at-Agrees : Agrees (remove_at ctx fd idx)
  unfolding remove_at
  remove_at-Agrees = elim (Bool-cases (ltb idx (ctx.socket_count - 1))) [
    | inl inside ↦
        rw inside (remove_middle-Agrees (ctx.sockets (ctx.socket_count - 1)).fd refl inside)
    | inr at_end ↦ rw at_end (remove_last-Agrees at_end)
  ]

-- Removing a socket keeps the registry and the kernel's table in agreement.
pub io_remove_socket-Agrees :
    {ctx : IoContext} (fd : Option ℕ) → Agrees ctx → Agrees (io_remove_socket ctx fd).1
unfolding io_remove_socket
io_remove_socket-Agrees none a = a
io_remove_socket-Agrees {ctx} (some fd) a = go (find_socket ctx.sockets fd ctx.socket_count 0) refl
  where
    go :
        (o : Option ℕ)
        → find_socket ctx.sockets fd ctx.socket_count 0 ≡ o
        → Agrees (io_remove_socket ctx (some fd)).1
    go none h = rw (io_remove_socket, h) a
    go (some idx) h =
        let found = find_socket_lem ctx.sockets fd ctx.socket_count 0 idx h in
        rw (io_remove_socket, h) (remove_at-Agrees fd idx a (omega (arith, found.1)) found.2)

find_socket-none :
    (sockets : ℕ → IoSocket) (fd left i j : ℕ)
    → find_socket sockets fd left i ≡ none
    → i ≤ j
    → j < i + left
    → (sockets j).fd ≢ some fd
unfolding find_socket has_fd
find_socket-none sockets fd zero i j h p q e = absurd (omega arith)
find_socket-none sockets fd (suc left) i j h p q e =
    ground (arith, find_socket-none sockets fd left (i + 1) j)

remove_at-forgets :
    {ctx : IoContext} (fd idx : ℕ)
    → Agrees ctx
    → idx < ctx.socket_count
    → (ctx.sockets idx).fd ≡ some fd
    → (remove_at ctx fd idx).watch fd ≡ none
unfolding remove_at rewatch
remove_at-forgets {ctx} fd idx a h e = go (ctx.sockets (ctx.socket_count - 1)).fd refl
  where
    go :
        (last : Option ℕ)
        → (ctx.sockets (ctx.socket_count - 1)).fd ≡ last
        → (remove_at ctx fd idx).watch fd ≡ none
    go none last = elim (Bool-cases (ltb idx (ctx.socket_count - 1))) [
      | inl inside ↦ rw (inside, last) (ground arith)
      | inr at_end ↦ rw at_end (ground arith)
    ]
    go (some f) last = elim (Bool-cases (ltb idx (ctx.socket_count - 1))) [
      | inl inside ↦
          rw (inside, last)
            (ground (arith, a.watched idx fd h e, a.watched (ctx.socket_count - 1) f))
      | inr at_end ↦ rw at_end (ground arith)
    ]

-- io_remove_socket returns 0 exactly when the kernel watches the descriptor, and afterwards the
-- kernel does not.
pub io_remove_socket_lem :
    {ctx : IoContext} (fd : ℕ)
    → Agrees ctx
    → let (ok, ctx') = io_remove_socket ctx (some fd) in
      ((ok ≡ true) ↔ (ctx.watch fd ≢ none)) × (ctx'.watch fd ≡ none)
unfolding io_remove_socket
io_remove_socket_lem {ctx} fd a = go (find_socket ctx.sockets fd ctx.socket_count 0) refl
  where
    unwatched :
        find_socket ctx.sockets fd ctx.socket_count 0 ≡ none
        → (o : Option ℕ) → ctx.watch fd ≡ o
        → ctx.watch fd ≡ none
    unwatched h none e = e
    unwatched h (some j) e =
        let there = a.listed j fd e in
        absurd (
          find_socket-none ctx.sockets fd ctx.socket_count 0 j h (omega arith)
            (omega (arith, there.0)) there.1)

    go :
        (o : Option ℕ)
        → find_socket ctx.sockets fd ctx.socket_count 0 ≡ o
        → (((io_remove_socket ctx (some fd)).0 ≡ true) ↔ (ctx.watch fd ≢ none))
          × ((io_remove_socket ctx (some fd)).1.watch fd ≡ none)
    go none h =
        let gone = unwatched h (ctx.watch fd) refl in rw (io_remove_socket, h) (ground arith)
    go (some idx) h =
        let found = find_socket_lem ctx.sockets fd ctx.socket_count 0 idx h in
        let inside : idx < ctx.socket_count = omega (arith, found.1) in
        let seen = a.watched idx fd inside found.2 in
        let after = remove_at-forgets fd idx a inside found.2 in
        rw (io_remove_socket, h) (ground arith)
