-- ===== src/Server/Listener/Setup.antt =====
-- How the server gets its socket.
use mpcc.Common.{
  ℕ, ◌≡◌, refl, sym, ap, ◌∙◌, ◌⊎◌, true, not, Option, none, some, ◌∷◌, Bytes, codes, Bool-cases,
  Option-cases, inl, inr, if◌then◌else◌,
}
use mpcc.Common.Scan.{to_uint16}
use mpcc.Core.UniqueFd
use mpcc.Core.UniqueFd.{UniqueFd}
use mpcc.Server.Listener.{
  Host, Server, Result, returned, thrown, and_then, create_socket, bind_socket, listen_socket,
  listening,
}

module _ (e : Host) where
  -- The server listens at its port.
  pub record Listens (s s' : Server) : Type 0 where
    pub fd : ℕ
    pub opened : e.socket ≡ some fd
    pub bound : e.bind (to_uint16 s.port) ≡ true
    pub listened : e.listen s.backlog ≡ true
    pub has_fd : s'.server_fd ≡ some fd
    pub running : s'.running ≡ true
    pub closed : s'.world.net.closed ≡ s.world.net.closed
    pub threads : s'.threads ≡ s.threads
    pub group : s'.group ≡ s.group

  -- The server has no socket; if one was opened, it was closed.
  pub record Failed (s s' : Server) : Type 0 where
    pub no_fd : s'.server_fd ≡ none
    pub running : s'.running ≡ s.running
    pub closed :
        ((e.socket ≡ none) × (s'.world.net.closed ≡ s.world.net.closed))
        ⊎ ((fd : ℕ) × (e.socket ≡ some fd) × (s'.world.net.closed ≡ fd ∷ s.world.net.closed))

  -- The server with a new socket.
  abbrev opened_at : ℕ → Server → Server
  opened_at fd s = record s { server_fd = some fd }

  abbrev closed_at : ℕ → Server → Server
  closed_at fd s = record s {
    server_fd = none;
    world = record s.world { net = record s.world.net { closed = fd ∷ s.world.net.closed } };
  }

  create_as : Option ℕ → UniqueFd → Server → Result
  unfolding UniqueFd.reset UniqueFd.valid
  create_as new old s =
      let (fd, net) = UniqueFd.reset old new s.world.net in
      let s' : Server = record s { server_fd = fd; world = record s.world { net = net } } in
      if not (UniqueFd.valid s'.server_fd) then thrown (codes "socket() failed") s' else returned s'

  creates :
      (s : Server)
      → s.server_fd ≡ none
      → ((e.socket ≡ none) × (create_socket e s ≡ thrown (codes "socket() failed") s))
        ⊎ ((fd : ℕ) × (e.socket ≡ some fd) × (create_socket e s ≡ returned (opened_at fd s)))
  unfolding create_socket create_as UniqueFd.reset UniqueFd.valid
  creates s no_fd = elim (Option-cases e.socket) [
    | inl failed ↦ inl (
      failed,
      ap (λ old. create_as e.socket old s) no_fd
          ∙ ap (λ new. create_as new none s) failed
          ∙ ap (λ fd. thrown (codes "socket() failed") (record s { server_fd = fd })) (sym no_fd),
    )
    | inr (fd, opened) ↦ inr (
      fd,
      opened,
      ap (λ old. create_as e.socket old s) no_fd ∙ ap (λ new. create_as new none s) opened,
    )
  ]

  -- How the setup of a server ends.
  abbrev pub SetUp : Server → Type 0
  SetUp s =
      ((s' : Server) × (listening e s ≡ returned s') × Listens s s')
      ⊎ ((what : Bytes) × (s' : Server) × (listening e s ≡ thrown what s') × Failed s s')

  abbrev bind_next : Server → Result
  bind_next s =
      and_then (bind_socket e s)
        (λ s. and_then (listen_socket e s) (λ s. returned (record s { running = true })))

  binds :
      (s : Server) (fd : ℕ)
      → e.socket ≡ some fd
      → ((s' : Server) × (bind_next (opened_at fd s) ≡ returned s') × Listens s s')
        ⊎ ((what : Bytes) × (s' : Server) × (bind_next (opened_at fd s) ≡ thrown what s')
            × Failed s s')
  unfolding bind_socket listen_socket UniqueFd.reset
  binds s fd opened = elim (Bool-cases (e.bind (to_uint16 s.port))) [
    | inr unbound ↦ inr (
      codes "bind() failed",
      closed_at fd s,
      rw unbound refl,
      record { no_fd = refl; running = refl; closed = inr (fd, opened, refl) },
    )
    | inl bound ↦ elim (Bool-cases (e.listen s.backlog)) [
      | inr deaf ↦ inr (
        codes "listen() failed",
        closed_at fd s,
        rw (bound, deaf) refl,
        record { no_fd = refl; running = refl; closed = inr (fd, opened, refl) },
      )
      | inl listened ↦ inl (
        record (opened_at fd s) { running = true },
        rw (bound, listened) refl,
        record {
          fd = fd;
          opened = opened;
          bound = bound;
          listened = listened;
          has_fd = refl;
          running = refl;
          closed = refl;
          threads = refl;
          group = refl;
        },
      )
    ]
  ]

  -- A server without a socket, whatever ::socket, ::bind and ::listen answer: either it reaches its loop,
  -- the three have succeeded, at the port modulo 2^16, it holds the new socket and running_ is true; or
  -- it throws, holds no socket, and the socket that was opened, if any, is closed.
  pub listening_lem : (s : Server) → s.server_fd ≡ none → SetUp s
  unfolding listening
  listening_lem s no_fd = elim (creates s no_fd) [
    | inl (failed, runs) ↦ inr (
      codes "socket() failed",
      s,
      ap (λ r. and_then r bind_next) runs,
      record { no_fd = no_fd; running = refl; closed = inl (failed, refl) },
    )
    | inr (fd, opened, runs) ↦ elim (binds s fd opened) [
      | inl (s', rest, h) ↦ inl (s', ap (λ r. and_then r bind_next) runs ∙ rest, h)
      | inr (what, s', rest, h) ↦ inr (what, s', ap (λ r. and_then r bind_next) runs ∙ rest, h)
    ]
  ]
