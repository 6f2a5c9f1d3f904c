-- ===== src/Server/Listener.antt =====
-- include/mpcc/server/server.h and src/server/server.cpp: the class Server. The calls of the logger are
-- left out. What the threads of the clients do meanwhile is no part of these steps, but that any thread
-- may be the one that handles SIGINT.
pub mod Accepting
pub mod Loop
pub mod Closing
pub mod Waiting
pub mod Joining
pub mod Setup
mod Tests
use mpcc.Common.{
  ℕ, suc, ◌+◌, ◌-◌, ◌%◌, ◌^◌, ◌≡◌, Bool, true, false, not, ◌||◌, Option, none, some, List, [], ◌∷◌,
  ◌++◌, Bytes, codes, if◌then◌else◌, nat_eq,
}
use mpcc.Common.Scan.{ℤ, pos, to_uint16}
use mpcc.Core.FileIo.{Os, Disk}
use mpcc.Core.Net.{Net}
use mpcc.Core.Session
use mpcc.Core.Session.{Session, World, Ptr, update}
use mpcc.Core.UniqueFd
use mpcc.Core.UniqueFd.{UniqueFd}
use mpcc.Server.Broadcast
use mpcc.Server.Broadcast.{BroadcastManager, shutdown_all}
use mpcc.Server.Rooms.{Rooms}
use mpcc.Server.UserRegistry
use mpcc.Server.UserRegistry.{UserRegistry}
use mpcc.Util.Threads.{
  Pthreads, Threads, ThreadGroup, Created, running, failed, new_group, init_attr, create,
  destroy_attr, add, join_all,
}

-- The operating system of the server. setsockopt has no effect that is modelled.
pub record Host : Type 0 where
  pub socket : Option ℕ
  pub bind : ℕ → Bool
  pub listen : ℤ → Bool
  pub pthreads : Pthreads

-- `spawned`: the threads that own the handler of a session, and the session, the latest first.
pub record Server : Type 0 where
  pub port : ℤ
  pub backlog : ℤ
  pub server_fd : UniqueFd
  pub running : Bool
  pub broadcaster : BroadcastManager
  pub rooms : Rooms
  pub registry : UserRegistry
  pub group : ThreadGroup
  pub world : World
  pub threads : Threads
  pub spawned : List (ℕ × Ptr)

-- Code of the server that may throw std::runtime_error.
pub data Result : Type 0 where
  returned : Server → Result
  thrown : Bytes → Server → Result

abbrev pub and_then : Result → (Server → Result) → Result
and_then (returned s) next = next s
and_then (thrown what s) next = thrown what s

-- server_fd_.reset(fd)
abbrev pub reset_fd : Option ℕ → Server → Server
reset_fd new s =
    let (fd, net) = UniqueFd.reset s.server_fd new s.world.net in
    record s { server_fd = fd; world = record s.world { net = net } }

module _ (e : Host) where
  unfoldable pub create_socket : Server → Result
  unfolding UniqueFd.reset UniqueFd.valid
  create_socket s =
      let s' = reset_fd e.socket s in
      if not (UniqueFd.valid s'.server_fd) then thrown (codes "socket() failed") s' else returned s'

  unfoldable pub bind_socket : Server → Result
  unfolding UniqueFd.reset to_uint16
  bind_socket s =
      if not (e.bind (to_uint16 s.port))
      then thrown (codes "bind() failed") (reset_fd none s)
      else returned s

  unfoldable pub listen_socket : Server → Result
  unfolding UniqueFd.reset
  listen_socket s =
      if not (e.listen s.backlog)
      then thrown (codes "listen() failed") (reset_fd none s)
      else returned s

  -- std::make_unique<Session>(client_fd, ip) at `p`, and release(): the handler has the pointer.
  unfoldable pub new_session : ℕ → Bytes → Ptr → Server → Server
  unfolding Session.init
  new_session fd ip p s = record s {
    world = record s.world { session = update s.world.session p (some (Session.init fd ip)) };
  }

  abbrev track : ℕ → Ptr → Threads → Server → Option (Unit {0} × ThreadGroup) → Option Server
  track tid p threads s none = none
  track tid p threads s (some (x, group)) =
      some (record s { group = group; threads = threads; spawned = (tid, p) ∷ s.spawned })

  -- Behind pthread_create: on an error the context is freed, and with it the handler, which does not
  -- own its session; otherwise the thread has it, and is added to the group.
  unfoldable pub spawned_by : Ptr → Created × Threads → Server → Option Server
  unfolding add destroy_attr
  spawned_by p (failed n, threads) s = some (record s { threads = destroy_attr true threads })
  spawned_by p (running tid, threads) s =
      track tid p (destroy_attr true threads) s (add tid s.group)

  unfoldable pub spawn_with : Ptr → Bool × Threads → Server → Option Server
  unfolding spawned_by
  spawn_with p (false, threads) s = some (record s { threads = threads })
  spawn_with p (true, threads) s = spawned_by p (create e.pthreads threads) s

  -- A round of accept_loop behind an accept() that gave a client; `none` does not return.
  unfoldable pub serve_client : ℕ → Bytes → Ptr → Server → Option Server
  unfolding new_session spawn_with init_attr
  serve_client fd ip p s =
      let s' = new_session fd ip p s in spawn_with p (init_attr e.pthreads s'.threads) s'

-- sigint_handler, in a server that is the instance.
unfoldable pub sigint : Bool → Server → Server
sigint true s = record s { running = false }
sigint false s = s

-- What accept() answers: a client, by its descriptor, its address and where `new` puts its session; -1
-- with EINTR; or -1 with another error.
pub data Accepted : Type 0 where
  connection : ℕ → Bytes → Ptr → Accepted
  interrupted broken : Accepted

-- A round of accept_loop: whether SIGINT is handled after the test of running_ and until accept() has
-- answered, the answer, and whether it is handled from then on to the next test.
pub record Round : Type 0 where
  pub during : Bool
  pub answer : Accepted
  pub behind : Bool

abbrev pub signalled : Round → Bool
signalled r = r.during || r.behind

abbrev pub goes_on : Option Server → Option (Bool × Server)
goes_on none = none
goes_on (some s) = some (true, s)

abbrev pub go_on_with :
    (Server → Option (Bool × Server)) → Bool → Option (Bool × Server) → Option (Bool × Server)
go_on_with next behind none = none
go_on_with next behind (some (false, s)) = some (true, sigint behind s)
go_on_with next behind (some (true, s)) = next (sigint behind s)

module _ (e : Host) where
  -- The body of the loop behind accept(): whether the loop goes on to its test.
  unfoldable pub handle_answer : Accepted → Server → Option (Bool × Server)
  unfolding serve_client
  handle_answer (connection fd ip p) s = goes_on (serve_client e fd ip p s)
  handle_answer interrupted s = some (s.running, s)
  handle_answer broken s = some (s.running, s)

  -- The loop, over the rounds that accept() allows: whether it has ended. If not, it waits in accept().
  unfoldable pub accept_loop : List Round → Server → Option (Bool × Server)
  unfolding handle_answer sigint
  accept_loop [] s = some (not s.running, s)
  accept_loop (r ∷ rounds) s =
      let next = accept_loop rounds in
      if not s.running
      then some (true, s)
      else go_on_with next r.behind (handle_answer r.answer (sigint r.during s))

  unfoldable pub listening : Server → Result
  unfolding create_socket bind_socket listen_socket
  listening s = and_then (create_socket e s) (λ s.
      and_then (bind_socket e s)
        (λ s. and_then (listen_socket e s) (λ s. returned (record s { running = true }))))

-- How start() ends: it throws, or its loop has ended or waits.
pub data Started : Type 0 where
  threw : Bytes → Server → Started
  looped : Option (Bool × Server) → Started

abbrev pub start_loop : (Server → Option (Bool × Server)) → Result → Started
start_loop loop (thrown what s) = threw what s
start_loop loop (returned s) = looped (loop s)

unfoldable pub start : Host → List Round → Server → Started
unfolding listening accept_loop
start e rounds s = start_loop (accept_loop e rounds) (listening e s)

-- disconnect_all_clients
abbrev pub put_broadcaster : Server → Option (BroadcastManager × World) → Option Server
put_broadcaster s none = none
put_broadcaster s (some (b, w)) = some (record s { broadcaster = b; world = w })

unfoldable pub disconnect_all_clients : Server → Option Server
unfolding shutdown_all
disconnect_all_clients s = put_broadcaster s (shutdown_all s.broadcaster s.world)

unfoldable pub close_listener : Server → Server
unfolding UniqueFd.valid UniqueFd.shutdown_rdwr UniqueFd.reset
close_listener s =
    if UniqueFd.valid s.server_fd
    then reset_fd none (record s {
      world = record s.world { net = UniqueFd.shutdown_rdwr s.server_fd s.world.net };
    })
    else s

abbrev pub put_group : Server → Option (ThreadGroup × Threads) → Option Server
put_group s none = none
put_group s (some (g, w)) = some (record s { group = g; threads = w })

-- The session whose handler a thread runs.
unfoldable pub owner : List (ℕ × Ptr) → ℕ → Option Ptr
owner [] tid = none
owner ((t, p) ∷ rest) tid = let older = owner rest tid in if nat_eq t tid then some p else older

-- The session is deleted or closed, so that recv_line() of its handler does not wait.
abbrev pub is_closed : Option Session → Bool
is_closed none = true
is_closed (some s) = not s.active

unfoldable pub woken : Option Ptr → (Ptr → Option Session) → Bool
woken none session = false
woken (some p) session = is_closed (session p)

-- Which threads end: those that have ended or will end `by_itself`, as when their client hangs up or
-- recv() times out, and those whose session is closed.
unfoldable pub ends_at : (ℕ → Bool) → List (ℕ × Ptr) → (Ptr → Option Session) → ℕ → Bool
unfolding owner woken
ends_at by_itself spawned session tid = by_itself tid || woken (owner spawned tid) session

abbrev pub close_rest : Option Server → Option Server
close_rest none = none
close_rest (some s) = some (close_listener s)

-- shutdown() up to its call of join_all().
unfoldable pub before_joins : Server → Option Server
unfolding disconnect_all_clients close_listener
before_joins s = close_rest (disconnect_all_clients (record s { running = false }))

abbrev pub join_workers : (ℕ → Bool) → Option Server → Option Server
join_workers by_itself none = none
join_workers by_itself (some s) =
    put_group s (join_all (ends_at by_itself s.spawned s.world.session) s.group s.threads)

-- `none` is a fault, or a join that does not return.
unfoldable pub shutdown : (ℕ → Bool) → Server → Option Server
unfolding before_joins join_all ends_at
shutdown by_itself s = join_workers by_itself (before_joins s)

-- The constructor; the registry makes the directory of its file.
unfoldable pub init : Os → ℤ → ℤ → World → Disk → Threads → Server × Disk
unfolding Broadcast.init UserRegistry.init new_group
init os port backlog world disk threads =
    let (registry, disk') = UserRegistry.init os (codes "./data/registered_users.dat") true disk in
    (
      record {
        port = port;
        backlog = backlog;
        server_fd = none;
        running = false;
        broadcaster = Broadcast.init;
        rooms = [];
        registry = registry;
        group = new_group;
        world = world;
        threads = threads;
        spawned = [];
      },
      disk',
    )
