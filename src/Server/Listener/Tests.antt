-- ===== src/Server/Listener/Tests.antt =====
-- A server with two clients, and inputs at which the theorems about it apply.
use mpcc.Common.{ℕ, Bool, ◌≡◌, refl, true, false, some, none, [], ◌∷◌, codes}
use mpcc.Common.Scan.{pos}
use mpcc.Core.Session.{Session}
use mpcc.Server.Samples.{world, manager}
use mpcc.Common.{zero, suc}
use mpcc.Util.Threads.{Created, running, failed, new_group, join_all}
use mpcc.Util.Threads.Joined.{no_threads}
use mpcc.Server.Listener.{
  Host, Server, Round, connection, serve_client, shutdown, before_joins, owner,
  disconnect_all_clients, close_listener, ends_at, woken,
}
use mpcc.Server.Broadcast
use mpcc.Server.Listener.Accepting.{Tracks, Served, serve_client_lem}
use mpcc.Server.Listener.Loop.{Stops, accept_loop-Stops}
use mpcc.Server.Listener.Setup.{SetUp, listening_lem}

-- The first thread can be created, the second cannot.
abbrev host : Host
host = record {
  socket = some 3;
  bind = λ port. true;
  listen = λ backlog. true;
  pthreads = record {
    attr_init = λ t. true;
    create = λ t. elim t as (λ t. Created) [
      | zero ↦ failed 10
      | suc t ↦ elim t as (λ t. Created) [ zero ↦ running 8 | suc u ↦ failed 10 ]
    ];
  };
}

abbrev server : Server
server = record {
  port = pos 8080;
  backlog = pos 10;
  server_fd = some 3;
  running = true;
  broadcaster = manager;
  rooms = [];
  registry = record { filepath = codes "users"; has_logger = true; banned = []; warnings = [] };
  group = new_group;
  world = world;
  threads = no_threads;
  spawned = [];
}

server-Tracks : Tracks server
unfolding new_group
server-Tracks = record { free = refl; created = refl }

serve_client_lem_example :
    (s' : Server) × (serve_client host 9 (codes "::1") 4 server ≡ some s')
    × Served host 9 (codes "::1") 4 server s'
serve_client_lem_example = serve_client_lem host 9 (codes "::1") 4 server (server-Tracks).free

abbrev calm : Round
calm = record { during = false; answer = connection 9 (codes "::1") 4; behind = false }

abbrev last : Round
last = record { during = true; answer = connection 10 (codes "::1") 5; behind = false }

accept_loop-Stops_example : Stops host (calm ∷ last ∷ []) server
accept_loop-Stops_example =
    accept_loop-Stops host (calm ∷ []) last server (refl, tt) refl refl server-Tracks

listening_lem_example : SetUp host (record server { server_fd = none; running = false })
listening_lem_example =
    listening_lem host (record server { server_fd = none; running = false }) refl

-- A thread serves the session of ann, who is a client.
abbrev busy : Server
busy = record server {
  group = record { locked = false; tids = 7 ∷ [] };
  threads = record no_threads { created = 7 ∷ [] };
  spawned = (7, 1) ∷ [];
}

-- No thread ends by itself.
abbrev quiet : ℕ → Bool
quiet tid = false

-- The same thread, while ann is not yet a client.
dialogue_blocks : shutdown quiet (record busy { broadcaster = Broadcast.init }) ≡ none
unfolding shutdown before_joins Broadcast.init disconnect_all_clients close_listener ends_at owner
    woken join_all
dialogue_blocks = refl
