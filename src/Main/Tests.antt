-- ===== src/Main/Tests.antt =====
-- Command lines, and inputs at which the theorems about them apply.
use mpcc.Common.{suc, ◌+◌, ◌%◌, ◌^◌, ◌<◌, ◌≡◌, refl, true, false, [], ◌∷◌, codes, arith, ◌==◌}
use mpcc.Common.Scan.{pos, negsuc, stoi, show_int}
use mpcc.Util.Logger.{warning, debug}
use mpcc.Main.{goes_on, exits, escapes, server_args, client_args, server_defaults, client_defaults}
use mpcc.Main.CommandLine.{port_is, level_is, command_line, server_args-command_line}
use mpcc.Main.Ports.{port_modulo, connects}
use mpcc.Main.{ServerSurroundings, ClientSurroundings, server_main, waits}
use mpcc.Core.FileIo.{Os, made, good}
use mpcc.Util.Threads.{Pthreads, running}
use mpcc.Util.Threads.Joined.{no_threads}
use mpcc.Server.Samples.{world, cipher}
use mpcc.Common.{length, some, none, nat_eq}

server_args-command_line_example :
    server_args
      (command_line
        ((true, port_is (pos 9000)) ∷ (false, level_is debug) ∷ (false, port_is (negsuc 4)) ∷ []))
      server_defaults
    ≡ goes_on (record server_defaults { port = negsuc 4; log_level = debug })
server_args-command_line_example =
    server_args-command_line
      ((true, port_is (pos 9000)) ∷ (false, level_is debug) ∷ (false, port_is (negsuc 4)) ∷ [])
      server_defaults (omega arith, (tt, (omega arith, tt)))

abbrev os : Os
os = record {
  mkdir = λ t dir. made;
  can_open = λ t path. true;
  write = λ t path content. good (length content);
  rename = λ t from to. true;
}

abbrev pthreads : Pthreads
pthreads = record { attr_init = λ t. true; create = λ t. running 7 }

-- The port 4464 alone can be bound.
abbrev server_side : ServerSurroundings
server_side = record {
  host = record {
    socket = some 3;
    bind = λ port. nat_eq port 4464;
    listen = λ backlog. true;
    pthreads = pthreads;
  };
  by_itself = λ tid. false;
  os = os;
  world = world;
  disk = record { file = λ path. none; mkdirs = []; now = 0 };
  threads = no_threads;
}

abbrev client_side : ClientSurroundings
client_side = record {
  host = record {
    socket = some 3;
    inet_pton = λ h. true;
    connect = λ a. nat_eq a.port 4464;
    pthreads = pthreads;
    cipher = cipher;
  };
  input = [];
  answers = [];
  stdin = [];
  net = world.net;
  threads = no_threads;
}

port_modulo_example :
    (server_main server_side [] (codes "--port" ∷ codes "70000" ∷ []) ≡ waits)
    × (connects client_side (client_args (codes "--port" ∷ codes "70000" ∷ []) client_defaults)
        ≡ true)
unfolding show_int
port_modulo_example =
    port_modulo (pos 70000) (omega arith) server_side client_side 4464 1 3 3 (omega arith) refl refl
      refl refl refl

endings :
    (server_args (codes "--port" ∷ codes "x" ∷ []) server_defaults ≡ escapes)
    × (server_args (codes "--port" ∷ []) server_defaults ≡ exits false)
    × (server_args (codes "-l" ∷ codes "LOUD" ∷ []) server_defaults ≡ exits false)
    × (server_args (codes "-h" ∷ codes "x" ∷ []) server_defaults ≡ exits true)
    × (client_args (codes "-H" ∷ codes "::1" ∷ codes "-l" ∷ codes "WARNING" ∷ []) client_defaults
        ≡ goes_on (record client_defaults { host = codes "::1"; log_level = warning }))
unfolding server_args client_args ◌==◌ stoi mpcc.Common.Scan.skip_spaces
endings = (refl, refl, refl, refl, refl)
