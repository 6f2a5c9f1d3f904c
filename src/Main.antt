-- ===== src/Main.antt =====
-- src/server/server_main.cpp and src/client/client_main.cpp: the command lines and the lives of the two
-- programs.
pub mod Numbers
pub mod CommandLine
pub mod Ports
mod Tests
use mpcc.Common.{
  ℕ, Bool, true, false, not, ◌||◌, Option, none, some, List, [], ◌∷◌, ◌++◌, Bytes, codes, ◌==◌,
  if◌then◌else◌,
}
use mpcc.Common.Scan.{ℤ, pos, stoi}
use mpcc.Util.Logger.{LogLevel, fatal, warning, info, debug}
use mpcc.Server.Listener
use mpcc.Server.Listener.{Server, Round, Started, threw, looped, start, shutdown}
use mpcc.Core.FileIo.{Os, Disk}
use mpcc.Core.Net.{Net}
use mpcc.Core.Session.{World}
use mpcc.Server.ClientHandler.{Received}
use mpcc.Util.Threads.{Threads}
use mpcc.Client
use mpcc.Client.{SendAnswer, Result, returned, thrown, out_of_fuel}
use mpcc.Client.Chat
use mpcc.Client.Chat.{Turn}

-- `none` where the program throws std::invalid_argument.
unfoldable pub parse_level : Bytes → Option LogLevel
parse_level s =
    if s == codes "FATAL"
    then some fatal
    else if s == codes "WARNING"
    then some warning
    else if s == codes "INFO"
    then some info
    else if s == codes "DEBUG"
    then some debug
    else none

pub record ServerOptions : Type 0 where
  pub port : ℤ
  pub log_level : LogLevel
  pub log_file : Bytes

pub record ClientOptions : Type 0 where
  pub host : Bytes
  pub port : ℤ
  pub log_level : LogLevel

abbrev pub server_defaults : ServerOptions
server_defaults = record {
  port = pos 8080;
  log_level = info;
  log_file = codes "./logs/mpcc_server.log";
}

abbrev pub client_defaults : ClientOptions
client_defaults = record { host = codes "127.0.0.1"; port = pos 8080; log_level = info }

-- How the reading of a command line ends: the program goes on; it prints its usage and exits, with
-- success or failure; or an exception of std::stoi leaves main.
pub data Parsed (A : Type 0) : Type 0 where
  goes_on : A → Parsed A
  exits : Bool → Parsed A
  escapes : Parsed A

abbrev is_flag : Bytes → Bytes → Bytes → Bool
is_flag long short arg = arg == long || arg == short

-- The argument takes no value, or has none: --help, or one that is not known.
unfoldable pub without_value : {A : Type 0} → Bytes → Parsed A
without_value arg = exits (is_flag (codes "--help") (codes "-h") arg)

abbrev pub caught_level : {A : Type 0} → Option LogLevel → (LogLevel → Parsed A) → Parsed A
caught_level none next = exits false
caught_level (some level) next = next level

abbrev pub read_port : {A : Type 0} → Option ℤ → (ℤ → Parsed A) → Parsed A
read_port none next = escapes
read_port (some n) next = next n

-- The loop over argv from the first argument.
unfoldable pub server_args : List Bytes → ServerOptions → Parsed ServerOptions
unfolding stoi parse_level without_value
server_args [] o = goes_on o
server_args (arg ∷ []) o = without_value arg
server_args (arg ∷ value ∷ args) o =
    let next = server_args args in
    if is_flag (codes "--port") (codes "-p") arg
    then read_port (stoi value) (λ n. next (record o { port = n }))
    else if is_flag (codes "--loglevel") (codes "-l") arg
    then caught_level (parse_level value) (λ level. next (record o { log_level = level }))
    else if is_flag (codes "--logfile") (codes "-f") arg
    then next (record o { log_file = value })
    else without_value arg

unfoldable pub client_args : List Bytes → ClientOptions → Parsed ClientOptions
unfolding stoi parse_level without_value
client_args [] o = goes_on o
client_args (arg ∷ []) o = without_value arg
client_args (arg ∷ value ∷ args) o =
    let next = client_args args in
    if is_flag (codes "--host") (codes "-H") arg
    then next (record o { host = value })
    else if is_flag (codes "--port") (codes "-p") arg
    then read_port (stoi value) (λ n. next (record o { port = n }))
    else if is_flag (codes "--loglevel") (codes "-l") arg
    then caught_level (parse_level value) (λ level. next (record o { log_level = level }))
    else without_value arg

-- How a program ends: with a status, true for EXIT_SUCCESS; not yet; by an exception that nothing
-- catches; or by a fault or a call that does not return.
pub data Ended : Type 0 where
  status : Bool → Ended
  waits aborts faults : Ended

-- `none` is a fault, or a shutdown() that does not return.
abbrev pub after_shutdown : Option Server → Ended
after_shutdown none = faults
after_shutdown (some s) = status true

abbrev pub after_start : (ℕ → Bool) → Started → Ended
after_start by_itself (threw what s) = status false
after_start by_itself (looped none) = faults
after_start by_itself (looped (some (false, s))) = waits
after_start by_itself (looped (some (true, s))) = after_shutdown (shutdown by_itself s)

abbrev pub with_options : {A : Type 0} → (A → Ended) → Parsed A → Ended
with_options run (goes_on o) = run o
with_options run (exits success) = status success
with_options run escapes = aborts

-- What the program of the server is given: the operating system, the threads that end by themselves, and
-- what was there before.
pub record ServerSurroundings : Type 0 where
  pub host : Listener.Host
  pub by_itself : ℕ → Bool
  pub os : Os
  pub world : World
  pub disk : Disk
  pub threads : Threads

abbrev pub run_server : ServerSurroundings → List Round → ServerOptions → Ended
run_server e rounds o =
    let (server, disk) = Listener.init e.os o.port (pos 10) e.world e.disk e.threads in
    after_start e.by_itself (start e.host rounds server)

-- main of the server, over the rounds that accept() allows.
unfoldable pub server_main : ServerSurroundings → List Round → List Bytes → Ended
unfolding server_args start shutdown Listener.init
server_main e rounds args = with_options (run_server e rounds) (server_args args server_defaults)

abbrev after_run : Client.Result Bool → Ended
after_run (returned true s) = status true
after_run (returned false s) = waits
after_run (thrown what s) = status false
after_run out_of_fuel = faults

-- What the program of the client is given: the operating system, the answers of ::recv and ::send,
-- what is typed, and what was there before.
pub record ClientSurroundings : Type 0 where
  pub host : Client.Host
  pub input : List Received
  pub answers : List SendAnswer
  pub stdin : List Bytes
  pub net : Net
  pub threads : Threads

-- main of the client, with its two threads taking these turns.
unfoldable pub client_main : ClientSurroundings → List Turn → Bool → List Bytes → Ended
unfolding client_args Chat.run Client.init
client_main e turns late args =
    with_options
      (λ o. after_run (
        Chat.run e.host turns late
          (Client.init o.host o.port e.input e.answers e.stdin [] e.net e.threads)))
      (client_args args client_defaults)
