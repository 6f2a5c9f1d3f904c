-- ===== src/Server/ClientHandler/Tests.antt =====
-- A client with a registered session, and inputs at which the theorems about the handler apply.
use mpcc.Common.{
  ◌≤◌, ◌≡◌, refl, true, false, not, ◌&&◌, none, some, [], ◌∷◌, ◌++◌, Bytes, codes, IsByteString,
  length, arith, nat_eq, ◌==◌,
}
use mpcc.Common.Scan.{is_alnum, pos, negsuc, stoi, read_word}
use mpcc.Core.FileIo.{Os, made, good, read_all_lines, atomic_write_lines}
use mpcc.Core.FileIo.Atomic.{Flushes}
use mpcc.Server.Rooms.History.{rooms_refine}
use mpcc.Server.UserRegistry.{authenticate, listed, register_user, parse_lines, save_records}
use mpcc.Common.{ℕ, subst, contains}
use mpcc.Common.Dict
use mpcc.Core.Session.{World, Session, Ptr}
use mpcc.Server.Broadcast.{frame, snapshot}
use mpcc.Core.Message.{serialise, make_msg, parse}
use mpcc.Core.Message.RoundTrip.{strip-eq_self}
use mpcc.Util.Threads.{running, not_started}
use mpcc.Util.Threads.Joined.{no_threads}
use mpcc.Client
use mpcc.Client.{Host, takes}
use mpcc.Client.Sending.{capacity}
use mpcc.Client.Conference.{IsText, Said, room_text_is_shown}
use mpcc.Server.ClientHandler.Races.{freed_recipient_faults}
use mpcc.Server.ClientHandler.Interleaving.{take_turns, turns_of_broadcast, at_call, waits, faults}
use mpcc.Server.Broadcast.Delivery.{Outcome}
use mpcc.Server.Broadcast.Hearing.{Live}
use mpcc.Server.Rooms.{Rooms, join_room}
use mpcc.Server.Rooms.Membership.{RoomsValid, member}
use mpcc.Server.Rooms.History.{joins, run_calls}
use mpcc.Server.ClientHandler.Posting.{post_in_room}
use mpcc.Server.Samples.{world-IsValid, clients-Live}
use mpcc.Server.ClientHandler.{Env, State, byte, read_line, validate_username}
use mpcc.Server.ClientHandler.Accounts.{login_after_register}
use mpcc.Server.ClientHandler.Cleanup.{Forgotten, cleanup_and_exit_lem}
use mpcc.Server.ClientHandler.Commands.{post, cleanup_and_exit, run}
use mpcc.Server.ClientHandler.Invariant.{Waits}
use mpcc.Server.ClientHandler.Life.{Gone, run_lem}
use mpcc.Server.ClientHandler.Dialogue.{register_at, authenticate_at}
use mpcc.Server.ClientHandler.Frames.{arriving, read_line_frame}
use mpcc.Server.Samples.{kernel, cipher, world, manager, manager-ClientsValid, ann, ann_again}

choices :
    (stoi (codes " 12x") ≡ some (pos 12))
    × (stoi (codes "-1") ≡ some (negsuc 0))
    × (stoi (codes "x") ≡ none)
    × (stoi (codes "2147483648") ≡ none)
    × (read_word (codes "  /pm bob hi") ≡ (codes "/pm", codes " bob hi"))
unfolding stoi read_word
choices = (refl, refl, refl, refl, refl)

abbrev os : Os
os = record {
  mkdir = λ t dir. made;
  can_open = λ t path. true;
  write = λ t path content. good (length content);
  rename = λ t from to. true;
}

os-Flushes : Flushes os
os-Flushes t path content n e = ground arith

abbrev env : Env
env = record { kernel = kernel; os = os; cipher = cipher }

abbrev state : State
state = record {
  world = world;
  broadcaster = manager;
  rooms = [];
  registry = record { filepath = codes "users"; has_logger = false; banned = []; warnings = [] };
  disk = record { file = λ path. none; mkdirs = []; now = 0 };
  input = [];
  session = 1;
  current_room = codes "lobby";
}

read_line_frame_example :
    read_line cipher []
      (arriving (λ i. nat_eq i 1) 0 (cipher.encrypt (codes "hi" ++ b'\n' ∷ [])) (byte 7 ∷ []))
    ≡ (codes "hi", byte 7 ∷ [])
read_line_frame_example =
    read_line_frame cipher (λ i. nat_eq i 1) (codes "hi") (byte 7 ∷ [])
      (omega arith, (omega arith, tt)) (omega arith, (omega arith, tt))

ann_is_valid : validate_username (codes "ann") ≡ true
unfolding validate_username is_alnum
ann_is_valid = refl

cleanup_and_exit_lem_example :
    (s' : State) × (cleanup_and_exit env state ≡ some (tt, s')) × Forgotten 1 state s'
cleanup_and_exit_lem_example =
    cleanup_and_exit_lem env state ann (λ e. absurd (ground arith)) refl manager-ClientsValid
      (rooms_refine []).0

abbrev registered : State
registered =
    let (_, u, d) =
      register_user os state.registry (codes "ann") (cipher.encrypt (codes "pw")) state.disk in
    record state { registry = u; disk = d }

registers :
    register_at env (codes "ann") (cipher.encrypt (codes "pw")) state ≡ some (true, registered)
unfolding register_at register_user parse_lines read_all_lines save_records atomic_write_lines
registers = refl

login_after_register_example :
    ((typed : Bytes)
      → IsByteString typed
      → authenticate_at env (codes "ann") (cipher.encrypt typed) registered
        ≡ some ((codes "pw" == typed) && not (listed (codes "ann") []), registered))
    × ((other typed : Bytes)
        → (codes "ann" == other) ≡ false
        → authenticate os registered.registry other typed registered.disk
          ≡ authenticate os state.registry other typed state.disk)
login_after_register_example =
    login_after_register env state registered (codes "ann") (codes "pw") ann_is_valid
      (omega arith, (omega arith, tt)) os-Flushes (λ t. refl) registers

abbrev speaking : State
speaking = record state { input = byte 0x32 ∷ byte 0x33 ∷ byte 0x50 ∷ [] }

abbrev tea : Rooms
tea = (codes "tea", 2 ∷ 1 ∷ []) ∷ []

tea_from_calls : run_calls (joins (codes "tea") 1 ∷ joins (codes "tea") 2 ∷ []) [] ≡ tea
unfolding join_room Dict.lookup Dict.insert ◌==◌ contains
tea_from_calls = refl

tea-RoomsValid : RoomsValid tea
tea-RoomsValid =
    subst RoomsValid tea_from_calls
      (rooms_refine (joins (codes "tea") 1 ∷ joins (codes "tea") 2 ∷ [])).0

tea_members : (p : Ptr) → member tea (codes "tea") p ≡ true → Live world p
unfolding member Dict.lookup ◌==◌
tea_members p m = clients-Live p (unfold contains in ground (arith, m))

abbrev in_tea : State
in_tea = record state { rooms = tea; current_room = codes "tea" }

post_in_room_example :
    (w' : World) × (post env (codes "hi") in_tea ≡ some (tt, record in_tea { world = w' }))
    × ((q : Ptr) (u : Session) (fd : ℕ)
        → world.session q ≡ some u
        → u.client_fd ≡ some fd
        → Outcome
            (frame cipher (codes "ann") (
              codes "["
              ++ (codes "tea"
                  ++ (codes "] " ++ (codes "[" ++ (codes "tea" ++ (codes "] " ++ codes "hi")))))))
            world
            w'
            q
            u
            fd
            (member tea (codes "tea") q && (u.active && not (u.username == codes "ann"))))
post_in_room_example =
    post_in_room env in_tea ann (codes "hi") (omega arith) refl world-IsValid (λ e. cc)
      tea-RoomsValid tea_members

-- A third connection that only sends a newline and then hangs up.
abbrev arrived : State
arrived = record state { session = 3; input = byte b'\n' ∷ [] }

arrived-Waits : Waits 3 arrived
unfolding member Dict.lookup contains
arrived-Waits = record {
  serves = record {
    own = refl;
    not_null = λ e. absurd (ground arith);
    live = (ann_again, refl);
    shared = record {
      sessions = world-IsValid;
      clients = manager-ClientsValid;
      rooms = (rooms_refine []).0;
      members = λ room q m. absurd (cc m);
    };
  };
  unlisted = refl;
}

run_lem_example : (s' : State) × (run env arrived ≡ some (tt, s')) × Gone 3 s'
run_lem_example = run_lem env 3 arrived arrived-Waits

copied_all : snapshot (codes "bob") manager.clients world ≡ some (1 ∷ [], world)
unfolding snapshot ◌==◌
copied_all = refl

one_listed : contains (1 ∷ []) 1 ≡ true
unfolding contains
one_listed = refl

freed_recipient_faults_example :
    (take_turns env (codes "bob") (codes "hi") (true ∷ false ∷ []) (at_call state) ≡ waits)
    × (take_turns env (codes "bob") (codes "hi") (true ∷ true ∷ false ∷ []) (at_call state) ≡ waits)
    × (take_turns env
          (codes "bob")
          (codes "hi")
          (true ∷ true ∷ true ∷ false ∷ turns_of_broadcast 1)
          (at_call state)
        ≡ faults)
freed_recipient_faults_example =
    freed_recipient_faults env (codes "bob") (codes "hi") state ann (1 ∷ [])
      (λ e. absurd (ground arith)) refl manager-ClientsValid (rooms_refine []).0 copied_all
      one_listed

-- The client of ann, who types a greeting in the room.
abbrev host : Host
host = record {
  socket = some 3;
  inet_pton = λ h. true;
  connect = λ a. true;
  pthreads = record { attr_init = λ t. true; create = λ t. running 7 };
  cipher = cipher;
}

abbrev typing : Client.State
typing = record {
  host = codes "::1";
  port = pos 8080;
  sock_fd = some 3;
  running = true;
  recv_thread = not_started;
  input = [];
  answers = takes 0 ∷ takes 0 ∷ takes 0 ∷ takes 0 ∷ takes 0 ∷ takes 0 ∷ takes 0 ∷ [];
  stdin = [];
  wire = [];
  out = [];
  net = world.net;
  threads = no_threads;
}

hi-IsText : IsText (codes "hi")
unfolding parse
hi-IsText = record {
  some_text = λ e. cc e;
  clean = (strip-eq_self (codes "hi")).0 refl;
  bytes = (omega arith, (omega arith, tt));
  lacks = (omega arith, (omega arith, tt));
}

hi_is_plain :
    ((codes "hi" == codes "/help") ≡ false)
    × ((codes "hi" == codes "exit") ≡ false)
    × ((codes "hi" == codes "quit") ≡ false)
unfolding ◌==◌
hi_is_plain = (refl, refl, refl)

enough_for_hi : length (serialise (make_msg (codes "hi"))) ≤ capacity typing.answers
unfolding serialise make_msg capacity
enough_for_hi = omega arith

room_text_is_shown_example :
    Said env host
      (codes "hi")
      hi-IsText
      hi_is_plain.0
      hi_is_plain.1
      hi_is_plain.2
      refl
      (omega arith)
      typing
      in_tea
      ann
      (λ i. nat_eq i 1)
      []
room_text_is_shown_example =
    room_text_is_shown env host (codes "hi") hi-IsText hi_is_plain.0 hi_is_plain.1 hi_is_plain.2
      refl (omega arith) typing 3 in_tea ann (λ i. nat_eq i 1) [] refl enough_for_hi refl
      world-IsValid (λ e. cc) tea-RoomsValid tea_members
      (omega arith, (omega arith, (omega arith, tt)))
      (omega arith, (omega arith, (omega arith, tt)))
      (omega arith, (omega arith, (omega arith, tt)))
      (omega arith, (omega arith, (omega arith, tt)))
