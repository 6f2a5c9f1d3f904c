-- ===== src/Client/Tests.antt =====
-- A client with a socket, and inputs at which the theorems about it apply.
use mpcc.Common.{
  ◌+◌, ◌≤◌, ◌≡◌, refl, Bool, true, false, some, List, [], ◌∷◌, ◌++◌, Bytes, codes, length, arith,
  find, nat_eq, ◌==◌, ◌||◌,
}
use mpcc.Common.Scan.{pos, negsuc, to_uint16}
use mpcc.Core.Message.{parse, serialise, make_msg, make_exit}
use mpcc.Core.Message.Proto
use mpcc.Core.Message.RoundTrip.{EndsClean, strip-eq_self}
use mpcc.Server.Broadcast.{frame}
use mpcc.Server.ClientHandler.{Received, read_line}
use mpcc.Server.ClientHandler.Frames.{arriving}
use mpcc.Server.Samples.{cipher}
use mpcc.Util.Threads.{running, not_started}
use mpcc.Util.Threads.Joined.{no_threads}
use mpcc.Client.{
  Host, State, SendAnswer, takes, broken, returned, init, send_all, send_encrypted,
  connect_to_server,
}
use mpcc.Client.Auth.{Ends, auth_loop-Ends}
use mpcc.Client.Chat.{types, receives, type_line, recv_round, send_loop}
use mpcc.Client.Conversation.{Conversed, send_loop_lem}
use mpcc.Client.Delivery.{typed_text_arrives, broadcast_is_shown}
use mpcc.Client.Dialogue.{do_register, auth_loop}
use mpcc.Client.Refused.{refused_name_reveals_password}
use mpcc.Client.Schedule.{frames}
use mpcc.Client.Sending.{SendPost, send_encrypted_lem, capacity}

abbrev host : Host
host = record {
  socket = some 3;
  inet_pton = λ h. true;
  connect = λ a. true;
  pthreads = record { attr_init = λ t. true; create = λ t. running 7 };
  cipher = cipher;
}

abbrev answers : List SendAnswer
answers =
    takes 0
    ∷ takes 0
    ∷ takes 0
    ∷ takes 0
    ∷ takes 0
    ∷ takes 0
    ∷ takes 0
    ∷ takes 0
    ∷ takes 0
    ∷ takes 9
    ∷ takes 9
    ∷ takes 9
    ∷ takes 9
    ∷ takes 9
    ∷ takes 9
    ∷ takes 9
    ∷ broken
    ∷ []

abbrev client : State
client = record {
  host = codes "::1";
  port = pos 8080;
  sock_fd = some 3;
  running = false;
  recv_thread = not_started;
  input = [];
  answers = answers;
  stdin = [];
  wire = [];
  out = [];
  net = record { now = 0; wire = λ g. []; shut = []; closed = [] };
  threads = no_threads;
}

connects :
    connect_to_server host (init (codes "::1") (pos 8080) [] answers [] [] client.net no_threads)
    ≡ returned tt (record client { out = codes "[MPCC] Connected to server ::1:8080\n" })
unfolding connect_to_server init
connects = refl

ports :
    (to_uint16 (pos 8080) ≡ 8080) × (to_uint16 (pos 70000) ≡ 4464) × (to_uint16 (negsuc 0) ≡ 65535)
unfolding to_uint16
ports = (refl, refl, refl)

short_sends : send_all (takes 1 ∷ takes 0 ∷ broken ∷ []) (codes "hello") ≡ (false, codes "hel", [])
unfolding send_all
short_sends = refl

send_encrypted_lem_example :
    (sent : Bool) × (s' : State) × (send_encrypted host (codes "hi") client ≡ returned sent s')
    × SendPost client s' (cipher.encrypt (codes "hi")) sent
send_encrypted_lem_example = send_encrypted_lem host (codes "hi") client 3 refl

hi-EndsClean : EndsClean (codes "hi")
unfolding parse
hi-EndsClean = (strip-eq_self (codes "hi")).0 refl

enough_for_hi : length (serialise (make_msg (codes "hi"))) ≤ capacity client.answers
unfolding serialise make_msg capacity
enough_for_hi = omega arith

not_help : (codes "hi" == codes "/help") ≡ false
unfolding ◌==◌
not_help = refl

not_exit : (codes "hi" == codes "exit" || codes "hi" == codes "quit") ≡ false
unfolding ◌==◌
not_exit = refl

typed_text_arrives_example :
    (s' : State) × (w : Bytes) × (line : Bytes) × (type_line host (codes "hi") client
      ≡ returned true s')
    × (s'.wire ≡ client.wire ++ w)
    × (read_line cipher [] (arriving (λ i. nat_eq i 1) 0 w []) ≡ (line, []))
    × (line ≡ codes "MSG:hi")
    × (parse line ≡ make_msg (codes "hi"))
typed_text_arrives_example =
    typed_text_arrives host (codes "hi") (λ e. cc e) hi-EndsClean (omega arith, (omega arith, tt))
      (omega arith, (omega arith, tt)) client 3 (λ i. nat_eq i 1) [] refl not_help not_exit
      enough_for_hi

auth_loop-Ends_example : Ends host (auth_loop host client)
auth_loop-Ends_example = auth_loop-Ends host client

-- The client while it listens, when a broadcast of ann has come.
abbrev listening : State
listening = record client {
  running = true;
  input = arriving (λ i. nat_eq i 2) 0 (frame cipher (codes "ann") (codes "hi")) [];
}

broadcast_is_shown_example :
    recv_round host listening
    ≡ returned true (record listening {
      input = [];
      out =
          [] ++ (codes "\r[" ++ ((codes "ann" ++ (codes "]: " ++ codes "hi")) ++ codes "\nYou: "));
    })
broadcast_is_shown_example =
    broadcast_is_shown host (codes "hi") (λ e. cc e) hi-EndsClean (omega arith, (omega arith, tt))
      (omega arith, (omega arith, tt)) (codes "ann") listening 3 (λ i. nat_eq i 2) []
      (omega arith, (omega arith, (omega arith, tt)))
      (omega arith, (omega arith, (omega arith, tt))) refl refl refl

abbrev conversation : State
conversation = record client {
  stdin = codes "/help" ∷ codes "hi" ∷ codes "exit" ∷ codes "late" ∷ [];
}

conversation_frames : frames conversation.stdin ≡ codes "MSG:hi\nEXIT\n"
unfolding frames serialise make_msg make_exit ◌==◌
conversation_frames = refl

enough_for_conversation : length (frames conversation.stdin) ≤ capacity conversation.answers
unfolding frames serialise make_msg make_exit capacity ◌==◌
enough_for_conversation = omega arith

send_loop_lem_example :
    (ended : Bool) × (s' : State) × (send_loop host
        (types ∷ receives ∷ types ∷ types ∷ [])
        true
        conversation
      ≡ returned ended s')
    × Conversed host 7 3 conversation ended s'
    × (s'.threads.created ≡ 7 ∷ [])
send_loop_lem_example =
    send_loop_lem host (types ∷ receives ∷ types ∷ types ∷ []) true conversation 3 7 refl refl refl
      refl enough_for_conversation

-- The server asks for a name, refuses it, and shows its menu.
abbrev menu_sent : List Received
menu_sent = arriving (λ i. false) 0 (cipher.encrypt (codes "MENU:1=Register 2=Login\n")) []

abbrev error_sent : List Received
error_sent = arriving (λ i. false) 0 (cipher.encrypt (codes "ERR:Invalid username.\n")) menu_sent

abbrev refused : State
refused = record client {
  input = arriving (λ i. false) 0 (cipher.encrypt (codes "Enter username: \n")) error_sent;
  stdin = codes "a b" ∷ codes "pw" ∷ [];
}

enough_for_names : 3 + 2 + 2 ≤ capacity client.answers
unfolding capacity
enough_for_names = omega arith

is_menu : (parse (codes "MENU:1=Register 2=Login")).type ≡ Proto.menu
unfolding parse find
is_menu = refl

reads_prompt : read_line cipher [] refused.input ≡ (codes "Enter username: ", error_sent)
unfolding read_line mpcc.Core.Cipher.encrypt mpcc.Core.Cipher.decrypt
reads_prompt = refl

reads_error : read_line cipher [] error_sent ≡ (codes "ERR:Invalid username.", menu_sent)
unfolding read_line mpcc.Core.Cipher.encrypt mpcc.Core.Cipher.decrypt
reads_error = refl

reads_menu : read_line cipher [] menu_sent ≡ (codes "MENU:1=Register 2=Login", [])
unfolding read_line mpcc.Core.Cipher.encrypt mpcc.Core.Cipher.decrypt
reads_menu = refl

refused_name_reveals_password_example :
    (s' : State) × (w₁ : Bytes) × (w₂ : Bytes) × (do_register host refused ≡ returned false s')
    × (s'.input ≡ [])
    × (s'.wire ≡ [] ++ (w₁ ++ w₂))
    × (w₁ ≡ cipher.encrypt (codes "a b" ++ b'\n' ∷ []))
    × (read_line cipher [] (arriving (λ i. nat_eq i 0) 0 w₂ []) ≡ (codes "pw", []))
refused_name_reveals_password_example =
    refused_name_reveals_password host refused 3 (codes "Enter username: ")
      (codes "ERR:Invalid username.") (codes "MENU:1=Register 2=Login") (codes "a b") (codes "pw")
      error_sent menu_sent [] [] (λ i. nat_eq i 0) [] refl reads_prompt reads_error reads_menu
      is_menu refl enough_for_names (omega arith, (omega arith, tt))
      (omega arith, (omega arith, tt))
