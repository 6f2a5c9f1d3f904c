-- ===== src/Client.antt =====
-- include/mpcc/client/client.h and src/client/client.cpp. The calls of the logger are left out: what
-- they log has no effect on the rest.
pub mod Dialogue
pub mod Chat
pub mod Sending
pub mod Delivery
pub mod Returns
pub mod Auth
pub mod Refused
pub mod Schedule
pub mod Rounds
pub mod Ending
pub mod Conversation
pub mod Conference
mod Tests
use mpcc.Common.{
  ℕ, zero, suc, ◌+◌, ◌-◌, ◌%◌, ◌^◌, Bool, true, false, not, ◌||◌, Option, none, some, List, [], ◌∷◌,
  ◌++◌, Bytes, codes, take, drop, if◌then◌else◌, is_empty, ◌==◌, nat_eq,
}
use mpcc.Common.Scan.{ℤ, pos, negsuc, show_int, to_uint16}
use mpcc.Core.Cipher.Laws.{IEncrypt}
use mpcc.Core.Net.{Net}
use mpcc.Core.UniqueFd
use mpcc.Core.UniqueFd.{UniqueFd}
use mpcc.Server.ClientHandler.{Received, read_line}
use mpcc.Util.Threads.{JoinableThread, Threads, Pthreads, not_started}

-- What ::send answers to one call: it takes at most `suc n` bytes, -1 with EINTR, or 0 or another
-- error. When no answer is left, it fails.
pub data SendAnswer : Type 0 where
  takes : ℕ → SendAnswer
  interrupted broken : SendAnswer

-- The address that is given to ::connect.
pub record Address : Type 0 where
  pub host : Bytes
  pub port : ℕ

-- The operating system of the client. `socket`: what ::socket answers, `none` for an error.
pub record Host : Type 0 where
  pub socket : Option ℕ
  pub inet_pton : Bytes → Bool
  pub connect : Address → Bool
  pub pthreads : Pthreads
  pub cipher : IEncrypt

-- The members of a client and what surrounds it: the answers of ::recv and ::send, the lines that are
-- typed, what was sent, what was printed, the descriptors and the threads.
pub record State : Type 0 where
  pub host : Bytes
  pub port : ℤ
  pub sock_fd : UniqueFd
  pub running : Bool
  pub recv_thread : JoinableThread
  pub input : List Received
  pub answers : List SendAnswer
  pub stdin : List Bytes
  pub wire : Bytes
  pub out : Bytes
  pub net : Net
  pub threads : Threads

-- The constructor.
unfoldable pub init :
    Bytes → ℤ → List Received → List SendAnswer → List Bytes → Bytes → Net → Threads → State
init host port input answers stdin out net threads = record {
  host = host;
  port = port;
  sock_fd = none;
  running = false;
  recv_thread = not_started;
  input = input;
  answers = answers;
  stdin = stdin;
  wire = [];
  out = out;
  net = net;
  threads = threads;
}

-- Code of the client: it returns, throws std::runtime_error, or a loop of the model runs out of fuel.
pub data Result (A : Type 0) : Type 0 where
  returned : A → State → Result A
  thrown : Bytes → State → Result A
  out_of_fuel : Result A

abbrev pub C : Type 0 → Type 0
C A = State → Result A

abbrev pub continue : {A B : Type 0} → Result A → (A → C B) → Result B
continue (returned x s) next = next x s
continue (thrown what s) next = thrown what s
continue out_of_fuel next = out_of_fuel

infixl 5 ◌>>=◌ ◌>>◌
abbrev pub ◌>>=◌ : {A B : Type 0} → C A → (A → C B) → C B
◌>>=◌ code next s = continue (code s) next

abbrev pub ◌>>◌ : {B : Type 0} → C (Unit {0}) → C B → C B
code >> next = code >>= λ _. next

abbrev pub done : {A : Type 0} → A → C A
done x s = returned x s

abbrev pub throw : {A : Type 0} → Bytes → C A
throw what s = thrown what s

abbrev pub with_state : {A : Type 0} → (State → C A) → C A
with_state f s = f s s

abbrev pub print : Bytes → C (Unit {0})
print text s = returned tt (record s { out = s.out ++ text })

-- std::getline(std::cin, line)
abbrev pub next_line : List Bytes → State → Result (Option Bytes)
next_line [] s = returned none s
next_line (line ∷ lines) s = returned (some line) (record s { stdin = lines })

abbrev pub getline : C (Option Bytes)
getline s = next_line s.stdin s

-- The loop of send_encrypted on the part not yet sent: its result, what was taken, and the answers
-- that are left.
unfoldable pub send_all : List SendAnswer → Bytes → Bool × Bytes × List SendAnswer
send_all answers [] = (true, [], answers)
send_all [] (c ∷ rest) = (false, [], [])
send_all (interrupted ∷ answers) (c ∷ rest) = send_all answers (c ∷ rest)
send_all (broken ∷ answers) (c ∷ rest) = (false, [], answers)
send_all (takes n ∷ answers) (c ∷ rest) =
    let (sent, taken, left) = send_all answers (drop n rest) in
    (sent, c ∷ (take n rest ++ taken), left)

-- The calls on no descriptor fail.
unfoldable pub send_wire : UniqueFd → Bytes → C Bool
unfolding send_all
send_wire none [] s = returned true s
send_wire none (c ∷ wire) s = returned false s
send_wire (some fd) wire s =
    let (sent, taken, left) = send_all s.answers wire in
    returned sent (record s { wire = s.wire ++ taken; answers = left })

unfoldable pub recv_from : IEncrypt → UniqueFd → C Bytes
unfolding read_line
recv_from cipher none s = returned [] s
recv_from cipher (some fd) s =
    let (line, input) = read_line cipher [] s.input in returned line (record s { input = input })

module _ (e : Host) where
  unfoldable pub send_encrypted : Bytes → C Bool
  unfolding send_wire
  send_encrypted plain = with_state λ s. send_wire s.sock_fd (e.cipher.encrypt plain)

  unfoldable pub recv_line : C Bytes
  unfolding recv_from
  recv_line = with_state λ s. recv_from e.cipher s.sock_fd

  -- sock_fd_.reset(::socket(AF_INET, SOCK_STREAM, 0))
  unfoldable pub open_socket : C (Unit {0})
  unfolding UniqueFd.reset
  open_socket s =
      let (fd, net) = UniqueFd.reset s.sock_fd e.socket s.net in
      returned tt (record s { sock_fd = fd; net = net })

  unfoldable pub connect_to_server : C (Unit {0})
  unfolding open_socket to_uint16 UniqueFd.valid show_int
  connect_to_server = do
    open_socket
    with_state λ s.
        if not (UniqueFd.valid s.sock_fd)
        then throw (codes "socket() failed")
        else if not (e.inet_pton s.host)
        then throw (codes "Invalid server address")
        else if not (e.connect (record { host = s.host; port = to_uint16 s.port }))
        then throw (codes "connect() failed")
        else print (
            codes "[MPCC] Connected to server "
            ++ (s.host ++ (b':' ∷ (show_int s.port ++ b'\n' ∷ []))))
