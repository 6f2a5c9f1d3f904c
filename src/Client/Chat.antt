-- ===== src/Client/Chat.antt =====
-- The last part of client.cpp: the two loops of a conversation, and the client as a whole.
use mpcc.Common.{
  ℕ, Bool, true, false, not, ◌||◌, ◌&&◌, Option, none, some, List, [], ◌∷◌, ◌++◌, Bytes, codes,
  if◌then◌else◌, is_empty, ◌==◌, nat_eq,
}
use mpcc.Core.Message.{parse, serialise, make_msg, make_exit}
use mpcc.Core.Message.Proto
use mpcc.Core.UniqueFd
use mpcc.Util.Threads.{start, join}
use mpcc.Client.{
  Host, returned, C, ◌>>=◌, ◌>>◌, done, with_state, print, getline, send_encrypted, recv_line,
  connect_to_server,
}
use mpcc.Client.Dialogue.{auth_loop}

-- How the two threads take turns, a round at a time.
pub data Turn : Type 0 where
  types receives : Turn

-- What /help prints.
abbrev pub help_text : Bytes
help_text =
    codes "\n[COMMANDS]\n"
    ++ (codes "  /join <room>        - join or create a room\n"
        ++ (codes "  /leave              - leave the current room\n"
            ++ (codes "  /pm <user> <msg>    - send private message\n"
                ++ (codes "  exit | quit         - disconnect\n\n" ++ codes "You: "))))

abbrev pub set_running : C (Unit {0})
set_running s = returned tt (record s { running = true })

module _ (e : Host) where
  -- What the receive thread prints for a line.
  unfoldable pub shown : Bytes → Bytes
  unfolding parse
  shown line =
      let m = parse line in
      if m.type == Proto.bcast
      then b'\r' ∷ (m.payload ++ codes "\nYou: ")
      else if m.type == Proto.ok || m.type == Proto.err
      then codes "\r[SERVER] " ++ (m.payload ++ codes "\nYou: ")
      else []

  -- A round of recv_loop behind the test of running_: whether there is another.
  unfoldable pub show_line : C Bool
  unfolding recv_line shown
  show_line = do
    line ← recv_line e
    if is_empty line then done false else (do print (shown line); done true)

  unfoldable pub recv_round : C Bool
  unfolding show_line
  recv_round = with_state λ s. if not s.running then done false else show_line

  -- One round of the loop of send_loop: whether there is another.
  unfoldable pub type_line : Bytes → C Bool
  unfolding send_encrypted serialise make_msg make_exit
  type_line line =
      if line == codes "/help"
      then (do print help_text; done true)
      else if line == codes "exit" || line == codes "quit"
      then (do _ ← send_encrypted e (serialise make_exit); done false)
      else (do _ ← send_encrypted e (serialise (make_msg line)); print (codes "You: "); done true)

  abbrev pub typed_or_end : Option Bytes → C Bool
  typed_or_end none = done false
  typed_or_end (some line) = type_line line

  unfoldable pub send_round : C Bool
  unfolding type_line
  send_round = do line ← getline; typed_or_end line

  -- The rounds, in some order, from whether the receive thread is still in its loop: whether the main
  -- thread and whether the receive thread are still in theirs.
  unfoldable pub rounds : List Turn → Bool → C (Bool × Bool)
  unfolding send_round recv_round
  rounds [] listening = done (true, listening)
  rounds (types ∷ turns) listening = do
    go_on ← send_round
    if go_on then rounds turns listening else done (false, listening)
  rounds (receives ∷ turns) true = do listening ← recv_round; rounds turns listening
  rounds (receives ∷ turns) false = rounds turns false

  unfoldable pub start_receiver : C ℕ
  unfolding start
  start_receiver s =
      let (rc, t, threads) = start e.pthreads s.recv_thread s.threads in
      returned rc (record s { recv_thread = t; threads = threads })

  unfoldable pub shut_socket : C (Unit {0})
  unfolding UniqueFd.shutdown_rdwr
  shut_socket s =
      returned tt (record s { running = false; net = UniqueFd.shutdown_rdwr s.sock_fd s.net })

  unfoldable pub join_receiver : C (Unit {0})
  unfolding join
  join_receiver s =
      let (t, threads) = join s.recv_thread s.threads in
      returned tt (record s { recv_thread = t; threads = threads })

  -- What follows the loop of send_loop. `late`: the receive thread had made its test of running_ before
  -- it was cleared, and finishes that round; a thread that is joined has left its loop.
  unfoldable pub finish : Bool → C (Unit {0})
  unfolding shut_socket join_receiver show_line
  finish late = do
    shut_socket
    _ ← if late then show_line else done false
    join_receiver
    print (codes "\n[MPCC] Session ended. Goodbye!\n")

  -- The banner of the server, and where it is shown.
  unfoldable pub greet : C (Unit {0})
  unfolding recv_line
  greet = do
    banner ← recv_line e
    if not (is_empty banner) then print (codes "[SERVER] " ++ (banner ++ b'\n' ∷ [])) else done tt

  -- The part of send_loop behind the start of the receive thread.
  unfoldable pub talk : List Turn → Bool → C Bool
  unfolding rounds finish
  talk turns late = do
    (go_on, listening) ← rounds turns true
    if go_on then done false else (do finish (listening && late); done true)

  -- send_loop, with its two threads taking these turns: whether it has returned.
  unfoldable pub send_loop : List Turn → Bool → C Bool
  unfolding greet start_receiver talk
  send_loop turns late = do
    set_running
    greet
    rc ← start_receiver
    if not (nat_eq rc 0) then done true else (do print (codes "You: "); talk turns late)

  unfoldable pub run : List Turn → Bool → C Bool
  unfolding connect_to_server auth_loop send_loop
  run turns late = do connect_to_server e; auth_loop e; send_loop turns late

  -- The destructor: the socket, then the destructor of recv_thread_, and that of sock_fd_.
  unfoldable pub destroy : C (Unit {0})
  unfolding join UniqueFd.shutdown_rdwr UniqueFd.reset UniqueFd.destroy
  destroy s =
      let (fd, net) = UniqueFd.reset s.sock_fd none (UniqueFd.shutdown_rdwr s.sock_fd s.net) in
      let (t, threads) = join s.recv_thread s.threads in
      returned tt (record s {
        running = false;
        sock_fd = fd;
        net = UniqueFd.destroy fd net;
        recv_thread = t;
        threads = threads;
      })
