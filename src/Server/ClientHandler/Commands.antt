-- ===== src/Server/ClientHandler/Commands.antt =====
-- The second part of client_handler.cpp: the chat loop with its commands, the cleanup, and the whole
-- life of a client.
use mpcc.Common.{
  ℕ, zero, suc, Bool, true, false, not, ◌||◌, Option, none, some, [], ◌∷◌, ◌++◌, Bytes, codes, ◌==◌,
  ltb, nat_eq, if◌then◌else◌, is_empty, find, before, length,
}
use mpcc.Common.Scan.{read_word}
use mpcc.Core.Cipher.{max_msg_len}
use mpcc.Core.Message.{Message, parse, serialise, make_err, make_ok}
use mpcc.Core.Message.Proto
use mpcc.Core.Session.{null, get_username, close_session, destroy}
use mpcc.Server.Broadcast.{broadcast, send_private, remove_client}
use mpcc.Server.Rooms.{join_room, leave_room, leave_all, broadcast_to_room}
use mpcc.Server.ClientHandler.{
  ThreadCtx, Env, H, ◌>>=◌, ◌>>◌, done, with_state, lift, update_broadcaster, update_rooms,
  set_room,
}
use mpcc.Server.ClientHandler.Dialogue.{send_encrypted, recv_line, try_authenticate}

-- What recv_loop sends first.
abbrev pub banner : Bytes
banner =
    codes
      "Type your message and press Enter. Type 'exit' to quit.\nCommands: /join room, /leave, /pm user msg\n"

module _ (e : Env) where
  -- send_encrypted() of an answer, its result ignored.
  unfoldable pub answer : Message → H (Unit {0})
  unfolding send_encrypted
  answer m = do _ ← send_encrypted e (serialise m); done tt

  unfoldable pub leave_current : H (Unit {0})
  leave_current = with_state λ s.
      if not (is_empty s.current_room)
      then update_rooms (leave_room s.current_room s.session)
      else done tt

  unfoldable pub join_command : Bytes → H (Unit {0})
  unfolding answer leave_current
  join_command room = if is_empty room then answer (make_err (codes "Usage: /join room")) else do
    leave_current
    set_room room
    with_state λ s. update_rooms (join_room room s.session)
    answer (make_ok (codes "Joined room: " ++ room))

  unfoldable pub leave_command : H (Unit {0})
  unfolding answer leave_current
  leave_command = with_state λ s.
      if not (is_empty s.current_room)
      then (do leave_current; set_room []; answer (make_ok (codes "Left current room.")))
      else answer (make_err (codes "Not in a room."))

  -- std::getline: up to a newline or the end.
  abbrev pub to_newline : Bytes → Option ℕ → Bytes
  to_newline s none = s
  to_newline s (some i) = before s i

  -- pm_text.erase(0, 1), if the first character is a space.
  abbrev pub drop_space : Bytes → Bytes
  drop_space [] = []
  drop_space (c ∷ s) = if nat_eq c b' ' then s else c ∷ s

  unfoldable pub pm_command : Bytes → H (Unit {0})
  unfolding answer
  pm_command args =
      let (target, rest) = read_word args in
      let pm_text = drop_space (to_newline rest (find rest b'\n')) in
      if is_empty target || is_empty pm_text
      then answer (make_err (codes "Usage: /pm user message"))
      else do
        from ← with_state λ s. lift (get_username s.session)
        with_state λ s. lift (send_private e.kernel e.cipher s.broadcaster from target pm_text)

  -- A text that starts with a slash.
  unfoldable pub command : Bytes → H (Unit {0})
  unfolding join_command leave_command pm_command answer
  command text =
      let (cmd, args) = read_word text in
      if cmd == codes "/join"
      then join_command (read_word args).0
      else if cmd == codes "/leave"
      then leave_command
      else if cmd == codes "/pm"
      then pm_command args
      else answer (make_err (codes "Unknown command."))

  -- Any other text.
  unfoldable pub post : Bytes → H (Unit {0})
  unfolding answer
  post text =
      if ltb max_msg_len (length text)
      then answer (make_err (codes "Message too long (max 4096 chars)."))
      else with_state λ s. do
        sender ← lift (get_username s.session)
        (if not (is_empty s.current_room)
            then lift (
                broadcast_to_room e.kernel e.cipher s.rooms s.current_room sender
                  (codes "[" ++ (s.current_room ++ (codes "] " ++ text))))
            else lift (broadcast e.kernel e.cipher s.broadcaster sender text))

  abbrev pub is_command : Bytes → Bool
  is_command [] = false
  is_command (c ∷ text) = nat_eq c b'/'

  unfoldable pub handle_text : Bytes → H (Unit {0})
  unfolding command post
  handle_text text =
      if is_empty text then done tt else if is_command text then command text else post text

  -- The condition under which a line ends the loop.
  unfoldable pub says_exit : Bytes → Message → Bool
  says_exit line m =
      (m.type == Proto.exit)
      || ((m.payload == codes "exit")
          || ((m.payload == codes "quit") || ((line == codes "exit") || (line == codes "quit"))))

  -- One round of the loop of recv_loop: whether there is another.
  unfoldable pub handle_line : Bytes → H Bool
  unfolding says_exit answer handle_text
  handle_line line =
      let m = parse line in
      if is_empty line
      then done false
      else if says_exit line m
      then (do answer (make_ok (codes "Goodbye!")); done false)
      else (do handle_text (if m.type == Proto.msg then m.payload else line); done true)

  abbrev pub when : Bool → H (Unit {0}) → H (Unit {0})
  when true code = code
  when false code = done tt

  -- The loop on fuel; to run out of it is a fault. A round that is not the last has read a newline,
  -- so there are no more of them than there are answers of ::recv.
  unfoldable pub chat : ℕ → H (Unit {0})
  unfolding recv_line handle_line
  chat zero s = none
  chat (suc fuel) s = (do line ← recv_line e; go_on ← handle_line line; when go_on (chat fuel)) s

  unfoldable pub recv_loop : H (Unit {0})
  unfolding chat send_encrypted
  recv_loop = do
    with_state λ s. update_rooms (join_room s.current_room s.session)
    _ ← send_encrypted e banner
    with_state λ s. chat (suc (length s.input))

  unfoldable pub cleanup_and_exit : H (Unit {0})
  cleanup_and_exit = with_state λ s. if nat_eq s.session null then done tt else do
    update_rooms (leave_all s.session)
    update_broadcaster (λ b. remove_client b s.session)
    lift (close_session s.session)
    lift (destroy s.session)
    (λ s'. some (tt, record s' { session = null }))

  unfoldable pub run : H (Unit {0})
  unfolding recv_loop cleanup_and_exit try_authenticate
  run = do
    authenticated ← try_authenticate e
    (if authenticated then (do recv_loop; cleanup_and_exit) else cleanup_and_exit)

  -- The thread of a client. It owns the context, and its end frees both: neither is read again.
  unfoldable pub thread_func : Option ThreadCtx → H (Unit {0})
  unfolding run
  thread_func none = done tt
  thread_func (some ctx) = if ctx.handler then run else done tt
