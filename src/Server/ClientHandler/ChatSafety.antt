-- ===== src/Server/ClientHandler/ChatSafety.antt =====
-- The chat loop faults on no input, has fuel enough, and keeps the shared state valid.
use mpcc.Common.{
  ℕ, zero, suc, ◌<◌, ◌≡◌, refl, ap, Bool, true, false, not, ◌||◌, some, List, [], ◌++◌, Bytes,
  codes, is_empty, if◌then◌else◌, ◌==◌, ltb, length, find, arith,
}
use mpcc.Common.Scan.{read_word}
use mpcc.Core.Cipher.{max_msg_len}
use mpcc.Core.Message.{Message, parse, serialise, make_ok, make_err}
use mpcc.Core.Message.Proto
use mpcc.Core.Session.{Ptr, get_username}
use mpcc.Core.Session.Sends.{OnlySends-get_username}
use mpcc.Server.Broadcast.{broadcast, send_private}
use mpcc.Server.Broadcast.Safety.{OnlySends-broadcast, OnlySends-send_private}
use mpcc.Server.Rooms.{join_room, leave_room, broadcast_to_room}
use mpcc.Server.Rooms.Safety.{OnlySends-broadcast_to_room}
use mpcc.Server.ClientHandler.{
  Env, State, Received, H, done, with_state, lift, update_rooms, set_room,
}
use mpcc.Server.ClientHandler.Dialogue.{send_encrypted, recv_line}
use mpcc.Server.ClientHandler.DialogueSafety.{Ok-send_encrypted, recv_line_runs}
use mpcc.Server.ClientHandler.Commands.{
  banner, answer, to_newline, drop_space, is_command, when, leave_current, join_command,
  leave_command, pm_command, command, post, handle_text, says_exit, handle_line, chat, recv_loop,
}
use mpcc.Server.ClientHandler.Fuel.{recv_line-shorter, handle_line-goes_on}
use mpcc.Server.ClientHandler.Invariant.{
  Serves, Serves-Sends, Ok, Ok-at, Ok-done, Ok-bind, Ok-if, Ok-lift, Ok-with_state,
}
use mpcc.Server.ClientHandler.Reading.{KeepsInput-handle_line}
use mpcc.Server.ClientHandler.Tables.{
  own_live, Serves-join_room, Serves-leave_room, Serves-set_room,
}

-- Code that keeps the handler's invariant.
abbrev KeepsServes : Ptr → {A : Type 0} → H A → State → Type 0
KeepsServes p code s = Ok code s (λ _ s'. Serves p s')

module _ (e : Env) {p : Ptr} where
  Ok-answer : (m : Message) (s : State) → Serves p s → KeepsServes p (answer e m) s
  unfolding answer
  Ok-answer m s h =
      Ok-bind (send_encrypted e (serialise m)) (λ _. done tt) s
        (Ok-send_encrypted e (serialise m) s h) (λ _ s₁ h₁. Ok-done tt s₁ h₁)

  Ok-leave_current : (s : State) → Serves p s → KeepsServes p (leave_current e) s
  unfolding leave_current
  Ok-leave_current s h =
      Ok-with_state
        (λ s.
          if not (is_empty s.current_room)
          then update_rooms (leave_room s.current_room s.session)
          else done tt)
        s
        (Ok-if (not (is_empty s.current_room)) _ _ s
          (record {
            result = tt;
            after = _;
            runs = refl;
            holds = Serves-leave_room s h s.current_room;
          })
          (Ok-done tt s h))

  Ok-set_room : (room : Bytes) (s : State) → Serves p s → KeepsServes p (set_room room) s
  Ok-set_room room s h = record {
    result = tt;
    after = _;
    runs = refl;
    holds = Serves-set_room s h room;
  }

  Ok-join :
      (room : Bytes) (s : State)
      → Serves p s
      → KeepsServes p (with_state λ s. update_rooms (join_room room s.session)) s
  Ok-join room s h = record {
    result = tt;
    after = _;
    runs = refl;
    holds = Serves-join_room s h room;
  }

  Ok-get_username : (s : State) → Serves p s → KeepsServes p (lift (get_username s.session)) s
  Ok-get_username s h =
      let read = OnlySends-get_username s.session s.world (own_live s h) in
      Ok-lift (get_username s.session) s read (Serves-Sends s read.after read.sends h)

  Ok-join_command : (room : Bytes) (s : State) → Serves p s → KeepsServes p (join_command e room) s
  unfolding join_command
  Ok-join_command room s h =
      Ok-if (is_empty room) _ _ s (Ok-answer (make_err (codes "Usage: /join room")) s h) (
        Ok-bind (leave_current e) _ s (Ok-leave_current s h) (λ _ s₁ h₁.
          Ok-bind (set_room room) _ s₁ (Ok-set_room room s₁ h₁) (λ _ s₂ h₂.
            Ok-bind (with_state λ s. update_rooms (join_room room s.session)) _ s₂
              (Ok-join room s₂ h₂)
              (λ _ s₃ h₃. Ok-answer (make_ok (codes "Joined room: " ++ room)) s₃ h₃))))

  Ok-leave_command : (s : State) → Serves p s → KeepsServes p (leave_command e) s
  unfolding leave_command
  Ok-leave_command s h =
      Ok-at
        (Ok-if (not (is_empty s.current_room)) _ _ s
          (Ok-bind (leave_current e) _ s (Ok-leave_current s h) (λ _ s₁ h₁.
            Ok-bind (set_room []) _ s₁ (Ok-set_room [] s₁ h₁)
              (λ _ s₂ h₂. Ok-answer (make_ok (codes "Left current room.")) s₂ h₂)))
          (Ok-answer (make_err (codes "Not in a room.")) s h))
        refl

  Ok-send_private :
      (from to message : Bytes) (s : State)
      → Serves p s
      → KeepsServes p (lift (send_private e.kernel e.cipher s.broadcaster from to message)) s
  Ok-send_private from to message s h =
      let sent =
        OnlySends-send_private e.kernel e.cipher s.broadcaster from to message s.world
          (λ q f. h.shared.clients.live q (h.shared.clients.named to q f).0) in
      Ok-lift (send_private e.kernel e.cipher s.broadcaster from to message) s sent
        (Serves-Sends s sent.after sent.sends h)

  Ok-pm_command : (args : Bytes) (s : State) → Serves p s → KeepsServes p (pm_command e args) s
  unfolding pm_command
  Ok-pm_command args s h =
      let (target, rest) = read_word args in
      let pm_text = drop_space e (to_newline e rest (find rest b'\n')) in
      Ok-if (is_empty target || is_empty pm_text) _ _ s
        (Ok-answer (make_err (codes "Usage: /pm user message")) s h)
        (Ok-bind (with_state λ s. lift (get_username s.session)) _ s
          (Ok-with_state (λ s. lift (get_username s.session)) s (Ok-get_username s h))
          (λ from s₁ h₁.
            Ok-with_state
              (λ s. lift (send_private e.kernel e.cipher s.broadcaster from target pm_text)) s₁
              (Ok-send_private from target pm_text s₁ h₁)))

  Ok-command : (text : Bytes) (s : State) → Serves p s → KeepsServes p (command e text) s
  unfolding command
  Ok-command text s h =
      let (cmd, args) = read_word text in
      Ok-if (cmd == codes "/join") _ _ s (Ok-join_command (read_word args).0 s h) (
        Ok-if (cmd == codes "/leave") _ _ s (Ok-leave_command s h) (
          Ok-if (cmd == codes "/pm") _ _ s (Ok-pm_command args s h)
            (Ok-answer (make_err (codes "Unknown command.")) s h)))

  Ok-broadcast :
      (sender text : Bytes) (s : State)
      → Serves p s
      → KeepsServes p (lift (broadcast e.kernel e.cipher s.broadcaster sender text)) s
  Ok-broadcast sender text s h =
      let sent =
        OnlySends-broadcast e.kernel e.cipher s.broadcaster sender text s.world
          h.shared.clients.live in
      Ok-lift (broadcast e.kernel e.cipher s.broadcaster sender text) s sent
        (Serves-Sends s sent.after sent.sends h)

  Ok-broadcast_to_room :
      (room sender text : Bytes) (s : State)
      → Serves p s
      → KeepsServes p (lift (broadcast_to_room e.kernel e.cipher s.rooms room sender text)) s
  Ok-broadcast_to_room room sender text s h =
      let sent =
        OnlySends-broadcast_to_room e.kernel e.cipher s.rooms room sender text s.world
          (h.shared.members room) in
      Ok-lift (broadcast_to_room e.kernel e.cipher s.rooms room sender text) s sent
        (Serves-Sends s sent.after sent.sends h)

  Ok-post : (text : Bytes) (s : State) → Serves p s → KeepsServes p (post e text) s
  unfolding post get_username
  Ok-post text s h =
      let (t, here) = own_live s h in
      Ok-if (ltb max_msg_len (length text)) _ _ s
        (Ok-answer (make_err (codes "Message too long (max 4096 chars).")) s h)
        (Ok-at
          (Ok-if (not (is_empty s.current_room)) _ _ s
            (Ok-broadcast_to_room s.current_room t.username
              (codes "[" ++ (s.current_room ++ (codes "] " ++ text))) s h)
            (Ok-broadcast t.username text s h))
          (rw here refl))

  Ok-handle_text : (text : Bytes) (s : State) → Serves p s → KeepsServes p (handle_text e text) s
  unfolding handle_text
  Ok-handle_text text s h =
      Ok-if (is_empty text) _ _ s (Ok-done tt s h)
        (Ok-if (is_command e text) _ _ s (Ok-command text s h) (Ok-post text s h))

  Ok-handle_line : (line : Bytes) (s : State) → Serves p s → KeepsServes p (handle_line e line) s
  unfolding handle_line
  Ok-handle_line line s h =
      let m = parse line in
      Ok-if (is_empty line) _ _ s (Ok-done false s h) (
        Ok-if (says_exit e line m) _ _ s
          (Ok-bind (answer e (make_ok (codes "Goodbye!"))) (λ _. done false) s
            (Ok-answer (make_ok (codes "Goodbye!")) s h) (λ _ s₁ h₁. Ok-done false s₁ h₁))
          (Ok-bind (handle_text e (if m.type == Proto.msg then m.payload else line))
            (λ _. done true) s
            (Ok-handle_text (if m.type == Proto.msg then m.payload else line) s h)
            (λ _ s₁ h₁. Ok-done true s₁ h₁)))

  Serves-input :
      (s : State) (input : List Received) → Serves p s → Serves p (record s { input = input })
  Serves-input s input h = record {
    own = h.own;
    not_null = h.not_null;
    live = h.live;
    shared = h.shared;
  }

  Ok-chat :
      (fuel : ℕ) (s : State) → length s.input < fuel → Serves p s → KeepsServes p (chat e fuel) s
  unfolding chat
  Ok-chat zero s lt h = absurd (omega arith)
  Ok-chat (suc fuel) s lt h =
      let (line, input, read) = recv_line_runs e s (own_live s h) in
      let s₁ : State = record s { input = input } in
      let handled = Ok-handle_line line s₁ (Serves-input s input h) in
      let rest =
        next handled.result handled.after line s₁ read handled.runs handled.holds
          (λ s₂ shorter h₂. Ok-chat fuel s₂ (omega arith) h₂) in
      record {
        result = tt;
        after = rest.after;
        runs = rw (read, handled.runs) rest.runs;
        holds = rest.holds;
      }
    where
      next :
          (go_on : Bool) (s₂ : State) (line : Bytes) (s₁ : State)
          → recv_line e s ≡ some (line, s₁)
          → handle_line e line s₁ ≡ some (go_on, s₂)
          → Serves p s₂
          → ((s₂ : State)
              → length s₂.input < length s.input
              → Serves p s₂
              → KeepsServes p (chat e fuel) s₂)
          → KeepsServes p (when e go_on (chat e fuel)) s₂
      next false s₂ line s₁ read handled h₂ again = Ok-done tt s₂ h₂
      next true s₂ line s₁ read handled h₂ again =
          let shorter =
            recv_line-shorter e s s₁ line read (handle_line-goes_on e line s₁ s₂ handled) in
          let kept = ap length ((KeepsInput-handle_line e line).same_input s₁ s₂ true handled) in
          again s₂ (omega (arith, shorter, kept)) h₂

  pub Ok-recv_loop : (s : State) → Serves p s → Ok (recv_loop e) s (λ _ s'. Serves p s')
  unfolding recv_loop
  Ok-recv_loop s h =
      Ok-bind (with_state λ s. update_rooms (join_room s.current_room s.session)) _ s
        (record {
          result = tt;
          after = _;
          runs = refl;
          holds = Serves-join_room s h s.current_room;
        })
        (λ _ s₁ h₁.
          Ok-bind (send_encrypted e banner) _ s₁ (Ok-send_encrypted e banner s₁ h₁) (λ _ s₂ h₂.
            Ok-with_state (λ s. chat e (suc (length s.input))) s₂
              (Ok-chat (suc (length s₂.input)) s₂ (omega arith) h₂)))
