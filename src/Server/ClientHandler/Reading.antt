-- ===== src/Server/ClientHandler/Reading.antt =====
-- What the handler does with a line reads nothing from the socket.
use mpcc.Common.{
  ◌≡◌, sym, ap, ◌∙◌, Bool, true, false, some, [], ◌++◌, Bytes, codes, inl, inr, length, is_empty,
  Option-cases, some-eq-some, if◌then◌else◌, ltb, find, ◌==◌, ◌||◌, not,
}
use mpcc.Common.Scan.{read_word}
use mpcc.Core.Cipher.{max_msg_len}
use mpcc.Core.Message.{Message, parse, serialise, make_ok, make_err}
use mpcc.Core.Message.Proto
use mpcc.Core.Session.{M, send_msg, get_username}
use mpcc.Server.Broadcast.{broadcast, send_private}
use mpcc.Server.Rooms.{Rooms, join_room, broadcast_to_room}
use mpcc.Server.ClientHandler.{
  Env, State, H, continue, ◌>>=◌, done, with_state, lift, put_world, update_rooms, set_room,
}
use mpcc.Server.ClientHandler.Dialogue.{send_encrypted}
use mpcc.Server.ClientHandler.Commands.{
  answer, to_newline, drop_space, is_command, leave_current, join_command, leave_command,
  pm_command, command, post, handle_text, says_exit, handle_line,
}

-- Code that reads nothing from the socket.
pub record KeepsInput {A : Type 0} (code : H A) : Type 0 where
  pub same_input : (s s' : State) (x : A) → code s ≡ some (x, s') → s'.input ≡ s.input

KeepsInput-done : {A : Type 0} (x : A) → KeepsInput (done x)
KeepsInput-done x = record {
  same_input = λ s s' y e. sym (ap (λ (z : _ × State). z.1.input) (some-eq-some e));
}

KeepsInput-bind :
    {A B : Type 0} (code : H A) (next : A → H B)
    → KeepsInput code
    → ((x : A) → KeepsInput (next x))
    → KeepsInput (code >>= next)
KeepsInput-bind code next first then_next = record {
  same_input = λ s s' y e. elim (Option-cases (code s)) [
    | inl none_e ↦ absurd (cc (ap (λ o. continue o next) (sym none_e) ∙ e))
    | inr ((x, s₁), some_e) ↦
        (then_next x).same_input s₁ s' y (ap (λ o. continue o next) (sym some_e) ∙ e)
        ∙ first.same_input s s₁ x some_e
  ];
}

KeepsInput-with_state :
    {A : Type 0} (f : State → H A) → ((s : State) → KeepsInput (f s)) → KeepsInput (with_state f)
KeepsInput-with_state f h = record { same_input = λ s. (h s).same_input s }

KeepsInput-lift : {A : Type 0} (m : M A) → KeepsInput (lift m)
KeepsInput-lift m = record {
  same_input = λ s s' y e. elim (Option-cases (m s.world)) [
    | inl none_e ↦ absurd (cc (ap (put_world s) (sym none_e) ∙ e))
    | inr ((x, w), some_e) ↦
        sym (ap (λ (z : _ × State). z.1.input) (some-eq-some (ap (put_world s) (sym some_e) ∙ e)))
  ];
}

KeepsInput-update_rooms : (f : Rooms → Rooms) → KeepsInput (update_rooms f)
KeepsInput-update_rooms f = record {
  same_input = λ s s' y e. sym (ap (λ (z : _ × State). z.1.input) (some-eq-some e));
}

KeepsInput-set_room : (room : Bytes) → KeepsInput (set_room room)
KeepsInput-set_room room = record {
  same_input = λ s s' y e. sym (ap (λ (z : _ × State). z.1.input) (some-eq-some e));
}

KeepsInput-if :
    {A : Type 0} (b : Bool) (x y : H A)
    → KeepsInput x
    → KeepsInput y
    → KeepsInput (if b then x else y)
KeepsInput-if true x y hx hy = hx
KeepsInput-if false x y hx hy = hy

module _ (e : Env) where
  KeepsInput-send_encrypted : (plain : Bytes) → KeepsInput (send_encrypted e plain)
  unfolding send_encrypted
  KeepsInput-send_encrypted plain =
      KeepsInput-with_state _
        (λ s. KeepsInput-lift (send_msg e.kernel s.session (e.cipher.encrypt plain)))

  KeepsInput-answer : (m : Message) → KeepsInput (answer e m)
  unfolding answer
  KeepsInput-answer m =
      KeepsInput-bind (send_encrypted e (serialise m)) (λ _. done tt)
        (KeepsInput-send_encrypted (serialise m)) (λ x. KeepsInput-done tt)

  KeepsInput-leave_current : KeepsInput (leave_current e)
  unfolding leave_current
  KeepsInput-leave_current =
      KeepsInput-with_state _
        (λ s. KeepsInput-if _ _ _ (KeepsInput-update_rooms _) (KeepsInput-done tt))

  KeepsInput-join_command : (room : Bytes) → KeepsInput (join_command e room)
  unfolding join_command
  KeepsInput-join_command room =
      KeepsInput-if (is_empty room) _ _ (KeepsInput-answer (make_err (codes "Usage: /join room"))) (
        KeepsInput-bind _ _ KeepsInput-leave_current (λ _.
          KeepsInput-bind _ _ (KeepsInput-set_room room) (λ _.
            KeepsInput-bind _ _
              (KeepsInput-with_state _ (λ s. KeepsInput-update_rooms (join_room room s.session)))
              (λ _. KeepsInput-answer (make_ok (codes "Joined room: " ++ room))))))

  KeepsInput-leave_command : KeepsInput (leave_command e)
  unfolding leave_command
  KeepsInput-leave_command = KeepsInput-with_state _ (λ s.
      KeepsInput-if (not (is_empty s.current_room)) _ _
        (KeepsInput-bind _ _ KeepsInput-leave_current (λ _.
          KeepsInput-bind _ _ (KeepsInput-set_room [])
            (λ _. KeepsInput-answer (make_ok (codes "Left current room.")))))
        (KeepsInput-answer (make_err (codes "Not in a room."))))

  KeepsInput-pm_command : (args : Bytes) → KeepsInput (pm_command e args)
  unfolding pm_command
  KeepsInput-pm_command args =
      let (target, rest) = read_word args in
      let pm_text = drop_space e (to_newline e rest (find rest b'\n')) in
      KeepsInput-if (is_empty target || is_empty pm_text) _ _
        (KeepsInput-answer (make_err (codes "Usage: /pm user message")))
        (KeepsInput-bind _ _
          (KeepsInput-with_state _ (λ s. KeepsInput-lift (get_username s.session)))
          (λ from. KeepsInput-with_state _ (λ s.
            KeepsInput-lift (send_private e.kernel e.cipher s.broadcaster from target pm_text))))

  KeepsInput-command : (text : Bytes) → KeepsInput (command e text)
  unfolding command
  KeepsInput-command text =
      let (cmd, args) = read_word text in
      KeepsInput-if (cmd == codes "/join") _ _ (KeepsInput-join_command (read_word args).0) (
        KeepsInput-if (cmd == codes "/leave") _ _ KeepsInput-leave_command (
          KeepsInput-if (cmd == codes "/pm") _ _ (KeepsInput-pm_command args)
            (KeepsInput-answer (make_err (codes "Unknown command.")))))

  KeepsInput-post : (text : Bytes) → KeepsInput (post e text)
  unfolding post
  KeepsInput-post text =
      KeepsInput-if (ltb max_msg_len (length text)) _ _
        (KeepsInput-answer (make_err (codes "Message too long (max 4096 chars).")))
        (KeepsInput-with_state _ (λ s.
          KeepsInput-bind _ _ (KeepsInput-lift (get_username s.session)) (λ sender.
            KeepsInput-if (not (is_empty s.current_room)) _ _
              (KeepsInput-lift (
                broadcast_to_room e.kernel e.cipher s.rooms s.current_room sender
                  (codes "[" ++ (s.current_room ++ (codes "] " ++ text)))))
              (KeepsInput-lift (broadcast e.kernel e.cipher s.broadcaster sender text)))))

  KeepsInput-handle_text : (text : Bytes) → KeepsInput (handle_text e text)
  unfolding handle_text
  KeepsInput-handle_text text =
      KeepsInput-if (is_empty text) _ _ (KeepsInput-done tt)
        (KeepsInput-if (is_command e text) _ _ (KeepsInput-command text) (KeepsInput-post text))

  -- No line that the handler deals with makes it read on.
  pub KeepsInput-handle_line : (line : Bytes) → KeepsInput (handle_line e line)
  unfolding handle_line
  KeepsInput-handle_line line =
      let m = parse line in
      KeepsInput-if (is_empty line) _ _ (KeepsInput-done false) (
        KeepsInput-if (says_exit e line m) _ _
          (KeepsInput-bind _ _ (KeepsInput-answer (make_ok (codes "Goodbye!")))
            (λ _. KeepsInput-done false))
          (KeepsInput-bind _ _
            (KeepsInput-handle_text (if m.type == Proto.msg then m.payload else line))
            (λ _. KeepsInput-done true)))
