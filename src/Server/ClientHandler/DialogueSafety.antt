-- ===== src/Server/ClientHandler/DialogueSafety.antt =====
-- Sending, reading, the menu and the welcome fault on no input, and keep the shared state valid.
use mpcc.Common.{
  ◌≡◌, refl, Bool, true, false, not, some, List, [], Bytes, is_empty, inl, inr, Option-cases,
}
use mpcc.Common.Scan.{negsuc}
use mpcc.Core.Message.{serialise, make_menu, make_err, make_ok}
use mpcc.Core.Session.{World, Ptr, send_msg, get_fd, set_username}
use mpcc.Core.Session.Sends.{Sends, Alive, OnlySends-send_msg}
use mpcc.Server.Broadcast.{add_client}
use mpcc.Server.ClientHandler.{
  Env, State, H, Received, done, with_state, lift, update_broadcaster, read_line,
}
use mpcc.Server.ClientHandler.Dialogue.{
  send_encrypted, recv_from, recv_line, read_choice, present_menu, refuse, welcome, ask,
}
use mpcc.Server.ClientHandler.Invariant.{
  Serves, Waits, Attempted, Serves-Sends, Ok-with_state, Ok, Ok-done, Ok-bind, Ok-if, Ok-lift,
}
use mpcc.Server.ClientHandler.Tables.{own_live, Ok-set_username, Ok-add_client}

Waits-Sends :
    {p : Ptr} (s : State) (w' : World)
    → Sends s.world w'
    → Waits p s
    → Waits p (record s { world = w' })
Waits-Sends s w' c h = record { serves = Serves-Sends s w' c h.serves; unlisted = h.unlisted }

Waits-input :
    {p : Ptr} (s : State) (input : List Received) → Waits p s → Waits p (record s { input = input })
Waits-input s input h = record {
  serves = record {
    own = h.serves.own;
    not_null = h.serves.not_null;
    live = h.serves.live;
    shared = h.serves.shared;
  };
  unlisted = h.unlisted;
}

-- Reading does not fault, and touches the input only.
pub recv_line_runs :
    (e : Env) (s : State)
    → Alive s.world s.session
    → (line : Bytes) × (input : List Received) × (recv_line e s
        ≡ some (line, record s { input = input }))
unfolding recv_line recv_from get_fd
recv_line_runs e s (t, here) = elim (Option-cases t.client_fd) [
  | inl no_fd ↦ ([], s.input, rw (here, no_fd) refl)
  | inr (fd, has_fd) ↦
      let (line, input) = read_line e.cipher [] s.input in (line, input, rw (here, has_fd) refl)
]

module _ (e : Env) {p : Ptr} where
  pub Ok-send_encrypted :
      (plain : Bytes) (s : State) → Serves p s → Ok (send_encrypted e plain) s (λ _ s'. Serves p s')
  unfolding send_encrypted
  Ok-send_encrypted plain s h =
      let sent =
        OnlySends-send_msg e.kernel s.session (e.cipher.encrypt plain) s.world (own_live s h) in
      Ok-with_state (λ s. lift (send_msg e.kernel s.session (e.cipher.encrypt plain))) s
        (Ok-lift (send_msg e.kernel s.session (e.cipher.encrypt plain)) s sent
          (Serves-Sends s sent.after sent.sends h))

  pub say :
      (plain : Bytes) (s : State) → Waits p s → Ok (send_encrypted e plain) s (λ _ s'. Waits p s')
  unfolding send_encrypted
  say plain s h =
      let sent =
        OnlySends-send_msg e.kernel s.session (e.cipher.encrypt plain) s.world
          (own_live s h.serves) in
      Ok-with_state (λ s. lift (send_msg e.kernel s.session (e.cipher.encrypt plain))) s
        (Ok-lift (send_msg e.kernel s.session (e.cipher.encrypt plain)) s sent
          (Waits-Sends s sent.after sent.sends h))

  pub hear : (s : State) → Waits p s → Ok (recv_line e) s (λ _ s'. Waits p s')
  hear s h =
      let (line, input, runs) = recv_line_runs e s (own_live s h.serves) in
      record {
        result = line;
        after = record s { input = input };
        runs = runs;
        holds = Waits-input s input h;
      }

  pub Ok-present_menu : (s : State) → Waits p s → Ok (present_menu e) s (λ _ s'. Waits p s')
  unfolding present_menu
  Ok-present_menu s h =
      Ok-bind (send_encrypted e (serialise make_menu)) _ s (say (serialise make_menu) s h)
        (λ sent s₁ h₁. Ok-if (not sent) _ _ s₁ (Ok-done (negsuc 0) s₁ h₁) (
          Ok-bind (recv_line e) _ s₁ (hear s₁ h₁) (λ line s₂ h₂.
            Ok-if (is_empty line) _ _ s₂ (Ok-done (negsuc 0) s₂ h₂)
              (Ok-done (read_choice e line) s₂ h₂))))

  pub Ok-refuse : (detail : Bytes) (s : State) → Waits p s → Ok (refuse e detail) s (Attempted p)
  unfolding refuse
  Ok-refuse detail s h =
      Ok-bind (send_encrypted e (serialise (make_err detail))) (λ _. done false) s
        (say (serialise (make_err detail)) s h) (λ _ s₁ h₁. Ok-done false s₁ h₁)

  pub Ok-welcome :
      (n greeting : Bytes) (s : State) → Waits p s → Ok (welcome e n greeting) s (Attempted p)
  unfolding welcome
  Ok-welcome n greeting s h =
      Ok-bind (with_state λ s. lift (set_username s.session n)) _ s
        (Ok-with_state (λ s. lift (set_username s.session n)) s (Ok-set_username s h n))
        (λ _ s₁ h₁.
          Ok-bind (with_state λ s. update_broadcaster (λ b. add_client b s.session)) _ s₁
            (Ok-with_state (λ s. update_broadcaster (λ b. add_client b s.session)) s₁
              (Ok-add_client s₁ h₁))
            (λ _ s₂ h₂.
              Ok-bind (send_encrypted e (serialise (make_ok greeting))) (λ _. done true) s₂
                (Ok-send_encrypted (serialise (make_ok greeting)) s₂ h₂)
                (λ _ s₃ h₃. Ok-done true s₃ h₃)))

  pub Ok-ask :
      (prompt : Bytes) (answer : Bytes → H Bool) (s : State)
      → ((line : Bytes) (s' : State) → Waits p s' → Ok (answer line) s' (Attempted p))
      → Waits p s
      → Ok (ask e prompt answer) s (Attempted p)
  unfolding ask
  Ok-ask prompt answer s answers h =
      Ok-bind (send_encrypted e prompt) _ s (say prompt s h) (λ sent s₁ h₁.
        Ok-if (not sent) _ _ s₁ (Ok-done false s₁ h₁)
          (Ok-bind (recv_line e) answer s₁ (hear s₁ h₁) (λ line s₂ h₂. answers line s₂ h₂)))
