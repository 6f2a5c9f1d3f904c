-- ===== src/Server/ClientHandler/AuthSafety.antt =====
-- Registration and login fault on no input, and keep the shared state valid.
use mpcc.Common.{
  ℕ, zero, suc, refl, Bool, true, false, not, none, some, Option, ◌++◌, Bytes, codes, is_empty,
  if◌then◌else◌,
}
use mpcc.Common.Scan.{ℤ, pos, negsuc}
use mpcc.Core.Message.{serialise, make_err}
use mpcc.Core.Session.{Ptr}
use mpcc.Core.FileIo.{Disk}
use mpcc.Server.UserRegistry.{UserRegistry, register_user, authenticate}
use mpcc.Server.ClientHandler.{Env, State, ◌>>=◌, done, validate_username, validate_password}
use mpcc.Server.ClientHandler.Dialogue.{
  send_encrypted, present_menu, register_at, register_with, handle_register, authenticate_at,
  login_with, handle_login, attempt, finish_or, attempts, try_authenticate,
}
use mpcc.Server.ClientHandler.Invariant.{Waits, Attempted, Ok, Ok-done, Ok-bind, Ok-if}
use mpcc.Server.ClientHandler.DialogueSafety.{say, Ok-present_menu, Ok-refuse, Ok-welcome, Ok-ask}

-- What an attempt leaves: `none` goes on with another.
abbrev Tried : Ptr → Option Bool → State → Type 0
Tried p none s = Waits p s
Tried p (some ok) s = Attempted p ok s

tried :
    (p : Ptr) (ok : Bool) (s : State)
    → Attempted p ok s
    → Ok (done (if ok then some true else none)) s (Tried p)
tried p true s h = Ok-done (some true) s h
tried p false s h = Ok-done none s h

module _ (e : Env) {p : Ptr} where
  Waits-registry :
      (s : State) (u : UserRegistry) (d : Disk)
      → Waits p s
      → Waits p (record s { registry = u; disk = d })
  Waits-registry s u d h = record {
    serves = record {
      own = h.serves.own;
      not_null = h.serves.not_null;
      live = h.serves.live;
      shared = h.serves.shared;
    };
    unlisted = h.unlisted;
  }

  Ok-register_at :
      (n pw : Bytes) (s : State) → Waits p s → Ok (register_at e n pw) s (λ _ s'. Waits p s')
  unfolding register_at
  Ok-register_at n pw s h =
      let (success, u, d) = register_user e.os s.registry n pw s.disk in
      record {
        result = success;
        after = record s { registry = u; disk = d };
        runs = refl;
        holds = Waits-registry s u d h;
      }

  Ok-authenticate_at :
      (n pw : Bytes) (s : State) → Waits p s → Ok (authenticate_at e n pw) s (λ _ s'. Waits p s')
  unfolding authenticate_at
  Ok-authenticate_at n pw s h = record {
    result = authenticate e.os s.registry n pw s.disk;
    after = s;
    runs = refl;
    holds = h;
  }

  Ok-register_with :
      (n pw : Bytes) (s : State) → Waits p s → Ok (register_with e n pw) s (Attempted p)
  unfolding register_with
  Ok-register_with n pw s h = Ok-if (is_empty pw) _ _ s (Ok-done false s h) (
      Ok-if (not (validate_password pw)) _ _ s
        (Ok-refuse e (codes "Invalid password. Max 128 chars, no colons.") s h)
        (Ok-bind (register_at e n (e.cipher.encrypt pw)) _ s
          (Ok-register_at n (e.cipher.encrypt pw) s h)
          (λ success s₁ h₁.
            Ok-if success _ _ s₁
              (Ok-welcome e n (codes "Registration successful. Welcome, " ++ (n ++ codes "!")) s₁
                h₁)
              (Ok-refuse e (codes "User already exists.") s₁ h₁))))

  Ok-handle_register : (s : State) → Waits p s → Ok (handle_register e) s (Attempted p)
  unfolding handle_register
  Ok-handle_register s h =
      Ok-ask e (codes "Enter username: \n") _ s
        (λ n s₁ h₁. Ok-if (is_empty n) _ _ s₁ (Ok-done false s₁ h₁) (
          Ok-if (not (validate_username n)) _ _ s₁
            (Ok-refuse e (codes "Invalid username. Use [a-zA-Z0-9_], max 64 chars.") s₁ h₁)
            (Ok-ask e (codes "Enter password: \n") (register_with e n) s₁ (Ok-register_with n) h₁)))
        h

  Ok-login_with : (n pw : Bytes) (s : State) → Waits p s → Ok (login_with e n pw) s (Attempted p)
  unfolding login_with
  Ok-login_with n pw s h = Ok-if (is_empty pw) _ _ s (Ok-done false s h) (
      Ok-bind (authenticate_at e n (e.cipher.encrypt pw)) _ s
        (Ok-authenticate_at n (e.cipher.encrypt pw) s h)
        (λ success s₁ h₁.
          Ok-if success _ _ s₁
            (Ok-welcome e n (codes "Login successful. Welcome back, " ++ (n ++ codes "!")) s₁ h₁)
            (Ok-refuse e (codes "Invalid credentials.") s₁ h₁)))

  Ok-handle_login : (s : State) → Waits p s → Ok (handle_login e) s (Attempted p)
  unfolding handle_login
  Ok-handle_login s h =
      Ok-ask e (codes "Enter username: \n") _ s
        (λ n s₁ h₁.
          Ok-if (is_empty n) _ _ s₁ (Ok-done false s₁ h₁)
            (Ok-ask e (codes "Enter password: \n") (login_with e n) s₁ (Ok-login_with n) h₁))
        h

  bad_choice :
      (s : State)
      → Waits p s
      → Ok
          (do
            _ ←
                send_encrypted e
                  (serialise (make_err (codes "Invalid choice. Please enter 1 or 2.")))
            done none)
          s
          (Tried p)
  bad_choice s h =
      let detail = serialise (make_err (codes "Invalid choice. Please enter 1 or 2.")) in
      Ok-bind (send_encrypted e detail) (λ _. done none) s (say e detail s h)
        (λ _ s₁ h₁. Ok-done none s₁ h₁)

  Ok-attempt : (choice : ℤ) (s : State) → Waits p s → Ok (attempt e choice) s (Tried p)
  unfolding attempt
  Ok-attempt (negsuc n) s h = Ok-done (some false) s h
  Ok-attempt (pos zero) s h = bad_choice s h
  Ok-attempt (pos (suc zero)) s h =
      Ok-bind (handle_register e) _ s (Ok-handle_register s h) (λ ok s₁ h₁. tried p ok s₁ h₁)
  Ok-attempt (pos (suc (suc zero))) s h =
      Ok-bind (handle_login e) _ s (Ok-handle_login s h) (λ ok s₁ h₁. tried p ok s₁ h₁)
  Ok-attempt (pos (suc (suc (suc n)))) s h = bad_choice s h

  Ok-attempts : (n : ℕ) (s : State) → Waits p s → Ok (attempts e n) s (Attempted p)
  unfolding attempts finish_or
  Ok-attempts zero s h = Ok-refuse e (codes "Authentication failed. Disconnecting.") s h
  Ok-attempts (suc n) s h = Ok-bind (present_menu e) _ s (Ok-present_menu e s h) (λ choice s₁ h₁.
      Ok-bind (attempt e choice) (finish_or e (attempts e n)) s₁ (Ok-attempt choice s₁ h₁)
        (λ result s₂ h₂. finish result s₂ h₂ (Ok-attempts n s₂)))
    where
      finish :
          (result : Option Bool) (s₂ : State)
          → Tried p result s₂
          → (Waits p s₂ → Ok (attempts e n) s₂ (Attempted p))
          → Ok (finish_or e (attempts e n) result) s₂ (Attempted p)
      finish none s₂ h₂ again = again h₂
      finish (some ok) s₂ h₂ again = Ok-done ok s₂ h₂

  pub Ok-try_authenticate : (s : State) → Waits p s → Ok (try_authenticate e) s (Attempted p)
  unfolding try_authenticate
  Ok-try_authenticate s h = Ok-attempts 3 s h
