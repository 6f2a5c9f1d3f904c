-- ===== src/Server/ClientHandler/Dialogue.antt =====
-- The first part of client_handler.cpp: frames, the menu, registration and login.
use mpcc.Common.{
  ℕ, zero, suc, Bool, true, false, not, Option, none, some, [], ◌++◌, Bytes, codes, ◌==◌,
  if◌then◌else◌, is_empty,
}
use mpcc.Common.Scan.{ℤ, pos, negsuc, stoi}
use mpcc.Core.Message.{parse, serialise, make_menu, make_err, make_ok}
use mpcc.Core.Message.Proto
use mpcc.Core.Session.{send_msg, get_fd, set_username}
use mpcc.Server.Broadcast.{add_client}
use mpcc.Server.UserRegistry.{register_user, authenticate}
use mpcc.Server.ClientHandler.{
  Env, H, ◌>>=◌, ◌>>◌, done, with_state, lift, update_broadcaster, read_line, validate_username,
  validate_password,
}

module _ (e : Env) where
  unfoldable pub send_encrypted : Bytes → H Bool
  send_encrypted plain = with_state λ s. lift (send_msg e.kernel s.session (e.cipher.encrypt plain))

  -- ::recv on no descriptor fails.
  unfoldable pub recv_from : Option ℕ → H Bytes
  unfolding read_line
  recv_from none s = some ([], s)
  recv_from (some fd) s =
      let (line, input) = read_line e.cipher [] s.input in some (line, record s { input = input })

  unfoldable pub recv_line : H Bytes
  unfolding recv_from
  recv_line = do fd ← with_state λ s. lift (get_fd s.session); recv_from fd

  -- `none` stands for the exceptions, which are caught.
  abbrev caught : Option ℤ → ℤ
  caught none = pos 0
  caught (some n) = n

  unfoldable pub read_choice : Bytes → ℤ
  unfolding stoi
  read_choice line =
      let m = parse line in caught (stoi (if m.type == Proto.choice then m.payload else m.type))

  unfoldable pub present_menu : H ℤ
  unfolding read_choice
  present_menu = do
    sent ← send_encrypted (serialise make_menu)
    if not sent
        then done (negsuc 0)
        else do line ← recv_line; if is_empty line then done (negsuc 0) else done (read_choice line)

  -- send_encrypted(...); return false;
  unfoldable pub refuse : Bytes → H Bool
  refuse detail = do _ ← send_encrypted (serialise (make_err detail)); done false

  -- The registry's answer, with what it did to itself and to the disk.
  unfoldable pub register_at : Bytes → Bytes → H Bool
  register_at username enc_password s =
      let (success, u, d) = register_user e.os s.registry username enc_password s.disk in
      some (success, record s { registry = u; disk = d })

  -- What follows a registration or a login that succeeded.
  unfoldable pub welcome : Bytes → Bytes → H Bool
  welcome username greeting = do
    with_state λ s. lift (set_username s.session username)
    with_state λ s. update_broadcaster (λ b. add_client b s.session)
    _ ← send_encrypted (serialise (make_ok greeting))
    done true

  -- The handler's part from the password on.
  unfoldable pub register_with : Bytes → Bytes → H Bool
  unfolding register_at refuse welcome
  register_with username password =
      if is_empty password
      then done false
      else if not (validate_password password)
      then refuse (codes "Invalid password. Max 128 chars, no colons.")
      else do
        success ← register_at username (e.cipher.encrypt password)
        (if success
            then welcome username
                (codes "Registration successful. Welcome, " ++ (username ++ codes "!"))
            else refuse (codes "User already exists."))

  -- `Enter password: `, and the line that answers it, if the prompt could be sent.
  unfoldable pub ask : Bytes → (Bytes → H Bool) → H Bool
  ask prompt answer = do
    sent ← send_encrypted prompt
    if not sent then done false else (do line ← recv_line; answer line)

  unfoldable pub handle_register : H Bool
  unfolding ask register_with refuse
  handle_register = ask (codes "Enter username: \n") λ username.
      if is_empty username
      then done false
      else if not (validate_username username)
      then refuse (codes "Invalid username. Use [a-zA-Z0-9_], max 64 chars.")
      else ask (codes "Enter password: \n") (register_with username)

  unfoldable pub authenticate_at : Bytes → Bytes → H Bool
  authenticate_at username enc_password s =
      some (authenticate e.os s.registry username enc_password s.disk, s)

  unfoldable pub login_with : Bytes → Bytes → H Bool
  unfolding authenticate_at refuse welcome
  login_with username password = if is_empty password then done false else do
    success ← authenticate_at username (e.cipher.encrypt password)
    (if success
        then welcome username (codes "Login successful. Welcome back, " ++ (username ++ codes "!"))
        else refuse (codes "Invalid credentials."))

  unfoldable pub handle_login : H Bool
  unfolding ask login_with
  handle_login = ask (codes "Enter username: \n") λ username.
      if is_empty username
      then done false
      else ask (codes "Enter password: \n") (login_with username)

  -- One round of the loop of try_authenticate: `none` goes on, `some` returns.
  unfoldable pub attempt : ℤ → H (Option Bool)
  unfolding handle_register handle_login
  attempt (negsuc n) = done (some false)
  attempt (pos (suc zero)) = do ok ← handle_register; done (if ok then some true else none)
  attempt (pos (suc (suc zero))) = do ok ← handle_login; done (if ok then some true else none)
  attempt (pos zero) = do
    _ ← send_encrypted (serialise (make_err (codes "Invalid choice. Please enter 1 or 2.")))
    done none
  attempt (pos (suc (suc (suc n)))) = do
    _ ← send_encrypted (serialise (make_err (codes "Invalid choice. Please enter 1 or 2.")))
    done none

  unfoldable pub finish_or : H Bool → Option Bool → H Bool
  finish_or next none = next
  finish_or next (some result) = done result

  -- The loop, with the attempts that are left.
  unfoldable pub attempts : ℕ → H Bool
  unfolding present_menu attempt finish_or refuse
  attempts zero = refuse (codes "Authentication failed. Disconnecting.")
  attempts (suc n) = do
    choice ← present_menu
    result ← attempt choice
    finish_or (attempts n) result

  unfoldable pub try_authenticate : H Bool
  unfolding attempts
  try_authenticate = attempts 3
