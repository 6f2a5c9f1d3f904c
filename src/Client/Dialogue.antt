-- ===== src/Client/Dialogue.antt =====
-- The second part of client.cpp: authentication.
use mpcc.Common.{
  ℕ, zero, suc, Bool, true, false, not, Option, none, some, [], ◌∷◌, ◌++◌, Bytes, codes, length,
  if◌then◌else◌, is_empty, ◌==◌,
}
use mpcc.Core.Message.{parse, serialise}
use mpcc.Core.Message.Proto
use mpcc.Client.{
  Host, out_of_fuel, C, ◌>>=◌, ◌>>◌, done, throw, with_state, print, getline, send_encrypted,
  recv_line,
}

-- What a line that is not read stands for in `answer_prompt`.
abbrev pub sent_if : Option Bytes → (Bytes → C Bool) → C Bool
sent_if none send = done false
sent_if (some line) send = send line

module _ (e : Host) where
  -- A prompt is read and printed, and the line that is typed is sent; `false` if no line is.
  unfoldable pub answer_prompt : C Bool
  unfolding recv_line send_encrypted
  answer_prompt = do
    prompt ← recv_line e
    print prompt
    line ← getline
    sent_if line (λ typed. do _ ← send_encrypted e (typed ++ b'\n' ∷ []); done true)

  -- The server's answer: OK or ERR.
  unfoldable pub read_response : C Bool
  unfolding recv_line parse
  read_response = do
    response ← recv_line e
    print (codes "[SERVER] " ++ (response ++ b'\n' ∷ []))
    done ((parse response).type == Proto.ok)

  unfoldable pub do_register : C Bool
  unfolding answer_prompt read_response
  do_register = do
    named ← answer_prompt
    if not named
        then done false
        else do given ← answer_prompt; (if not given then done false else read_response)

  unfoldable pub do_login : C Bool
  unfolding answer_prompt read_response
  do_login = do
    named ← answer_prompt
    if not named
        then done false
        else do given ← answer_prompt; (if not given then done false else read_response)

  unfoldable pub show_menu : Bytes → C (Unit {0})
  unfolding parse
  show_menu menu =
      if (parse menu).type == Proto.menu
      then print (
          codes "=== MPCC - Multi Party Conference Chat ===\n"
          ++ ((parse menu).payload ++ b'\n' ∷ []))
      else print (menu ++ b'\n' ∷ [])

  -- The rest of a round of auth_loop, once a choice is typed.
  unfoldable pub choose : Bytes → C Bool
  unfolding do_register do_login send_encrypted serialise
  choose choice = do
    _ ← send_encrypted e (serialise (record { type = Proto.choice; payload = choice }))
    if choice == codes "1"
        then do_register
        else if choice == codes "2"
        then do_login
        else (do print (codes "[ERROR] Invalid choice.\n"); done false)

  -- The end of a round: no line could be read, or whether the user is known now.
  abbrev pub after_choice : C (Unit {0}) → Option Bytes → C (Unit {0})
  after_choice again none = done tt
  after_choice again (some choice) = do
    authenticated ← choose choice
    if authenticated then done tt else again

  -- The loop on fuel. Every round but the last reads a line that was typed.
  unfoldable pub authenticate : ℕ → C (Unit {0})
  unfolding recv_line show_menu choose
  authenticate zero s = out_of_fuel
  authenticate (suc fuel) s =
      (do
        menu ← recv_line e
        if is_empty menu then throw (codes "Server disconnected during menu.") else (do
          show_menu menu
          print (codes "Your choice: ")
          choice ← getline
          after_choice (authenticate fuel) choice))
        s

  unfoldable pub auth_loop : C (Unit {0})
  unfolding authenticate
  auth_loop = with_state λ s. authenticate (suc (length s.stdin))
