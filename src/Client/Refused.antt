-- ===== src/Client/Refused.antt =====
-- What the client does when the server refuses a user name.
use mpcc.Common.{
  ℕ, ◌+◌, ◌≤◌, ◌≡◌, refl, sym, ap, ◌∙◌, Bool, true, false, some, List, [], ◌∷◌, ◌++◌, append_assoc,
  append-nil, Bytes, codes, IsByteString, Lacks, length, length-append, arith, ◌==◌,
}
use mpcc.Core.Message.{parse}
use mpcc.Core.Message.Proto
use mpcc.Server.ClientHandler.{Received, read_line}
use mpcc.Server.ClientHandler.Frames.{arriving, read_line_frame}
use mpcc.Client.{
  Host, State, returned, C, continue, done, print, getline, ◌>>=◌, ◌>>◌, next_line, send_encrypted,
  recv_line, recv_from,
}
use mpcc.Client.Dialogue.{answer_prompt, read_response, do_register, sent_if}
use mpcc.Client.Sending.{capacity, send_encrypted_lem}

abbrev with_newline : Bytes → Bytes
with_newline line = line ++ b'\n' ∷ []

module _ (e : Host) where
  -- A prompt was read and a line was sent in full.
  record Answered (s s' : State) (rest : List Received) (typed : Bytes) (lines : List Bytes)
      : Type 0 where
    same_fd : s'.sock_fd ≡ s.sock_fd
    input : s'.input ≡ rest
    stdin : s'.stdin ≡ lines
    wire : s'.wire ≡ s.wire ++ e.cipher.encrypt (with_newline typed)
    room : capacity s.answers ≤ capacity s'.answers + (length typed + 1)

  answer_prompt-sends :
      (s : State) (fd : ℕ) (prompt typed : Bytes) (rest : List Received) (lines : List Bytes)
      → s.sock_fd ≡ some fd
      → read_line e.cipher [] s.input ≡ (prompt, rest)
      → s.stdin ≡ typed ∷ lines
      → length typed + 1 ≤ capacity s.answers
      → (s' : State) × (answer_prompt e s ≡ returned true s') × Answered s s' rest typed lines
  unfolding answer_prompt recv_line recv_from
  answer_prompt-sends s fd prompt typed rest lines has_fd read stdin room =
      let s₁ : State = record s { input = rest; out = s.out ++ prompt; stdin = lines } in
      let plain = with_newline typed in
      let (sent, s₂, runs, post) = send_encrypted_lem e plain s₁ fd has_fd in
      let size : length (e.cipher.encrypt plain) ≡ length typed + 1 =
        e.cipher.length-encrypt plain ∙ length-append typed (b'\n' ∷ []) in
      let (ok, still) = post.enough (omega (arith, size, room)) in
      let send : Bytes → C Bool =
        λ typed. (do _ ← send_encrypted e (with_newline typed); done true) in
      let heard : recv_line e s ≡ returned prompt (record s { input = rest }) =
        rw (has_fd, read) refl in
      let whole : post.taken ≡ e.cipher.encrypt plain =
        sym (post.cut ∙ ap (◌++◌ post.taken) (post.all_sent.0 ok) ∙ append-nil post.taken) in
      (
        s₂,
        ap (λ r. continue r (λ prompt. do print prompt; line ← getline; sent_if line send)) heard
            ∙ ap
                (λ l.
                  continue (next_line l (record s { input = rest; out = s.out ++ prompt }))
                    (λ line. sent_if line send))
                stdin
            ∙ ap (λ r. continue r (λ _. done true)) runs,
        record {
          same_fd = ap (λ (x : State). x.sock_fd) post.after;
          input = ap (λ (x : State). x.input) post.after;
          stdin = ap (λ (x : State). x.stdin) post.after;
          wire = ap (λ (x : State). x.wire) post.after ∙ ap (◌++◌ s.wire) whole;
          room = omega (arith, still, size);
        },
      )

  read_response-answers :
      (s : State) (fd : ℕ) (line : Bytes) (rest : List Received)
      → s.sock_fd ≡ some fd
      → read_line e.cipher [] s.input ≡ (line, rest)
      → (s' : State) × (read_response e s ≡ returned ((parse line).type == Proto.ok) s')
        × (s'.input ≡ rest)
        × (s'.wire ≡ s.wire)
  unfolding read_response recv_line recv_from
  read_response-answers s fd line rest has_fd read = (
    record s { input = rest; out = s.out ++ (codes "[SERVER] " ++ (line ++ b'\n' ∷ [])) },
    rw (has_fd, read) refl,
    refl,
    refl,
  )

  -- A server that refuses the user name sends an error and then the menu, and waits for a choice. When
  -- do_register() gets a prompt, such an error and such a menu, a name and a password are typed, and
  -- ::send takes enough: the client takes the error for the prompt of the password and sends the
  -- password, which the server, interrupted wherever, reads as its next line and so takes for the
  -- choice; the client takes the menu for the answer, reports a failure, and has nothing more to read
  -- but what comes behind the menu.
  pub refused_name_reveals_password :
      (s : State) (fd : ℕ) (prompt refusal menu name password : Bytes) (i₁ i₂ i₃ : List Received)
      (lines : List Bytes) (at : ℕ → Bool) (later : List Received)
      → s.sock_fd ≡ some fd
      → read_line e.cipher [] s.input ≡ (prompt, i₁)
      → read_line e.cipher [] i₁ ≡ (refusal, i₂)
      → read_line e.cipher [] i₂ ≡ (menu, i₃)
      → (parse menu).type ≡ Proto.menu
      → s.stdin ≡ name ∷ password ∷ lines
      → length name + length password + 2 ≤ capacity s.answers
      → IsByteString password
      → Lacks b'\n' password
      → (s' : State) × (w₁ : Bytes) × (w₂ : Bytes) × (do_register e s ≡ returned false s')
        × (s'.input ≡ i₃)
        × (s'.wire ≡ s.wire ++ (w₁ ++ w₂))
        × (w₁ ≡ e.cipher.encrypt (with_newline name))
        × (read_line e.cipher [] (arriving at 0 w₂ later) ≡ (password, later))
  unfolding do_register ◌==◌
  refused_name_reveals_password s fd prompt refusal menu name password i₁ i₂ i₃ lines at later
        has_fd read₁ read₂ read₃ is_menu stdin room bytes lacks =
      let (s₁, runs₁, a₁) =
        answer_prompt-sends s fd prompt name i₁ (password ∷ lines) has_fd read₁ stdin
          (omega (arith, room)) in
      let (s₂, runs₂, a₂) =
        answer_prompt-sends s₁ fd refusal password i₂ lines (a₁.same_fd ∙ has_fd)
          (ap (read_line e.cipher []) a₁.input ∙ read₂) a₁.stdin (omega (arith, room, a₁.room)) in
      let (s₃, runs₃, left, wire₃) =
        read_response-answers s₂ fd menu i₃ (a₂.same_fd ∙ a₁.same_fd ∙ has_fd)
          (ap (read_line e.cipher []) a₂.input ∙ read₃) in
      (
        s₃,
        e.cipher.encrypt (with_newline name),
        e.cipher.encrypt (with_newline password),
        rw (runs₁, runs₂, runs₃, is_menu) refl,
        left,
        wire₃
            ∙ a₂.wire
            ∙ ap (λ w. w ++ e.cipher.encrypt (with_newline password)) a₁.wire
            ∙ append_assoc s.wire _ _,
        refl,
        read_line_frame e.cipher at password later bytes lacks,
      )
