-- ===== src/Client/Delivery.antt =====
-- A line on its way from one client to the server, and from the server to another client.
use mpcc.Common.{
  ℕ, ◌≤◌, ◌<◌, ◌≡◌, refl, sym, ap, subst, ◌∙◌, ◌≢◌, Bool, true, false, some, List, [], ◌++◌, Bytes,
  codes, IsByteString, Lacks, length, All, All-append, arith, append-nil, is_empty, ◌==◌, ◌||◌,
}
use mpcc.Core.Cipher.Laws.{IEncrypt}
use mpcc.Core.Message.{Message, parse, serialise, make_msg, make_bcast, newline}
use mpcc.Core.Message.Proto
use mpcc.Core.Message.RoundTrip.{EndsClean, body, serialise-body, parse-serialise-strip}
use mpcc.Core.Message.Factories.{factories_arrive, body_with_payload}
use mpcc.Server.Broadcast.{frame}
use mpcc.Server.ClientHandler.{Received, read_line}
use mpcc.Server.ClientHandler.Frames.{arriving, read_line_frame}
use mpcc.Client.{Host, State, returned, recv_line, recv_from}
use mpcc.Client.Chat.{type_line, recv_round, shown, show_line}
use mpcc.Client.Sending.{capacity, send_encrypted_lem}

-- The line that a receiver reads, without its newline, means the same as the frame.
pub parse-body : (m : Message) → parse (serialise m) ≡ m → parse (body m) ≡ m
unfolding parse
parse-body m arrives = sym (parse-serialise-strip m) ∙ arrives

module _ (cipher : IEncrypt) (at : ℕ → Bool) (rest : List Received) where
  -- An encrypted frame on the receiver's side.
  read_line-frame :
      (m : Message)
      → IsByteString (body m)
      → Lacks newline (body m)
      → read_line cipher [] (arriving at 0 (cipher.encrypt (serialise m)) rest) ≡ (body m, rest)
  read_line-frame m bytes lacks =
      ap (λ x. read_line cipher [] (arriving at 0 (cipher.encrypt x) rest)) (serialise-body m)
      ∙ read_line_frame cipher at (body m) rest bytes lacks

-- A round of the receive thread that reads a line.
recv_round-line :
    (e : Host) (s : State) (fd : ℕ) (line : Bytes) (rest : List Received)
    → s.running ≡ true
    → s.sock_fd ≡ some fd
    → read_line e.cipher [] s.input ≡ (line, rest)
    → is_empty line ≡ false
    → recv_round e s ≡ returned true (record s { input = rest; out = s.out ++ shown e line })
unfolding recv_round show_line recv_line recv_from
recv_round-line e s fd line rest running has_fd read some_line =
    rw (running, has_fd, read, some_line) refl

module _ (e : Host) (text : Bytes) (some_text : text ≢ []) (clean : EndsClean text)
    (bytes : IsByteString text) (lacks : Lacks newline text) where
  pub msg_body : body (make_msg text) ≡ codes "MSG:" ++ text
  unfolding make_msg
  msg_body = body_with_payload Proto.msg text some_text

  pub msg_bytes : IsByteString (body (make_msg text))
  msg_bytes =
      subst IsByteString (sym msg_body)
        (omega arith, (omega arith, (omega arith, (omega arith, bytes))))

  pub msg-Lacks : Lacks newline (body (make_msg text))
  msg-Lacks =
      subst (Lacks newline) (sym msg_body)
        (omega arith, (omega arith, (omega arith, (omega arith, lacks))))

  bcast_body :
      (who : Bytes) → body (make_bcast who text) ≡ codes "BCAST:[" ++ (who ++ (codes "]: " ++ text))
  unfolding make_bcast
  bcast_body who =
      body_with_payload Proto.bcast (codes "[" ++ (who ++ (codes "]: " ++ text))) (λ e. cc e)

  bcast-All :
      (P : ℕ → Type 0) (who : Bytes)
      → All P (codes "BCAST:[")
      → All P who
      → All P (codes "]: ")
      → All P text
      → All P (body (make_bcast who text))
  bcast-All P who front of_who link of_text = subst (All P) (sym (bcast_body who)) (
      All-append P (codes "BCAST:[") _ front
        (All-append P who _ of_who (All-append P (codes "]: ") text link of_text)))

  bcast_bytes : (who : Bytes) → IsByteString who → IsByteString (body (make_bcast who text))
  bcast_bytes who h =
      bcast-All (λ x. x < 256) who
        (
          omega arith,
          (
            omega arith,
            (omega arith, (omega arith, (omega arith, (omega arith, (omega arith, tt))))),
          ),
        )
        h (omega arith, (omega arith, (omega arith, tt))) bytes

  bcast-Lacks : (who : Bytes) → Lacks newline who → Lacks newline (body (make_bcast who text))
  bcast-Lacks who h =
      bcast-All (λ x. x ≢ newline) who
        (
          omega arith,
          (
            omega arith,
            (omega arith, (omega arith, (omega arith, (omega arith, (omega arith, tt))))),
          ),
        )
        h (omega arith, (omega arith, (omega arith, tt))) lacks

  framed :
      (who : Bytes) → frame e.cipher who text ≡ e.cipher.encrypt (serialise (make_bcast who text))
  unfolding frame
  framed who = refl

  bcast_shown :
      (who : Bytes)
      → shown e (body (make_bcast who text))
        ≡ codes "\r[" ++ ((who ++ (codes "]: " ++ text)) ++ codes "\nYou: ")
  unfolding shown make_bcast ◌==◌
  bcast_shown who =
      let arrives = ((factories_arrive text some_text clean who).5).1 in
      rw (parse-body (make_bcast who text) arrives) refl

  -- A text of bytes that is not empty, holds no newline and does not end in a carriage return, and is
  -- neither /help nor exit nor quit: when it is typed at a client with a socket, and as many calls of
  -- ::send take something as its frame has bytes, it is sent, and the handler that receives it,
  -- interrupted wherever, reads the line MSG:text, which it parses as MSG with that text, and what arrives behind it
  -- is left.
  pub typed_text_arrives :
      (s : State) (fd : ℕ) (at : ℕ → Bool) (rest : List Received)
      → s.sock_fd ≡ some fd
      → (text == codes "/help") ≡ false
      → (text == codes "exit" || text == codes "quit") ≡ false
      → length (serialise (make_msg text)) ≤ capacity s.answers
      → (s' : State) × (w : Bytes) × (line : Bytes) × (type_line e text s ≡ returned true s')
        × (s'.wire ≡ s.wire ++ w)
        × (read_line e.cipher [] (arriving at 0 w rest) ≡ (line, rest))
        × (line ≡ codes "MSG:" ++ text)
        × (parse line ≡ make_msg text)
  unfolding type_line
  typed_text_arrives s fd at rest has_fd help leave enough =
      let m = make_msg text in
      let (sent, s₁, runs, post) = send_encrypted_lem e (serialise m) s fd has_fd in
      let wire = e.cipher.encrypt (serialise m) in
      let (ok, _) = post.enough (omega (arith, e.cipher.length-encrypt (serialise m), enough)) in
      let whole : wire ≡ post.taken =
        post.cut ∙ ap (◌++◌ post.taken) (post.all_sent.0 ok) ∙ append-nil post.taken in
      let read = read_line-frame e.cipher at rest m msg_bytes msg-Lacks in
      (
        record s₁ { out = s₁.out ++ codes "You: " },
        post.taken,
        body m,
        rw (help, leave, runs) refl,
        ap (λ (x : State). x.wire) post.after,
        ap (λ x. read_line e.cipher [] (arriving at 0 x rest)) (sym whole) ∙ read,
        msg_body,
        parse-body m (((factories_arrive text some_text clean []).0).1),
      )

  -- A broadcast of a text of bytes that is not empty, holds no newline and does not end in a carriage
  -- return, under a sender's name of bytes without a newline: when it arrives at a client with a socket
  -- whose receive thread is in its loop, interrupted wherever, the client prints the name in brackets
  -- and the text, and goes on with what arrives behind it.
  pub broadcast_is_shown :
      (who : Bytes) (s : State) (fd : ℕ) (at : ℕ → Bool) (rest : List Received)
      → IsByteString who
      → Lacks newline who
      → s.running ≡ true
      → s.sock_fd ≡ some fd
      → s.input ≡ arriving at 0 (frame e.cipher who text) rest
      → recv_round e s
        ≡ returned true (record s {
          input = rest;
          out = s.out ++ (codes "\r[" ++ ((who ++ (codes "]: " ++ text)) ++ codes "\nYou: "));
        })
  broadcast_is_shown who s fd at rest who_bytes who_lacks running has_fd arrived =
      let m = make_bcast who text in
      let read : read_line e.cipher [] s.input ≡ (body m, rest) =
        ap (read_line e.cipher []) (arrived ∙ ap (λ w. arriving at 0 w rest) (framed who))
        ∙ read_line-frame e.cipher at rest m (bcast_bytes who who_bytes)
            (bcast-Lacks who who_lacks) in
      recv_round-line e s fd (body m) rest running has_fd read (ap is_empty (bcast_body who))
      ∙ ap (λ x. returned true (record s { input = rest; out = s.out ++ x })) (bcast_shown who)
