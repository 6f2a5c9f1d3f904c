-- ===== src/Client/Schedule.antt =====
-- The two threads of a conversation, in any order.
use mpcc.Common.{
  ℕ, ◌+◌, ◌≤◌, ◌≡◌, refl, sym, ap, subst, ◌∙◌, Bool, true, false, ◌||◌, some, List, [], ◌∷◌, ◌++◌,
  append_assoc, append-nil, Bytes, codes, length, length-append, arith, if◌then◌else◌, ◌==◌,
  Bool-cases, inl, inr,
}
use mpcc.Core.Message.{serialise, make_msg, make_exit}
use mpcc.Client.{Host, State, Result, returned, continue, next_line, send_encrypted}
use mpcc.Client.Chat.{help_text, type_line, typed_or_end, send_round}
use mpcc.Client.Sending.{capacity, send_encrypted_lem}

-- The frames that the lines stand for, up to the first that ends the conversation.
unfoldable pub frames : List Bytes → Bytes
frames [] = []
frames (line ∷ lines) =
    let rest = frames lines in
    if line == codes "/help"
    then rest
    else if line == codes "exit" || line == codes "quit"
    then serialise make_exit
    else serialise (make_msg line) ++ rest

-- What is still to be sent, by whether the main thread is in its loop.
abbrev pub pending : Bool → State → Bytes
pending true s = frames s.stdin
pending false s = []

-- The members that the rounds may change, taken from `s'`.
abbrev pub mix : State → State → State
mix s s' = record s {
  input = s'.input;
  answers = s'.answers;
  stdin = s'.stdin;
  wire = s'.wire;
  out = s'.out;
}

module _ (e : Host) where
  -- What holds of a client in its loop, when it began in `s` with `b`.
  pub record Conveys (b : Bool) (s : State) (b' : Bool) (s' : State) : Type 0 where
    pub same : s' ≡ mix s s'
    pub wire :
        s'.wire ++ e.cipher.encrypt (pending b' s') ≡ s.wire ++ e.cipher.encrypt (pending b s)
    pub room :
        length (pending b s) ≤ capacity s.answers → length (pending b' s') ≤ capacity s'.answers

  pub Conveys-trans :
      {b b' b'' : Bool} {s s' s'' : State}
      → Conveys b s b' s'
      → Conveys b' s' b'' s''
      → Conveys b s b'' s''
  Conveys-trans {s'' = s''} h k = record {
    same = k.same ∙ ap (λ x. mix x s'') h.same;
    wire = k.wire ∙ h.wire;
    room = λ r. k.room (h.room r);
  }

  pub encrypt-nil : e.cipher.encrypt [] ≡ []
  encrypt-nil = go (e.cipher.encrypt []) (e.cipher.length-encrypt [])
    where
      go : (s : Bytes) → length s ≡ 0 → s ≡ []
      go [] h = refl
      go (c ∷ s) h = absurd (omega (arith, h))

  -- A whole frame in front of what is pending was sent.
  record Sends (s s' : State) (frame : Bytes) : Type 0 where
    same : s' ≡ mix s s'
    stdin : s'.stdin ≡ s.stdin
    wire : s'.wire ≡ s.wire ++ e.cipher.encrypt frame
    room : capacity s.answers ≤ capacity s'.answers + length frame

  Sends-frame :
      (frame : Bytes) (s : State) (fd : ℕ)
      → s.sock_fd ≡ some fd
      → length frame ≤ capacity s.answers
      → (s' : State) × (send_encrypted e frame s ≡ returned true s') × Sends s s' frame
  Sends-frame frame s fd has_fd room =
      let (sent, s', runs, post) = send_encrypted_lem e frame s fd has_fd in
      let size = e.cipher.length-encrypt frame in
      let (ok, still) = post.enough (omega (arith, size, room)) in
      let whole : post.taken ≡ e.cipher.encrypt frame =
        sym (post.cut ∙ ap (◌++◌ post.taken) (post.all_sent.0 ok) ∙ append-nil post.taken) in
      (
        s',
        runs ∙ ap (λ b. returned b s') ok,
        record {
          same = post.after ∙ ap (mix s) (sym post.after);
          stdin = ap (λ (x : State). x.stdin) post.after;
          wire = ap (λ (x : State). x.wire) post.after ∙ ap (◌++◌ s.wire) whole;
          room = omega (arith, still, size);
        },
      )

  -- A round of the main thread.
  pub record Typed (s : State) : Type 0 where
    pub go_on : Bool
    pub after : State
    pub runs : send_round e s ≡ returned go_on after
    pub conveys : Conveys true s go_on after

  -- What a line does to what is pending.
  helps :
      (line : Bytes) (lines : List Bytes)
      → (line == codes "/help") ≡ true
      → frames (line ∷ lines) ≡ frames lines
  unfolding frames
  helps line lines help = rw help refl

  leaves :
      (line : Bytes) (lines : List Bytes)
      → (line == codes "/help") ≡ false
      → (line == codes "exit" || line == codes "quit") ≡ true
      → frames (line ∷ lines) ≡ serialise make_exit
  unfolding frames
  leaves line lines help leave = rw (help, leave) refl

  says :
      (line : Bytes) (lines : List Bytes)
      → (line == codes "/help") ≡ false
      → (line == codes "exit" || line == codes "quit") ≡ false
      → frames (line ∷ lines) ≡ serialise (make_msg line) ++ frames lines
  unfolding frames
  says line lines help leave = rw (help, leave) refl

  module _ (s : State) (fd : ℕ) (line : Bytes) (lines : List Bytes) (has_fd : s.sock_fd ≡ some fd)
      (stdin : s.stdin ≡ line ∷ lines) (room : length (frames s.stdin) ≤ capacity s.answers) where
    reads :
        (r : Result Bool) → type_line e line (record s { stdin = lines }) ≡ r → send_round e s ≡ r
    unfolding send_round
    reads r runs = ap (λ l. continue (next_line l s) (typed_or_end e)) stdin ∙ runs

    Typed-help : (line == codes "/help") ≡ true → Typed s
    unfolding type_line
    Typed-help help =
        let same_frames : frames lines ≡ frames s.stdin =
          sym (ap frames stdin ∙ helps line lines help) in
        record {
          go_on = true;
          after = record s { stdin = lines; out = s.out ++ help_text };
          runs = reads _ (rw help refl);
          conveys = record {
            same = refl;
            wire = ap (λ f. s.wire ++ e.cipher.encrypt f) same_frames;
            room = λ r. subst (λ f. length f ≤ capacity s.answers) (sym same_frames) r;
          };
        }

    Typed-leave :
        (line == codes "/help") ≡ false
        → (line == codes "exit" || line == codes "quit") ≡ true
        → Typed s
    unfolding type_line
    Typed-leave help leave =
        let all : frames s.stdin ≡ serialise make_exit =
          ap frames stdin ∙ leaves line lines help leave in
        let (s', runs, sent) =
          Sends-frame (serialise make_exit) (record s { stdin = lines }) fd has_fd
            (subst (λ f. length f ≤ capacity s.answers) all room) in
        record {
          go_on = false;
          after = s';
          runs = reads _ (rw (help, leave, runs) refl);
          conveys = record {
            same = sent.same;
            wire =
                ap (◌++◌ s'.wire) encrypt-nil
                ∙ append-nil s'.wire
                ∙ sent.wire
                ∙ ap (λ f. s.wire ++ e.cipher.encrypt f) (sym all);
            room = λ r. omega arith;
          };
        }

    Typed-text :
        (line == codes "/help") ≡ false
        → (line == codes "exit" || line == codes "quit") ≡ false
        → Typed s
    unfolding type_line
    Typed-text help leave =
        let frame = serialise (make_msg line) in
        let all : frames s.stdin ≡ frame ++ frames lines =
          ap frames stdin ∙ says line lines help leave in
        let size = ap length all ∙ length-append frame (frames lines) in
        let (s', runs, sent) =
          Sends-frame frame (record s { stdin = lines }) fd has_fd (omega (arith, size, room)) in
        record {
          go_on = true;
          after = record s' { out = s'.out ++ codes "You: " };
          runs = reads _ (rw (help, leave, runs) refl);
          conveys = record {
            same = ap (λ (x : State). record x { out = s'.out ++ codes "You: " }) sent.same;
            wire =
                ap (λ l. s'.wire ++ e.cipher.encrypt (frames l)) sent.stdin
                ∙ ap (λ w. w ++ e.cipher.encrypt (frames lines)) sent.wire
                ∙ append_assoc s.wire (e.cipher.encrypt frame) (e.cipher.encrypt (frames lines))
                ∙ ap (◌++◌ s.wire) (
                    sym (e.cipher.encrypt-append frame (frames lines))
                    ∙ ap e.cipher.encrypt (sym all));
            room = λ r. omega (arith, r, size, sent.room, ap (λ l. length (frames l)) sent.stdin);
          };
        }

  pub Typed-line :
      (s : State) (fd : ℕ) (lines : List Bytes)
      → s.stdin ≡ lines
      → s.sock_fd ≡ some fd
      → length (frames s.stdin) ≤ capacity s.answers
      → Typed s
  unfolding send_round
  Typed-line s fd [] stdin has_fd room = record {
    go_on = false;
    after = s;
    runs = ap (λ l. continue (next_line l s) (typed_or_end e)) stdin;
    conveys = record {
      same = refl;
      wire = ap (λ l. s.wire ++ e.cipher.encrypt l) (sym (ap frames stdin ∙ unfold frames in refl));
      room = λ r. omega arith;
    };
  }
  Typed-line s fd (line ∷ lines) stdin has_fd room = elim (Bool-cases (line == codes "/help")) [
    | inl help ↦ Typed-help s fd line lines has_fd stdin room help
    | inr other ↦ elim (Bool-cases (line == codes "exit" || line == codes "quit")) [
      | inl leave ↦ Typed-leave s fd line lines has_fd stdin room other leave
      | inr stay ↦ Typed-text s fd line lines has_fd stdin room other stay
    ]
  ]
