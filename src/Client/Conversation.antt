-- ===== src/Client/Conversation.antt =====
-- The conversation from its start to its end.
use mpcc.Common.{
  ℕ, suc, ◌-◌, ◌≤◌, ◌≡◌, refl, ap, subst, ◌∙◌, Bool, true, false, not, ◌&&◌, some, List, [], ◌∷◌,
  ◌++◌, codes, length, arith, if◌then◌else◌, nat_eq,
}
use mpcc.Core.Net.{Net}
use mpcc.Util.Threads.{
  Threads, running, start, start_with, started_by, init_attr, destroy_attr, not_started,
}
use mpcc.Client.{Host, State, returned, C, continue, done, print, ◌>>=◌, ◌>>◌}
use mpcc.Client.Chat.{Turn, start_receiver, finish, send_loop, talk}
use mpcc.Client.Sending.{capacity}
use mpcc.Client.Schedule.{frames, pending, Conveys}
use mpcc.Client.Rounds.{Prints-greet, Rounds, Rounds-any}
use mpcc.Client.Ending.{listener, finishes}

module _ (e : Host) where
  -- How a conversation stands that began in `s`, with the receive thread `tid`.
  pub record Conversed (tid fd : ℕ) (s : State) (ended : Bool) (s' : State) : Type 0 where
    pub wire :
        s'.wire ++ e.cipher.encrypt (pending (not ended) s')
        ≡ s.wire ++ e.cipher.encrypt (frames s.stdin)
    pub stopped : ended ≡ true → s'.running ≡ false
    pub thread : ended ≡ true → s'.recv_thread ≡ not_started
    pub joined : ended ≡ true → s'.threads.joined ≡ tid ∷ s.threads.joined
    pub shut : ended ≡ true → s'.net.shut ≡ fd ∷ s.net.shut

  record Talks (turns : List Turn) (late : Bool) (s : State) (fd tid : ℕ) : Type 0 where
    ended : Bool
    after : State
    runs : talk e turns late s ≡ returned ended after
    conversed : Conversed tid fd s ended after
    created : after.threads.created ≡ s.threads.created

  talks :
      (turns : List Turn) (late : Bool) (s : State) (fd tid : ℕ)
      → s.sock_fd ≡ some fd
      → s.recv_thread ≡ listener e tid
      → length (frames s.stdin) ≤ capacity s.answers
      → Talks turns late s fd tid
  unfolding talk
  talks turns late s fd tid has_fd here room =
      let h = Rounds-any e turns true s fd has_fd room in go h h.go_on refl
    where
      end_or_not : Bool → Bool → C Bool
      end_or_not listening go_on =
          if go_on then done false else (do finish e (listening && late); done true)

      go : (h : Rounds e turns true s) (b : Bool) → h.go_on ≡ b → Talks turns late s fd tid
      go h true on = record {
        ended = false;
        after = h.after;
        runs =
            ap (λ r. continue r (λ (go_on, listening). end_or_not listening go_on)) h.runs
            ∙ ap (λ b. end_or_not h.listens b h.after) on;
        conversed = record {
          wire = (subst (λ b. Conveys e true s b h.after) on h.conveys).wire;
          stopped = λ e. absurd (cc e);
          thread = λ e. absurd (cc e);
          joined = λ e. absurd (cc e);
          shut = λ e. absurd (cc e);
        };
        created = ap (λ (x : State). x.threads.created) h.conveys.same;
      }
      go h false off =
          let (s', runs, f) =
            finishes e (h.listens && late) h.after fd tid
              (ap (λ (x : State). x.sock_fd) h.conveys.same ∙ has_fd)
              (ap (λ (x : State). x.recv_thread) h.conveys.same ∙ here) in
          record {
            ended = true;
            after = s';
            runs =
                ap (λ r. continue r (λ (go_on, listening). end_or_not listening go_on)) h.runs
                ∙ ap (λ b. end_or_not h.listens b h.after) off
                ∙ ap (λ r. continue r (λ _. done true)) runs;
            conversed = record {
              wire =
                  ap (λ w. w ++ e.cipher.encrypt []) f.wire
                  ∙ (subst (λ b. Conveys e true s b h.after) off h.conveys).wire;
              stopped = λ _. f.running;
              thread = λ _. f.thread;
              joined = λ _. f.joined ∙ ap (λ (x : State). tid ∷ x.threads.joined) h.conveys.same;
              shut = λ _. f.shut ∙ ap (λ (x : State). fd ∷ x.net.shut) h.conveys.same;
            };
            created = f.created ∙ ap (λ (x : State). x.threads.created) h.conveys.same;
          }

  starts_listener :
      (s : State) (tid : ℕ)
      → s.recv_thread ≡ not_started
      → e.pthreads.attr_init s.threads.now ≡ true
      → e.pthreads.create (suc s.threads.now) ≡ running tid
      → (s' : State) × (start_receiver e s ≡ returned 0 s')
        × (s' ≡ record s { recv_thread = s'.recv_thread; threads = s'.threads })
        × (s'.recv_thread ≡ listener e tid)
        × (s'.threads.joined ≡ s.threads.joined)
        × (s'.threads.created ≡ tid ∷ s.threads.created)
  unfolding start_receiver start start_with started_by init_attr destroy_attr
  starts_listener s tid fresh ok made =
      let w : Threads = record s.threads {
        now = suc (suc s.threads.now);
        created = tid ∷ s.threads.created;
        attrs = suc s.threads.attrs - 1;
      } in
      let same : start e.pthreads s.recv_thread s.threads ≡ (0, listener e tid, w) =
        ap (λ t. start e.pthreads t s.threads) fresh ∙ rw (ok, made) refl in
      (
        record s { recv_thread = listener e tid; threads = w },
        ap (λ (rc, t, w). returned rc (record s { recv_thread = t; threads = w })) same,
        refl,
        refl,
        refl,
        refl,
      )

  -- In a client with a socket and no receive thread, when one can be started and as many calls of ::send take something as the frames
  -- have bytes: in whatever order the two threads make their rounds, what is on the wire, together
  -- with the frames of the lines that are still to be typed, is what was there before and the
  -- encrypted frames of the typed lines, in their order, up to the first exit or quit (/help sends
  -- nothing). Once send_loop() has returned, all of that is sent, running_ is false, the socket is
  -- shut down, and the receive thread, the only one that was created, is joined once.
  pub send_loop_lem :
      (turns : List Turn) (late : Bool) (s : State) (fd tid : ℕ)
      → s.sock_fd ≡ some fd
      → s.recv_thread ≡ not_started
      → e.pthreads.attr_init s.threads.now ≡ true
      → e.pthreads.create (suc s.threads.now) ≡ running tid
      → length (frames s.stdin) ≤ capacity s.answers
      → (ended : Bool) × (s' : State) × (send_loop e turns late s ≡ returned ended s')
        × Conversed tid fd s ended s'
        × (s'.threads.created ≡ tid ∷ s.threads.created)
  unfolding send_loop
  send_loop_lem turns late s fd tid has_fd fresh ok made room =
      let s₁ : State = record s { running = true } in
      let h = Prints-greet e s₁ in
      let s₂ = h.after in
      let (s₃, runs₃, only₃, here, joined₃, created₃) =
        starts_listener s₂ tid (ap (λ (x : State). x.recv_thread) h.only ∙ fresh)
          (ap (λ (x : State). e.pthreads.attr_init x.threads.now) h.only ∙ ok)
          (ap (λ (x : State). e.pthreads.create (suc x.threads.now)) h.only ∙ made) in
      let s₄ : State = record s₃ { out = s₃.out ++ codes "You: " } in
      let stdin : s₃.stdin ≡ s.stdin =
        ap (λ (x : State). x.stdin) only₃ ∙ ap (λ (x : State). x.stdin) h.only in
      let wire : s₃.wire ≡ s.wire =
        ap (λ (x : State). x.wire) only₃ ∙ ap (λ (x : State). x.wire) h.only in
      let answers : s₃.answers ≡ s.answers =
        ap (λ (x : State). x.answers) only₃ ∙ ap (λ (x : State). x.answers) h.only in
      let fd₃ : s₃.sock_fd ≡ some fd =
        ap (λ (x : State). x.sock_fd) only₃ ∙ ap (λ (x : State). x.sock_fd) h.only ∙ has_fd in
      let joined : s₃.threads.joined ≡ s.threads.joined =
        joined₃ ∙ ap (λ (x : State). x.threads.joined) h.only in
      let net : s₃.net ≡ s.net =
        ap (λ (x : State). x.net) only₃ ∙ ap (λ (x : State). x.net) h.only in
      let t =
        talks turns late s₄ fd tid fd₃ here
          (omega (arith, room, ap (λ l. length (frames l)) stdin, ap capacity answers)) in
      let wait : C Bool = print (codes "You: ") >> talk e turns late in
      let then_talk : ℕ → C Bool = λ rc. if not (nat_eq rc 0) then done true else wait in
      (
        t.ended,
        t.after,
        ap (λ r. continue r (λ _. start_receiver e >>= then_talk)) h.runs
            ∙ ap (λ r. continue r then_talk) runs₃
            ∙ t.runs,
        record {
          wire =
              t.conversed.wire
              ∙ ap (λ w. w ++ e.cipher.encrypt (frames s₄.stdin)) wire
              ∙ ap (λ l. s.wire ++ e.cipher.encrypt (frames l)) stdin;
          stopped = t.conversed.stopped;
          thread = t.conversed.thread;
          joined = λ o. t.conversed.joined o ∙ ap (◌∷◌ tid) joined;
          shut = λ o. t.conversed.shut o ∙ ap (λ (n : Net). fd ∷ n.shut) net;
        },
        t.created ∙ created₃ ∙ ap (λ (x : State). tid ∷ x.threads.created) h.only,
      )
