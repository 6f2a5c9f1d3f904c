-- ===== src/Client/Ending.antt =====
-- The end of a conversation.
use mpcc.Common.{ℕ, ◌≡◌, refl, ap, ◌∙◌, Bool, true, false, some, ◌∷◌, ◌++◌, codes, if◌then◌else◌}
use mpcc.Core.Net.{Net}
use mpcc.Core.UniqueFd
use mpcc.Core.UniqueFd.{UniqueFd}
use mpcc.Util.Threads.{JoinableThread, Threads, join, not_started}
use mpcc.Client.{Host, State, returned, C, continue, done, print, ◌>>=◌, ◌>>◌}
use mpcc.Client.Chat.{show_line, shut_socket, join_receiver, finish}
use mpcc.Client.Rounds.{Prints, Prints-show_line}

module _ (e : Host) where
  -- The end: the receive thread is joined, and nothing is sent.
  pub record Finished (tid : ℕ) (fd : ℕ) (s s' : State) : Type 0 where
    pub wire : s'.wire ≡ s.wire
    pub running : s'.running ≡ false
    pub thread : s'.recv_thread ≡ not_started
    pub joined : s'.threads.joined ≡ tid ∷ s.threads.joined
    pub created : s'.threads.created ≡ s.threads.created
    pub shut : s'.net.shut ≡ fd ∷ s.net.shut

  abbrev pub listener : ℕ → JoinableThread
  listener tid = record { tid = tid; started = true }

  Prints-late : (late : Bool) (s : State) → Prints e (if late then show_line e else done false) s
  Prints-late true s = Prints-show_line e s
  Prints-late false s = record { result = false; after = s; runs = refl; only = refl }

  shuts :
      (s : State) (fd : ℕ)
      → s.sock_fd ≡ some fd
      → (s' : State) × (shut_socket e s ≡ returned tt s')
        × (s'.running ≡ false)
        × (s'.net.shut ≡ fd ∷ s.net.shut)
        × (s'.wire ≡ s.wire)
        × (s'.recv_thread ≡ s.recv_thread)
        × (s'.threads ≡ s.threads)
  unfolding shut_socket UniqueFd.shutdown_rdwr
  shuts s fd has_fd = (
    record s { running = false; net = UniqueFd.shutdown_rdwr s.sock_fd s.net },
    refl,
    refl,
    ap (λ x. (UniqueFd.shutdown_rdwr x s.net).shut) has_fd,
    refl,
    refl,
    refl,
  )

  joins_listener :
      (s : State) (tid : ℕ)
      → s.recv_thread ≡ listener tid
      → (s' : State) × (join_receiver e s ≡ returned tt s')
        × (s'.running ≡ s.running)
        × (s'.net ≡ s.net)
        × (s'.wire ≡ s.wire)
        × (s'.recv_thread ≡ not_started)
        × (s'.threads.joined ≡ tid ∷ s.threads.joined)
        × (s'.threads.created ≡ s.threads.created)
  unfolding join_receiver join
  joins_listener s tid here = (
    record s {
      recv_thread = (join s.recv_thread s.threads).0;
      threads = (join s.recv_thread s.threads).1;
    },
    refl,
    refl,
    refl,
    refl,
    ap (λ t. (join t s.threads).0) here,
    ap (λ t. (join t s.threads).1.joined) here,
    ap (λ t. (join t s.threads).1.created) here,
  )

  pub finishes :
      (late : Bool) (s : State) (fd tid : ℕ)
      → s.sock_fd ≡ some fd
      → s.recv_thread ≡ listener tid
      → (s' : State) × (finish e late s ≡ returned tt s') × Finished tid fd s s'
  unfolding finish
  finishes late s fd tid has_fd here =
      let (s₁, runs₁, stopped, shut, wire₁, thread₁, threads₁) = shuts s fd has_fd in
      let h = Prints-late late s₁ in
      let s₂ = h.after in
      let (s₃, runs₃, running₃, net₃, wire₃, thread₃, joined, created) =
        joins_listener s₂ tid (ap (λ (x : State). x.recv_thread) h.only ∙ thread₁ ∙ here) in
      let bye : C (Unit {0}) = print (codes "\n[MPCC] Session ended. Goodbye!\n") in
      let last : C (Unit {0}) = join_receiver e >> bye in
      let middle : C (Unit {0}) = (if late then show_line e else done false) >>= (λ _. last) in
      (
        record s₃ { out = s₃.out ++ codes "\n[MPCC] Session ended. Goodbye!\n" },
        ap (λ r. continue r (λ _. middle)) runs₁
            ∙ ap (λ r. continue r (λ _. last)) h.runs
            ∙ ap (λ r. continue r (λ _. bye)) runs₃,
        record {
          wire = wire₃ ∙ ap (λ (x : State). x.wire) h.only ∙ wire₁;
          running = running₃ ∙ ap (λ (x : State). x.running) h.only ∙ stopped;
          thread = thread₃;
          joined =
              joined
              ∙ ap (λ (x : State). tid ∷ x.threads.joined) h.only
              ∙ ap (λ (t : Threads). tid ∷ t.joined) threads₁;
          created =
              created
              ∙ ap (λ (x : State). x.threads.created) h.only
              ∙ ap (λ (t : Threads). t.created) threads₁;
          shut = ap (λ (n : Net). n.shut) net₃ ∙ ap (λ (x : State). x.net.shut) h.only ∙ shut;
        },
      )
