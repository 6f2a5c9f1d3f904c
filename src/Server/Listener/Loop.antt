-- ===== src/Server/Listener/Loop.antt =====
-- The loop of the server keeps track of its threads, and ends after a signal.
use mpcc.Common.{
  ℕ, ◌≡◌, refl, sym, ap, ◌∙◌, ◌⊎◌, Bool, true, false, not, ◌||◌, some, List, [], ◌∷◌, ◌++◌, Bytes,
  All, inl, inr, if◌then◌else◌,
}
use mathlib.Core.List.{reverse, reverse-append}
use mpcc.Core.Session.{Ptr}
use mpcc.Server.Listener.{
  Host, Server, Round, Accepted, connection, interrupted, broken, signalled, handle_answer, goes_on,
  go_on_with, accept_loop, sigint,
}
use mpcc.Server.Listener.Accepting.{kept, Tracks, Served, Spawned, Unspawned, serve_client_lem}

module _ (e : Host) where
  -- One answer of accept(), when the mutex is free.
  record Handled (answer : Accepted) (s : Server) : Type 0 where
    go_on : Bool
    after : Server
    runs : handle_answer e answer s ≡ some (go_on, after)
    tracks : Tracks after
    running : after.running ≡ s.running
    same : after ≡ kept s after
    stays : s.running ≡ true → go_on ≡ true

  Tracks-Served :
      {fd : ℕ} {ip : Bytes} {at : Ptr} {s s' : Server}
      → Served e fd ip at s s'
      → Tracks s
      → Tracks s'
  Tracks-Served {at = at} {s = s} {s' = s'} h t = record {
    free = h.unlocked;
    created = go h.thread;
  }
    where
      go :
          ((tid : ℕ) × Spawned e at s s' tid) ⊎ Unspawned e s s'
          → s'.threads.created ≡ reverse s'.group.tids ++ s'.threads.joined
      go (inl (tid, k)) =
          k.created
          ∙ ap (◌∷◌ tid) t.created
          ∙ ap (λ r. r ++ s.threads.joined) (sym (reverse-append s.group.tids (tid ∷ [])))
          ∙ ap (λ l. reverse l ++ s.threads.joined) (sym k.tracked)
          ∙ ap (◌++◌ (reverse s'.group.tids)) (sym h.joined)
      go (inr k) =
          k.created
          ∙ t.created
          ∙ ap (λ l. reverse l ++ s.threads.joined) (sym k.tracked)
          ∙ ap (◌++◌ (reverse s'.group.tids)) (sym h.joined)

  handles : (answer : Accepted) (s : Server) → Tracks s → Handled answer s
  unfolding handle_answer
  handles (connection fd ip at) s t =
      let (s', runs, h) = serve_client_lem e fd ip at s t.free in
      record {
        go_on = true;
        after = s';
        runs = ap goes_on runs;
        tracks = Tracks-Served h t;
        running = h.running;
        same = h.same;
        stays = λ _. refl;
      }
  handles interrupted s t = record {
    go_on = s.running;
    after = s;
    runs = refl;
    tracks = t;
    running = refl;
    same = refl;
    stays = λ h. h;
  }
  handles broken s t = record {
    go_on = s.running;
    after = s;
    runs = refl;
    tracks = t;
    running = refl;
    same = refl;
    stays = λ h. h;
  }

  stopped :
      (rounds : List Round) (s : Server)
      → s.running ≡ false
      → accept_loop e rounds s ≡ some (true, s)
  unfolding accept_loop
  stopped [] s off = ap (λ b. some (not b, s)) off
  stopped (r ∷ rounds) s off =
      ap
        (λ b.
          if not b
          then some (true, s)
          else go_on_with (accept_loop e rounds) r.behind
              (handle_answer e r.answer (sigint r.during s)))
        off

  running_round :
      (r : Round) (rounds : List Round) (s : Server) (h : Handled r.answer (sigint r.during s))
      → s.running ≡ true
      → accept_loop e (r ∷ rounds) s
        ≡ go_on_with (accept_loop e rounds) r.behind (some (h.go_on, h.after))
  unfolding accept_loop
  running_round r rounds s h on =
      ap
        (λ b.
          if not b
          then some (true, s)
          else go_on_with (accept_loop e rounds) r.behind
              (handle_answer e r.answer (sigint r.during s)))
        on
      ∙ ap (go_on_with (accept_loop e rounds) r.behind) h.runs

  Tracks-sigint : (b : Bool) (s : Server) → Tracks s → Tracks (sigint b s)
  unfolding sigint
  Tracks-sigint true s t = record { free = t.free; created = t.created }
  Tracks-sigint false s t = t

  -- The last round.
  ends :
      (go_on : Bool) (rounds : List Round) (behind : Bool) (s : Server)
      → (sigint behind s).running ≡ false
      → go_on_with (accept_loop e rounds) behind (some (go_on, s)) ≡ some (true, sigint behind s)
  ends true rounds behind s off = stopped rounds (sigint behind s) off
  ends false rounds behind s off = refl

  off_after :
      (during behind : Bool) (s s' : Server)
      → (during || behind) ≡ true
      → s'.running ≡ (sigint during s).running
      → (sigint behind s').running ≡ false
  unfolding sigint
  off_after true true s s' h same = refl
  off_after true false s s' h same = same
  off_after false true s s' h same = refl
  off_after false false s s' h same = absurd (cc h)

  unchanged : (b : Bool) (s : Server) → b ≡ false → sigint b s ≡ s
  unfolding sigint
  unchanged true s h = absurd (cc h)
  unchanged false s h = refl

  -- How the loop ends, whatever accept() would answer later.
  pub record Stops (rounds : List Round) (s : Server) : Type 0 where
    pub after : Server
    pub runs : (rest : List Round) → accept_loop e (rounds ++ rest) s ≡ some (true, after)
    pub off : after.running ≡ false
    pub tracks : Tracks after

  quiet_round :
      (during behind : Bool) → (during || behind) ≡ false → (during ≡ false) × (behind ≡ false)
  quiet_round true behind h = absurd (cc h)
  quiet_round false behind h = (refl, h)

  -- From a running server that keeps track of its threads: after any number of rounds without a
  -- signal, the round in which SIGINT is handled, by whatever thread and at whatever point, is the last:
  -- accept_loop() ends behind it without another accept(), running_ is false, and the server still
  -- keeps track of its threads.
  pub accept_loop-Stops :
      (quiet : List Round) (r : Round) (s : Server)
      → All (λ q. signalled q ≡ false) quiet
      → signalled r ≡ true
      → s.running ≡ true
      → Tracks s
      → Stops (quiet ++ r ∷ []) s
  accept_loop-Stops [] r s calm signal on t =
      let h = handles r.answer (sigint r.during s) (Tracks-sigint r.during s t) in
      let off = off_after r.during r.behind s h.after signal h.running in
      record {
        after = sigint r.behind h.after;
        runs = λ rest. running_round r rest s h on ∙ ends h.go_on rest r.behind h.after off;
        off = off;
        tracks = Tracks-sigint r.behind h.after h.tracks;
      }
  accept_loop-Stops (q ∷ quiet) r s (calm_q, calm) signal on t =
      let (during, behind) = quiet_round q.during q.behind calm_q in
      let h = handles q.answer (sigint q.during s) (Tracks-sigint q.during s t) in
      let s₁ = sigint q.behind h.after in
      let same : s₁ ≡ h.after = unchanged q.behind h.after behind in
      let before : sigint q.during s ≡ s = unchanged q.during s during in
      let on₀ : (sigint q.during s).running ≡ true = ap (λ (x : Server). x.running) before ∙ on in
      let on₁ : s₁.running ≡ true = ap (λ (x : Server). x.running) same ∙ h.running ∙ on₀ in
      let later =
        accept_loop-Stops quiet r s₁ calm signal on₁ (Tracks-sigint q.behind h.after h.tracks) in
      record {
        after = later.after;
        runs = λ rest.
            running_round q ((quiet ++ r ∷ []) ++ rest) s h on
            ∙ ap
                (λ b.
                  go_on_with (accept_loop e ((quiet ++ r ∷ []) ++ rest)) q.behind
                    (some (b, h.after)))
                (h.stays on₀)
            ∙ later.runs rest;
        off = later.off;
        tracks = later.tracks;
      }
