-- ===== src/Server/Listener/Accepting.antt =====
-- What a client that connects leaves, and that SIGINT ends the loop.
use mpcc.Common.{
  true, ℕ, suc, ◌-◌, ◌≡◌, refl, ap, ◌≢◌, ◌⊎◌, false, some, [], ◌∷◌, ◌++◌, Bytes, arith, Bool-cases,
  inl, inr, nat_eq_of_eq, nat_eq_of_ne,
}
use mathlib.Core.List.{reverse}
use mpcc.Core.Session
use mpcc.Core.Session.{Session, World, Ptr, null, update}
use mpcc.Util.Threads.{
  Created, running, failed, record_created, init_attr, destroy_attr, add, acquire, unlock,
}
use mpcc.Server.Listener.{Host, Server, new_session, spawned_by, spawn_with, serve_client}

-- The members that no round changes, taken from `s`.
abbrev pub kept : Server → Server → Server
kept s s' = record s' {
  port = s.port;
  backlog = s.backlog;
  server_fd = s.server_fd;
  broadcaster = s.broadcaster;
  rooms = s.rooms;
  registry = s.registry;
}

-- What is true of the server between rounds: its mutex is free, and the threads that were created and
-- not joined are those of the group, in the order in which they were added.
pub record Tracks (s : Server) : Type 0 where
  pub free : s.group.locked ≡ false
  pub created : s.threads.created ≡ reverse s.group.tids ++ s.threads.joined

module _ (e : Host) where
  -- A thread was created, and owns the session at `at`.
  pub record Spawned (at : Ptr) (s s' : Server) (tid : ℕ) : Type 0 where
    pub initialised : e.pthreads.attr_init s.threads.now ≡ true
    pub made : e.pthreads.create (suc s.threads.now) ≡ running tid
    pub owner : s'.spawned ≡ (tid, at) ∷ s.spawned
    pub created : s'.threads.created ≡ tid ∷ s.threads.created
    pub tracked : s'.group.tids ≡ s.group.tids ++ tid ∷ []

  -- None could be created.
  pub record Unspawned (s s' : Server) : Type 0 where
    pub why :
        (e.pthreads.attr_init s.threads.now ≡ false)
        ⊎ ((n : ℕ) × (e.pthreads.create (suc s.threads.now) ≡ failed n))
    pub no_owner : s'.spawned ≡ s.spawned
    pub created : s'.threads.created ≡ s.threads.created
    pub tracked : s'.group.tids ≡ s.group.tids

  -- What the branches for a new thread leave, by what pthread_create answered, if it was called.
  pub record Served (fd : ℕ) (ip : Bytes) (at : Ptr) (s s' : Server) : Type 0 where
    pub session : s'.world.session at ≡ some (Session.init fd ip)
    pub others : (q : Ptr) → q ≢ at → s'.world.session q ≡ s.world.session q
    pub net : s'.world.net ≡ s.world.net
    pub same : s' ≡ kept s s'
    pub running : s'.running ≡ s.running
    pub attrs : s'.threads.attrs ≡ s.threads.attrs
    pub joined : s'.threads.joined ≡ s.threads.joined
    pub thread : ((tid : ℕ) × Spawned at s s' tid) ⊎ Unspawned s s'
    pub unlocked : s'.group.locked ≡ false

  -- The server that `new_session` leaves, with other threads.
  abbrev with_session : ℕ → Bytes → Ptr → Server → Server
  with_session fd ip at s = record s {
    world = record s.world { session = update s.world.session at (some (Session.init fd ip)) };
  }

  put_here :
      (fd : ℕ) (ip : Bytes) (at : Ptr) (s : Server)
      → (with_session fd ip at s).world.session at ≡ some (Session.init fd ip)
  put_here fd ip at s = rw (nat_eq_of_eq at at refl) refl

  put_elsewhere :
      (fd : ℕ) (ip : Bytes) (at : Ptr) (s : Server) (q : Ptr)
      → q ≢ at
      → (with_session fd ip at s).world.session q ≡ s.world.session q
  put_elsewhere fd ip at s q ne = rw (nat_eq_of_ne q at ne) refl

  unserved :
      (fd : ℕ) (ip : Bytes) (at : Ptr) (s : Server) (now : ℕ)
      → (e.pthreads.attr_init s.threads.now ≡ false)
        ⊎ ((n : ℕ) × (e.pthreads.create (suc s.threads.now) ≡ failed n))
      → s.group.locked ≡ false
      → Served fd ip at s
          (record (with_session fd ip at s) { threads = record s.threads { now = now } })
  unserved fd ip at s now why free = record {
    session = put_here fd ip at s;
    others = put_elsewhere fd ip at s;
    net = refl;
    same = refl;
    running = refl;
    attrs = refl;
    joined = refl;
    thread = inr (record { why = why; no_owner = refl; created = refl; tracked = refl });
    unlocked = free;
  }

  -- By what pthread_create answers.
  serve_answered :
      (fd : ℕ) (ip : Bytes) (at : Ptr) (s : Server) (answer : Created)
      → e.pthreads.attr_init s.threads.now ≡ true
      → e.pthreads.create (suc s.threads.now) ≡ answer
      → s.group.locked ≡ false
      → (s' : Server) × (spawned_by e at
            (
              answer,
              record_created answer
                  (record s.threads { now = suc s.threads.now; attrs = suc s.threads.attrs }),
            )
            (with_session fd ip at s)
          ≡ some s')
        × Served fd ip at s s'
  unfolding spawned_by destroy_attr add acquire unlock
  serve_answered fd ip at s (failed n) ok made free = (
    record (with_session fd ip at s) {
      threads = record s.threads { now = suc (suc s.threads.now) };
    },
    ap
        (λ (t : ℕ). some (record (with_session fd ip at s) {
          threads = record s.threads { now = suc (suc s.threads.now); attrs = t };
        }))
        (omega arith),
    unserved fd ip at s (suc (suc s.threads.now)) (inr (n, made)) free,
  )
  serve_answered fd ip at s (running tid) ok made free = (
    record (with_session fd ip at s) {
      threads = record s.threads {
        now = suc (suc s.threads.now);
        created = tid ∷ s.threads.created;
        attrs = suc s.threads.attrs - 1;
      };
      group = record { locked = false; tids = s.group.tids ++ tid ∷ [] };
      spawned = (tid, at) ∷ s.spawned;
    },
    rw free refl,
    record {
      session = put_here fd ip at s;
      others = put_elsewhere fd ip at s;
      net = refl;
      same = refl;
      running = refl;
      attrs = omega arith;
      joined = refl;
      thread = inl (
        tid,
        record { initialised = ok; made = made; owner = refl; created = refl; tracked = refl },
      );
      unlocked = refl;
    },
  )

  -- A new client, when the mutex of the thread group is free: the round does not block. A session of
  -- the descriptor and the client's address stands where `new` put it, and every other session and
  -- every socket is as it was. Either a thread was created, which is in the group and owns the session,
  -- or none was, because pthread_attr_init or pthread_create failed: then the session stays in memory
  -- with its socket open, and no thread, group or client list knows it. The attributes are freed.
  pub serve_client_lem :
      (fd : ℕ) (ip : Bytes) (at : Ptr) (s : Server)
      → s.group.locked ≡ false
      → (s' : Server) × (serve_client e fd ip at s ≡ some s') × Served fd ip at s s'
  unfolding serve_client new_session spawn_with spawned_by init_attr destroy_attr add acquire unlock
  serve_client_lem fd ip at s free = elim (Bool-cases (e.pthreads.attr_init s.threads.now)) [
    | inr bad ↦ (
      record (with_session fd ip at s) { threads = record s.threads { now = suc s.threads.now } },
      rw bad refl,
      unserved fd ip at s (suc s.threads.now) (inl bad) free,
    )
    | inl ok ↦
        let (s', runs, h) =
          serve_answered fd ip at s (e.pthreads.create (suc s.threads.now)) ok refl free in
        (s', rw ok runs, h)
  ]
