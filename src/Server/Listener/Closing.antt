-- ===== src/Server/Listener/Closing.antt =====
-- What Server::shutdown of src/server/server.cpp does to the listening socket.
use mpcc.Common.{ℕ, ◌≡◌, refl, sym, ap, ◌∙◌, none, some, ◌∷◌, some-eq-some, if◌then◌else◌}
use mpcc.Core.UniqueFd
use mpcc.Core.UniqueFd.{UniqueFd}
use mpcc.Server.Listener.{Server, close_listener}

-- What closing the listening socket leaves.
pub record Closed (s s' : Server) : Type 0 where
  pub running : s'.running ≡ s.running
  pub no_fd : s'.server_fd ≡ none
  pub clients : s'.broadcaster ≡ s.broadcaster
  pub sessions : s'.world.session ≡ s.world.session
  pub group : s'.group ≡ s.group
  pub threads : s'.threads ≡ s.threads
  pub spawned : s'.spawned ≡ s.spawned
  pub listener :
      (fd : ℕ)
      → s.server_fd ≡ some fd
      → (s'.world.net.closed ≡ fd ∷ s.world.net.closed)
        × (s'.world.net.shut ≡ fd ∷ s.world.net.shut)

closed_as : UniqueFd → Server → Server
unfolding UniqueFd.reset UniqueFd.shutdown_rdwr UniqueFd.valid
closed_as old s =
    let (fd, net) = UniqueFd.reset old none (UniqueFd.shutdown_rdwr old s.world.net) in
    if UniqueFd.valid old
    then record s { server_fd = fd; world = record s.world { net = net } }
    else s

Closed-closed_as : (fd : UniqueFd) (s : Server) → s.server_fd ≡ fd → Closed s (closed_as fd s)
unfolding closed_as UniqueFd.reset UniqueFd.shutdown_rdwr UniqueFd.valid
Closed-closed_as none s e = record {
  running = refl;
  no_fd = e;
  clients = refl;
  sessions = refl;
  group = refl;
  threads = refl;
  spawned = refl;
  listener = λ fd h. absurd (cc (e, h));
}
Closed-closed_as (some fd) s e = record {
  running = refl;
  no_fd = refl;
  clients = refl;
  sessions = refl;
  group = refl;
  threads = refl;
  spawned = refl;
  listener = λ g h.
      let same : fd ≡ g = some-eq-some (sym e ∙ h) in
      (ap (λ x. x ∷ s.world.net.closed) same, ap (λ x. x ∷ s.world.net.shut) same);
}

pub Closed-close_listener : (s : Server) → Closed s (close_listener s)
unfolding close_listener closed_as UniqueFd.reset UniqueFd.shutdown_rdwr UniqueFd.valid
Closed-close_listener s = Closed-closed_as s.server_fd s refl
