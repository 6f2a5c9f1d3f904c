-- ===== src/Server/Listener/Joining.antt =====
-- The shutdown of the server.
use mpcc.Common.{ℕ, ◌≡◌, false, none, some, ◌∷◌}
use mpcc.Core.Session.{Session, World}
use mpcc.Server.Broadcast
use mpcc.Server.Broadcast.{shutdown_all}
use mpcc.Server.Listener.{Server}

-- What shutdown() has done before it joins, when `w` is the world in which the clients' sessions have
-- been closed.
pub record ShutDown (s : Server) (w : World) (s' : Server) : Type 0 where
  pub running : s'.running ≡ false
  pub no_fd : s'.server_fd ≡ none
  pub clients : s'.broadcaster ≡ Broadcast.init
  pub sessions : s'.world.session ≡ w.session
  pub listener :
      (fd : ℕ)
      → s.server_fd ≡ some fd
      → (s'.world.net.closed ≡ fd ∷ w.net.closed) × (s'.world.net.shut ≡ fd ∷ w.net.shut)
