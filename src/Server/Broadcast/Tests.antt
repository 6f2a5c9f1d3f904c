-- ===== src/Server/Broadcast/Tests.antt =====
-- Inputs at which the theorems about the broadcaster apply.
use mpcc.Common.{
  ℕ, ◌≡◌, refl, ◌≢◌, ◌↔◌, inr, ◌⊎◌, true, none, some, [], ◌∷◌, Bytes, codes, arith, contains,
  without, nat_eq, not, ◌&&◌, ◌==◌,
}
use mpcc.Common.Dict
use mpcc.Core.Session.{Session, World, Ptr, null, ◌>>=◌}
use mpcc.Server.Broadcast.{
  BroadcastManager, frame, broadcast, send_private, add_client, remove_client,
}
use mpcc.Server.Broadcast.Delivery.{Outcome}
use mpcc.Server.Broadcast.Hearing.{Live, Reaches}
use mpcc.Server.Broadcast.Recipients.{broadcast_lem, pm_frame, send_private_lem}
use mpcc.Server.Broadcast.Clients.{
  ClientsValid, remove_client_lem, add_client-ClientsValid, second_login_hides_first,
}
use mpcc.Server.Broadcast.{init, shutdown_all}
use mpcc.Server.Broadcast.Shutdown.{Closes, shutdown_all_lem}
use mpcc.Server.Samples.{
  kernel, cipher, world, ann, bob, ann_again, world-IsValid, manager, clients-Live,
  manager-ClientsValid,
}

broadcast_lem_example :
    (w' : World) × (broadcast kernel cipher manager (codes "ann") (codes "hi") world
      ≡ some (tt, w'))
    × Reaches (frame cipher (codes "ann") (codes "hi")) (codes "ann") (1 ∷ 2 ∷ []) world w'
unfolding contains
broadcast_lem_example =
    broadcast_lem kernel cipher manager (codes "ann") (codes "hi") world world-IsValid
      (refl, (refl, tt)) clients-Live

null_or_Live : (p : Ptr) → contains (1 ∷ 2 ∷ []) p ≡ true → (p ≡ null) ⊎ Live world p
null_or_Live p m = inr (clients-Live p m)

send_private_lem_example :
    (w' : World) × (send_private kernel cipher manager
        (codes "ann")
        (codes "bob")
        (codes "psst")
        world
      ≡ some (tt, w'))
    × ((q : Ptr) (t : Session) (fd : ℕ)
        → world.session q ≡ some t
        → t.client_fd ≡ some fd
        → Outcome (pm_frame cipher (codes "ann") (codes "psst")) world w' q t fd (nat_eq 2 q))
unfolding Dict.lookup ◌==◌
send_private_lem_example =
    send_private_lem kernel cipher manager (codes "ann") (codes "bob") (codes "psst") 2 bob world
      world-IsValid refl refl refl

add_client-ClientsValid_example :
    (b' : BroadcastManager) × (add_client manager 3 world ≡ some (b', world))
    × ClientsValid b' world
unfolding contains
add_client-ClientsValid_example =
    add_client-ClientsValid manager 3 ann_again world refl (λ e. absurd (ground arith))
      manager-ClientsValid refl

remove_client_lem_example :
    (b' : BroadcastManager) × (remove_client manager 1 world ≡ some (b', world))
    × (b'.clients ≡ without (1 ∷ 2 ∷ []) 1)
    × ((q : Ptr) → contains b'.clients q ≡ (contains (1 ∷ 2 ∷ []) q && not (nat_eq q 1)))
    × ((n : Bytes) (q : Ptr)
        → (Dict.lookup n b'.by_name ≡ some q)
          ↔ ((Dict.lookup n manager.by_name ≡ some q) × (q ≢ 1)))
remove_client_lem_example =
    remove_client_lem manager 1 ann world refl (λ e. absurd (ground arith)) manager-ClientsValid

second_login_hides_first_example :
    (b' : BroadcastManager) × ((do b₁ ← add_client manager 3; remove_client b₁ 3) world
      ≡ some (b', world))
    × (contains b'.clients 1 ≡ true)
    × (Dict.lookup (codes "ann") b'.by_name ≡ none)
unfolding contains
second_login_hides_first_example =
    second_login_hides_first manager 1 3 ann ann_again world manager-ClientsValid refl refl refl
      refl refl (λ e. absurd (ground arith))

shutdown_all_lem_example :
    (w' : World) × (shutdown_all manager world ≡ some (init, w')) × Closes (1 ∷ 2 ∷ []) world w'
shutdown_all_lem_example = shutdown_all_lem manager world refl null_or_Live
