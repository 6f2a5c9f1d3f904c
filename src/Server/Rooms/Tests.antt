-- ===== src/Server/Rooms/Tests.antt =====
-- A room with two members, and inputs at which the theorems about rooms apply.
use mpcc.Common.{
  ℕ, ◌≡◌, refl, subst, true, false, not, ◌&&◌, some, List, [], ◌∷◌, ◌++◌, codes, arith, contains,
  ◌==◌,
}
use mpcc.Common.Dict
use mpcc.Core.Session.{Session, World, Ptr}
use mpcc.Server.Broadcast.{frame}
use mpcc.Server.Broadcast.Delivery.{Outcome}
use mpcc.Server.Broadcast.Hearing.{Live}
use mpcc.Server.Rooms.{Rooms, broadcast_to_room, join_room, leave_room}
use mpcc.Server.Rooms.Membership.{RoomsValid, member}
use mpcc.Server.Rooms.History.{
  RoomCall, joins, leaves, run_calls, spec_calls, rooms_refine, broadcast_to_room_lem,
}
use mpcc.Server.Samples.{kernel, cipher, world, world-IsValid, clients-Live}

abbrev history : List RoomCall
history =
    joins (codes "tea") 1
    ∷ joins (codes "den") 2
    ∷ joins (codes "tea") 2
    ∷ leaves (codes "den") 2
    ∷ []

abbrev tea : Rooms
tea = (codes "tea", 2 ∷ 1 ∷ []) ∷ []

runs_to_tea : run_calls history [] ≡ tea
unfolding join_room leave_room Dict.lookup Dict.insert ◌==◌ contains Dict.erase
runs_to_tea = refl

rooms_refine_example :
    RoomsValid (run_calls history [])
    × (member (run_calls history []) ≡ spec_calls history (λ _ _. false))
rooms_refine_example = rooms_refine history

tea-RoomsValid : RoomsValid tea
tea-RoomsValid = subst RoomsValid runs_to_tea (rooms_refine history).0

tea-Live : (p : Ptr) → member tea (codes "tea") p ≡ true → Live world p
unfolding member Dict.lookup ◌==◌
tea-Live p m = clients-Live p (unfold contains in ground (arith, m))

broadcast_to_room_lem_example :
    (w' : World) × (broadcast_to_room kernel cipher tea
        (codes "tea")
        (codes "ann")
        (codes "hi")
        world
      ≡ some (tt, w'))
    × ((q : Ptr) (s : Session) (fd : ℕ)
        → world.session q ≡ some s
        → s.client_fd ≡ some fd
        → Outcome
            (frame cipher (codes "ann") (codes "[" ++ (codes "tea" ++ (codes "] " ++ codes "hi"))))
            world
            w'
            q
            s
            fd
            (member tea (codes "tea") q && (s.active && not (s.username == codes "ann"))))
broadcast_to_room_lem_example =
    broadcast_to_room_lem kernel cipher tea (codes "tea") (codes "ann") (codes "hi") world
      tea-RoomsValid world-IsValid tea-Live
