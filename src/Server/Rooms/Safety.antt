-- ===== src/Server/Rooms/Safety.antt =====
-- A message to a room never faults when the members are alive, and only sends.
use mpcc.Common.{◌≡◌, inr, true, none, some, Option, ◌++◌, codes, Bytes}
use mpcc.Common.Dict
use mpcc.Core.Cipher.Laws.{IEncrypt}
use mpcc.Core.Net.{Kernel}
use mpcc.Core.Session.{World, Ptr}
use mpcc.Core.Session.Sends.{Alive, OnlySends, OnlySends-pure}
use mpcc.Server.Broadcast.Safety.{OnlySends-broadcast_to_recipients}
use mpcc.Server.Rooms.{Rooms, SessionSet, send_to_members, broadcast_to_room}
use mpcc.Server.Rooms.Membership.{among, member}

module _ (k : Kernel) (cipher : IEncrypt) where
  to_members :
      (room sender text : Bytes) (o : Option SessionSet) (w : World)
      → ((q : Ptr) → among o q ≡ true → Alive w q)
      → OnlySends (send_to_members k cipher room sender text o) w
  unfolding send_to_members
  to_members room sender text none w live = OnlySends-pure tt w
  to_members room sender text (some m) w live =
      OnlySends-broadcast_to_recipients k cipher sender
        (codes "[" ++ (room ++ (codes "] " ++ text))) m w (λ q c. inr (live q c))

  pub OnlySends-broadcast_to_room :
      (r : Rooms) (room sender text : Bytes) (w : World)
      → ((q : Ptr) → member r room q ≡ true → Alive w q)
      → OnlySends (broadcast_to_room k cipher r room sender text) w
  unfolding broadcast_to_room member
  OnlySends-broadcast_to_room r room sender text w live =
      to_members room sender text (Dict.lookup room r) w live
