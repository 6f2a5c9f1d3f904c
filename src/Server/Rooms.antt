-- ===== src/Server/Rooms.antt =====
-- include/mpcc/server/room_manager.h, src/server/room_manager.cpp and the interface IRooms of
-- interfaces.h. A set of sessions is a list without repetition, in one of the orders in which the
-- unordered_set may be iterated.
pub mod Membership
pub mod History
pub mod Safety
mod Tests
use mpcc.Common.{
  Bool, true, false, Option, none, some, List, [], ◌∷◌, ◌++◌, Bytes, codes, ◌==◌, nat_eq,
  if◌then◌else◌, contains, without, is_empty,
}
use mpcc.Common.Dict
use mpcc.Common.Dict.{Dict}
use mpcc.Core.Cipher.Laws.{IEncrypt}
use mpcc.Core.Net.{Kernel}
use mpcc.Core.Session.{Ptr, null, M, pure}
use mpcc.Server.Broadcast.{broadcast_to_recipients}

abbrev pub SessionSet : Type 0
SessionSet = List Ptr

-- rooms_ is the whole state: the mutex and the reference to the broadcaster do not change.
abbrev pub Rooms : Type 0
Rooms = Dict SessionSet

-- unordered_set::insert and erase.
unfoldable pub set_insert : SessionSet → Ptr → SessionSet
set_insert m p = if contains m p then m else p ∷ m

unfoldable pub set_erase : SessionSet → Ptr → SessionSet
unfolding without
set_erase m p = without m p

-- rooms_[room].insert(session): operator[] makes the room if it is missing.
unfoldable pub members_or_new : Option SessionSet → SessionSet
members_or_new none = []
members_or_new (some m) = m

unfoldable pub join_room : Bytes → Ptr → Rooms → Rooms
unfolding set_insert members_or_new
join_room room p r =
    if nat_eq p null
    then r
    else Dict.insert room (set_insert (members_or_new (Dict.lookup room r)) p) r

-- A room that has become empty is erased.
unfoldable pub put_or_erase : Bytes → SessionSet → Rooms → Rooms
put_or_erase room [] r = Dict.erase room r
put_or_erase room (p ∷ m) r = Dict.insert room (p ∷ m) r

unfoldable pub leave_found : Option SessionSet → Bytes → Ptr → Rooms → Rooms
unfolding set_erase put_or_erase
leave_found none room p r = r
leave_found (some m) room p r = put_or_erase room (set_erase m p) r

unfoldable pub leave_room : Bytes → Ptr → Rooms → Rooms
unfolding leave_found
leave_room room p r = if nat_eq p null then r else leave_found (Dict.lookup room r) room p r

-- The loop of leave_all over the rooms.
unfoldable pub keep_room : Bytes → SessionSet → Rooms → Rooms
keep_room room [] rest = rest
keep_room room (p ∷ m) rest = (room, p ∷ m) ∷ rest

unfoldable pub leave_each : Ptr → Rooms → Rooms
unfolding keep_room set_erase
leave_each p [] = []
leave_each p ((room, m) ∷ r) = keep_room room (set_erase m p) (leave_each p r)

unfoldable pub leave_all : Ptr → Rooms → Rooms
unfolding leave_each
leave_all p r = if nat_eq p null then r else leave_each p r

unfoldable pub send_to_members :
    Kernel → IEncrypt → Bytes → Bytes → Bytes → Option SessionSet → M (Unit {0})
send_to_members k cipher room sender message none = pure tt
send_to_members k cipher room sender message (some m) =
    broadcast_to_recipients k cipher sender (codes "[" ++ (room ++ (codes "] " ++ message))) m

unfoldable pub broadcast_to_room : Kernel → IEncrypt → Rooms → Bytes → Bytes → Bytes → M (Unit {0})
unfolding send_to_members
broadcast_to_room k cipher r room sender message =
    send_to_members k cipher room sender message (Dict.lookup room r)
