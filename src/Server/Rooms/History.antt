-- ===== src/Server/Rooms/History.antt =====
-- The room table against its specification, a relation between rooms and sessions, over any
-- history of calls.
use mpcc.Common.{
  ◌≡◌, refl, sym, ap, ◌∙◌, ◌≢◌, inr, Bool, true, false, not, ◌&&◌, ◌||◌, none, some, Option, List,
  [], ◌∷◌, ◌++◌, Bytes, codes, ◌==◌, nat_eq, nat_eq_of_ne, nat_eq_of_eq, ℕ_discrete, fun_ext, ℕ,
  subst,
}
use mathlib.Core.Bool.{and-true, or-false}
use mpcc.Common.Dict
use mpcc.Core.Cipher.Laws.{IEncrypt}
use mpcc.Core.Net.{Kernel}
use mpcc.Core.Session.{Session, World, Ptr, null}
use mpcc.Server.Broadcast.{frame}
use mpcc.Server.Broadcast.Delivery.{Outcome}
use mpcc.Server.Broadcast.Hearing.{IsValid, Live}
use mpcc.Server.Broadcast.Recipients.{broadcast_to_recipients_lem}
use mpcc.Server.Rooms.{
  Rooms, SessionSet, join_room, leave_room, leave_all, broadcast_to_room, send_to_members,
}
use mpcc.Server.Rooms.Membership.{
  RoomsValid, EntryValid, among, member, member-join_room, member-leave_room, member-leave_all,
  join_room-RoomsValid, leave_room-RoomsValid, leave_all-RoomsValid,
}

pub data RoomCall : Type 0 where
  joins : Bytes → Ptr → RoomCall
  leaves : Bytes → Ptr → RoomCall
  leaves_all : Ptr → RoomCall

abbrev who : RoomCall → Ptr
who (joins a p) = p
who (leaves a p) = p
who (leaves_all p) = p

abbrev pub run_call : RoomCall → Rooms → Rooms
run_call (joins a p) r = join_room a p r
run_call (leaves a p) r = leave_room a p r
run_call (leaves_all p) r = leave_all p r

abbrev pub run_calls : List RoomCall → Rooms → Rooms
run_calls [] r = r
run_calls (c ∷ cs) r = run_calls cs (run_call c r)

-- The specification: who is in which room. Calls with a null pointer do nothing.
abbrev pub Relation : Type 0
Relation = Bytes → Ptr → Bool

abbrev pub spec_call : RoomCall → Relation → Relation
spec_call (joins a p) f b q = f b q || (not (nat_eq p null) && ((a == b) && nat_eq p q))
spec_call (leaves a p) f b q = f b q && not (not (nat_eq p null) && ((a == b) && nat_eq p q))
spec_call (leaves_all p) f b q = f b q && not (not (nat_eq p null) && nat_eq p q)

abbrev pub spec_calls : List RoomCall → Relation → Relation
spec_calls [] f = f
spec_calls (c ∷ cs) f = spec_calls cs (spec_call c f)

-- Calls with a null pointer change nothing.
null_call : (c : RoomCall) (r : Rooms) → who c ≡ null → run_call c r ≡ r
unfolding join_room leave_room leave_all
null_call (joins a p) r e = rw (nat_eq_of_eq p null e)
null_call (leaves a p) r e = rw (nat_eq_of_eq p null e)
null_call (leaves_all p) r e = rw (nat_eq_of_eq p null e)

call-RoomsValid : (c : RoomCall) (r : Rooms) → RoomsValid r → RoomsValid (run_call c r)
call-RoomsValid c r v = elim (ℕ_discrete (who c) null) [
  | yes e ↦ subst RoomsValid (sym (null_call c r e)) v
  | no ne ↦ on_session c ne
]
  where
    on_session : (c : RoomCall) → who c ≢ null → RoomsValid (run_call c r)
    on_session (joins a p) ne = join_room-RoomsValid a p r ne v
    on_session (leaves a p) ne = leave_room-RoomsValid a p r ne v
    on_session (leaves_all p) ne = leave_all-RoomsValid [] p r ne v

member-session :
    (c : RoomCall) (r : Rooms) (b : Bytes) (q : Ptr)
    → RoomsValid r
    → who c ≢ null
    → member (run_call c r) b q ≡ spec_call c (member r) b q
member-session (joins a p) r b q v ne = rw (nat_eq_of_ne p null ne) (member-join_room a p r ne b q)
member-session (leaves a p) r b q v ne =
    rw (nat_eq_of_ne p null ne) (member-leave_room a p r ne b q)
member-session (leaves_all p) r b q v ne =
    rw (nat_eq_of_ne p null ne) (member-leave_all [] p r ne b q v.keys)

spec_null :
    (c : RoomCall) (f : Relation) (b : Bytes) (q : Ptr) → who c ≡ null → spec_call c f b q ≡ f b q
spec_null (joins a p) f b q e = rw (nat_eq_of_eq p null e, or-false)
spec_null (leaves a p) f b q e = rw (nat_eq_of_eq p null e, and-true)
spec_null (leaves_all p) f b q e = rw (nat_eq_of_eq p null e, and-true)

member-call :
    (c : RoomCall) (r : Rooms) (b : Bytes) (q : Ptr)
    → RoomsValid r
    → member (run_call c r) b q ≡ spec_call c (member r) b q
member-call c r b q v = elim (ℕ_discrete (who c) null) [
  | yes e ↦ ap (λ x. member x b q) (null_call c r e) ∙ sym (spec_null c (member r) b q e)
  | no ne ↦ member-session c r b q v ne
]

run_calls_from :
    (cs : List RoomCall) (r : Rooms) (f : Relation)
    → RoomsValid r
    → member r ≡ f
    → RoomsValid (run_calls cs r) × (member (run_calls cs r) ≡ spec_calls cs f)
run_calls_from [] r f v e = (v, e)
run_calls_from (c ∷ cs) r f v e =
    run_calls_from cs (run_call c r) (spec_call c f) (call-RoomsValid c r v)
      (fun_ext (λ b. fun_ext (λ q. member-call c r b q v)) ∙ ap (spec_call c) e)

-- After any history of calls that starts with no rooms, the table holds exactly the relation that
-- the calls specify: no room without members, no member twice, no null pointer.
pub rooms_refine :
    (cs : List RoomCall)
    → RoomsValid (run_calls cs []) × (member (run_calls cs []) ≡ spec_calls cs (λ _ _. false))
rooms_refine cs = run_calls_from cs [] (λ _ _. false) nothing (unfold member Dict.lookup in refl)
  where
    nothing : RoomsValid []
    nothing = record { keys = tt; entries = λ room. unfold Dict.lookup in tt }

-- In a valid room table and a valid store of sessions, and with members that are alive,
-- broadcast_to_room() does not fault; the message goes, behind the room's tag, once to each member
-- that is active and whose user is not the sender, and to no other session that has a descriptor. A
-- room that does not exist has no members.
pub broadcast_to_room_lem :
    (k : Kernel) (cipher : IEncrypt) (r : Rooms) (room sender message : Bytes) (w : World)
    → RoomsValid r
    → IsValid w
    → ((p : Ptr) → member r room p ≡ true → Live w p)
    → (w' : World) × (broadcast_to_room k cipher r room sender message w ≡ some (tt, w'))
      × ((q : Ptr) (s : Session) (fd : ℕ)
          → w.session q ≡ some s
          → s.client_fd ≡ some fd
          → Outcome
              (frame cipher sender (codes "[" ++ (room ++ (codes "] " ++ message))))
              w
              w'
              q
              s
              fd
              (member r room q && (s.active && not (s.username == sender))))
unfolding broadcast_to_room member
broadcast_to_room_lem k cipher r room sender message w v wv live =
    to_members (Dict.lookup room r) (v.entries room) live
  where
    to_members :
        (o : Option SessionSet)
        → EntryValid o
        → ((p : Ptr) → among o p ≡ true → Live w p)
        → (w' : World) × (send_to_members k cipher room sender message o w ≡ some (tt, w'))
          × ((q : Ptr) (s : Session) (fd : ℕ)
              → w.session q ≡ some s
              → s.client_fd ≡ some fd
              → Outcome
                  (frame cipher sender (codes "[" ++ (room ++ (codes "] " ++ message))))
                  w
                  w'
                  q
                  s
                  fd
                  (among o q && (s.active && not (s.username == sender))))
    to_members none _ _ = (w, refl, λ q s fd here open_fd. (here, refl))
    to_members (some m) (_, distinct, _) live =
        broadcast_to_recipients_lem k cipher sender (codes "[" ++ (room ++ (codes "] " ++ message)))
          m w wv distinct (λ p h. inr (live p h))
