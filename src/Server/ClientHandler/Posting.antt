-- ===== src/Server/ClientHandler/Posting.antt =====
-- What becomes of a line that a user types, from the handler to the sockets of the others.
use mpcc.Common.{
  ℕ, ◌≤◌, ◌≡◌, refl, ◌≢◌, true, false, not, ◌&&◌, some, [], ◌∷◌, ◌++◌, Bytes, codes, arith, length,
  ltb, is_empty, ◌==◌,
}
use mpcc.Core.Cipher.{max_msg_len}
use mpcc.Core.Session.{Session, World, Ptr, get_username}
use mpcc.Server.Broadcast.{frame}
use mpcc.Server.Broadcast.Clients.{ClientsValid}
use mpcc.Server.Broadcast.Delivery.{Outcome}
use mpcc.Server.Broadcast.Hearing.{IsValid, Live, Reaches}
use mpcc.Server.Broadcast.Recipients.{broadcast_lem}
use mpcc.Server.Rooms.Membership.{RoomsValid, member}
use mpcc.Server.Rooms.History.{broadcast_to_room_lem}
use mpcc.Server.ClientHandler.{Env, State}
use mpcc.Server.ClientHandler.Commands.{post}

pub not_empty : (s : Bytes) → s ≢ [] → is_empty s ≡ false
not_empty [] h = absurd (h refl)
not_empty (c ∷ s) h = refl

module _ (e : Env) (s : State) (t : Session) (text : Bytes) (short : length text ≤ max_msg_len)
    (here : s.world.session s.session ≡ some t) (valid : IsValid s.world) where
  -- A text of at most 4096 bytes that a live session posts in a room, in valid stores whose members
  -- are alive: the handler does not fault and changes sessions and sockets only; the text goes, with
  -- the tag of the room twice in front, once to each member that is active and whose user is not the
  -- sender, and to no other session that has a descriptor.
  pub post_in_room :
      s.current_room ≢ []
      → RoomsValid s.rooms
      → ((p : Ptr) → member s.rooms s.current_room p ≡ true → Live s.world p)
      → (w' : World) × (post e text s ≡ some (tt, record s { world = w' }))
        × ((q : Ptr) (u : Session) (fd : ℕ)
            → s.world.session q ≡ some u
            → u.client_fd ≡ some fd
            → Outcome
                (frame e.cipher t.username (
                  codes "["
                  ++ (s.current_room
                      ++ (codes "] " ++ (codes "[" ++ (s.current_room ++ (codes "] " ++ text)))))))
                s.world
                w'
                q
                u
                fd
                (member s.rooms s.current_room q && (u.active && not (u.username == t.username))))
  unfolding post get_username
  post_in_room in_room rooms_ok live =
      let fits : ltb max_msg_len (length text) ≡ false = ground arith in
      let (w', run, reach) =
        broadcast_to_room_lem e.kernel e.cipher s.rooms s.current_room t.username
          (codes "[" ++ (s.current_room ++ (codes "] " ++ text))) s.world rooms_ok valid live in
      (w', rw (fits, here, not_empty s.current_room in_room, run) refl, reach)

  -- A text of at most 4096 bytes that a live session posts outside of any room, with a valid store of
  -- sessions and a valid manager: the handler does not fault and changes sessions and sockets only;
  -- the text goes once to each client that is active and whose user is not the sender, and to no
  -- other session that has a descriptor.
  pub post_to_all :
      s.current_room ≡ []
      → ClientsValid s.broadcaster s.world
      → (w' : World) × (post e text s ≡ some (tt, record s { world = w' }))
        × Reaches (frame e.cipher t.username text) t.username s.broadcaster.clients s.world w'
  unfolding post get_username
  post_to_all no_room clients_ok =
      let fits : ltb max_msg_len (length text) ≡ false = ground arith in
      let (w', run, reach) =
        broadcast_lem e.kernel e.cipher s.broadcaster t.username text s.world valid
          clients_ok.distinct clients_ok.live in
      (w', rw (fits, here, no_room, run) refl, reach)
