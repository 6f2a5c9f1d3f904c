-- ===== src/Server/Broadcast.antt =====
-- include/mpcc/server/broadcast_manager.h, src/server/broadcast_manager.cpp and the interface
-- IBroadcast of interfaces.h. Each function is what one call does when no other thread comes
-- between; the mutex is not part of the state.
pub mod Delivery
pub mod Hearing
pub mod Recipients
pub mod Clients
pub mod Shutdown
pub mod Safety
mod Tests
use mpcc.Common.{
  ℕ, Bool, true, false, not, ◌&&◌, Option, none, some, List, [], ◌∷◌, ◌++◌, Bytes, codes, ◌==◌,
  nat_eq, if◌then◌else◌, without, length,
}
use mpcc.Common.Dict
use mpcc.Common.Dict.{Dict}
use mpcc.Core.Cipher.Laws.{IEncrypt}
use mpcc.Core.Message.{Message, make_bcast, serialise}
use mpcc.Core.Net.{Kernel}
use mpcc.Core.Session.{
  Ptr, null, M, pure, ◌>>=◌, ◌>>◌, send_msg, close_session, is_active, get_username,
}

pub record BroadcastManager : Type 0 where
  pub clients : List Ptr
  pub by_name : Dict Ptr

unfoldable pub init : BroadcastManager
init = record { clients = []; by_name = [] }

-- A null pointer goes into the client list too, but not into the map.
unfoldable pub add_client : BroadcastManager → Ptr → M BroadcastManager
add_client b p =
    let clients = b.clients ++ p ∷ [] in
    if nat_eq p null then pure (record b { clients = clients }) else do
      name ← get_username p
      pure (record { clients = clients; by_name = Dict.insert name p b.by_name })

-- The entry, if there is one, is erased only if it points to this session.
unfoldable pub forget : Option Ptr → Dict Ptr → Bytes → Ptr → Dict Ptr
forget none m name p = m
forget (some q) m name p = if nat_eq q p then Dict.erase name m else m

unfoldable pub remove_client : BroadcastManager → Ptr → M BroadcastManager
unfolding forget without
remove_client b p =
    let clients = without b.clients p in
    if nat_eq p null then pure (record b { clients = clients }) else do
      name ← get_username p
      pure (record {
        clients = clients;
        by_name = forget (Dict.lookup name b.by_name) b.by_name name p;
      })

-- The frame of a broadcast, encrypted.
unfoldable pub frame : IEncrypt → Bytes → Bytes → Bytes
frame cipher sender message = cipher.encrypt (serialise (make_bcast sender message))

-- s->is_active() && s->get_username() != sender
unfoldable pub wants : Bytes → Ptr → M Bool
unfolding is_active get_username
wants sender p = do
  active ← is_active p
  if active then (do name ← get_username p; pure (not (name == sender))) else pure false

-- The loop under the lock that copies the clients to send to.
unfoldable pub snapshot : Bytes → List Ptr → M (List Ptr)
unfolding wants
snapshot sender [] = pure []
snapshot sender (p ∷ ps) = do
  keep ← wants sender p
  rest ← snapshot sender ps
  pure (if keep then p ∷ rest else rest)

-- The loop that sends, outside the lock. The result of send_msg is ignored.
unfoldable pub deliver : Kernel → Bytes → List Ptr → M (Unit {0})
deliver k wire [] = pure tt
deliver k wire (p ∷ ps) = do _ ← send_msg k p wire; deliver k wire ps

unfoldable pub broadcast : Kernel → IEncrypt → BroadcastManager → Bytes → Bytes → M (Unit {0})
unfolding frame
broadcast k cipher b sender message = do
  recipients ← snapshot sender b.clients
  deliver k (frame cipher sender message) recipients

-- The target that the lookup under the lock finds; null is no target.
unfoldable pub target_at : Option Ptr → M (Option Ptr)
target_at none = pure none
target_at (some p) =
    if nat_eq p null
    then pure none
    else do active ← is_active p; pure (if active then some p else none)

unfoldable pub send_to : Kernel → Bytes → Option Ptr → M (Unit {0})
send_to k wire none = pure tt
send_to k wire (some p) = do _ ← send_msg k p wire; pure tt

unfoldable pub send_private :
    Kernel → IEncrypt → BroadcastManager → Bytes → Bytes → Bytes → M (Unit {0})
unfolding target_at send_to frame is_active
send_private k cipher b from to message = do
  target ← target_at (Dict.lookup to b.by_name)
  send_to k (frame cipher from (codes "[PM from " ++ (from ++ (codes "]: " ++ message)))) target

-- Here the tests and the sends alternate, and a null pointer is skipped.
unfoldable pub deliver_wanted : Kernel → Bytes → Bytes → List Ptr → M (Unit {0})
unfolding wants
deliver_wanted k sender wire [] = pure tt
deliver_wanted k sender wire (p ∷ ps) =
    let rest = deliver_wanted k sender wire ps in
    if nat_eq p null
    then rest
    else do keep ← wants sender p; if keep then (do _ ← send_msg k p wire; rest) else rest

unfoldable pub broadcast_to_recipients : Kernel → IEncrypt → Bytes → Bytes → List Ptr → M (Unit {0})
unfolding frame deliver_wanted
broadcast_to_recipients k cipher sender message recipients =
    deliver_wanted k sender (frame cipher sender message) recipients

unfoldable pub client_count : BroadcastManager → ℕ
client_count b = length b.clients

-- The loop of shutdown_all over the clients.
unfoldable pub close_all : List Ptr → M (Unit {0})
close_all [] = pure tt
close_all (p ∷ ps) =
    let rest = close_all ps in
    if nat_eq p null
    then rest
    else do active ← is_active p; if active then (close_session p >> rest) else rest

unfoldable pub shutdown_all : BroadcastManager → M BroadcastManager
unfolding close_all
shutdown_all b = do close_all b.clients; pure (record { clients = []; by_name = [] })
