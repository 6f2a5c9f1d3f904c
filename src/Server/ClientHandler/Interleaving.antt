-- ===== src/Server/ClientHandler/Interleaving.antt =====
-- BroadcastManager::broadcast of src/server/broadcast_manager.cpp as the steps of a thread, with the
-- manager's mutex, beside a handler that leaves by ClientHandler::cleanup_and_exit.
use mpcc.Common.{
  ℕ, zero, suc, Bool, true, false, Option, none, some, List, [], ◌∷◌, Bytes, if◌then◌else◌,
}
use mpcc.Core.Session.{Ptr, World, send_msg}
use mpcc.Server.Broadcast.{snapshot, frame}
use mpcc.Server.ClientHandler.{Env, State}
use mpcc.Server.ClientHandler.Commands.{cleanup_and_exit}

-- Where the broadcasting thread is: before the lock, at the loop that copies, at the end of the block
-- of the lock with the copy, or in the loop that sends, with what is left of it.
pub data Pc : Type 0 where
  entering copying : Pc
  leaving sending : List Ptr → Pc

-- `held`: whether the thread that broadcasts holds the mutex. `state` is what the handler sees.
pub record Scene : Type 0 where
  pub held : Bool
  pub pc : Pc
  pub state : State

pub data Next : Type 0 where
  went finished : Scene → Next
  waits faults : Next

abbrev pub copied : Scene → Option (List Ptr × World) → Next
copied x none = faults
copied x (some (ps, w)) = went (record x { pc = leaving ps; state = record x.state { world = w } })

abbrev pub sent : List Ptr → Scene → Option (Bool × World) → Next
sent ps x none = faults
sent ps x (some (b, w)) = went (record x { pc = sending ps; state = record x.state { world = w } })

abbrev pub left : Scene → Option (Unit {0} × State) → Next
left x none = faults
left x (some (_, s)) = went (record x { state = s })

module _ (e : Env) where
  unfoldable pub broadcast_at : Bytes → Bytes → Pc → Scene → Next
  unfolding snapshot frame send_msg
  broadcast_at sender message entering x =
      if x.held then waits else went (record x { held = true; pc = copying })
  broadcast_at sender message copying x =
      copied x (snapshot sender x.state.broadcaster.clients x.state.world)
  broadcast_at sender message (leaving ps) x = went (record x { held = false; pc = sending ps })
  broadcast_at sender message (sending []) x = finished x
  broadcast_at sender message (sending (p ∷ ps)) x =
      sent ps x (send_msg e.kernel p (frame e.cipher sender message) x.state.world)

  -- The handler's whole cleanup. Its remove_client() needs the mutex, and waits while it is held.
  unfoldable pub cleanup_step : Scene → Next
  unfolding cleanup_and_exit
  cleanup_step x = if x.held then waits else left x (cleanup_and_exit e x.state)

  abbrev pub then_run : (Scene → Next) → Next → Next
  then_run next (went x) = next x
  then_run next (finished x) = finished x
  then_run next waits = waits
  then_run next faults = faults

  -- The turns of the two threads: `true` is one of the broadcast.
  unfoldable pub take_turns : Bytes → Bytes → List Bool → Scene → Next
  unfolding broadcast_at cleanup_step
  take_turns sender message [] x = went x
  take_turns sender message (turn ∷ turns) x =
      then_run (take_turns sender message turns)
        (if turn then broadcast_at sender message x.pc x else cleanup_step x)

-- As many turns of the broadcast.
unfoldable pub turns_of_broadcast : ℕ → List Bool
turns_of_broadcast zero = []
turns_of_broadcast (suc n) = true ∷ turns_of_broadcast n

abbrev pub at_call : State → Scene
at_call s = record { held = false; pc = entering; state = s }
