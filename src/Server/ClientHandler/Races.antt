-- ===== src/Server/ClientHandler/Races.antt =====
-- A broadcast by itself, and one that uses a session after another thread has deleted it.
use mpcc.Common.{
  ℕ, suc, ◌≡◌, refl, sym, ap, ◌∙◌, ◌≢◌, Bool, true, false, Option, none, some, List, [], ◌∷◌, Bytes,
  contains, contains-cons_ne, contains-nil, inl, inr, Option-cases, length,
}
use mpcc.Core.Net.{Kernel}
use mpcc.Core.Session.{Session, World, Ptr, null, send_msg}
use mpcc.Core.Session.Sends.{OnlySends-send_msg}
use mpcc.Server.Broadcast.{snapshot, frame}
use mpcc.Server.Broadcast.Clients.{ClientsValid}
use mpcc.Server.Rooms.Membership.{RoomsValid}
use mpcc.Server.ClientHandler.{Env, State}
use mpcc.Server.ClientHandler.Cleanup.{cleanup_and_exit_lem}
use mpcc.Server.ClientHandler.Interleaving.{
  Scene, Next, finished, waits, faults, copying, sending, broadcast_at, cleanup_step, take_turns,
  turns_of_broadcast, at_call, copied, sent, left, then_run,
}

send_msg-dead :
    (k : Kernel) (p : Ptr) (msg : Bytes) (w : World)
    → w.session p ≡ none
    → send_msg k p msg w ≡ none
unfolding send_msg
send_msg-dead k p msg w dead = rw dead refl

abbrev sending_from : List Ptr → World → State → Scene
sending_from ps w s = record { held = false; pc = sending ps; state = record s { world = w } }

module _ (e : Env) (sender message : Bytes) where
  abbrev turns : ℕ → Scene → Next
  turns n = take_turns e sender message (turns_of_broadcast n)

  -- The turn that sends to the first of the list.
  send_turn :
      (n : ℕ) (q : Ptr) (ps : List Ptr) (w : World) (s : State)
      → turns (suc n) (sending_from (q ∷ ps) w s)
        ≡ then_run e (turns n) (
            sent ps
              (sending_from (q ∷ ps) w s)
              (send_msg e.kernel q (frame e.cipher sender message) w))
  unfolding take_turns turns_of_broadcast broadcast_at
  send_turn n q ps w s = refl

  abbrev wire : Bytes
  wire = frame e.cipher sender message

  abbrev after_send : List Ptr → World → State → Option (Bool × World) → Next
  after_send ps w s o = then_run e (turns (length ps)) (sent ps (sending_from ps w s) o)

  -- A list with a dead session in it cannot be sent to.
  sends-dead :
      (p : Ptr) (ps : List Ptr) (w : World) (s : State)
      → contains ps p ≡ true
      → w.session p ≡ none
      → turns (length ps) (sending_from ps w s) ≡ faults
  sends-dead p [] w s m dead = absurd (cc (contains-nil p, m))
  sends-dead p (q ∷ ps) w s m dead =
      send_turn (length ps) q ps w s ∙ elim (Option-cases (send_msg e.kernel q wire w)) [
        | inl gone ↦ ap (after_send ps w s) gone
        | inr ((b, w'), runs) ↦ elim (Option-cases (w.session q)) [
          | inl gone ↦ ap (after_send ps w s) (send_msg-dead e.kernel q wire w gone)
          | inr alive ↦
              let send = OnlySends-send_msg e.kernel q wire w alive in
              ap (after_send ps w s) send.runs
              ∙ sends-dead p ps send.after s
                  (sym (contains-cons_ne q ps p (λ same. cc (ap w.session same, dead, alive.1)))
                    ∙ m)
                  (send.sends.none_kept p dead)
        ]
      ]

  -- How a broadcast ends, by what broadcast() answers.
  abbrev pub ends : State → Option (Unit {0} × World) → Next
  ends s none = faults
  ends s (some (_, w)) = finished (sending_from [] w s)

  -- broadcast() holds the mutex while it copies its recipients, and not while it sends. In a state with
  -- a valid manager and valid rooms, let the copy hold the session of a live handler. As long as the
  -- copying lasts, the handler's cleanup_and_exit() waits. When it comes as soon as the block of the
  -- lock has been left, it goes through, and the sends that follow use the deleted session: a fault,
  -- whatever ::send answers.
  pub freed_recipient_faults :
      (s : State) (t : Session) (ps : List Ptr)
      → s.session ≢ null
      → s.world.session s.session ≡ some t
      → ClientsValid s.broadcaster s.world
      → RoomsValid s.rooms
      → snapshot sender s.broadcaster.clients s.world ≡ some (ps, s.world)
      → contains ps s.session ≡ true
      → (take_turns e sender message (true ∷ false ∷ []) (at_call s) ≡ waits)
        × (take_turns e sender message (true ∷ true ∷ false ∷ []) (at_call s) ≡ waits)
        × (take_turns e sender message
              (true ∷ true ∷ true ∷ false ∷ turns_of_broadcast (length ps))
              (at_call s)
            ≡ faults)
  unfolding take_turns broadcast_at cleanup_step
  freed_recipient_faults s t ps not_null here clients rooms copy m =
      let (s', runs, f) = cleanup_and_exit_lem e s t not_null here clients rooms in
      (
        refl,
        ap
            (λ o.
              then_run e (take_turns e sender message (false ∷ []))
                (copied (record (at_call s) { held = true; pc = copying }) o))
            copy,
        ap
              (λ o.
                then_run e
                  (take_turns e sender message (true ∷ false ∷ turns_of_broadcast (length ps)))
                  (copied (record (at_call s) { held = true; pc = copying }) o))
              copy
            ∙ ap (λ o. then_run e (turns (length ps)) (left (sending_from ps s.world s) o)) runs
            ∙ sends-dead s.session ps s'.world s' m f.deleted,
      )
