-- ===== src/Server/ClientHandler/Life.antt =====
-- The whole life of a client.
use mpcc.Common.{
  ◌≡◌, sym, ap, ◌∙◌, ◌≢◌, Bool, true, false, none, some, contains, subst, ℕ_discrete, if◌then◌else◌,
}
use mpcc.Core.Session.{Session, Ptr, null}
use mpcc.Server.Broadcast.Hearing.{IsValid}
use mpcc.Server.Rooms.Membership.{member}
use mpcc.Server.ClientHandler.{State, Env, ◌>>◌}
use mpcc.Server.ClientHandler.AuthSafety.{Ok-try_authenticate}
use mpcc.Server.ClientHandler.ChatSafety.{Ok-recv_loop}
use mpcc.Server.ClientHandler.Cleanup.{Forgotten, cleanup_and_exit_lem}
use mpcc.Server.ClientHandler.Commands.{cleanup_and_exit, recv_loop, run}
use mpcc.Server.ClientHandler.Dialogue.{try_authenticate}
use mpcc.Server.ClientHandler.Invariant.{Shared, Serves, Waits, Attempted, Ok, Ok-bind}
use mpcc.Server.ClientHandler.Tables.{own_live, own-not_null}

-- What is left when the handler of the session at `p` has returned: no table holds the session, it is
-- deleted, and what the others share is valid.
pub record Gone (p : Ptr) (s : State) : Type 0 where
  pub own : s.session ≡ null
  pub deleted : s.world.session p ≡ none
  pub client : contains s.broadcaster.clients p ≡ false
  pub shared : Shared s.world s.broadcaster s.rooms

IsValid-Forgotten : (p : Ptr) (s s' : State) → Forgotten p s s' → IsValid s.world → IsValid s'.world
IsValid-Forgotten p s s' f v = record {
  null_free = at null v.null_free;
  has_fd = λ q t e on. v.has_fd q t (still q t e) on;
  distinct = λ q r t u fd eq er fq fr. v.distinct q r t u fd (still q t eq) (still r u er) fq fr;
}
  where
    still : (q : Ptr) (t : Session) → s'.world.session q ≡ some t → s.world.session q ≡ some t
    still q t e = sym (f.others q (λ same. cc (e, f.deleted, ap s'.world.session same))) ∙ e

    at : (q : Ptr) → s.world.session q ≡ none → s'.world.session q ≡ none
    at q e = elim (ℕ_discrete q p) [
      | yes same ↦ ap s'.world.session same ∙ f.deleted
      | no ne ↦ f.others q ne ∙ e
    ]

module _ (e : Env) {p : Ptr} where
  Ok-cleanup : (s : State) → Serves p s → Ok (cleanup_and_exit e) s (λ _ s'. Gone p s')
  Ok-cleanup s h =
      let (t, here) = own_live s h in
      let (s', runs, f) =
        cleanup_and_exit_lem e s t (own-not_null s h) here h.shared.clients h.shared.rooms in
      let f' : Forgotten p s s' = subst (λ q. Forgotten q s s') h.own f in
      record {
        result = tt;
        after = s';
        runs = runs;
        holds = record {
          own = f.own;
          deleted = f'.deleted;
          client = f'.clients;
          shared = record {
            sessions = IsValid-Forgotten p s s' f' h.shared.sessions;
            clients = f.clients_valid;
            rooms = f.rooms_valid;
            members = λ room q m.
                let (t, was) = h.shared.members room q (f'.members room q m) in
                let apart : q ≢ p =
                  (λ same. cc (ap (member s'.rooms room) same, m, f'.rooms room)) in
                (t, f'.others q apart ∙ was);
          };
        };
      }

  Ok-stay :
      (authenticated : Bool) (s : State)
      → Attempted p authenticated s
      → Ok
          (if authenticated then (do recv_loop e; cleanup_and_exit e) else cleanup_and_exit e)
          s
          (λ _ s'. Gone p s')
  Ok-stay true s h = Ok-bind (recv_loop e) _ s (Ok-recv_loop e s h) (λ _ s' h'. Ok-cleanup s' h')
  Ok-stay false s h = Ok-cleanup s h.serves

-- For every sequence of answers of ::recv, every behaviour of ::send and of the file system, and a
-- state of which these hold: the session at `p` is alive and not null, no client list holds it, the
-- manager and the rooms are valid and every pointer that they hold is alive, and no two sessions share
-- a descriptor. When no other thread changes that state in between, run() returns, in spite of the
-- fuel of its loops, and never uses a session that is deleted; after it the session is deleted, the
-- handler's pointer is null, the client list does not hold it, and the shared state is valid again.
pub run_lem :
    (e : Env) (p : Ptr) (s : State)
    → Waits p s
    → (s' : State) × (run e s ≡ some (tt, s')) × Gone p s'
unfolding run
run_lem e p s h =
    let lives =
      Ok-bind (try_authenticate e) _ s (Ok-try_authenticate e s h)
        (λ authenticated s₁ h₁. Ok-stay e authenticated s₁ h₁) in
    (lives.after, lives.runs, lives.holds)
