-- ===== src/Server/ClientHandler/Cleanup.antt =====
-- A client that leaves is forgotten everywhere before its session is deleted.
use mpcc.Common.{
  ◌≡◌, refl, sym, ap, ◌∙◌, ◌≢◌, true, false, none, some, [], Bytes, nat_eq_of_eq, nat_eq_of_ne,
  contains, subst, Bool, ◌&&◌, not, nat_eq,
}
use mathlib.Core.Bool.{and-false}
use mpcc.Common.Dict
use mpcc.Core.Session.{
  Session, World, Ptr, null, close_session, close_active, close_loaded, destroy, destroy_loaded,
  update,
}
use mpcc.Core.UniqueFd
use mpcc.Server.Broadcast.{BroadcastManager}
use mpcc.Server.Broadcast.Clients.{ClientsValid, remove_client_lem, remove_client-ClientsValid}
use mpcc.Server.Rooms.{leave_all}
use mpcc.Server.Rooms.Membership.{RoomsValid, member, member-leave_all, leave_all-RoomsValid}
use mpcc.Server.ClientHandler.{Env, State}
use mpcc.Server.ClientHandler.Commands.{cleanup_and_exit}

close_session-others :
    (p : Ptr) (t : Session) (w : World)
    → w.session p ≡ some t
    → (w' : World) × (u : Session) × (close_session p w ≡ some (tt, w'))
      × (w'.session ≡ update w.session p (some u))
unfolding close_session close_loaded
close_session-others p t w here =
    let (u, net) = close_active t w.net in
    (record { session = update w.session p (some u); net = net }, u, rw here refl, refl)

destroy-others :
    (p : Ptr) (t : Session) (w : World)
    → w.session p ≡ some t
    → (w' : World) × (destroy p w ≡ some (tt, w')) × (w'.session ≡ update w.session p none)
unfolding destroy destroy_loaded
destroy-others p t w here =
    let (u, net) = close_active t w.net in
    (
      record { session = update w.session p none; net = UniqueFd.destroy u.client_fd net },
      rw here refl,
      refl,
    )

pub delete-others :
    (p : Ptr) (t : Session) (w : World)
    → w.session p ≡ some t
    → (w₁ : World) × (w₂ : World) × (close_session p w ≡ some (tt, w₁))
      × (destroy p w₁ ≡ some (tt, w₂))
      × (w₂.session p ≡ none)
      × ((q : Ptr) → q ≢ p → w₂.session q ≡ w.session q)
delete-others p t w here =
    let (w₁, u, e₁, s₁) = close_session-others p t w here in
    let (w₂, e₂, s₂) = destroy-others p u w₁ (ap (λ f. f p) s₁ ∙ rw (nat_eq_of_eq p p refl) refl) in
    (
      w₁,
      w₂,
      e₁,
      e₂,
      ap (λ f. f p) s₂ ∙ rw (nat_eq_of_eq p p refl) refl,
      λ q ne.
          ap (λ f. f q) s₂
          ∙ rw (nat_eq_of_ne q p ne) (ap (λ f. f q) s₁ ∙ rw (nat_eq_of_ne q p ne) refl),
    )

-- The manager stays valid when a session that it does not hold changes.
pub ClientsValid-others :
    (p : Ptr) (b : BroadcastManager) (w w' : World)
    → contains b.clients p ≡ false
    → ((q : Ptr) → q ≢ p → w'.session q ≡ w.session q)
    → ClientsValid b w
    → ClientsValid b w'
ClientsValid-others p b w w' out others v = record {
  distinct = v.distinct;
  live = λ q m. let (s, e) = v.live q m in (s, others q (apart q m) ∙ e);
  named =
      λ n q h. let (m, own) = v.named n q h in (m, λ s e. own s (sym (others q (apart q m)) ∙ e));
}
  where
    apart : (q : Ptr) → contains b.clients q ≡ true → q ≢ p
    apart q m e = cc (ap (contains b.clients) e, m, out)

-- No shared table leads to `p` any more, and its session is gone.
pub record Forgotten (p : Ptr) (before after : State) : Type 0 where
  pub own : after.session ≡ null
  pub deleted : after.world.session p ≡ none
  pub clients : contains after.broadcaster.clients p ≡ false
  pub names : (n : Bytes) → Dict.lookup n after.broadcaster.by_name ≢ some p
  pub rooms : (room : Bytes) → member after.rooms room p ≡ false
  pub members :
      (room : Bytes) (q : Ptr)
      → member after.rooms room q ≡ true
      → member before.rooms room q ≡ true
  pub others : (q : Ptr) → q ≢ p → after.world.session q ≡ before.world.session q
  pub clients_valid : ClientsValid after.broadcaster after.world
  pub rooms_valid : RoomsValid after.rooms

and-left : (x y : Bool) → (x && y) ≡ true → x ≡ true
and-left true y h = refl
and-left false y h = h

-- From a state with a valid manager and valid rooms, and for a session that is alive and not null,
-- cleanup_and_exit() does not fault. After it no client list, no name and no room leads to the session,
-- the session is deleted, the handler's pointer is null, every other session is as it was, and the
-- manager and the rooms are valid.
pub cleanup_and_exit_lem :
    (e : Env) (s : State) (t : Session)
    → s.session ≢ null
    → s.world.session s.session ≡ some t
    → ClientsValid s.broadcaster s.world
    → RoomsValid s.rooms
    → (s' : State) × (cleanup_and_exit e s ≡ some (tt, s')) × Forgotten s.session s s'
unfolding cleanup_and_exit
cleanup_and_exit_lem e s t not_null here valid rooms_ok =
    let p = s.session in
    let (b, removed, _, list, names) =
      remove_client_lem s.broadcaster p t s.world here not_null valid in
    let (b', removed', valid') =
      remove_client-ClientsValid s.broadcaster p t s.world here not_null valid in
    let (w₁, w₂, closed, deleted, gone, others) = delete-others p t s.world here in
    let same : b' ≡ b = cc (removed, removed') in
    let out : contains b.clients p ≡ false = list p ∙ rw (nat_eq_of_eq p p refl, and-false) refl in
    (
      record s { world = w₂; broadcaster = b; rooms = leave_all p s.rooms; session = null },
      rw (nat_eq_of_ne p null not_null, removed, closed, deleted) refl,
      record {
        own = refl;
        deleted = gone;
        clients = out;
        names = λ n h. ((names n p).0 h).1 refl;
        rooms = λ room.
            member-leave_all [] p s.rooms not_null room p rooms_ok.keys
            ∙ rw (nat_eq_of_eq p p refl, and-false) refl;
        members = λ room q m.
            and-left (member s.rooms room q) (not (nat_eq p q))
              (sym (member-leave_all [] p s.rooms not_null room q rooms_ok.keys) ∙ m);
        others = others;
        clients_valid =
            ClientsValid-others p b s.world w₂ out others
              (subst (λ x. ClientsValid x s.world) same valid');
        rooms_valid = leave_all-RoomsValid [] p s.rooms not_null rooms_ok;
      },
    )
