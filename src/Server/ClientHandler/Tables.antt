-- ===== src/Server/ClientHandler/Tables.antt =====
-- The handler's changes of the shared tables keep the shared state valid.
use mpcc.Common.{
  ◌≡◌, refl, sym, ap, ◌∙◌, ◌≢◌, ◌⊎◌, inl, inr, true, false, some, Bytes, contains, arith,
  some-eq-some, subst, nat_eq, nat_eq_iff, nat_eq_of_eq, nat_eq_of_ne, Bool-cases, ℕ_discrete,
}
use mpcc.Core.Session.{Session, World, Ptr, null, update, set_username}
use mpcc.Core.Session.Sends.{Alive}
use mpcc.Server.Broadcast.{add_client}
use mpcc.Server.Broadcast.Clients.{add_client-ClientsValid}
use mpcc.Server.Broadcast.Hearing.{IsValid}
use mpcc.Server.Rooms.{join_room, leave_room}
use mpcc.Server.Rooms.Membership.{
  member, member-join_room, member-leave_room, join_room-RoomsValid, leave_room-RoomsValid,
}
use mpcc.Server.ClientHandler.{State, update_broadcaster, lift}
use mpcc.Server.ClientHandler.Cleanup.{ClientsValid-others}
use mpcc.Server.ClientHandler.Invariant.{Serves, Waits, Ok}

module _ {p : Ptr} (s : State) (h : Serves p s) where
  pub own-not_null : s.session ≢ null
  own-not_null e = h.not_null (sym h.own ∙ e)

  pub own_live : Alive s.world s.session
  own_live = subst (Alive s.world) (sym h.own) h.live

  member_or_own :
      (room b : Bytes) (q : Ptr)
      → member (join_room room s.session s.rooms) b q ≡ true
      → (member s.rooms b q ≡ true) ⊎ (s.session ≡ q)
  member_or_own room b q m = elim (Bool-cases (nat_eq s.session q)) [
    | inl e ↦ inr ((nat_eq_iff s.session q).0 e)
    | inr ne ↦ inl (ground (arith, m, ne, member-join_room room s.session s.rooms own-not_null b q))
  ]

  pub Serves-join_room :
      (room : Bytes) → Serves p (record s { rooms = join_room room s.session s.rooms })
  Serves-join_room room = record {
    own = h.own;
    not_null = h.not_null;
    live = h.live;
    shared = record {
      sessions = h.shared.sessions;
      clients = h.shared.clients;
      rooms = join_room-RoomsValid room s.session s.rooms own-not_null h.shared.rooms;
      members = λ b q m. elim (member_or_own room b q m) [
        | inl old ↦ h.shared.members b q old
        | inr e ↦ subst (Alive s.world) e own_live
      ];
    };
  }

  pub Serves-leave_room :
      (room : Bytes) → Serves p (record s { rooms = leave_room room s.session s.rooms })
  Serves-leave_room room = record {
    own = h.own;
    not_null = h.not_null;
    live = h.live;
    shared = record {
      sessions = h.shared.sessions;
      clients = h.shared.clients;
      rooms = leave_room-RoomsValid room s.session s.rooms own-not_null h.shared.rooms;
      members = λ b q m.
          h.shared.members b q
            (ground (arith, m, member-leave_room room s.session s.rooms own-not_null b q));
    };
  }

  pub Serves-set_room : (room : Bytes) → Serves p (record s { current_room = room })
  Serves-set_room room = record {
    own = h.own;
    not_null = h.not_null;
    live = h.live;
    shared = h.shared;
  }

-- The session at `p` may be renamed as long as no table holds it.
IsValid-rename :
    (p : Ptr) (t : Session) (n : Bytes) (w : World)
    → w.session p ≡ some t
    → IsValid w
    → IsValid (record w {
      session = update w.session p (some (record t { username = n; username_set = true }));
    })
IsValid-rename p t n w here v = record {
  null_free = rw (nat_eq_of_ne null p (λ e. cc (ap w.session e, here, v.null_free))) v.null_free;
  has_fd = λ q u e on.
      let (u', was, same_on, same_fd) = back q u e in
      let (fd, f) = v.has_fd q u' was (same_on ∙ on) in (fd, sym same_fd ∙ f);
  distinct = λ q r u x fd eq er fq fr.
      let (u', was_q, _, fd_q) = back q u eq in
      let (x', was_r, _, fd_r) = back r x er in
      v.distinct q r u' x' fd was_q was_r (fd_q ∙ fq) (fd_r ∙ fr);
}
  where
    t' : Session
    t' = record t { username = n; username_set = true }

    back :
        (q : Ptr) (u : Session)
        → update w.session p (some t') q ≡ some u
        → (u' : Session) × (w.session q ≡ some u')
          × (u'.active ≡ u.active)
          × (u'.client_fd ≡ u.client_fd)
    back q u e = elim (ℕ_discrete q p) [
      | yes same ↦
          let is : t' ≡ u = some-eq-some (sym (rw (nat_eq_of_eq q p same) refl) ∙ e) in
          (
            t,
            ap w.session same ∙ here,
            ap (λ (y : Session). y.active) is,
            ap (λ (y : Session). y.client_fd) is,
          )
      | no ne ↦ (u, rw (nat_eq_of_ne q p ne) at e, refl, refl)
    ]

Alive-update :
    (p q : Ptr) (t : Session) (w : World)
    → Alive w q
    → Alive (record w { session = update w.session p (some t) }) q
Alive-update p q t w (u, here) = elim (ℕ_discrete q p) [
  | yes same ↦ (t, rw (nat_eq_of_eq q p same) refl)
  | no ne ↦ (u, rw (nat_eq_of_ne q p ne) here)
]

module _ {p : Ptr} (s : State) (h : Waits p s) where
  own_unlisted : contains s.broadcaster.clients s.session ≡ false
  own_unlisted = ap (contains s.broadcaster.clients) h.serves.own ∙ h.unlisted

  renamed :
      (t : Session) (n : Bytes)
      → s.world.session s.session ≡ some t
      → Waits p (record s {
        world = record s.world {
          session =
              update s.world.session s.session
                (some (record t { username = n; username_set = true }));
        };
      })
  renamed t n here =
      let v = h.serves.shared in
      let t' : Session = record t { username = n; username_set = true } in
      let w' : World = record s.world { session = update s.world.session s.session (some t') } in
      record {
        serves = record {
          own = h.serves.own;
          not_null = h.serves.not_null;
          live = Alive-update s.session p t' s.world h.serves.live;
          shared = record {
            sessions = IsValid-rename s.session t n s.world here v.sessions;
            clients =
                ClientsValid-others s.session s.broadcaster s.world w' own_unlisted
                  (λ q ne. rw (nat_eq_of_ne q s.session ne) refl) v.clients;
            rooms = v.rooms;
            members = λ b q m. Alive-update s.session q t' s.world (v.members b q m);
          };
        };
        unlisted = h.unlisted;
      }

  pub Ok-set_username : (n : Bytes) → Ok (lift (set_username s.session n)) s (λ _ s'. Waits p s')
  unfolding set_username
  Ok-set_username n =
      let (t, here) = own_live s h.serves in
      elim (Bool-cases t.username_set) [
        | inl old ↦ record { result = tt; after = s; runs = rw (here, old) refl; holds = h }
        | inr new ↦ record {
          result = tt;
          after = _;
          runs = rw (here, new) refl;
          holds = renamed t n here;
        }
      ]

  pub Ok-add_client : Ok (update_broadcaster (λ b. add_client b s.session)) s (λ _ s'. Serves p s')
  Ok-add_client =
      let v = h.serves.shared in
      let (t, here) = own_live s h.serves in
      let (b', run, valid) =
        add_client-ClientsValid s.broadcaster s.session t s.world here (own-not_null s h.serves)
          v.clients own_unlisted in
      record {
        result = tt;
        after = record s { broadcaster = b' };
        runs = rw run refl;
        holds = record {
          own = h.serves.own;
          not_null = h.serves.not_null;
          live = h.serves.live;
          shared = record {
            sessions = v.sessions;
            clients = valid;
            rooms = v.rooms;
            members = v.members;
          };
        };
      }
