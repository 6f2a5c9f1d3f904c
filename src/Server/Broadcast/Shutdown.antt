-- ===== src/Server/Broadcast/Shutdown.antt =====
-- Closing every client when the server stops.
use mathlib.Core.Bool.{and-false}
use mpcc.Common.{
  ℕ, ◌≡◌, refl, sym, ap, ◌∙◌, ◌≢◌, ◌⊎◌, inl, inr, Bool, true, false, ◌&&◌, Option, none, some, List,
  [], ◌∷◌, arith, Bool-cases, contains, ℕ_discrete, nat_eq_of_eq, nat_eq_of_ne, some-eq-some,
  contains-cons_eq, contains-cons_ne, contains-tail, contains-nil,
}
use mpcc.Core.Session.{Session, World, Ptr, null, close_session, close_active, is_active, update}
use mpcc.Server.Broadcast.{BroadcastManager, init, close_all, shutdown_all}
use mpcc.Server.Broadcast.Hearing.{Live}

-- The session after a close that it needed, or did not need.
abbrev pub closed_if : Bool → Session → Session
closed_if true s = record s { active = false; client_fd = none }
closed_if false s = s

-- What closing the sessions `ps` does to all sessions and sockets.
pub record Closes (ps : List Ptr) (w w' : World) : Type 0 where
  pub session :
      (q : Ptr) (s : Session)
      → w.session q ≡ some s
      → w'.session q ≡ some (closed_if (contains ps q && s.active) s)
  pub closed :
      (q : Ptr) (s : Session) (fd : ℕ)
      → w.session q ≡ some s
      → (contains ps q && s.active) ≡ true
      → s.client_fd ≡ some fd
      → contains w'.net.closed fd ≡ true
  pub still : (fd : ℕ) → contains w.net.closed fd ≡ true → contains w'.net.closed fd ≡ true

-- One close of an active session.
record Closed (p : Ptr) (s : Session) (w w' : World) : Type 0 where
  returns : close_session p w ≡ some (tt, w')
  session : w'.session p ≡ some (closed_if true s)
  others : (q : Ptr) → q ≢ p → w'.session q ≡ w.session q
  closed : (fd : ℕ) → s.client_fd ≡ some fd → contains w'.net.closed fd ≡ true
  still : (fd : ℕ) → contains w.net.closed fd ≡ true → contains w'.net.closed fd ≡ true

close_session-Closed :
    (p : Ptr) (s : Session) (w : World)
    → w.session p ≡ some s
    → s.active ≡ true
    → (w' : World) × Closed p s w w'
unfolding close_session close_active
close_session-Closed p s w here on = by_fd s.client_fd refl
  where
    by_fd : (o : Option ℕ) → s.client_fd ≡ o → (w' : World) × Closed p s w w'
    by_fd none e = (
      record w { session = update w.session p (some (closed_if true s)) },
      record {
        returns = rw (here, on, e) refl;
        session = ground arith;
        others = λ q ne. ground arith;
        closed = λ fd e'. absurd (cc (e, e'));
        still = λ fd h. h;
      },
    )
    by_fd (some g) e = (
      record {
        session = update w.session p (some (closed_if true s));
        net = record w.net { closed = g ∷ w.net.closed; shut = g ∷ w.net.shut };
      },
      record {
        returns = rw (here, on, e) refl;
        session = ground arith;
        others = λ q ne. ground arith;
        closed = λ fd e'. contains-cons_eq g w.net.closed fd (some-eq-some (sym e ∙ e'));
        still = λ fd h. contains-tail g w.net.closed fd h;
      },
    )

-- Each client is null or may be followed.
abbrev pub Followable : List Ptr → World → Type 0
Followable ps w = (q : Ptr) → contains ps q ≡ true → (q ≡ null) ⊎ Live w q

skip-Closes :
    (p : Ptr) (ps : List Ptr) (w w' : World)
    → ((s : Session) → w.session p ≡ some s → s.active ≡ false)
    → Closes ps w w'
    → Closes (p ∷ ps) w w'
skip-Closes p ps w w' idle c = record {
  session = λ q s here. c.session q s here ∙ ap (λ b. some (closed_if b s)) (same q s here);
  closed = λ q s fd here h. c.closed q s fd here (same q s here ∙ h);
  still = c.still;
}
  where
    same :
        (q : Ptr) (s : Session)
        → w.session q ≡ some s
        → (contains ps q && s.active) ≡ (contains (p ∷ ps) q && s.active)
    same q s here = elim (ℕ_discrete p q) [
      | yes e ↦ rw (idle s (ap w.session e ∙ here), and-false, and-false) refl
      | no ne ↦ ap (λ b. b && s.active) (sym (contains-cons_ne p ps q ne))
    ]

first-Closes :
    (p : Ptr) (ps : List Ptr) (s : Session) (w w₁ w' : World)
    → w.session p ≡ some s
    → s.active ≡ true
    → Closed p s w w₁
    → Closes ps w₁ w'
    → Closes (p ∷ ps) w w'
first-Closes p ps s w w₁ w' here on first rest = record {
  session = λ q t at_q. elim (ℕ_discrete p q) [
    | yes e ↦
        let same = some-eq-some (sym at_q ∙ ap w.session (sym e) ∙ here) in
        ap w'.session (sym e)
        ∙ rest.session p (closed_if true s) first.session
        ∙ rw (and-false, contains-cons_eq p ps q e, same, on) refl
    | no ne ↦
        rest.session q t (first.others q (λ e. ne (sym e)) ∙ at_q)
        ∙ rw (contains-cons_ne p ps q ne) refl
  ];
  closed = λ q t fd at_q h has_fd. elim (ℕ_discrete p q) [
    | yes e ↦
        let same = some-eq-some (sym at_q ∙ ap w.session (sym e) ∙ here) in
        rest.still fd (first.closed fd (ap (λ (x : Session). x.client_fd) (sym same) ∙ has_fd))
    | no ne ↦
        rest.closed q t fd (first.others q (λ e. ne (sym e)) ∙ at_q)
          (ap (λ b. b && t.active) (sym (contains-cons_ne p ps q ne)) ∙ h) has_fd
  ];
  still = λ fd h. rest.still fd (first.still fd h);
}

Followable-after :
    (p : Ptr) (ps : List Ptr) (s : Session) (w w₁ : World)
    → Closed p s w w₁
    → Followable (p ∷ ps) w
    → Followable ps w₁
Followable-after p ps s w w₁ first live q m = elim (ℕ_discrete q p) [
  | yes e ↦ inr (closed_if true s, ap w₁.session e ∙ first.session)
  | no ne ↦ elim (live q (contains-tail p ps q m)) [
    | inl e ↦ inl e
    | inr (t, h) ↦ inr (t, first.others q ne ∙ h)
  ]
]

nothing-Closes : (w : World) → Closes [] w w
nothing-Closes w = record {
  session = λ q s here. rw (contains-nil q) here;
  closed = λ q s fd here h has_fd. absurd (cc (contains-nil q, h));
  still = λ fd h. h;
}

close_all_lem :
    (ps : List Ptr) (w : World)
    → w.session null ≡ none
    → Followable ps w
    → (w' : World) × (close_all ps w ≡ some (tt, w')) × Closes ps w w'
unfolding close_all is_active
close_all_lem [] w null_free live = (w, refl, nothing-Closes w)
close_all_lem (p ∷ ps) w null_free live =
    let (w', e, rest) = close_all_lem ps w null_free (λ q m. live q (contains-tail p ps q m)) in
    elim (live p (contains-cons_eq p ps p refl)) [
      | inl is_null ↦ (
        w',
        rw (nat_eq_of_eq p null is_null) e,
        skip-Closes p ps w w' (λ s here. cc (ap w.session is_null, here, null_free)) rest,
      )
      | inr (s, here) ↦
          let not_null = nat_eq_of_ne p null (λ e. cc (ap w.session e, here, null_free)) in
          elim (Bool-cases s.active) [
            | inr off ↦ (
              w',
              rw (not_null, here, off) e,
              skip-Closes p ps w w'
                  (λ t at_p. ap (λ (x : Session). x.active) (some-eq-some (sym at_p ∙ here)) ∙ off)
                  rest,
            )
            | inl on ↦
                let (w₁, first) = close_session-Closed p s w here on in
                let (w₂, e₂, rest₂) =
                  close_all_lem ps w₁
                    (first.others null (λ e. cc (ap w.session e, here, null_free)) ∙ null_free)
                    (Followable-after p ps s w w₁ first live) in
                (
                  w₂,
                  rw (not_null, here, on, first.returns) e₂,
                  first-Closes p ps s w w₁ w₂ here on first rest₂,
                )
          ]
    ]

-- When each client is null or alive and there is no session at null, shutdown_all() does not fault and
-- leaves an empty manager; the descriptor of every client that was active has been closed and its
-- session is inactive without a descriptor; all other sessions are as they were, and no close that
-- was made before is lost.
pub shutdown_all_lem :
    (b : BroadcastManager) (w : World)
    → w.session null ≡ none
    → Followable b.clients w
    → (w' : World) × (shutdown_all b w ≡ some (init, w')) × Closes b.clients w w'
unfolding shutdown_all init
shutdown_all_lem b w null_free live =
    let (w', e, post) = close_all_lem b.clients w null_free live in (w', rw e refl, post)
