-- ===== src/Core/Session/Lifecycle.antt =====
-- The user name and the descriptor over the life of a session.
use mpcc.Common.{
  ℕ, ◌≡◌, refl, ◌⊎◌, inl, inr, true, false, none, some, List, [], ◌∷◌, Bytes, arith, Bool-cases,
}
use mpcc.Core.Net.{Kernel}
use mpcc.Core.Session.{
  Session, World, Ptr, M, ◌>>=◌, ◌>>◌, pure, update, send_msg, close_session, close_active,
  set_username, destroy, init,
}
use mpcc.Core.Session.Sending.{send_msg_lem, send_msg_inactive}

-- The calls that others make on a session while it exists.
pub data Call : Type 0 where
  sends : Bytes → Call
  closes : Call
  names : Bytes → Call

abbrev pub call : Kernel → Ptr → Call → M (Unit {0})
call k p (sends msg) = do _ ← send_msg k p msg; pure tt
call k p closes = close_session p
call k p (names n) = set_username p n

abbrev pub calls : Kernel → Ptr → List Call → M (Unit {0})
calls k p [] = pure tt
calls k p (c ∷ cs) = do call k p c; calls k p cs

-- The session at `p` may close `fd` once more, or has closed it.
pub record Owns (p fd : ℕ) (before : List ℕ) (w : World) : Type 0 where
  pub at : Session
  pub here : w.session p ≡ some at
  pub once :
      ((at.client_fd ≡ some fd) × (w.net.closed ≡ before))
      ⊎ ((at.client_fd ≡ none) × (at.active ≡ false) × (w.net.closed ≡ fd ∷ before))

module _ (k : Kernel) (p fd : ℕ) (before : List ℕ) where
  abbrev Keeps : M (Unit {0}) → World → Type 0
  Keeps m w = (w' : World) × (m w ≡ some (tt, w')) × Owns p fd before w'

  sends-Owns : (msg : Bytes) (w : World) → Owns p fd before w → Keeps (call k p (sends msg)) w
  sends-Owns msg w o = elim (Bool-cases o.at.active) [
    | inr off ↦ (w, rw (send_msg_inactive k p msg o.at w o.here off), o)
    | inl on ↦
        let (sent, w', e, post) = send_msg_lem k p fd msg o.at w o.here on (ground arith) in
        (
          w',
          rw e,
          record {
            at = record o.at { active = sent };
            here = post.session;
            once = ground (arith, post.closed);
          },
        )
  ]

  idle : (w : World) (o : Owns p fd before w) → o.at.active ≡ false → Keeps (call k p closes) w
  unfolding close_session close_active
  idle w o off = (
    record w { session = update w.session p (some o.at) },
    rw (o.here, off),
    record { at = o.at; here = ground arith; once = o.once },
  )

  closes-Owns : (w : World) → Owns p fd before w → Keeps (call k p closes) w
  unfolding close_session close_active
  closes-Owns w o = elim o.once [
    | inl (open_fd, none_closed) ↦ elim (Bool-cases o.at.active) [
      | inl on ↦ (
        record {
          session = update w.session p (some (record o.at { active = false; client_fd = none }));
          net = record w.net { closed = fd ∷ w.net.closed; shut = fd ∷ w.net.shut };
        },
        rw (o.here, on, open_fd),
        record {
          at = record o.at { active = false; client_fd = none };
          here = ground arith;
          once = ground arith;
        },
      )
      | inr off ↦ idle w o off
    ]
    | inr (no_fd, off, one_closed) ↦ idle w o off
  ]

  names-Owns : (n : Bytes) (w : World) → Owns p fd before w → Keeps (call k p (names n)) w
  unfolding set_username
  names-Owns n w o = elim (Bool-cases o.at.username_set) [
    | inl old ↦ (w, rw (o.here, old), o)
    | inr new ↦ (
      record w {
        session = update w.session p (some (record o.at { username = n; username_set = true }));
      },
      rw (o.here, new),
      record {
        at = record o.at { username = n; username_set = true };
        here = ground arith;
        once = o.once;
      },
    )
  ]

  calls-Owns : (cs : List Call) (w : World) → Owns p fd before w → Keeps (calls k p cs) w
  calls-Owns [] w o = (w, refl, o)
  calls-Owns (c ∷ cs) w o =
      let (w₁, e₁, o₁) = call-Owns c w o in
      let (w₂, e₂, o₂) = calls-Owns cs w₁ o₁ in (w₂, rw e₁ e₂, o₂)
    where
      call-Owns : (c : Call) (w : World) → Owns p fd before w → Keeps (call k p c) w
      call-Owns (sends msg) = sends-Owns msg
      call-Owns closes = closes-Owns
      call-Owns (names n) = names-Owns n

  destroy-closed :
      (w : World)
      → Owns p fd before w
      → (w' : World) × (destroy p w ≡ some (tt, w'))
        × (w'.net.closed ≡ fd ∷ before)
        × (w'.session p ≡ none)
  unfolding destroy
  destroy-closed w o = elim o.once [
    | inl (open_fd, none_closed) ↦ elim (Bool-cases o.at.active) [
      | inl on ↦ (
        record {
          session = update w.session p none;
          net = record w.net { closed = fd ∷ w.net.closed; shut = fd ∷ w.net.shut };
        },
        rw (o.here, on, open_fd),
        ground arith,
        ground arith,
      )
      | inr off ↦ (
        record {
          session = update w.session p none;
          net = record w.net { closed = fd ∷ w.net.closed };
        },
        rw (o.here, off, open_fd),
        ground arith,
        ground arith,
      )
    ]
    | inr (no_fd, off, one_closed) ↦ (
      record w { session = update w.session p none },
      rw (o.here, off, no_fd),
      one_closed,
      ground arith,
    )
  ]

-- Whatever calls of send_msg, close_session and set_username are made on a newly constructed session,
-- in any order and with any outcome of the sends, none of them faults, and when it is deleted its descriptor has been closed exactly once
-- and its address is free.
pub lifetime_closes_once :
    (k : Kernel) (p fd : ℕ) (ip : Bytes) (cs : List Call) (w : World)
    → w.session p ≡ some (init fd ip)
    → (w' : World) × ((do calls k p cs; destroy p) w ≡ some (tt, w'))
      × (w'.net.closed ≡ fd ∷ w.net.closed)
      × (w'.session p ≡ none)
lifetime_closes_once k p fd ip cs w here =
    let start : Owns p fd w.net.closed w = record {
      at = init fd ip;
      here = here;
      once = unfold init in inl (refl, refl);
    } in
    let (w₁, e₁, o₁) = calls-Owns k p fd w.net.closed cs w start in
    let (w₂, e₂, closed, free) = destroy-closed k p fd w.net.closed w₁ o₁ in
    (w₂, rw e₁ e₂, closed, free)
