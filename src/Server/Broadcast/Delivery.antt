-- ===== src/Server/Broadcast/Delivery.antt =====
-- Who receives a frame, and who does not.
use mpcc.Common.{
  ℕ, ◌≡◌, refl, sym, ap, ◌∙◌, ◌≢◌, Bool, true, false, some, List, [], ◌∷◌, Bytes, arith, contains,
  NoDup, ℕ_discrete, some-eq-some, subst, contains-cons_eq, contains-cons_ne, contains-tail,
  contains-nil,
}
use mpcc.Core.Net.{Kernel}
use mpcc.Core.Session.{Session, World, Ptr}
use mpcc.Core.Session.Sending.{Sent, SendPost, send_msg_lem}
use mpcc.Server.Broadcast.{deliver}

-- The session at `p` exists, is active and has a descriptor.
pub record Sendable (w : World) (p : Ptr) : Type 0 where
  pub at : Session
  pub fd : ℕ
  pub here : w.session p ≡ some at
  pub on : at.active ≡ true
  pub has_fd : at.client_fd ≡ some fd

-- No two sessions share a descriptor.
abbrev pub FdsDistinct : World → Type 0
FdsDistinct w =
    (p q : Ptr) (s t : Session) (fd : ℕ)
    → w.session p ≡ some s
    → w.session q ≡ some t
    → s.client_fd ≡ some fd
    → t.client_fd ≡ some fd
    → p ≡ q

-- What became of the session `s` at `q` with descriptor `fd`: if it was a target, `msg` was sent to
-- it once, and it is active still exactly if all of it got through; if not, nothing was sent.
abbrev pub Outcome : Bytes → World → World → Ptr → Session → ℕ → Bool → Type 0
Outcome msg w w' q s fd true =
    (sent : Bool) × (w'.session q ≡ some (record s { active = sent }))
    × Sent msg (w.net.wire fd) (w'.net.wire fd) sent
Outcome msg w w' q s fd false = (w'.session q ≡ some s) × (w'.net.wire fd ≡ w.net.wire fd)

module _ {k : Kernel} {p fd : ℕ} {msg : Bytes} {s : Session} {w w' : World} {sent : Bool}
    (here : w.session p ≡ some s) (post : SendPost k p fd msg s w w' sent) where
  -- A send changes no session's descriptor.
  fd_before :
      (a : Ptr) (x : Session)
      → w'.session a ≡ some x
      → (y : Session) × (w.session a ≡ some y) × (y.client_fd ≡ x.client_fd)
  fd_before a x e = elim (ℕ_discrete a p) [
    | yes same ↦ (s, ap w.session same ∙ here, ground (arith, post.session, ap w'.session same))
    | no other ↦ (x, sym (post.other_sessions a other) ∙ e, refl)
  ]

  FdsDistinct-send : FdsDistinct w → FdsDistinct w'
  FdsDistinct-send distinct a b x y g ha hb fa fb =
      let (x', ea, ga) = fd_before a x ha in
      let (y', eb, gb) = fd_before b y hb in distinct a b x' y' g ea eb (ga ∙ fa) (gb ∙ fb)

  pub Sendable-send : (q : Ptr) → q ≢ p → Sendable w q → Sendable w' q
  Sendable-send q ne h = record {
    at = h.at;
    fd = h.fd;
    here = post.other_sessions q ne ∙ h.here;
    on = h.on;
    has_fd = h.has_fd;
  }

  -- A later delivery that is not to `p` leaves it as this send did.
  Outcome-first :
      (w₂ : World) (q : Ptr) (x : Session) (g : ℕ)
      → s.client_fd ≡ some fd
      → w.session q ≡ some x
      → x.client_fd ≡ some g
      → p ≡ q
      → Outcome msg w' w₂ p (record s { active = sent }) fd false
      → Outcome msg w w₂ q x g true
  Outcome-first w₂ q x g has_fd at_q open_fd same (at₂, wire₂) =
      subst (λ g. Outcome msg w w₂ q x g true) same_fd
        (subst (λ x. Outcome msg w w₂ q x fd true) same_session
          (subst (λ q. Outcome msg w w₂ q s fd true) same
            (
              sent,
              at₂,
              subst (λ after. Sent msg (w.net.wire fd) after sent) (sym wire₂) post.wire,
            )))
    where
      same_session : s ≡ x
      same_session = some-eq-some (sym here ∙ ap w.session same ∙ at_q)

      same_fd : fd ≡ g
      same_fd = some-eq-some (sym has_fd ∙ ap (λ (y : Session). y.client_fd) same_session ∙ open_fd)

  -- A later delivery treats the other sessions as if this send had not been.
  Outcome-later :
      (w₂ : World) (q : Ptr) (x : Session) (g : ℕ) (target : Bool)
      → g ≢ fd
      → Outcome msg w' w₂ q x g target
      → Outcome msg w w₂ q x g target
  Outcome-later w₂ q x g true ne (b, at₂, sent₂) =
      (b, at₂, subst (λ before. Sent msg before (w₂.net.wire g) b) (post.other_wires g ne) sent₂)
  Outcome-later w₂ q x g false ne (at₂, wire₂) = (at₂, wire₂ ∙ post.other_wires g ne)

module _ (k : Kernel) (msg : Bytes) where
  -- Sending to distinct sessions reaches each of them once and nobody else.
  pub deliver_lem :
      (ps : List Ptr) (w : World)
      → NoDup ps
      → ((q : Ptr) → contains ps q ≡ true → Sendable w q)
      → FdsDistinct w
      → (w' : World) × (deliver k msg ps w ≡ some (tt, w'))
        × ((q : Ptr) (s : Session) (fd : ℕ)
            → w.session q ≡ some s
            → s.client_fd ≡ some fd
            → Outcome msg w w' q s fd (contains ps q))
  unfolding deliver
  deliver_lem [] w nodup ready distinct =
      (w, refl, λ q s fd here open_fd. rw contains-nil (here, refl))
  deliver_lem (p ∷ ps) w (new, nodup) ready distinct =
      let r = ready p (contains-cons_eq p ps p refl) in
      let (sent, w₁, e₁, post) = send_msg_lem k p r.fd msg r.at w r.here r.on r.has_fd in
      let ready₁ : (q : Ptr) → contains ps q ≡ true → Sendable w₁ q = λ q m.
        Sendable-send r.here post q (λ e. cc (m, new, ap (contains ps) e))
          (ready q (contains-tail p ps q m)) in
      let (w₂, e₂, rest) = deliver_lem ps w₁ nodup ready₁ (FdsDistinct-send r.here post distinct) in
      (
        w₂,
        rw e₁ e₂,
        λ q s fd here open_fd. elim (ℕ_discrete p q) [
          | yes same ↦ rw (contains-cons_eq p ps q same) (
              Outcome-first r.here post w₂ q s fd r.has_fd here open_fd same (
                subst (Outcome msg w₁ w₂ p (record r.at { active = sent }) r.fd) new
                  (rest p (record r.at { active = sent }) r.fd post.session r.has_fd)))
          | no other ↦ rw (contains-cons_ne p ps q other) (
              Outcome-later r.here post w₂ q s fd (contains ps q)
                (λ e.
                  other (distinct p q r.at s fd r.here here (r.has_fd ∙ ap some (sym e)) open_fd))
                (rest q s fd (post.other_sessions q (λ e. other (sym e)) ∙ here) open_fd))
        ],
      )
