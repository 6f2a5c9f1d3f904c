-- ===== src/Server/Broadcast/Hearing.antt =====
-- Which clients a sender's frame is meant for, and that the loops of the manager find them.
use mpcc.Common.{
  ℕ, ◌≡◌, refl, ap, ◌∙◌, inl, inr, Bool, true, false, not, ◌&&◌, none, some, List, [], ◌∷◌, Bytes,
  ◌==◌, arith, Bool-cases, Option-cases, contains, NoDup, filter_by, contains-filter_by,
  NoDup-filter_by, subst, contains-cons_eq, contains-tail,
}
use mpcc.Core.Net.{Kernel}
use mpcc.Core.Session.{Session, World, Ptr, null}
use mpcc.Server.Broadcast.{wants, snapshot, deliver}
use mpcc.Server.Broadcast.Delivery.{Sendable, FdsDistinct, Outcome, deliver_lem}

-- The store of sessions: no session at null, an active session has a descriptor, and none shares it.
pub record IsValid (w : World) : Type 0 where
  pub null_free : w.session null ≡ none
  pub has_fd :
      (p : Ptr) (s : Session)
      → w.session p ≡ some s
      → s.active ≡ true
      → (fd : ℕ) × (s.client_fd ≡ some fd)
  pub distinct : FdsDistinct w

-- A pointer that may be followed.
abbrev pub Live : World → Ptr → Type 0
Live w p = (s : Session) × (w.session p ≡ some s)

-- The active sessions of users other than the sender.
unfoldable pub hears : World → Bytes → Ptr → Bool
hears w sender p = elim (w.session p) [
  | none ↦ false
  | some s ↦ s.active && not (s.username == sender)
]

pub hears-at :
    (w : World) (sender : Bytes) (p : Ptr) (s : Session)
    → w.session p ≡ some s
    → hears w sender p ≡ (s.active && not (s.username == sender))
unfolding hears
hears-at w sender p s e = rw (e, hears)

pub wants-hears :
    (w : World) (sender : Bytes) (p : Ptr)
    → Live w p
    → wants sender p w ≡ some (hears w sender p, w)
unfolding wants
wants-hears w sender p (s, e) = elim (Bool-cases s.active) [
  | inl on ↦ rw (hears-at w sender p s e, e, on, e)
  | inr off ↦ rw (hears-at w sender p s e, e, off)
]

pub snapshot-hears :
    (w : World) (sender : Bytes) (ps : List Ptr)
    → ((q : Ptr) → contains ps q ≡ true → Live w q)
    → snapshot sender ps w ≡ some (filter_by (hears w sender) ps, w)
unfolding snapshot filter_by
snapshot-hears w sender [] live = refl
snapshot-hears w sender (p ∷ ps) live = rw (
  wants-hears w sender p (live p (contains-cons_eq p ps p refl)),
  snapshot-hears w sender ps (λ q m. live q (contains-tail p ps q m)),
)

pub Sendable-hears :
    (w : World) (sender : Bytes) (p : Ptr) → IsValid w → hears w sender p ≡ true → Sendable w p
unfolding hears
Sendable-hears w sender p v h = elim (Option-cases (w.session p)) [
  | inl e ↦ absurd (ground arith)
  | inr (s, e) ↦
      let on : s.active ≡ true = ground arith in
      let (fd, has_fd) = v.has_fd p s e on in
      record { at = s; fd = fd; here = e; on = on; has_fd = has_fd }
]

-- Who is reached when `ps` are sent a message of `sender`: what became of every session.
abbrev pub Reaches : Bytes → Bytes → List Ptr → World → World → Type 0
Reaches msg sender ps w w' =
    (q : Ptr) (s : Session) (fd : ℕ)
    → w.session q ≡ some s
    → s.client_fd ≡ some fd
    → Outcome msg w w' q s fd (contains ps q && (s.active && not (s.username == sender)))

pub deliver-hears :
    (k : Kernel) (msg sender : Bytes) (ps : List Ptr) (w : World)
    → IsValid w
    → NoDup ps
    → (w' : World) × (deliver k msg (filter_by (hears w sender) ps) w ≡ some (tt, w'))
      × Reaches msg sender ps w w'
deliver-hears k msg sender ps w v nodup =
    let ready : (q : Ptr) → contains (filter_by (hears w sender) ps) q ≡ true → Sendable w q =
      λ q m.
        Sendable-hears w sender q v (ground (arith, m, contains-filter_by (hears w sender) ps q)) in
    let (w', e, reach) =
      deliver_lem k msg (filter_by (hears w sender) ps) w
        (NoDup-filter_by (hears w sender) ps nodup) ready v.distinct in
    (
      w',
      e,
      λ q s fd here has_fd.
          subst (Outcome msg w w' q s fd)
            (contains-filter_by (hears w sender) ps q
              ∙ ap (◌&&◌ (contains ps q)) (hears-at w sender q s here))
            (reach q s fd here has_fd),
    )
