-- ===== src/Core/Session/Naming.antt =====
-- The user name is set once.
use mpcc.Common.{
  ℕ, ◌≡◌, refl, true, false, some, List, [], ◌∷◌, Bytes, arith, Bool-cases, inl, inr, length, ap,
}
use mpcc.Core.Net.{Kernel}
use mpcc.Core.Session.{
  Session, World, ◌>>◌, update, and_then, pure, mark_sent, send_msg, close_session, close_active,
  set_username, get_username,
}
use mpcc.Core.Session.Sending.{send_all_returns}
use mpcc.Core.Session.Lifecycle.{Call, sends, closes, names, call, calls}

record Named (p : ℕ) (n : Bytes) (w : World) : Type 0 where
  at : Session
  here : w.session p ≡ some at
  set : at.username_set ≡ true
  name : at.username ≡ n

module _ (k : Kernel) (p : ℕ) (n : Bytes) where
  call-Named :
      (c : Call) (w : World)
      → Named p n w
      → (w' : World) × (call k p c w ≡ some (tt, w')) × Named p n w'
  unfolding send_msg
  call-Named (sends msg) w o = elim (Bool-cases o.at.active) [
    | inr off ↦ (w, rw (o.here, off), o)
    | inl on ↦
        let (sent, net, done) =
          send_all_returns k (length msg) o.at.client_fd msg w.net (omega arith) in
        (
          record { session = update w.session p (some (record o.at { active = sent })); net = net },
          rw (o.here, on) (ap (λ x. and_then (mark_sent p o.at w x) (λ _. pure tt)) done),
          record {
            at = record o.at { active = sent };
            here = ground arith;
            set = o.set;
            name = o.name;
          },
        )
  ]
  call-Named closes w o =
      let done = close_active o.at w.net in
      (
        record { session = update w.session p (some done.0); net = done.1 },
        unfold close_session in rw o.here,
        record {
          at = done.0;
          here = ground arith;
          set = unfold close_active in ground (arith, o.set);
          name = unfold close_active in ground (arith, o.name);
        },
      )
  call-Named (names m) w o = (w, unfold set_username in rw (o.here, o.set), o)

  calls-Named :
      (cs : List Call) (w : World)
      → Named p n w
      → (w' : World) × (calls k p cs w ≡ some (tt, w')) × Named p n w'
  calls-Named [] w o = (w, refl, o)
  calls-Named (c ∷ cs) w o =
      let (w₁, e₁, o₁) = call-Named c w o in
      let (w₂, e₂, o₂) = calls-Named cs w₁ o₁ in (w₂, rw e₁ e₂, o₂)

-- The first set_username decides: on a session whose name was not set, get_username answers that
-- name after any further calls of send_msg, close_session and set_username.
pub set_username_once :
    (k : Kernel) (p : ℕ) (n : Bytes) (cs : List Call) (s : Session) (w : World)
    → w.session p ≡ some s
    → s.username_set ≡ false
    → (w' : World) × ((do set_username p n; calls k p cs; get_username p) w ≡ some (n, w'))
set_username_once k p n cs s w here unset =
    let s' : Session = record s { username = n; username_set = true } in
    let w₁ : World = record w { session = update w.session p (some s') } in
    let (w₂, e₂, o₂) =
      calls-Named k p n cs w₁ (record { at = s'; here = ground arith; set = refl; name = refl }) in
    (w₂, unfold set_username get_username in rw (here, unset, e₂, o₂.here, o₂.name))
