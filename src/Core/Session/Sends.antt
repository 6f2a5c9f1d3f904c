-- ===== src/Core/Session/Sends.antt =====
-- What any number of sends does to the store of sessions, whatever the kernel answers.
use mpcc.Common.{
  ◌≡◌, refl, sym, ◌∙◌, inl, inr, Bool, true, false, none, some, Bytes, Bool-cases, ℕ_discrete,
  length, if◌then◌else◌, nat_eq_of_eq, nat_eq_of_ne, some-eq-some, ap, arith,
}
use mpcc.Core.Net.{Kernel}
use mpcc.Core.Session.{
  Session, World, Ptr, M, ◌>>=◌, and_then, pure, update, mark_sent, send_msg, is_active,
  get_username,
}
use mpcc.Core.Session.Sending.{send_all_returns}

-- No session comes or goes, and none changes but that an active one may have become inactive.
pub record Sends (w w' : World) : Type 0 where
  pub kept :
      (q : Ptr) (s : Session)
      → w.session q ≡ some s
      → (b : Bool) × (w'.session q ≡ some (record s { active = b })) × (b ≡ true → s.active ≡ true)
  pub none_kept : (q : Ptr) → w.session q ≡ none → w'.session q ≡ none

pub Sends-refl : (w : World) → Sends w w
Sends-refl w = record { kept = λ q s e. (s.active, e, λ h. h); none_kept = λ q e. e }

pub Sends-trans : {w w₁ w₂ : World} → Sends w w₁ → Sends w₁ w₂ → Sends w w₂
Sends-trans a b = record {
  kept = λ q s e.
      let (x, e₁, on₁) = a.kept q s e in
      let (y, e₂, on₂) = b.kept q (record s { active = x }) e₁ in (y, e₂, λ h. on₁ (on₂ h));
  none_kept = λ q e. b.none_kept q (a.none_kept q e);
}

-- A pointer that may be followed.
abbrev pub Alive : World → Ptr → Type 0
Alive w p = (s : Session) × (w.session p ≡ some s)

pub Alive-Sends : {w w' : World} (p : Ptr) → Sends w w' → Alive w p → Alive w' p
Alive-Sends p c (s, e) = let (b, e', _) = c.kept p s e in (record s { active = b }, e')

-- Code that does not fault in a world and does no more than send.
pub record OnlySends {A : Type 0} (code : M A) (w : World) : Type 0 where
  pub result : A
  pub after : World
  pub runs : code w ≡ some (result, after)
  pub sends : Sends w after

module _ {A : Type 0} where
  pub OnlySends-pure : (x : A) (w : World) → OnlySends (pure x) w
  OnlySends-pure x w = record { result = x; after = w; runs = refl; sends = Sends-refl w }

  -- Code that reads only.
  pub OnlySends-read : (code : M A) (w : World) (x : A) → code w ≡ some (x, w) → OnlySends code w
  OnlySends-read code w x e = record { result = x; after = w; runs = e; sends = Sends-refl w }

  pub OnlySends-bind :
      {B : Type 0} (code : M A) (next : A → M B) (w : World)
      → OnlySends code w
      → ((x : A) (w' : World) → Sends w w' → OnlySends (next x) w')
      → OnlySends (code >>= next) w
  OnlySends-bind code next w first then_next =
      let rest = then_next first.result first.after first.sends in
      record {
        result = rest.result;
        after = rest.after;
        runs = ap (λ o. and_then o next) first.runs ∙ rest.runs;
        sends = Sends-trans first.sends rest.sends;
      }

  pub OnlySends-if :
      (b : Bool) (x y : M A) (w : World)
      → OnlySends x w
      → OnlySends y w
      → OnlySends (if b then x else y) w
  OnlySends-if true x y w hx hy = hx
  OnlySends-if false x y w hx hy = hy

pub OnlySends-is_active : (p : Ptr) (w : World) → Alive w p → OnlySends (is_active p) w
unfolding is_active
OnlySends-is_active p w (s, e) = OnlySends-read (is_active p) w s.active (rw e refl)

pub OnlySends-get_username : (p : Ptr) (w : World) → Alive w p → OnlySends (get_username p) w
unfolding get_username
OnlySends-get_username p w (s, e) = OnlySends-read (get_username p) w s.username (rw e refl)

-- A send to a live session does not fault.
pub OnlySends-send_msg :
    (k : Kernel) (p : Ptr) (msg : Bytes) (w : World) → Alive w p → OnlySends (send_msg k p msg) w
unfolding send_msg
OnlySends-send_msg k p msg w (s, here) = elim (Bool-cases s.active) [
  | inr off ↦ OnlySends-read (send_msg k p msg) w false (rw (here, off) refl)
  | inl on ↦
      let (sent, net, done) = send_all_returns k (length msg) s.client_fd msg w.net (omega arith) in
      let s' : Session = record s { active = sent } in
      record {
        result = sent;
        after = record { session = update w.session p (some s'); net = net };
        runs = rw (here, on) (ap (mark_sent p s w) done);
        sends = record {
          kept = λ q t e. elim (ℕ_discrete q p) [
            | yes same ↦
                let eq : s ≡ t = some-eq-some (sym here ∙ ap w.session (sym same) ∙ e) in
                (
                  sent,
                  rw (nat_eq_of_eq q p same)
                      (ap (λ (x : Session). some (record x { active = sent })) eq),
                  λ _. ap (λ (x : Session). x.active) (sym eq) ∙ on,
                )
            | no ne ↦ (t.active, rw (nat_eq_of_ne q p ne) e, λ h. h)
          ];
          none_kept = λ q e. elim (ℕ_discrete q p) [
            | yes same ↦ absurd (cc (here, e, ap w.session same))
            | no ne ↦ rw (nat_eq_of_ne q p ne) e
          ];
        };
      }
]
