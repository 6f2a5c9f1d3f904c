-- ===== src/Server/ClientHandler/Invariant.antt =====
-- What holds of the shared state, and code of the handler that keeps it.
use mpcc.Common.{
  ◌≡◌, refl, sym, ap, ◌∙◌, ◌≢◌, inl, inr, Bool, true, false, some, Bytes, contains, if◌then◌else◌,
  some-eq-some, Option-cases,
}
use mpcc.Core.Session.{Session, World, Ptr, null, M}
use mpcc.Core.Session.Sends.{Sends, Alive, Alive-Sends, OnlySends}
use mpcc.Server.Broadcast.{BroadcastManager}
use mpcc.Server.Broadcast.Clients.{ClientsValid}
use mpcc.Server.Broadcast.Hearing.{IsValid}
use mpcc.Server.Rooms.{Rooms}
use mpcc.Server.Rooms.Membership.{RoomsValid, member}
use mpcc.Server.ClientHandler.{State, H, continue, ◌>>=◌, put_world, lift, done, with_state}

-- The state that all handlers share, between two of their calls: valid stores, and a live session
-- for each pointer that a table holds.
pub record Shared (w : World) (b : BroadcastManager) (r : Rooms) : Type 0 where
  pub sessions : IsValid w
  pub clients : ClientsValid b w
  pub rooms : RoomsValid r
  pub members : (room : Bytes) (q : Ptr) → member r room q ≡ true → Alive w q

-- The handler of the session at `p` while it runs.
pub record Serves (p : Ptr) (s : State) : Type 0 where
  pub own : s.session ≡ p
  pub not_null : p ≢ null
  pub live : Alive s.world p
  pub shared : Shared s.world s.broadcaster s.rooms

-- Before the user is known, no table holds the session.
pub record Waits (p : Ptr) (s : State) : Type 0 where
  pub serves : Serves p s
  pub unlisted : contains s.broadcaster.clients p ≡ false

-- What holds after an attempt to register or to log in, by whether it succeeded.
abbrev pub Attempted : Ptr → Bool → State → Type 0
Attempted p true s = Serves p s
Attempted p false s = Waits p s

IsValid-Sends : {w w' : World} → Sends w w' → IsValid w → IsValid w'
IsValid-Sends {w} {w'} c v = record {
  null_free = c.none_kept null v.null_free;
  has_fd = λ p t e on.
      let (s, b, was, same, on_before) = back p t e in
      let (fd, f) = v.has_fd p s was (on_before (ap (λ (x : Session). x.active) (sym same) ∙ on)) in
      (fd, ap (λ (x : Session). x.client_fd) same ∙ f);
  distinct = λ p q s t fd ep eq fp fq.
      let (s', b, was_p, same_p, _) = back p s ep in
      let (t', c', was_q, same_q, _) = back q t eq in
      v.distinct p q s' t' fd was_p was_q (ap (λ (x : Session). x.client_fd) (sym same_p) ∙ fp)
        (ap (λ (x : Session). x.client_fd) (sym same_q) ∙ fq);
}
  where
    back :
        (p : Ptr) (t : Session)
        → w'.session p ≡ some t
        → (s : Session) × (b : Bool) × (w.session p ≡ some s)
          × (t ≡ record s { active = b })
          × (b ≡ true → s.active ≡ true)
    back p t e = elim (Option-cases (w.session p)) [
      | inl gone ↦ absurd (cc (e, c.none_kept p gone))
      | inr (s, was) ↦
          let (b, e', on) = c.kept p s was in (s, b, was, some-eq-some (sym e ∙ e'), on)
    ]

ClientsValid-Sends :
    {w w' : World} (b : BroadcastManager) → Sends w w' → ClientsValid b w → ClientsValid b w'
ClientsValid-Sends b c v = record {
  distinct = v.distinct;
  live = λ p m. Alive-Sends p c (v.live p m);
  named = λ n p e.
      let (m, own) = v.named n p e in
      let (s, was) = v.live p m in
      let (x, e', _) = c.kept p s was in
      (m, λ t at_p. ap (λ (y : Session). y.username) (some-eq-some (sym at_p ∙ e')) ∙ own s was);
}

-- Sends keep the shared state valid.
pub Shared-Sends :
    {w w' : World} {b : BroadcastManager} {r : Rooms} → Sends w w' → Shared w b r → Shared w' b r
Shared-Sends {b = b} c h = record {
  sessions = IsValid-Sends c h.sessions;
  clients = ClientsValid-Sends b c h.clients;
  rooms = h.rooms;
  members = λ room q m. Alive-Sends q c (h.members room q m);
}

pub Serves-Sends :
    {p : Ptr} (s : State) (w' : World)
    → Sends s.world w'
    → Serves p s
    → Serves p (record s { world = w' })
Serves-Sends {p} s w' c h = record {
  own = h.own;
  not_null = h.not_null;
  live = Alive-Sends p c h.live;
  shared = Shared-Sends c h.shared;
}

-- A run of the handler's code that does not fault and establishes `post` of its result and state.
pub record Ok {A : Type 0} (code : H A) (s : State) (post : A → State → Type 0) : Type 0 where
  pub result : A
  pub after : State
  pub runs : code s ≡ some (result, after)
  pub holds : post result after

module _ {A : Type 0} where
  pub Ok-done : {post : A → State → Type 0} (x : A) (s : State) → post x s → Ok (done x) s post
  Ok-done x s h = record { result = x; after = s; runs = refl; holds = h }

  pub Ok-bind :
      {B : Type 0} {middle : A → State → Type 0} {post : B → State → Type 0} (code : H A)
      (next : A → H B) (s : State)
      → Ok code s middle
      → ((x : A) (s' : State) → middle x s' → Ok (next x) s' post)
      → Ok (code >>= next) s post
  Ok-bind code next s first then_next =
      let rest = then_next first.result first.after first.holds in
      record {
        result = rest.result;
        after = rest.after;
        runs = ap (λ o. continue o next) first.runs ∙ rest.runs;
        holds = rest.holds;
      }

  pub Ok-if :
      {post : A → State → Type 0} (b : Bool) (x y : H A) (s : State)
      → Ok x s post
      → Ok y s post
      → Ok (if b then x else y) s post
  Ok-if true x y s hx hy = hx
  Ok-if false x y s hx hy = hy

  pub Ok-lift :
      {post : A → State → Type 0} (code : M A) (s : State)
      → (sent : OnlySends code s.world) → post sent.result (record s { world = sent.after })
      → Ok (lift code) s post
  Ok-lift code s sent h = record {
    result = sent.result;
    after = record s { world = sent.after };
    runs = ap (put_world s) sent.runs;
    holds = h;
  }

  pub Ok-with_state :
      {post : A → State → Type 0} (f : State → H A) (s : State)
      → Ok (f s) s post
      → Ok (with_state f) s post
  Ok-with_state f s h = record {
    result = h.result;
    after = h.after;
    runs = h.runs;
    holds = h.holds;
  }

  -- Code that starts like other code in this state.
  pub Ok-at :
      {post : A → State → Type 0} {code code' : H A} {s : State}
      → Ok code' s post
      → code s ≡ code' s
      → Ok code s post
  Ok-at h same = record {
    result = h.result;
    after = h.after;
    runs = same ∙ h.runs;
    holds = h.holds;
  }
