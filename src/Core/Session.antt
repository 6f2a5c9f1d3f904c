-- ===== src/Core/Session.antt =====
-- include/mpcc/core/session.h, src/core/session.cpp and the interface ISession of interfaces.h.
-- Sessions live at addresses. A read through a null or a freed address is a fault, `none`.
pub mod Sending
pub mod Lifecycle
pub mod Naming
pub mod Sends
mod Tests
use mpcc.Common.{
  ℕ, zero, suc, ◌≡◌, Bool, true, false, Option, none, some, List, [], ◌∷◌, Bytes, codes, take, drop,
  length, nat_eq, if◌then◌else◌, is_empty,
}
use mpcc.Core.Net.{Kernel, Net, took, refused}
use mpcc.Core.UniqueFd
use mpcc.Core.UniqueFd.{UniqueFd}

abbrev pub Ptr : Type 0
Ptr = ℕ

abbrev pub null : Ptr
null = 0

pub record Session : Type 0 where
  pub client_fd : UniqueFd
  pub ip_addr : Bytes
  pub username : Bytes
  pub username_set : Bool
  pub active : Bool

pub record World : Type 0 where
  pub session : Ptr → Option Session
  pub net : Net

-- Code that reads and writes sessions; `none` is a fault.
abbrev pub M : Type 0 → Type 0
M A = World → Option (A × World)

abbrev pub and_then : {A B : Type 0} → Option (A × World) → (A → M B) → Option (B × World)
and_then (some (x, after)) go_on = go_on x after
and_then none go_on = none

infixl 5 ◌>>=◌ ◌>>◌
abbrev pub ◌>>=◌ : {A B : Type 0} → M A → (A → M B) → M B
◌>>=◌ first go_on before = and_then (first before) go_on

abbrev pub ◌>>◌ : {B : Type 0} → M (Unit {0}) → M B → M B
first >> second = first >>= λ _. second

abbrev pub update : (Ptr → Option Session) → Ptr → Option Session → Ptr → Option Session
update f p s q = if nat_eq q p then s else f q

abbrev pub with_world : Option Session → World → Option (Session × World)
with_world none w = none
with_world (some s) w = some (s, w)

abbrev pub pure : {A : Type 0} → A → M A
pure x w = some (x, w)

-- The member access `p->`.
abbrev pub load : Ptr → M Session
load p w = with_world (w.session p) w

abbrev pub store : Ptr → Session → M (Unit {0})
store p s w = some (tt, record w { session = update w.session p (some s) })

-- The constructor.
unfoldable pub init : ℕ → Bytes → Session
init client_fd ip_addr = record {
  client_fd = some client_fd;
  ip_addr = ip_addr;
  username = codes "(unauthenticated)";
  username_set = false;
  active = true;
}

-- The loop of send_msg. `rest` is buf + total, the part not yet sent. `none` is to run out of fuel, a
-- fault: every round that goes on has sent a byte at least, so that `length rest` rounds are enough.
unfoldable pub send_all : Kernel → ℕ → UniqueFd → Bytes → Net → Option (Bool × Net)
send_all k fuel fd [] net = some (true, net)
send_all k zero fd (c ∷ rest) net = none
send_all k (suc fuel) fd (c ∷ rest) net = elim (k.send net.now fd (c ∷ rest)) [
  | none ↦ some (false, refused net)
  | some n ↦ send_all k fuel fd (drop n (c ∷ rest)) (took fd (take n (c ∷ rest)) net)
]

abbrev pub mark_sent : Ptr → Session → World → Option (Bool × Net) → Option (Bool × World)
mark_sent p s w none = none
mark_sent p s w (some (sent, net)) =
    some
      (sent, record { session = update w.session p (some (record s { active = sent })); net = net })

-- A failed send clears the flag; the descriptor stays open.
unfoldable pub send_active : Kernel → Ptr → Bytes → Session → M Bool
unfolding send_all
send_active k p msg s w = mark_sent p s w (send_all k (length msg) s.client_fd msg w.net)

unfoldable pub send_msg : Kernel → Ptr → Bytes → M Bool
unfolding send_active
send_msg k p msg = do s ← load p; if s.active then send_active k p msg s else pure false

-- The compare-and-exchange lets one caller through, who shuts the socket down and closes it.
unfoldable pub close_active : Session → Net → Session × Net
unfolding UniqueFd.shutdown_rdwr UniqueFd.reset
close_active s net =
    if s.active
    then (let (fd, net') =
          UniqueFd.reset s.client_fd none (UniqueFd.shutdown_rdwr s.client_fd net) in
        (record s { active = false; client_fd = fd }, net'))
    else (s, net)

unfoldable pub close_loaded : Ptr → Session → M (Unit {0})
unfolding close_active
close_loaded p s w =
    let (s', net) = close_active s w.net in
    some (tt, record { session = update w.session p (some s'); net = net })

unfoldable pub close_session : Ptr → M (Unit {0})
unfolding close_loaded
close_session p = do s ← load p; close_loaded p s

unfoldable pub get_fd : Ptr → M (Option ℕ)
get_fd p = do s ← load p; pure s.client_fd

unfoldable pub get_username : Ptr → M Bytes
get_username p = do s ← load p; pure s.username

unfoldable pub get_ip : Ptr → M Bytes
get_ip p = do s ← load p; pure s.ip_addr

unfoldable pub is_active : Ptr → M Bool
is_active p = do s ← load p; pure s.active

-- Only the first call has an effect.
unfoldable pub set_username : Ptr → Bytes → M (Unit {0})
set_username p username = do
  s ← load p
  if s.username_set
      then pure tt
      else store p (record s { username = username; username_set = true })

-- `delete`: the destructor of Session, then that of its UniqueFd, and the address is free.
unfoldable pub destroy_loaded : Ptr → Session → M (Unit {0})
unfolding close_active UniqueFd.destroy
destroy_loaded p s w =
    let (s', net) = close_active s w.net in
    some (tt, record { session = update w.session p none; net = UniqueFd.destroy s'.client_fd net })

unfoldable pub destroy : Ptr → M (Unit {0})
unfolding destroy_loaded
destroy p = do s ← load p; destroy_loaded p s
