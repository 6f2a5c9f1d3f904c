-- ===== src/Core/Session/Tests.antt =====
-- A kernel that takes one byte at a time, a session, and inputs at which the theorems apply.
use mpcc.Common.{
  ℕ, ◌≡◌, refl, Bool, Option, none, some, [], ◌∷◌, Bytes, codes, arith, nat_eq, if◌then◌else◌, ◌≤◌,
  ◌<◌, length,
}
use mpcc.Core.Net.{Kernel, Net}
use mpcc.Core.Session.{Session, World, send_msg, init, ◌>>◌, destroy}
use mpcc.Core.Session.Sending.{SendPost, send_msg_lem}
use mpcc.Core.Session.Lifecycle.{sends, closes, calls, lifetime_closes_once}

abbrev byte_send : ℕ → Option ℕ → Bytes → Option ℕ
byte_send t none buf = none
byte_send t (some fd) [] = none
byte_send t (some fd) (c ∷ buf) = some 1

byte_send_progress :
    (t : ℕ) (fd : Option ℕ) (buf : Bytes) (n : ℕ)
    → byte_send t fd buf ≡ some n
    → (0 < n) × (n ≤ length buf)
byte_send_progress t none buf n e = absurd (cc e)
byte_send_progress t (some fd) [] n e = absurd (cc e)
byte_send_progress t (some fd) (c ∷ buf) n e = ground arith

abbrev byte_kernel : Kernel
byte_kernel = record {
  send = byte_send;
  send_progress = byte_send_progress;
  send_bad_fd = λ t buf. refl;
}

abbrev idle_net : Net
idle_net = record { now = 0; wire = λ g. []; shut = []; closed = [] }

abbrev fresh : Session
fresh = init 4 (codes "::1")

abbrev one_session : World
one_session = record { session = λ p. if nat_eq p 1 then some fresh else none; net = idle_net }

send_msg_lem_example :
    (sent : Bool) × (w' : World) × (send_msg byte_kernel 1 (codes "OK:\n") one_session
      ≡ some (sent, w'))
    × SendPost byte_kernel 1 4 (codes "OK:\n") fresh one_session w' sent
unfolding init
send_msg_lem_example = send_msg_lem byte_kernel 1 4 (codes "OK:\n") fresh one_session refl refl refl

lifetime_closes_once_example :
    (w' : World) × ((do calls byte_kernel 1 (sends (codes "a") ∷ closes ∷ closes ∷ []); destroy 1)
        one_session
      ≡ some (tt, w'))
    × (w'.net.closed ≡ 4 ∷ [])
    × (w'.session 1 ≡ none)
lifetime_closes_once_example =
    lifetime_closes_once byte_kernel 1 4 (codes "::1") (sends (codes "a") ∷ closes ∷ closes ∷ [])
      one_session refl
