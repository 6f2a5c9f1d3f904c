-- ===== src/Core/Net.antt =====
-- The sockets as the program sees them. The operating system's ::send is a parameter; ::shutdown
-- and ::close are recorded in the order in which they are called.
use mpcc.Common.{
  ℕ, suc, ◌≤◌, ◌<◌, ◌≡◌, Option, none, some, List, ◌++◌, Bytes, length, nat_eq, if◌then◌else◌,
}

-- What ::send answers at its t-th call on a descriptor with a buffer that is not empty: how many
-- bytes it took, or `none` for a result of 0 or -1. No descriptor is `none` (the -1 of UniqueFd).
pub record Kernel : Type 0 where
  pub send : ℕ → Option ℕ → Bytes → Option ℕ
  pub send_progress :
      (t : ℕ) (fd : Option ℕ) (buf : Bytes) (n : ℕ)
      → send t fd buf ≡ some n
      → (0 < n) × (n ≤ length buf)
  pub send_bad_fd : (t : ℕ) (buf : Bytes) → send t none buf ≡ none

pub record Net : Type 0 where
  -- the calls of ::send so far
  pub now : ℕ
  -- what ::send has taken on each descriptor
  pub wire : ℕ → Bytes
  -- the descriptors given to ::shutdown(SHUT_RDWR) and to ::close, the latest first
  pub shut : List ℕ
  pub closed : List ℕ

-- One call of ::send that took `s`, and one that failed.
abbrev pub took : Option ℕ → Bytes → Net → Net
took none s net = record net { now = suc net.now }
took (some fd) s net = record net {
  now = suc net.now;
  wire = λ g. if nat_eq g fd then net.wire g ++ s else net.wire g;
}

abbrev pub refused : Net → Net
refused net = record net { now = suc net.now }
