-- ===== src/Core/UniqueFd.antt =====
-- include/mpcc/core/unique_fd.h: `none` stands for every negative descriptor.
use mpcc.Common.{ℕ, Bool, true, false, Option, none, some, ◌∷◌}
use mpcc.Core.Net.{Net}

abbrev pub UniqueFd : Type 0
UniqueFd = Option ℕ

unfoldable pub valid : UniqueFd → Bool
valid none = false
valid (some n) = true

-- Returns the descriptor and leaves the object empty.
unfoldable pub release : UniqueFd → Option ℕ × UniqueFd
release fd = (fd, none)

unfoldable pub reset : UniqueFd → Option ℕ → Net → UniqueFd × Net
reset none new net = (new, net)
reset (some n) new net = (new, record net { closed = n ∷ net.closed })

unfoldable pub shutdown_rdwr : UniqueFd → Net → Net
shutdown_rdwr none net = net
shutdown_rdwr (some n) net = record net { shut = n ∷ net.shut }

-- The destructor.
unfoldable pub destroy : UniqueFd → Net → Net
unfolding reset
destroy fd net = (reset fd none net).1

-- The move assignment from another object: the target, the source, and what was closed.
unfoldable pub move_assign : UniqueFd → UniqueFd → Net → UniqueFd × UniqueFd × Net
unfolding reset
move_assign fd other net = let (_, net') = reset fd none net in (other, none, net')
