-- ===== src/Util/Threads/Tests.antt =====
-- Threads that are started, moved and joined.
use mpcc.Common.{ℕ, Bool, ◌≡◌, refl, true, false, some, List, [], ◌∷◌, arith}
use mathlib.Core.List.{reverse}
use mpcc.Util.Threads.{Pthreads, Threads, ThreadGroup, running, not_started, new_group, join_all}
use mpcc.Util.Threads.Balance.{times}
use mpcc.Util.Threads.Joined.{
  Call, starts, joins, assigns, renews, run_calls, destroy_all, no_threads, each_thread_joined_once,
}
use mpcc.Util.Threads.Group
use mpcc.Util.Threads.Group.{added, adds, snapshots, join_all_joins_added}

abbrev os : Pthreads
os = record { attr_init = λ t. true; create = λ t. running t }

-- Two objects; the first takes over the thread of the second and joins its own.
abbrev calls : List (Call os)
calls = starts 0 ∷ starts 1 ∷ starts 1 ∷ assigns 0 1 ∷ assigns 0 0 ∷ renews 1 0 ∷ joins 0 ∷ []

each_thread_joined_once_example :
    let (objects, w) = run_calls os calls (λ a. not_started) no_threads in
    let (_, ended) = destroy_all os 2 objects w in times 3 ended.created ≡ times 3 ended.joined
each_thread_joined_once_example = each_thread_joined_once os 2 calls (omega arith) 3

moved :
    let (objects, w) = run_calls os calls (λ a. not_started) no_threads in
    (w.joined ≡ 1 ∷ [])
    × (w.created ≡ 3 ∷ 1 ∷ [])
    × ((objects 1).tid ≡ 3)
    × ((objects 1).started ≡ true)
unfolding run_calls
moved = (refl, refl, refl, refl)

abbrev all : ℕ → Bool
all tid = true

join_all_joins_added_example :
    (g : ThreadGroup) × (w : Threads) × (g' : ThreadGroup) × (w' : Threads) × (Group.run_calls all
        (adds 3 ∷ snapshots ∷ adds 5 ∷ [])
        new_group
        no_threads
      ≡ some (g, w))
    × (join_all all g w ≡ some (g', w'))
    × (g'.tids ≡ [])
    × (g'.locked ≡ false)
    × (reverse w'.joined ≡ added (adds 3 ∷ snapshots ∷ adds 5 ∷ []))
unfolding added
join_all_joins_added_example =
    join_all_joins_added all (adds 3 ∷ snapshots ∷ adds 5 ∷ []) (refl, (refl, tt))
