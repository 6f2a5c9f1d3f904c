-- ===== src/Util/Threads.antt =====
-- include/mpcc/util/thread_handler.h and include/mpcc/core/lock_guard.h. The answers of pthread are a
-- parameter; which threads it started and joined is recorded.
pub mod Balance
pub mod Joined
pub mod Group
mod Tests
use mpcc.Common.{
  ℕ, zero, suc, ◌+◌, ◌-◌, ◌≡◌, Bool, true, false, not, ◌&&◌, Option, none, some, List, [], ◌∷◌,
  ◌++◌, nat_eq, if◌then◌else◌,
}

-- What pthread_create answers: the new thread, or an error, `suc n`.
pub data Created : Type 0 where
  running failed : ℕ → Created

-- The answers to the calls made at a given time.
pub record Pthreads : Type 0 where
  pub attr_init : ℕ → Bool
  pub create : ℕ → Created

-- The threads created and joined so far, the latest first, and the attributes initialised and not yet
-- destroyed.
pub record Threads : Type 0 where
  pub now : ℕ
  pub created : List ℕ
  pub joined : List ℕ
  pub attrs : ℕ

-- PThreadAttr, by its member ok_.
unfoldable pub init_attr : Pthreads → Threads → Bool × Threads
init_attr os w =
    let ok = os.attr_init w.now in
    (ok, record w { now = suc w.now; attrs = if ok then suc w.attrs else w.attrs })

unfoldable pub destroy_attr : Bool → Threads → Threads
destroy_attr true w = record w { attrs = w.attrs - 1 }
destroy_attr false w = w

abbrev pub record_created : Created → Threads → Threads
record_created (running tid) w = record w { now = suc w.now; created = tid ∷ w.created }
record_created (failed n) w = record w { now = suc w.now }

-- pthread_create
abbrev pub create : Pthreads → Threads → Created × Threads
create os w = let answer = os.create w.now in (answer, record_created answer w)

-- pthread_join, of a thread that has ended
abbrev pub join_thread : ℕ → Threads → Threads
join_thread tid w = record w { joined = tid ∷ w.joined }

pub record JoinableThread : Type 0 where
  pub tid : ℕ
  pub started : Bool

-- The default constructor, and what a move leaves behind.
abbrev pub not_started : JoinableThread
not_started = record { tid = 0; started = false }

unfoldable pub started_by : JoinableThread → Created → ℕ × JoinableThread
started_by t (running tid) = (0, record { tid = tid; started = true })
started_by t (failed n) = (suc n, t)

unfoldable pub start_with :
    Pthreads → JoinableThread → Bool × Threads → ℕ × JoinableThread × Threads
unfolding started_by destroy_attr
start_with os t (false, w) = (1, t, w)
start_with os t (true, w) =
    let (answer, w') = create os w in
    let (rc, t') = started_by t answer in (rc, t', destroy_attr true w')

unfoldable pub start : Pthreads → JoinableThread → Threads → ℕ × JoinableThread × Threads
unfolding start_with init_attr
start os t w = if t.started then (0, t, w) else start_with os t (init_attr os w)

unfoldable pub join : JoinableThread → Threads → JoinableThread × Threads
join t w = if not t.started then (t, w) else (not_started, join_thread t.tid w)

-- The destructor of JoinableThread; what it leaves is not read again.
unfoldable pub destroy : JoinableThread → Threads → JoinableThread × Threads
unfolding join
destroy t w = join t w

-- The objects by their addresses.
abbrev pub Objects : Type 0
Objects = ℕ → JoinableThread

abbrev pub put : Objects → ℕ → JoinableThread → Objects
put objects a t b = if nat_eq b a then t else objects b

-- The move constructor, at an address where no object is.
unfoldable pub move_construct : ℕ → ℕ → Objects → Objects
move_construct this other objects = put (put objects this (objects other)) other not_started

-- The move assignment; `this` and `other` may be the same object.
unfoldable pub move_assign : ℕ → ℕ → Objects → Threads → Objects × Threads
unfolding join
move_assign this other objects w =
    if nat_eq this other
    then (objects, w)
    else (let (t, w') = join (objects this) w in
        (put (put objects this (objects other)) other not_started, w'))

-- ThreadGroup, and whether its mutex is held.
pub record ThreadGroup : Type 0 where
  pub locked : Bool
  pub tids : List ℕ

unfoldable pub new_group : ThreadGroup
new_group = record { locked = false; tids = [] }

-- LockGuard. To lock a mutex that the caller holds never returns, `none`.
unfoldable pub acquire : ThreadGroup → Option ThreadGroup
acquire g = if g.locked then none else some (record g { locked = true })

unfoldable pub unlock : ThreadGroup → ThreadGroup
unlock g = record g { locked = false }

-- A block with a LockGuard, which answers from the threads and replaces them.
abbrev pub guarded :
    {A : Type 0} → (List ℕ → A × List ℕ) → Option ThreadGroup → Option (A × ThreadGroup)
guarded block none = none
guarded block (some g) = let (x, tids) = block g.tids in some (x, unlock (record g { tids = tids }))

unfoldable pub add : ℕ → ThreadGroup → Option (Unit {0} × ThreadGroup)
unfolding acquire unlock
add tid g = guarded (λ tids. (tt, tids ++ tid ∷ [])) (acquire g)

unfoldable pub snapshot : ThreadGroup → Option (List ℕ × ThreadGroup)
unfolding acquire unlock
snapshot g = guarded (λ tids. (tids, tids)) (acquire g)

-- The loop of join_all. `ends` says which threads end; pthread_join of one that does not never
-- returns, `none`.
unfoldable pub join_each : (ℕ → Bool) → List ℕ → Threads → Option Threads
join_each ends [] w = some w
join_each ends (tid ∷ tids) w =
    let rest = join_each ends tids (join_thread tid w) in if ends tid then rest else none

abbrev pub with_group : ThreadGroup → Option Threads → Option (ThreadGroup × Threads)
with_group g none = none
with_group g (some w) = some (g, w)

unfoldable pub join_copy :
    (ℕ → Bool) → Threads → Option (List ℕ × ThreadGroup) → Option (ThreadGroup × Threads)
unfolding join_each
join_copy ends w none = none
join_copy ends w (some (copy, g)) = with_group g (join_each ends copy w)

unfoldable pub join_all : (ℕ → Bool) → ThreadGroup → Threads → Option (ThreadGroup × Threads)
unfolding join_copy acquire unlock
join_all ends g w = join_copy ends w (guarded (λ tids. (tids, [])) (acquire g))
