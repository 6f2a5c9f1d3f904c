-- ===== src/Util/Threads/Group.antt =====
-- A thread group joins its threads in the order in which they were added.
use mathlib.Core.List.{reverse, reverse-append, reverse-reverse}
use mpcc.Common.{
  ℕ, ◌≡◌, refl, sym, ap, ◌∙◌, subst, Bool, true, false, Option, none, some, List, [], ◌∷◌, ◌++◌,
  append_assoc, append-nil,
}
use mpcc.Util.Threads.{
  Threads, ThreadGroup, new_group, add, snapshot, join_all, join_each, join_copy, acquire, unlock,
  join_thread, with_group,
}
use mpcc.Util.Threads.Joined.{no_threads}

pub data GroupCall : Type 0 where
  adds : ℕ → GroupCall
  snapshots joins : GroupCall

abbrev and_group :
    {A : Type 0} → Threads → Option (A × ThreadGroup) → Option (ThreadGroup × Threads)
and_group w none = none
and_group w (some (x, g)) = some (g, w)

-- Every one of these threads ends.
abbrev pub AllEnd : (ℕ → Bool) → List ℕ → Type 0
AllEnd ends [] = Unit
AllEnd ends (tid ∷ tids) = (ends tid ≡ true) × AllEnd ends tids

AllEnd-append :
    (ends : ℕ → Bool) (a b : List ℕ) → AllEnd ends a → AllEnd ends b → AllEnd ends (a ++ b)
AllEnd-append ends [] b h k = k
AllEnd-append ends (tid ∷ a) b (h, hs) k = (h, AllEnd-append ends a b hs k)

AllEnd-left : (ends : ℕ → Bool) (a b : List ℕ) → AllEnd ends (a ++ b) → AllEnd ends a
AllEnd-left ends [] b h = tt
AllEnd-left ends (tid ∷ a) b (h, hs) = (h, AllEnd-left ends a b hs)

AllEnd-right : (ends : ℕ → Bool) (a b : List ℕ) → AllEnd ends (a ++ b) → AllEnd ends b
AllEnd-right ends [] b h = h
AllEnd-right ends (tid ∷ a) b (h, hs) = AllEnd-right ends a b hs

abbrev pub call : (ℕ → Bool) → GroupCall → ThreadGroup → Threads → Option (ThreadGroup × Threads)
call ends (adds tid) g w = and_group w (add tid g)
call ends snapshots g w = and_group w (snapshot g)
call ends joins g w = join_all ends g w

abbrev and_then :
    Option (ThreadGroup × Threads)
    → (ThreadGroup → Threads → Option (ThreadGroup × Threads))
    → Option (ThreadGroup × Threads)
and_then none next = none
and_then (some (g, w)) next = next g w

unfoldable pub run_calls :
    (ℕ → Bool) → List GroupCall → ThreadGroup → Threads → Option (ThreadGroup × Threads)
run_calls ends [] g w = some (g, w)
run_calls ends (x ∷ calls) g w = and_then (call ends x g w) (run_calls ends calls)

-- The threads that are added, in their order.
unfoldable pub added : List GroupCall → List ℕ
added [] = []
added (adds tid ∷ calls) = tid ∷ added calls
added (snapshots ∷ calls) = added calls
added (joins ∷ calls) = added calls

-- The threads after a loop that has joined all of these.
abbrev pub joined_all : List ℕ → Threads → Threads
joined_all tids w = record w { joined = reverse tids ++ w.joined }

pub join_each-joined :
    (ends : ℕ → Bool) (tids : List ℕ) (w : Threads)
    → AllEnd ends tids
    → join_each ends tids w ≡ some (joined_all tids w)
unfolding join_each
join_each-joined ends [] w h = refl
join_each-joined ends (tid ∷ tids) w (h, hs) =
    rw h (join_each-joined ends tids (join_thread tid w) hs)
    ∙ ap (λ x. some (record w { joined = x }))
        (sym (append_assoc (reverse tids) (tid ∷ []) w.joined)
          ∙ ap (λ x. x ++ w.joined) (sym (reverse-append (tid ∷ []) tids)))

-- What holds between two calls, when `before` have been added.
record Joins (ends : ℕ → Bool) (before : List ℕ) (g : ThreadGroup) (w : Threads) : Type 0 where
  all_end : AllEnd ends g.tids
  free : g.locked ≡ false
  order : reverse g.tids ++ w.joined ≡ reverse before

record JoinsAll (ends : ℕ → Bool) (all : List ℕ) (r : Option (ThreadGroup × Threads)) : Type 0 where
  group : ThreadGroup
  threads : Threads
  runs : r ≡ some (group, threads)
  joins : Joins ends all group threads

call-Joins :
    (ends : ℕ → Bool) (x : GroupCall) (before : List ℕ) (g : ThreadGroup) (w : Threads)
    → AllEnd ends (added (x ∷ []))
    → Joins ends before g w
    → JoinsAll ends (before ++ added (x ∷ [])) (call ends x g w)
unfolding add snapshot join_all join_copy acquire unlock added
call-Joins ends (adds tid) before g w ok h = record {
  group = record { locked = false; tids = g.tids ++ tid ∷ [] };
  threads = w;
  runs = rw h.free refl;
  joins = record {
    all_end = AllEnd-append ends g.tids (tid ∷ []) h.all_end ok;
    free = refl;
    order =
        ap (λ x. x ++ w.joined) (reverse-append g.tids (tid ∷ []))
        ∙ ap (◌∷◌ tid) h.order
        ∙ sym (reverse-append before (tid ∷ []));
  };
}
call-Joins ends snapshots before g w ok h = record {
  group = record { locked = false; tids = g.tids };
  threads = w;
  runs = rw h.free refl;
  joins = record {
    all_end = h.all_end;
    free = refl;
    order = h.order ∙ ap reverse (sym (append-nil before));
  };
}
call-Joins ends joins before g w ok h = record {
  group = record { locked = false; tids = [] };
  threads = joined_all g.tids w;
  runs = rw h.free (ap (with_group new) (join_each-joined ends g.tids w h.all_end));
  joins = record {
    all_end = tt;
    free = refl;
    order = h.order ∙ ap reverse (sym (append-nil before));
  };
}
  where
    new : ThreadGroup
    new = record { locked = false; tids = [] }

added-cons :
    (x : GroupCall) (calls : List GroupCall) → added (x ∷ calls) ≡ added (x ∷ []) ++ added calls
unfolding added
added-cons (adds tid) calls = refl
added-cons snapshots calls = refl
added-cons joins calls = refl

run_calls-Joins :
    (ends : ℕ → Bool) (calls : List GroupCall) (before : List ℕ) (g : ThreadGroup) (w : Threads)
    → AllEnd ends (added calls)
    → Joins ends before g w
    → JoinsAll ends (before ++ added calls) (run_calls ends calls g w)
unfolding run_calls added
run_calls-Joins ends [] before g w ok h = record {
  group = g;
  threads = w;
  runs = refl;
  joins = record {
    all_end = h.all_end;
    free = h.free;
    order = h.order ∙ ap reverse (sym (append-nil before));
  };
}
run_calls-Joins ends (x ∷ calls) before g w ok h =
    let split = subst (AllEnd ends) (added-cons x calls) ok in
    let first = call-Joins ends x before g w (AllEnd-left ends _ (added calls) split) h in
    let rest =
      run_calls-Joins ends calls (before ++ added (x ∷ [])) first.group first.threads
        (AllEnd-right ends (added (x ∷ [])) (added calls) split) first.joins in
    record {
      group = rest.group;
      threads = rest.threads;
      runs = ap (λ r. and_then r (run_calls ends calls)) first.runs ∙ rest.runs;
      joins = record {
        all_end = rest.joins.all_end;
        free = rest.joins.free;
        order =
            rest.joins.order
            ∙ ap reverse (
                append_assoc before (added (x ∷ [])) (added calls)
                ∙ ap (◌++◌ before) (sym (added-cons x calls)));
      };
    }

-- For every sequence of calls of add(), snapshot() and join_all() on a new thread group, whose threads
-- end: no call blocks, and after one more join_all() the group is empty, its mutex is free, and the
-- threads joined are exactly those that were added, each once, in the order in which they were added.
pub join_all_joins_added :
    (ends : ℕ → Bool) (calls : List GroupCall)
    → AllEnd ends (added calls)
    → (g : ThreadGroup) × (w : Threads) × (g' : ThreadGroup) × (w' : Threads) × (run_calls ends
          calls new_group no_threads
        ≡ some (g, w))
      × (join_all ends g w ≡ some (g', w'))
      × (g'.tids ≡ [])
      × (g'.locked ≡ false)
      × (reverse w'.joined ≡ added calls)
unfolding new_group join_all join_copy acquire unlock
join_all_joins_added ends calls all_end =
    let h =
      run_calls-Joins ends calls [] new_group no_threads all_end
        (record { all_end = tt; free = refl; order = refl }) in
    let new : ThreadGroup = record { locked = false; tids = [] } in
    (
      h.group,
      h.threads,
      new,
      joined_all h.group.tids h.threads,
      h.runs,
      rw h.joins.free
          (ap (with_group new) (join_each-joined ends h.group.tids h.threads h.joins.all_end)),
      refl,
      refl,
      ap reverse h.joins.order ∙ reverse-reverse (added calls),
    )
