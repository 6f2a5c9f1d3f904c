-- ===== src/Server/Listener/Waiting.antt =====
-- Which threads the joins of Server::shutdown wait for, of src/server/server.cpp.
use mathlib.Core.Bool.{or-true}
use mpcc.Common.{
  ℕ, ◌≡◌, refl, sym, ap, ◌∙◌, ◌⊎◌, inl, inr, Bool, true, false, not, ◌&&◌, ◌||◌, Option, none, some,
  List, [], ◌∷◌, if◌then◌else◌, Bool-cases, contains, contains-cons_eq, contains-cons_ne,
  contains-tail, contains-nil, ℕ_discrete,
}
use mpcc.Core.Session.{Session, World, Ptr}
use mpcc.Server.Broadcast.Shutdown.{Closes, closed_if}
use mpcc.Util.Threads.{
  Threads, ThreadGroup, join_all, join_copy, join_each, join_thread, acquire, unlock, with_group,
  guarded, new_group,
}
use mpcc.Util.Threads.Group.{AllEnd, join_each-joined}
use mpcc.Server.Listener.{Server, put_group, join_workers, shutdown, owner, woken, ends_at}
use mpcc.Server.Listener.Accepting.{Tracks}

-- The thread will end: by itself, or since its session is one of the clients, or is closed already.
abbrev pub WillEnd : (ℕ → Bool) → Server → ℕ → Type 0
WillEnd by_itself s tid =
    (by_itself tid ≡ true)
    ⊎ ((p : Ptr) × (t : Session) × (owner s.spawned tid ≡ some p)
        × (s.world.session p ≡ some t)
        × ((contains s.broadcaster.clients p ≡ true) ⊎ (t.active ≡ false)))

-- The thread is one of the server's that does not end by itself, and its session is open and not yet
-- one of the clients: its handler is still in the dialogue.
pub record InDialogue (by_itself : ℕ → Bool) (s : Server) (tid : ℕ) (p : Ptr) (t : Session)
    : Type 0 where
  pub waiting : by_itself tid ≡ false
  pub owned : owner s.spawned tid ≡ some p
  pub here : s.world.session p ≡ some t
  pub active : t.active ≡ true
  pub not_client : contains s.broadcaster.clients p ≡ false

-- All of these threads will end.
abbrev pub AllWillEnd : (ℕ → Bool) → Server → List ℕ → Type 0
AllWillEnd by_itself s [] = Unit
AllWillEnd by_itself s (tid ∷ tids) = WillEnd by_itself s tid × AllWillEnd by_itself s tids

AllEnd-each :
    (ends : ℕ → Bool) (by_itself : ℕ → Bool) (s : Server) (tids : List ℕ)
    → ((tid : ℕ) → WillEnd by_itself s tid → ends tid ≡ true)
    → AllWillEnd by_itself s tids
    → AllEnd ends tids
AllEnd-each ends by_itself s [] h all = tt
AllEnd-each ends by_itself s (tid ∷ tids) h (here, all) =
    (h tid here, AllEnd-each ends by_itself s tids h all)

-- A thread that does not end by itself has a live session; else it would have ended.
abbrev pub Owns : (ℕ → Bool) → Server → List ℕ → Type 0
Owns by_itself s tids =
    (tid : ℕ)
    → contains tids tid ≡ true
    → by_itself tid ≡ false
    → (p : Ptr) × (t : Session) × (owner s.spawned tid ≡ some p) × (s.world.session p ≡ some t)

classify :
    (by_itself : ℕ → Bool) (s : Server) (tid : ℕ)
    → Owns by_itself s (tid ∷ [])
    → WillEnd by_itself s tid ⊎ ((p : Ptr) × (t : Session) × InDialogue by_itself s tid p t)
classify by_itself s tid owns = elim (Bool-cases (by_itself tid)) [
  | inl alone ↦ inl (inl alone)
  | inr waiting ↦
      let (p, t, owned, here) = owns tid (contains-cons_eq tid [] tid refl) waiting in
      elim (Bool-cases (contains s.broadcaster.clients p)) [
        | inl listed ↦ inl (inr (p, t, owned, here, inl listed))
        | inr apart ↦ elim (Bool-cases t.active) [
          | inr off ↦ inl (inr (p, t, owned, here, inr off))
          | inl on ↦ inr (
            p,
            t,
            record {
              waiting = waiting;
              owned = owned;
              here = here;
              active = on;
              not_client = apart;
            },
          )
        ]
      ]
]

-- One of the threads that is in the dialogue.
abbrev pub SomeInDialogue : (ℕ → Bool) → Server → List ℕ → Type 0
SomeInDialogue by_itself s tids =
    (tid : ℕ) × (p : Ptr) × (t : Session) × (contains tids tid ≡ true)
    × InDialogue by_itself s tid p t

classify_all :
    (by_itself : ℕ → Bool) (s : Server) (tids : List ℕ)
    → Owns by_itself s tids
    → AllWillEnd by_itself s tids ⊎ SomeInDialogue by_itself s tids
classify_all by_itself s [] owns = inl tt
classify_all by_itself s (x ∷ tids) owns =
    elim (classify by_itself s x (λ tid m. owns tid (first tid m))) [
      | inr (p, t, d) ↦ inr (x, p, t, contains-cons_eq x tids x refl, d)
      | inl here ↦
          elim (classify_all by_itself s tids (λ tid m. owns tid (contains-tail x tids tid m))) [
            | inl all ↦ inl (here, all)
            | inr (tid, p, t, m, d) ↦ inr (tid, p, t, contains-tail x tids tid m, d)
          ]
    ]
  where
    first : (tid : ℕ) → contains (x ∷ []) tid ≡ true → contains (x ∷ tids) tid ≡ true
    first tid m = elim (ℕ_discrete x tid) [
      | yes same ↦ contains-cons_eq x tids tid same
      | no other ↦ absurd (cc (sym (contains-cons_ne x [] tid other) ∙ m, contains-nil tid))
    ]

-- join_all() with a free mutex.
join_all-free :
    (ends : ℕ → Bool) (g : ThreadGroup) (w : Threads)
    → g.locked ≡ false
    → join_all ends g w ≡ with_group new_group (join_each ends g.tids w)
unfolding join_all join_copy acquire unlock new_group
join_all-free ends g w free =
    ap
      (λ b.
        join_copy ends w
          (guarded (λ tids. (tids, [])) (if b then none else some (record g { locked = true }))))
      free

-- One thread that does not end blocks the loop.
join_each-blocks :
    (ends : ℕ → Bool) (tid : ℕ) (tids : List ℕ) (w : Threads)
    → contains tids tid ≡ true
    → ends tid ≡ false
    → join_each ends tids w ≡ none
unfolding join_each
join_each-blocks ends tid [] w m h = absurd (cc (contains-nil tid, m))
join_each-blocks ends tid (t ∷ tids) w m h = elim (Bool-cases (ends t)) [
  | inr here ↦ rw here refl
  | inl here ↦ rw here (
      join_each-blocks ends tid tids (join_thread t w)
        (sym (contains-cons_ne t tids tid (λ e. cc (ap ends e, here, h))) ∙ m) h)
]

module _ (by_itself : ℕ → Bool) (s : Server) (session : Ptr → Option Session) where
  abbrev ends : ℕ → Bool
  ends = ends_at by_itself s.spawned session

  ends-WillEnd :
      (w : World) (tid : ℕ)
      → session ≡ w.session
      → Closes s.broadcaster.clients s.world w
      → WillEnd by_itself s tid
      → ends tid ≡ true
  unfolding ends_at woken
  ends-WillEnd w tid e closes (inl alone) = rw alone refl
  ends-WillEnd w tid e closes (inr (p, t, owned, here, why)) =
      rw (owned, ap (λ f. f p) e ∙ closes.session p t here) (by_why why)
    where
      by_why :
          (contains s.broadcaster.clients p ≡ true) ⊎ (t.active ≡ false)
          → (by_itself tid
              || not (closed_if (contains s.broadcaster.clients p && t.active) t).active)
            ≡ true
      by_why (inl listed) = elim (Bool-cases t.active) [
        | inl on ↦ rw (listed, on) (or-true (by_itself tid))
        | inr off ↦ rw (listed, off) (or-true (by_itself tid))
      ]
      by_why (inr off) = elim (Bool-cases (contains s.broadcaster.clients p)) [
        | inl listed ↦ rw (listed, off) (or-true (by_itself tid))
        | inr alone ↦ rw (alone, off) (or-true (by_itself tid))
      ]

  ends-InDialogue :
      (w : World) (tid : ℕ) (p : Ptr) (t : Session)
      → session ≡ w.session
      → Closes s.broadcaster.clients s.world w
      → InDialogue by_itself s tid p t
      → (ends tid ≡ false) × (session p ≡ some t)
  unfolding ends_at woken
  ends-InDialogue w tid p t e closes d =
      let same : session p ≡ some t =
        ap (λ f. f p) e
        ∙ closes.session p t d.here
        ∙ ap (λ b. some (closed_if (b && t.active) t)) d.not_client in
      (rw (d.waiting, d.owned, same, d.active) refl, same)

-- The server after joins that have all returned.
abbrev pub all_joined : Server → Server → Server
all_joined s s' = record s' {
  group = new_group;
  threads = record s.threads { joined = s.threads.created };
}

-- The joins, in the state `s₁` that the closes have left.
pub joins_end :
    (by_itself : ℕ → Bool) (s s₁ : Server) (w : World)
    → Tracks s
    → Owns by_itself s s.group.tids
    → s₁.group ≡ s.group
    → s₁.threads ≡ s.threads
    → s₁.spawned ≡ s.spawned
    → s₁.world.session ≡ w.session
    → Closes s.broadcaster.clients s.world w
    → shutdown by_itself s ≡ join_workers by_itself (some s₁)
    → (AllWillEnd by_itself s s.group.tids × (shutdown by_itself s ≡ some (all_joined s s₁)))
      ⊎ ((tid : ℕ) × (p : Ptr) × (t : Session) × (contains s.group.tids tid ≡ true)
          × InDialogue by_itself s tid p t
          × (s₁.world.session p ≡ some t)
          × (shutdown by_itself s ≡ none))
joins_end by_itself s s₁ w t owns group threads spawned sessions closes runs =
    let session = s₁.world.session in
    let ends = ends_at by_itself s.spawned session in
    let joins =
      runs
      ∙ ap (λ g. put_group s₁ (join_all (ends_at by_itself s₁.spawned session) g s₁.threads)) group
      ∙ ap (λ x. put_group s₁ (join_all (ends_at by_itself s₁.spawned session) s.group x)) threads
      ∙ ap (λ x. put_group s₁ (join_all (ends_at by_itself x session) s.group s.threads)) spawned
      ∙ ap (put_group s₁) (join_all-free ends s.group s.threads t.free) in
    elim (classify_all by_itself s s.group.tids owns) [
      | inl all ↦ inl (
        all,
        joins
            ∙ ap (λ o. put_group s₁ (with_group new_group o))
                (join_each-joined ends s.group.tids s.threads (
                    AllEnd-each ends by_itself s s.group.tids
                      (λ tid. ends-WillEnd by_itself s session w tid sessions closes) all)
                  ∙ ap (λ x. some (record s.threads { joined = x })) (sym t.created)),
      )
      | inr (tid, p, x, m, d) ↦
          let (stuck, still) = ends-InDialogue by_itself s session w tid p x sessions closes d in
          inr (
            tid,
            p,
            x,
            m,
            d,
            still,
            joins
                ∙ ap (λ o. put_group s₁ (with_group new_group o))
                    (join_each-blocks ends tid s.group.tids s.threads m stuck),
          )
    ]
