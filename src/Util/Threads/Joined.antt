-- ===== src/Util/Threads/Joined.antt =====
-- Every thread is joined once.
use mpcc.Common.{
  ℕ, zero, suc, ◌<◌, ◌≡◌, refl, sym, ap, ◌∙◌, ◌≢◌, List, [], ◌∷◌, arith, subst, ℕ_discrete,
  nat_eq_of_eq, nat_eq_of_ne,
}
use mpcc.Util.Threads.{
  destroy, Pthreads, Threads, not_started, start, join, Objects, put, move_construct, move_assign,
}
use mpcc.Util.Threads.Balance.{
  times, held, total, put-eq, put-ne, put-put, total-put, Balanced, held-off, start-balance,
  join-balance,
}

abbrev pub no_threads : Threads
no_threads = record { now = 0; created = []; joined = []; attrs = 0 }

module _ (os : Pthreads) where
  -- A call of a method of the objects that stand at the addresses below some bound. `renew a b`: the
  -- object at `a` is destroyed, and made again from that at `b`.
  pub data Call : Type 0 where
    starts joins : ℕ → Call
    assigns renews : ℕ → ℕ → Call

  -- The object's methods, at an address.
  abbrev start_at : ℕ → Objects → Threads → Objects × Threads
  start_at a objects w = let (rc, t, w') = start os (objects a) w in (put objects a t, w')

  abbrev join_at : ℕ → Objects → Threads → Objects × Threads
  join_at a objects w = let (t, w') = join (objects a) w in (put objects a t, w')

  abbrev pub call : Call → Objects → Threads → Objects × Threads
  call (starts a) objects w = start_at a objects w
  call (joins a) objects w = join_at a objects w
  call (assigns a b) objects w = move_assign a b objects w
  call (renews a b) objects w =
      let (objects', w') = join_at a objects w in (move_construct a b objects', w')

  abbrev pub IsIn : ℕ → Call → Type 0
  IsIn n (starts a) = a < n
  IsIn n (joins a) = a < n
  IsIn n (assigns a b) = (a < n) × (b < n)
  IsIn n (renews a b) = (a < n) × (b < n) × (a ≢ b)

  abbrev pub AllIn : ℕ → List Call → Type 0
  AllIn n [] = Unit
  AllIn n (x ∷ calls) = IsIn n x × AllIn n calls

  unfoldable pub run_calls : List Call → Objects → Threads → Objects × Threads
  unfolding start join move_assign move_construct
  run_calls [] objects w = (objects, w)
  run_calls (x ∷ calls) objects w =
      let (objects', w') = call x objects w in run_calls calls objects' w'

  -- The destructors of the objects below `n`.
  unfoldable pub destroy_all : ℕ → Objects → Threads → Objects × Threads
  unfolding destroy
  destroy_all zero objects w = (objects, w)
  destroy_all (suc n) objects w =
      let (t, w') = destroy (objects n) w in destroy_all n (put objects n t) w'

  join_at-balance :
      (n a : ℕ) (objects : Objects) (w : Threads)
      → a < n
      → Balanced n objects w
      → let (objects', w') = join_at a objects w in
        Balanced n objects' w' × ((c : ℕ) → held c (objects' a) ≡ 0)
  join_at-balance n a objects w lt h =
      let gone : (c : ℕ) → held c (put objects a (join (objects a) w).0 a) ≡ 0 = λ c.
        ap (held c) (put-eq objects a (join (objects a) w).0 a refl)
        ∙ (let (made, off, joined) = join-balance os (objects a) w c in
            held-off c (join (objects a) w).0 off) in
      (
        λ c.
            let (made, off, joined) = join-balance os (objects a) w c in
            omega (
              arith,
              h c,
              ap (times c) made,
              joined,
              held-off c (join (objects a) w).0 off,
              total-put n a objects (join (objects a) w).0 c lt,
            ),
        gone,
      )

  -- An object takes over the thread of another, when it holds none itself.
  moved-balance :
      (n a b : ℕ) (objects : Objects) (w : Threads)
      → a < n
      → b < n
      → a ≢ b
      → ((c : ℕ) → held c (objects a) ≡ 0)
      → Balanced n objects w
      → Balanced n (put (put objects a (objects b)) b not_started) w
  unfolding held
  moved-balance n a b objects w a_lt b_lt ne empty h c = omega (
    arith,
    h c,
    empty c,
    total-put n a objects (objects b) c a_lt,
    total-put n b (put objects a (objects b)) not_started c b_lt,
    ap (held c) (put-ne objects a (objects b) b (λ e. ne (sym e))),
  )

  call-balance :
      (n : ℕ) (x : Call) (objects : Objects) (w : Threads)
      → IsIn n x
      → Balanced n objects w
      → let (objects', w') = call x objects w in Balanced n objects' w'
  unfolding move_assign move_construct
  call-balance n (starts a) objects w lt h = λ c. omega (
    arith,
    h c,
    start-balance os (objects a) w c,
    total-put n a objects (start os (objects a) w).1 c lt,
  )
  call-balance n (joins a) objects w lt h = (join_at-balance n a objects w lt h).0
  call-balance n (assigns a b) objects w (a_lt, b_lt) h = elim (ℕ_discrete a b) [
    | yes same ↦ rw (nat_eq_of_eq a b same) h
    | no ne ↦
        let (balanced, empty) = join_at-balance n a objects w a_lt h in
        let t = (join (objects a) w).0 in
        rw (nat_eq_of_ne a b ne) (
          subst (λ o. Balanced n (put o b not_started) (join (objects a) w).1)
            (ap (put (put objects a t) a) (put-ne objects a t b (λ e. ne (sym e)))
              ∙ put-put objects a t (objects b))
            (moved-balance n a b (put objects a t) (join (objects a) w).1 a_lt b_lt ne empty
              balanced))
  ]
  call-balance n (renews a b) objects w (a_lt, b_lt, ne) h =
      let (balanced, empty) = join_at-balance n a objects w a_lt h in
      moved-balance n a b (join_at a objects w).0 (join_at a objects w).1 a_lt b_lt ne empty
        balanced

  run_calls-balance :
      (n : ℕ) (calls : List Call) (objects : Objects) (w : Threads)
      → AllIn n calls
      → Balanced n objects w
      → let (objects', w') = run_calls calls objects w in Balanced n objects' w'
  unfolding run_calls
  run_calls-balance n [] objects w ok h = h
  run_calls-balance n (x ∷ calls) objects w (ok, rest) h =
      run_calls-balance n calls _ _ rest (call-balance n x objects w ok h)

  destroy_all-balance :
      (n : ℕ) (objects : Objects) (w : Threads)
      → Balanced n objects w
      → (c : ℕ)
      → times c (destroy_all n objects w).1.created ≡ times c (destroy_all n objects w).1.joined
  unfolding destroy_all total destroy
  destroy_all-balance zero objects w h = λ c. omega (arith, h c)
  destroy_all-balance (suc n) objects w h =
      let (balanced, empty) = join_at-balance (suc n) n objects w (omega arith) h in
      destroy_all-balance n (join_at n objects w).0 (join_at n objects w).1
        (λ c. omega (arith, balanced c, empty c))

start-Balanced : (n : ℕ) → Balanced n (λ a. not_started) no_threads
unfolding times total held
start-Balanced zero c = refl
start-Balanced (suc n) c = omega (arith, start-Balanced n c)

-- For every answer of pthread_attr_init and pthread_create and every sequence of calls of start(),
-- join(), the move constructor (from another object, once the target is destroyed) and the move
-- assignment (from the object itself, too) on any number of JoinableThread objects that begin as they
-- are made by default: once all of them are destroyed, every thread that was created has been joined
-- exactly as often as it was created.
pub each_thread_joined_once :
    (os : Pthreads) (n : ℕ) (calls : List (Call os))
    → AllIn os n calls
    → (c : ℕ)
    → let (objects, w) = run_calls os calls (λ a. not_started) no_threads in
      let (_, ended) = destroy_all os n objects w in times c ended.created ≡ times c ended.joined
each_thread_joined_once os n calls ok =
    let (objects, w) = run_calls os calls (λ a. not_started) no_threads in
    destroy_all-balance os n objects w
      (run_calls-balance os n calls (λ a. not_started) no_threads ok (start-Balanced n))
