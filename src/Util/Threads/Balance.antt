-- ===== src/Util/Threads/Balance.antt =====
-- How the threads that objects hold are counted.
use mpcc.Common.{
  ℕ, zero, suc, ◌+◌, ◌<◌, ◌≡◌, refl, ap, ◌≢◌, Bool, true, false, ◌&&◌, List, [], ◌∷◌, nat_eq,
  if◌then◌else◌, arith, fun_ext, ℕ_discrete, nat_eq_of_eq, nat_eq_of_ne, Bool-cases, inl, inr,
}
use mpcc.Util.Threads.{
  record_created, Created, running, failed, Pthreads, Threads, JoinableThread, start, join,
  started_by, start_with, init_attr, destroy_attr, Objects, put,
}

abbrev pub one_if : Bool → ℕ
one_if true = 1
one_if false = 0

-- How often a thread stands in a list.
unfoldable pub times : ℕ → List ℕ → ℕ
times c [] = 0
times c (x ∷ xs) = one_if (nat_eq x c) + times c xs

-- Whether an object holds a thread that it has yet to join.
unfoldable pub held : ℕ → JoinableThread → ℕ
held c t = one_if (t.started && nat_eq t.tid c)

-- The sum over the objects below an address.
unfoldable pub total : ℕ → (ℕ → ℕ) → ℕ
total zero f = 0
total (suc n) f = f n + total n f

total-ext : (n : ℕ) (f g : ℕ → ℕ) → ((a : ℕ) → a < n → f a ≡ g a) → total n f ≡ total n g
unfolding total
total-ext zero f g h = refl
total-ext (suc n) f g h =
    omega (arith, h n (omega arith), total-ext n f g (λ a lt. h a (omega (arith, lt))))

pub put-eq :
    (objects : Objects) (a : ℕ) (t : JoinableThread) (b : ℕ) → b ≡ a → put objects a t b ≡ t
put-eq objects a t b e = rw (nat_eq_of_eq b a e) refl

pub put-ne :
    (objects : Objects) (a : ℕ) (t : JoinableThread) (b : ℕ) → b ≢ a → put objects a t b ≡ objects b
put-ne objects a t b ne = rw (nat_eq_of_ne b a ne) refl

pub put-put :
    (objects : Objects) (a : ℕ) (t u : JoinableThread) → put (put objects a t) a u ≡ put objects a u
put-put objects a t u =
    fun_ext
      λ b. elim (Bool-cases (nat_eq b a)) [ inl here ↦ rw here refl | inr other ↦ rw other refl ]

pub total-put :
    (n : ℕ) (a : ℕ) (objects : Objects) (t : JoinableThread) (c : ℕ)
    → a < n
    → total n (λ b. held c (put objects a t b)) + held c (objects a)
      ≡ total n (λ b. held c (objects b)) + held c t
unfolding total
total-put zero a objects t c lt = absurd (omega (arith, lt))
total-put (suc n) a objects t c lt = elim (ℕ_discrete n a) [
  | yes same ↦
      let rest =
        total-ext n (λ b. held c (put objects a t b)) (λ b. held c (objects b))
          (λ b b_lt. ap (held c) (put-ne objects a t b (λ e. omega (arith, same, e, b_lt)))) in
      omega
        (arith, rest, ap (held c) (put-eq objects a t n same), ap (λ x. held c (objects x)) same)
  | no other ↦
      let rest = total-put n a objects t c (ground (arith, lt, other)) in
      omega (arith, rest, ap (held c) (put-ne objects a t n other))
]

-- Each thread that was created has been joined, or one object below `n` holds it, and each as often.
abbrev pub Balanced : ℕ → Objects → Threads → Type 0
Balanced n objects w =
    (c : ℕ) → times c w.created ≡ times c w.joined + total n (λ a. held c (objects a))

pub held-off : (c : ℕ) (t : JoinableThread) → t.started ≡ false → held c t ≡ 0
unfolding held
held-off c t off = rw off refl

created-balance :
    (t : JoinableThread) (answer : Created) (w : Threads) (c : ℕ)
    → t.started ≡ false
    → times c (record_created answer w).created + (times c w.joined + held c t)
      ≡ times c w.created
        + (times c (record_created answer w).joined + held c (started_by t answer).1)
unfolding started_by times held
created-balance t (running tid) w c off =
    let none_held : one_if (t.started && nat_eq t.tid c) ≡ 0 = unfold held in held-off c t off in
    omega (arith, none_held)
created-balance t (failed n) w c off = refl

module _ (os : Pthreads) where
  started-balance :
      (t : JoinableThread) (ok : Bool) (w : Threads) (c : ℕ)
      → t.started ≡ false
      → let (rc, t', w') = start_with os t (ok, w) in
        times c w'.created + (times c w.joined + held c t)
        ≡ times c w.created + (times c w'.joined + held c t')
  unfolding start_with destroy_attr
  started-balance t true w c off = created-balance t (os.create w.now) w c off
  started-balance t false w c off = refl

  -- What start() and join() do to the balance of one object.
  pub start-balance :
      (t : JoinableThread) (w : Threads) (c : ℕ)
      → let (rc, t', w') = start os t w in
        times c w'.created + (times c w.joined + held c t)
        ≡ times c w.created + (times c w'.joined + held c t')
  unfolding start init_attr
  start-balance t w c = go t.started refl
    where
      go :
          (b : Bool)
          → t.started ≡ b
          → let (rc, t', w') = if b then (0, t, w) else start_with os t (init_attr os w) in
            times c w'.created + (times c w.joined + held c t)
            ≡ times c w.created + (times c w'.joined + held c t')
      go true e = refl
      go false e = started-balance t (os.attr_init w.now) _ c e

  pub join-balance :
      (t : JoinableThread) (w : Threads) (c : ℕ)
      → let (t', w') = join t w in
        (w'.created ≡ w.created)
        × (t'.started ≡ false)
        × (times c w'.joined ≡ times c w.joined + held c t)
  unfolding join held times
  join-balance t w c = elim (Bool-cases t.started) [
    | inl on ↦ rw on (refl, refl, omega arith)
    | inr off ↦ rw off (refl, refl, omega arith)
  ]
