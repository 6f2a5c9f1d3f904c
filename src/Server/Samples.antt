-- ===== src/Server/Samples.antt =====
-- Two users and a kernel that takes what it is given: the input of the tests of the server.
use mpcc.Common.{
  ℕ, zero, suc, ◌+◌, ◌≡◌, refl, sym, ap, ◌∙◌, true, false, Option, none, some, [], ◌∷◌, Bytes,
  codes, arith, some-eq-some, ◌≤◌, ◌<◌, length, contains, inl, inr, Bool-cases, ◌==◌, ==_iff,
}
use mpcc.Common.Dict
use mpcc.Core.Cipher.{default_cipher}
use mpcc.Core.Cipher.Laws.{IEncrypt, cipher-IEncrypt}
use mpcc.Core.Net.{Kernel}
use mpcc.Core.Session.{Session, World, Ptr}
use mpcc.Server.Broadcast.{BroadcastManager}
use mpcc.Server.Broadcast.Hearing.{IsValid, Live}
use mpcc.Server.Broadcast.Clients.{ClientsValid}

abbrev take_all : ℕ → Option ℕ → Bytes → Option ℕ
take_all t none buf = none
take_all t (some fd) [] = none
take_all t (some fd) (c ∷ buf) = some (length (c ∷ buf))

pub take_all_progress :
    (t : ℕ) (fd : Option ℕ) (buf : Bytes) (n : ℕ)
    → take_all t fd buf ≡ some n
    → (0 < n) × (n ≤ length buf)
take_all_progress t none buf n e = absurd (cc e)
take_all_progress t (some fd) [] n e = absurd (cc e)
take_all_progress t (some fd) (c ∷ buf) n e = ground arith

abbrev pub kernel : Kernel
kernel = record { send = take_all; send_progress = take_all_progress; send_bad_fd = λ t buf. refl }

abbrev pub cipher : IEncrypt
cipher = cipher-IEncrypt default_cipher (omega arith)

abbrev user : Bytes → ℕ → Session
user name fd = record {
  client_fd = some fd;
  ip_addr = codes "::1";
  username = name;
  username_set = true;
  active = true;
}

abbrev pub ann : Session
ann = user (codes "ann") 4

abbrev pub bob : Session
bob = user (codes "bob") 5

-- A second connection of ann, whose socket has failed.
abbrev pub ann_again : Session
ann_again = record (user (codes "ann") 6) { active = false }

abbrev people : Ptr → Option Session
people zero = none
people (suc zero) = some ann
people (suc (suc zero)) = some bob
people (suc (suc (suc zero))) = some ann_again
people (suc (suc (suc (suc p)))) = none

abbrev pub world : World
world = record {
  session = people;
  net = record { now = 0; wire = λ g. []; shut = []; closed = [] };
}

people_fd :
    (p : Ptr) (s : Session) (fd : ℕ) → people p ≡ some s → s.client_fd ≡ some fd → fd ≡ p + 3
people_fd zero s fd e f = absurd (cc e)
people_fd (suc zero) s fd e f = ground (arith, some-eq-some e)
people_fd (suc (suc zero)) s fd e f = ground (arith, some-eq-some e)
people_fd (suc (suc (suc zero))) s fd e f = ground (arith, some-eq-some e)
people_fd (suc (suc (suc (suc p)))) s fd e f = absurd (cc e)

people_have_fd : (p : Ptr) (s : Session) → people p ≡ some s → (fd : ℕ) × (s.client_fd ≡ some fd)
people_have_fd zero s e = absurd (cc e)
people_have_fd (suc zero) s e = (4, ap (λ (x : Session). x.client_fd) (sym (some-eq-some e)))
people_have_fd (suc (suc zero)) s e = (5, ap (λ (x : Session). x.client_fd) (sym (some-eq-some e)))
people_have_fd (suc (suc (suc zero))) s e =
    (6, ap (λ (x : Session). x.client_fd) (sym (some-eq-some e)))
people_have_fd (suc (suc (suc (suc p)))) s e = absurd (cc e)

pub world-IsValid : IsValid world
world-IsValid = record {
  null_free = refl;
  has_fd = λ p s e on. people_have_fd p s e;
  distinct =
      λ p q s t fd hp hq fp fq. omega (arith, people_fd p s fd hp fp, people_fd q t fd hq fq);
}

abbrev pub manager : BroadcastManager
manager = record { clients = 1 ∷ 2 ∷ []; by_name = (codes "ann", 1) ∷ (codes "bob", 2) ∷ [] }

pub clients-Live : (p : Ptr) → contains (1 ∷ 2 ∷ []) p ≡ true → Live world p
unfolding contains
clients-Live zero m = absurd (ground arith)
clients-Live (suc zero) m = (ann, refl)
clients-Live (suc (suc zero)) m = (bob, refl)
clients-Live (suc (suc (suc p))) m = absurd (ground arith)

manager_names :
    (n : Bytes) (p : Ptr)
    → Dict.lookup n manager.by_name ≡ some p
    → (contains manager.clients p ≡ true)
      × ((s : Session) → world.session p ≡ some s → s.username ≡ n)
unfolding Dict.lookup contains
manager_names n p e = elim (Bool-cases (codes "ann" == n)) [
  | inl a ↦
      named_as 1 ann (codes "ann") n p refl refl refl ((==_iff (codes "ann") n).0 a)
        (some-eq-some (ground (arith, e, a)))
  | inr na ↦ elim (Bool-cases (codes "bob" == n)) [
    | inl b ↦
        named_as 2 bob (codes "bob") n p refl refl refl ((==_iff (codes "bob") n).0 b)
          (some-eq-some (ground (arith, e, na, b)))
    | inr nb ↦ absurd (ground (arith, e, na, nb))
  ]
]
  where
    named_as :
        (q : Ptr) (t : Session) (name n : Bytes) (p : Ptr)
        → contains manager.clients q ≡ true
        → world.session q ≡ some t
        → t.username ≡ name
        → name ≡ n
        → q ≡ p
        → (contains manager.clients p ≡ true)
          × ((s : Session) → world.session p ≡ some s → s.username ≡ n)
    named_as q t name n p m at_q own same here = (
      ap (contains manager.clients) (sym here) ∙ m,
      λ s at_p.
          ap (λ (x : Session). x.username)
            (some-eq-some (sym at_p ∙ ap world.session (sym here) ∙ at_q))
          ∙ own
          ∙ same,
    )

pub manager-ClientsValid : ClientsValid manager world
unfolding contains
manager-ClientsValid = record {
  distinct = (refl, (refl, tt));
  live = clients-Live;
  named = manager_names;
}
