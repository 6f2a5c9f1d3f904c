-- ===== src/Server/Rooms/Membership.antt =====
-- The rooms seen as a relation: who is in which room.
use mpcc.Common.{
  ◌≡◌, refl, sym, ap, ◌∙◌, ◌≢◌, inl, inr, Bool, true, false, not, ◌&&◌, ◌||◌, none, some, Option,
  [], ◌∷◌, Bytes, ◌==◌, ==_iff, nat_eq, if◌then◌else◌, arith, Bool-cases, Option-cases, contains,
  NoDup, ℕ_discrete, without, contains-without, NoDup-without, nat_eq_of_ne, nat_eq_comm,
}
use mathlib.Core.Bool.{and-true, or-false}
use mpcc.Common.Dict
use mpcc.Common.Dict.{Dict}
use mpcc.Core.Session.{Ptr, null}
use mpcc.Server.Rooms.{
  Rooms, SessionSet, join_room, leave_room, leave_all, leave_each, leave_found, members_or_new,
  set_insert, set_erase, put_or_erase, keep_room,
}

abbrev pub among : Option SessionSet → Ptr → Bool
among none q = false
among (some m) q = contains m q

unfoldable pub member : Rooms → Bytes → Ptr → Bool
member r room q = among (Dict.lookup room r) q

-- The entry of a room, if there is one: its members are some, distinct, and none is null.
abbrev pub EntryValid : Option SessionSet → Type 0
EntryValid none = Unit
EntryValid (some m) = (m ≢ []) × NoDup m × (contains m null ≡ false)

-- What the table of rooms looks like between calls.
pub record RoomsValid (r : Rooms) : Type 0 where
  pub keys : Dict.DistinctKeys r
  pub entries : (room : Bytes) → EntryValid (Dict.lookup room r)

contains-set_insert :
    (m : SessionSet) (p q : Ptr) → contains (set_insert m p) q ≡ (contains m q || nat_eq p q)
unfolding set_insert contains
contains-set_insert m p q = elim (ℕ_discrete p q) [
  | yes e ↦ ground (arith, ap (contains m) e)
  | no ne ↦ ground arith
]

contains-set_erase :
    (m : SessionSet) (p q : Ptr) → contains (set_erase m p) q ≡ (contains m q && not (nat_eq q p))
unfolding set_erase
contains-set_erase m p q = contains-without m p q

NoDup-set_insert : (m : SessionSet) (p : Ptr) → NoDup m → NoDup (set_insert m p)
unfolding set_insert
NoDup-set_insert m p h = ground arith

contains-members_or_new :
    (o : Option SessionSet) (q : Ptr) → contains (members_or_new o) q ≡ among o q
unfolding members_or_new contains
contains-members_or_new none q = refl
contains-members_or_new (some m) q = refl

-- The entry of a room with members `m`: none, if there are none.
abbrev pub nonempty : SessionSet → Option SessionSet
nonempty [] = none
nonempty (p ∷ m) = some (p ∷ m)

among-nonempty : (m : SessionSet) (q : Ptr) → among (nonempty m) q ≡ contains m q
unfolding contains
among-nonempty [] q = refl
among-nonempty (p ∷ m) q = refl

lookup-put_or_erase :
    (a b : Bytes) (m : SessionSet) (r : Rooms)
    → Dict.lookup b (put_or_erase a m r) ≡ (if a == b then nonempty m else Dict.lookup b r)
unfolding put_or_erase
lookup-put_or_erase a b [] r = Dict.lookup-erase a b r
lookup-put_or_erase a b (p ∷ m) r = Dict.lookup-insert a b (p ∷ m) r

abbrev pub shrink : Ptr → Option SessionSet → Option SessionSet
shrink p none = none
shrink p (some m) = nonempty (set_erase m p)

among-shrink :
    (o : Option SessionSet) (p q : Ptr) → among (shrink p o) q ≡ (among o q && not (nat_eq p q))
among-shrink none p q = refl
among-shrink (some m) p q =
    among-nonempty (set_erase m p) q
    ∙ contains-set_erase m p q
    ∙ ap (λ x. contains m q && not x) (nat_eq_comm q p)

pub lookup-leave_found :
    (a b : Bytes) (p : Ptr) (r : Rooms)
    → Dict.lookup b (leave_found (Dict.lookup a r) a p r)
      ≡ (if a == b then shrink p (Dict.lookup b r) else Dict.lookup b r)
unfolding leave_found
lookup-leave_found a b p r = elim (Option-cases (Dict.lookup a r)) [
  | inl e ↦ elim (Bool-cases (a == b)) [
    | inl same ↦ rw (e, same, leave_found, ← (==_iff a b).0 same, e)
    | inr other ↦ rw (e, other, leave_found)
  ]
  | inr (m, e) ↦ elim (Bool-cases (a == b)) [
    | inl same ↦
        rw (
          e,
          leave_found,
          lookup-put_or_erase a b (set_erase m p) r,
          same,
          ← (==_iff a b).0 same,
          e,
        )
    | inr other ↦ rw (e, leave_found, lookup-put_or_erase a b (set_erase m p) r, other)
  ]
]

lookup-keep_room :
    (k b : Bytes) (m : SessionSet) (rest : Rooms)
    → Dict.lookup k rest ≡ none
    → Dict.lookup b (keep_room k m rest) ≡ (if k == b then nonempty m else Dict.lookup b rest)
unfolding keep_room Dict.lookup
lookup-keep_room k b [] rest new = elim (Bool-cases (k == b)) [
  | inl same ↦ rw same (ap (λ x. Dict.lookup x rest) (sym ((==_iff k b).0 same)) ∙ new)
  | inr other ↦ rw other
]
lookup-keep_room k b (p ∷ m) rest new = refl

if-shrink :
    (c : Bool) (p : Ptr) (m : SessionSet) (o : Option SessionSet)
    → (if c then nonempty (set_erase m p) else shrink p o) ≡ shrink p (if c then some m else o)
if-shrink true p m o = refl
if-shrink false p m o = refl

pub lookup-leave_each :
    (b : Bytes) (p : Ptr) (r : Rooms)
    → Dict.DistinctKeys r
    → Dict.lookup b (leave_each p r) ≡ shrink p (Dict.lookup b r)
unfolding leave_each
lookup-leave_each b p [] d = unfold Dict.lookup in refl
lookup-leave_each b p ((k, m) ∷ r) (new, d) =
    lookup-keep_room k b (set_erase m p) (leave_each p r)
      (lookup-leave_each k p r d ∙ ap (shrink p) new)
    ∙ rw (lookup-leave_each b p r d)
        (unfold Dict.lookup in if-shrink (k == b) p m (Dict.lookup b r))

module _ (a : Bytes) (p : Ptr) (r : Rooms) (not_null : p ≢ null) where
  lookup-join_room :
      (b : Bytes)
      → Dict.lookup b (join_room a p r) ≡ (
          if a == b
          then some (set_insert (members_or_new (Dict.lookup a r)) p)
          else Dict.lookup b r)
  unfolding join_room
  lookup-join_room b = rw (nat_eq_of_ne p null not_null) (Dict.lookup-insert a b _ r)

  lookup-leave_room :
      (b : Bytes)
      → Dict.lookup b (leave_room a p r)
        ≡ (if a == b then shrink p (Dict.lookup b r) else Dict.lookup b r)
  unfolding leave_room
  lookup-leave_room b = rw (nat_eq_of_ne p null not_null) (lookup-leave_found a b p r)

  lookup-leave_all :
      (b : Bytes) → Dict.DistinctKeys r → Dict.lookup b (leave_all p r) ≡ shrink p (Dict.lookup b r)
  unfolding leave_all
  lookup-leave_all b d = rw (nat_eq_of_ne p null not_null) (lookup-leave_each b p r d)

  module _ (b : Bytes) (q : Ptr) where
    -- After a join the session is in that room, and nothing else has changed.
    pub member-join_room : member (join_room a p r) b q ≡ (member r b q || ((a == b) && nat_eq p q))
    unfolding member
    member-join_room = rw (lookup-join_room b) (elim (Bool-cases (a == b)) [
      | inl same ↦ rw same (
          contains-set_insert (members_or_new (Dict.lookup a r)) p q
          ∙ ap (λ x. x || nat_eq p q)
              (contains-members_or_new (Dict.lookup a r) q
                ∙ ap (λ k. among (Dict.lookup k r) q) ((==_iff a b).0 same)))
      | inr other ↦ rw (other, or-false)
    ])

    -- After a leave it is not in that room, and nothing else has changed.
    pub member-leave_room :
        member (leave_room a p r) b q ≡ (member r b q && not ((a == b) && nat_eq p q))
    unfolding member
    member-leave_room = rw (lookup-leave_room b) (elim (Bool-cases (a == b)) [
      | inl same ↦ rw same (among-shrink (Dict.lookup b r) p q)
      | inr other ↦ rw (other, and-true)
    ])

    -- After leave_all it is in no room, and nothing else has changed.
    pub member-leave_all :
        Dict.DistinctKeys r → member (leave_all p r) b q ≡ (member r b q && not (nat_eq p q))
    unfolding member
    member-leave_all d = rw (lookup-leave_all b d) (among-shrink (Dict.lookup b r) p q)

EntryValid-nonempty : (m : SessionSet) → NoDup m → contains m null ≡ false → EntryValid (nonempty m)
EntryValid-nonempty [] d n = tt
EntryValid-nonempty (p ∷ m) d n = ((λ e. cc), d, n)

EntryValid-shrink : (p : Ptr) (o : Option SessionSet) → EntryValid o → EntryValid (shrink p o)
unfolding set_erase
EntryValid-shrink p none v = tt
EntryValid-shrink p (some m) (_, d, n) =
    EntryValid-nonempty (without m p) (NoDup-without m p d)
      (ground (arith, contains-without m p null, n))

set_insert-ne-nil : (m : SessionSet) (p : Ptr) → set_insert m p ≢ []
unfolding set_insert contains
set_insert-ne-nil [] p = ground arith
set_insert-ne-nil (x ∷ m) p = ground arith

EntryValid-insert :
    (p : Ptr) (o : Option SessionSet)
    → p ≢ null
    → EntryValid o
    → EntryValid (some (set_insert (members_or_new o) p))
unfolding members_or_new
EntryValid-insert p none ne v = (
  set_insert-ne-nil [] p,
  NoDup-set_insert [] p tt,
  contains-set_insert [] p null ∙ unfold contains in ground arith,
)
EntryValid-insert p (some m) ne (some_members, d, n) = (
  set_insert-ne-nil m p,
  NoDup-set_insert m p d,
  contains-set_insert m p null ∙ ground (arith, n),
)

EntryValid-if :
    (c : Bool) (o o' : Option SessionSet)
    → EntryValid o
    → EntryValid o'
    → EntryValid (if c then o else o')
EntryValid-if true o o' v v' = v
EntryValid-if false o o' v v' = v'

DistinctKeys-keep_room :
    (k : Bytes) (m : SessionSet) (rest : Rooms)
    → Dict.lookup k rest ≡ none
    → Dict.DistinctKeys rest
    → Dict.DistinctKeys (keep_room k m rest)
unfolding keep_room
DistinctKeys-keep_room k [] rest new d = d
DistinctKeys-keep_room k (p ∷ m) rest new d = (new, d)

DistinctKeys-leave_each :
    (p : Ptr) (r : Rooms) → Dict.DistinctKeys r → Dict.DistinctKeys (leave_each p r)
unfolding leave_each
DistinctKeys-leave_each p [] d = tt
DistinctKeys-leave_each p ((k, m) ∷ r) (new, d) =
    DistinctKeys-keep_room k (set_erase m p) (leave_each p r)
      (lookup-leave_each k p r d ∙ ap (shrink p) new) (DistinctKeys-leave_each p r d)

DistinctKeys-put_or_erase :
    (a : Bytes) (m : SessionSet) (r : Rooms)
    → Dict.DistinctKeys r
    → Dict.DistinctKeys (put_or_erase a m r)
unfolding put_or_erase
DistinctKeys-put_or_erase a [] r d = Dict.DistinctKeys-erase a r d
DistinctKeys-put_or_erase a (p ∷ m) r d = Dict.DistinctKeys-insert a (p ∷ m) r d

DistinctKeys-leave_found :
    (o : Option SessionSet) (a : Bytes) (p : Ptr) (r : Rooms)
    → Dict.DistinctKeys r
    → Dict.DistinctKeys (leave_found o a p r)
unfolding leave_found
DistinctKeys-leave_found none a p r d = d
DistinctKeys-leave_found (some m) a p r d = DistinctKeys-put_or_erase a (set_erase m p) r d

module _ (a : Bytes) (p : Ptr) (r : Rooms) (not_null : p ≢ null) (v : RoomsValid r) where
  pub join_room-RoomsValid : RoomsValid (join_room a p r)
  join_room-RoomsValid = record {
    keys =
        unfold join_room in
        rw (nat_eq_of_ne p null not_null) (Dict.DistinctKeys-insert a _ r v.keys);
    entries = λ b. rw (lookup-join_room a p r not_null b) (
        EntryValid-if (a == b) _ _ (EntryValid-insert p (Dict.lookup a r) not_null (v.entries a))
          (v.entries b));
  }

  pub leave_room-RoomsValid : RoomsValid (leave_room a p r)
  leave_room-RoomsValid = record {
    keys =
        unfold leave_room in
        rw (nat_eq_of_ne p null not_null) (DistinctKeys-leave_found (Dict.lookup a r) a p r v.keys);
    entries = λ b. rw (lookup-leave_room a p r not_null b) (
        EntryValid-if (a == b) _ _ (EntryValid-shrink p (Dict.lookup b r) (v.entries b))
          (v.entries b));
  }

  pub leave_all-RoomsValid : RoomsValid (leave_all p r)
  leave_all-RoomsValid = record {
    keys =
        unfold leave_all in rw (nat_eq_of_ne p null not_null) (DistinctKeys-leave_each p r v.keys);
    entries = λ b.
        rw (lookup-leave_all a p r not_null b v.keys)
          (EntryValid-shrink p (Dict.lookup b r) (v.entries b));
  }
