-- ===== src/Server/Broadcast/Clients.antt =====
-- Registering and unregistering clients: which pointers the manager holds.
use mpcc.Common.{
  ◌≡◌, refl, sym, ap, ◌∙◌, ◌≢◌, ◌↔◌, inl, inr, Bool, true, false, not, ◌&&◌, none, some, Option, [],
  ◌∷◌, ◌++◌, Bytes, ◌==◌, ==_iff, nat_eq, if◌then◌else◌, arith, Bool-cases, Option-cases, contains,
  NoDup, ℕ_discrete, without, contains-without, NoDup-without, contains-snoc, NoDup-snoc, subst,
  some-eq-some, nat_eq_of_ne,
}
use mathlib.Core.Bool.{and-false}
use mpcc.Common.Dict
use mpcc.Core.Session.{Session, World, Ptr, null, ◌>>=◌, get_username}
use mpcc.Server.Broadcast.{BroadcastManager, add_client, remove_client, forget}
use mpcc.Server.Broadcast.Hearing.{Live}

-- What holds between calls: the clients are distinct live sessions, and each entry of the map names
-- one of them by its user name.
pub record ClientsValid (b : BroadcastManager) (w : World) : Type 0 where
  pub distinct : NoDup b.clients
  pub live : (p : Ptr) → contains b.clients p ≡ true → Live w p
  pub named :
      (n : Bytes) (p : Ptr)
      → Dict.lookup n b.by_name ≡ some p
      → (contains b.clients p ≡ true) × ((s : Session) → w.session p ≡ some s → s.username ≡ n)

abbrev points_to : Option Ptr → Ptr → Bool
points_to none p = false
points_to (some q) p = nat_eq q p

lookup-forget :
    (o : Option Ptr) (m : Dict.Dict Ptr) (name n : Bytes) (p : Ptr)
    → Dict.lookup n (forget o m name p)
      ≡ (if points_to o p && (name == n) then none else Dict.lookup n m)
unfolding forget
lookup-forget none m name n p = refl
lookup-forget (some q) m name n p = ground (arith, Dict.lookup-erase name n m)

forget_cases :
    (e : Bool) (o v : Option Ptr) (p q : Ptr)
    → (e ≡ true → o ≡ v)
    → (v ≡ some p → e ≡ true)
    → ((if points_to o p && e then none else v) ≡ some q) ↔ ((v ≡ some q) × (q ≢ p))
forget_cases true o none p q same own = (λ h. ground arith, λ h. cc (h.0))
forget_cases true o (some r) p q same own = rw (same refl) (λ h. ground arith, λ h. ground arith)
forget_cases false o v p q same own =
    rw and-false ((λ h. (h, λ e. cc (own (h ∙ ap some e)))), (λ h. h.0))

-- An entry for `n` is erased exactly if it leads to `p`, when the name under which `p` is registered
-- is the only one that leads to it.
forget_iff :
    (m : Dict.Dict Ptr) (name n : Bytes) (p q : Ptr)
    → (Dict.lookup n m ≡ some p → name ≡ n)
    → (Dict.lookup n (forget (Dict.lookup name m) m name p) ≡ some q)
      ↔ ((Dict.lookup n m ≡ some q) × (q ≢ p))
forget_iff m name n p q own = rw (lookup-forget (Dict.lookup name m) m name n p) (
    forget_cases (name == n) (Dict.lookup name m) (Dict.lookup n m) p q
      (λ e. ap (λ k. Dict.lookup k m) ((==_iff name n).0 e)) (λ e. (==_iff name n).1 (own e)))

module _ (b : BroadcastManager) (p : Ptr) (s : Session) (w : World) (here : w.session p ≡ some s)
    (not_null : p ≢ null) where
  -- add_client() puts the session behind the others, and its name leads to it.
  pub add_client_lem :
      (b' : BroadcastManager) × (add_client b p w ≡ some (b', w))
      × (b'.clients ≡ b.clients ++ p ∷ [])
      × ((n : Bytes)
          → Dict.lookup n b'.by_name
            ≡ (if s.username == n then some p else Dict.lookup n b.by_name))
  unfolding add_client get_username
  add_client_lem = (
    record { clients = b.clients ++ p ∷ []; by_name = Dict.insert s.username p b.by_name },
    rw (nat_eq_of_ne p null not_null, here),
    refl,
    λ n. Dict.lookup-insert s.username n p b.by_name,
  )

  -- For a session that is alive and not null, in a valid manager, remove_client() forgets the session
  -- and nothing else: no entry of the list or of the map leads to it any more, and all others stay.
  pub remove_client_lem :
      ClientsValid b w
      → (b' : BroadcastManager) × (remove_client b p w ≡ some (b', w))
        × (b'.clients ≡ without b.clients p)
        × ((q : Ptr) → contains b'.clients q ≡ (contains b.clients q && not (nat_eq q p)))
        × ((n : Bytes) (q : Ptr)
            → (Dict.lookup n b'.by_name ≡ some q) ↔ ((Dict.lookup n b.by_name ≡ some q) × (q ≢ p)))
  unfolding remove_client get_username
  remove_client_lem v = (
    record {
      clients = without b.clients p;
      by_name = forget (Dict.lookup s.username b.by_name) b.by_name s.username p;
    },
    rw (nat_eq_of_ne p null not_null, here),
    refl,
    contains-without b.clients p,
    λ n q. forget_iff b.by_name s.username n p q (λ e. (v.named n p e).1 s here),
  )

  Live-with : (q : Ptr) → ClientsValid b w → contains (b.clients ++ p ∷ []) q ≡ true → Live w q
  Live-with q v m = elim (ℕ_discrete p q) [
    | yes e ↦ (s, ap w.session (sym e) ∙ here)
    | no ne ↦ v.live q (ground (arith, contains-snoc b.clients p q))
  ]

  named_with :
      (n : Bytes) (q : Ptr)
      → ClientsValid b w
      → (if s.username == n then some p else Dict.lookup n b.by_name) ≡ some q
      → (contains (b.clients ++ p ∷ []) q ≡ true)
        × ((t : Session) → w.session q ≡ some t → t.username ≡ n)
  named_with n q v h = elim (Bool-cases (s.username == n)) [
    | inl e ↦ (
      ground (arith, contains-snoc b.clients p q),
      λ t at_q. cc (h, e, at_q, here, (==_iff s.username n).0 e),
    )
    | inr ne ↦
        let (m, own) = v.named n q (ground (arith, h)) in
        (ground (arith, m, contains-snoc b.clients p q), own)
  ]

  -- add_client() of a session that is alive, not null and not yet a client keeps the manager valid:
  -- distinct live clients, and a map in which each user name leads to a client of that name.
  pub add_client-ClientsValid :
      ClientsValid b w
      → contains b.clients p ≡ false
      → (b' : BroadcastManager) × (add_client b p w ≡ some (b', w)) × ClientsValid b' w
  add_client-ClientsValid v new =
      let (b', e, list, map) = add_client_lem in
      (
        b',
        e,
        record {
          distinct = subst NoDup (sym list) (NoDup-snoc b.clients p v.distinct new);
          live = λ q m. Live-with q v (subst (λ l. contains l q ≡ true) list m);
          named = λ n q h.
              subst
                (λ l.
                  (contains l q ≡ true) × ((t : Session) → w.session q ≡ some t → t.username ≡ n))
                (sym list) (named_with n q v (sym (map n) ∙ h));
        },
      )

  -- remove_client() of a session that is alive and not null keeps the manager valid.
  pub remove_client-ClientsValid :
      ClientsValid b w
      → (b' : BroadcastManager) × (remove_client b p w ≡ some (b', w)) × ClientsValid b' w
  remove_client-ClientsValid v =
      let (b', e, same, list, map) = remove_client_lem v in
      (
        b',
        e,
        record {
          distinct = subst NoDup (sym same) (NoDup-without b.clients p v.distinct);
          live = λ q m. v.live q (ground (arith, list q));
          named = λ n q h.
              let (h', ne) = (map n q).0 h in
              let (m, own) = v.named n q h' in (ground (arith, list q, m), own);
        },
      )

-- In a valid manager, when a second session of a user is added while the first is a client, and the
-- second is then removed, the first is a client still, and the map has no entry for the name, so that
-- no private message finds it.
pub second_login_hides_first :
    (b : BroadcastManager) (p q : Ptr) (s t : Session) (w : World)
    → ClientsValid b w
    → contains b.clients p ≡ true
    → contains b.clients q ≡ false
    → w.session p ≡ some s
    → w.session q ≡ some t
    → s.username ≡ t.username
    → q ≢ null
    → (b' : BroadcastManager) × ((do b₁ ← add_client b q; remove_client b₁ q) w ≡ some (b', w))
      × (contains b'.clients p ≡ true)
      × (Dict.lookup s.username b'.by_name ≡ none)
second_login_hides_first b p q s t w v old new at_p at_q same not_null =
    let (b₁, e₁, list₁, map₁) = add_client_lem b q t w at_q not_null in
    let (b₁', e₁', v₁) = add_client-ClientsValid b q t w at_q not_null v new in
    let same₁ : b₁' ≡ b₁ = cc (e₁, e₁') in
    let (b₂, e₂, _, list₂, map₂) =
      remove_client_lem b₁ q t w at_q not_null (subst (λ x. ClientsValid x w) same₁ v₁) in
    let apart : p ≢ q = λ e. cc (ap (contains b.clients) e, old, new) in
    let still : contains b₂.clients p ≡ true =
      list₂ p
      ∙ ap (λ l. contains l p && not (nat_eq p q)) list₁
      ∙ ground (arith, contains-snoc b.clients q p, old) in
    (
      b₂,
      rw e₁ e₂,
      still,
      elim (Option-cases (Dict.lookup s.username b₂.by_name)) [
        | inl e ↦ e
        | inr (r, e) ↦
            let (h, ne) = (map₂ s.username r).0 e in
            absurd (
              ne (
                some-eq-some (
                  sym h ∙ map₁ s.username ∙ rw ((==_iff t.username s.username).1 (sym same)) refl)))
      ],
    )
