-- ===== src/Server/Broadcast/Recipients.antt =====
-- The three ways to send a message, each against the set of sessions that it means to reach.
use mpcc.Common.{
  ℕ, ◌≡◌, refl, sym, ap, ◌∙◌, ◌≢◌, ◌⊎◌, inl, inr, Bool, true, false, none, some, List, [], ◌∷◌,
  ◌++◌, codes, Bytes, nat_eq, Bool-cases, contains, NoDup, filter_by, nat_eq_of_eq, nat_eq_iff,
  contains-one, nat_eq_of_ne, filter_by_congr, subst, contains-cons_eq, contains-tail, contains-nil,
}
use mpcc.Common.Dict
use mpcc.Core.Cipher.Laws.{IEncrypt}
use mpcc.Core.Net.{Kernel}
use mpcc.Core.Session.{Session, World, Ptr, null}
use mpcc.Core.Session.Sending.{SendPost, send_msg_lem}
use mpcc.Server.Broadcast.{
  BroadcastManager, frame, deliver, deliver_wanted, broadcast, broadcast_to_recipients,
  send_private,
}
use mpcc.Server.Broadcast.Delivery.{Sendable, Sendable-send, Outcome, deliver_lem}
use mpcc.Server.Broadcast.Hearing.{
  IsValid, Live, hears, wants-hears, snapshot-hears, Sendable-hears, Reaches, deliver-hears,
}

-- In a valid store of sessions, and with distinct clients that are all alive, broadcast() does not
-- fault, and sends its frame once to each registered client that is active and whose user is not the
-- sender, and to no other session that has a descriptor. A recipient stays active exactly if the
-- whole frame got through.
pub broadcast_lem :
    (k : Kernel) (cipher : IEncrypt) (b : BroadcastManager) (sender message : Bytes) (w : World)
    → IsValid w
    → NoDup b.clients
    → ((p : Ptr) → contains b.clients p ≡ true → Live w p)
    → (w' : World) × (broadcast k cipher b sender message w ≡ some (tt, w'))
      × Reaches (frame cipher sender message) sender b.clients w w'
unfolding broadcast
broadcast_lem k cipher b sender message w v nodup live =
    let (w', e, reach) = deliver-hears k (frame cipher sender message) sender b.clients w v nodup in
    (w', rw (snapshot-hears w sender b.clients live) e, reach)

hears-send :
    (w w' : World) (sender : Bytes) (q : Ptr)
    → w'.session q ≡ w.session q
    → hears w' sender q ≡ hears w sender q
unfolding hears
hears-send w w' sender q e = rw (e, hears)

hears-null : (w : World) (sender : Bytes) → w.session null ≡ none → hears w sender null ≡ false
unfolding hears
hears-null w sender e = rw (e, hears)

-- Each recipient is null or may be followed, and can be sent to if it hears the sender.
record Ready (w : World) (sender : Bytes) (ps : List Ptr) : Type 0 where
  null_free : w.session null ≡ none
  live : (q : Ptr) → contains ps q ≡ true → (q ≡ null) ⊎ Live w q
  ready : (q : Ptr) → contains ps q ≡ true → hears w sender q ≡ true → Sendable w q

Ready-tail :
    {w : World} {sender : Bytes} {p : Ptr} {ps : List Ptr}
    → Ready w sender (p ∷ ps)
    → Ready w sender ps
Ready-tail {p = p} {ps = ps} r = record {
  null_free = r.null_free;
  live = λ q m. r.live q (contains-tail p ps q m);
  ready = λ q m. r.ready q (contains-tail p ps q m);
}

Live-after :
    (w w' : World) (q : Ptr)
    → w'.session q ≡ w.session q
    → (q ≡ null) ⊎ Live w q
    → (q ≡ null) ⊎ Live w' q
Live-after w w' q e (inl h) = inl h
Live-after w w' q e (inr (s, h)) = inr (s, e ∙ h)

module _ (k : Kernel) (msg sender : Bytes) where
  Ready-send :
      {p fd : ℕ} {s : Session} {w w' : World} {sent : Bool} (ps : List Ptr)
      → contains ps p ≡ false
      → w.session p ≡ some s
      → SendPost k p fd msg s w w' sent
      → Ready w sender ps
      → Ready w' sender ps
  Ready-send {p} {s = s} {w} {w'} ps new here post r = record {
    null_free =
        post.other_sessions null (λ e. cc (ap w.session e, here, r.null_free)) ∙ r.null_free;
    live = λ q m. Live-after w w' q (post.other_sessions q (apart q m)) (r.live q m);
    ready = λ q m h.
        Sendable-send here post q (apart q m)
          (r.ready q m (sym (hears-send w w' sender q (post.other_sessions q (apart q m))) ∙ h));
  }
    where
      apart : (q : Ptr) → contains ps q ≡ true → q ≢ p
      apart q m e = cc (ap (contains ps) e, m, new)

  abbrev Agree : List Ptr → World → Type 0
  Agree ps w = deliver_wanted k sender msg ps w ≡ deliver k msg (filter_by (hears w sender) ps) w

  -- Tests between the sends find what tests before all of them would have found.
  deliver_wanted-deliver : (ps : List Ptr) (w : World) → NoDup ps → Ready w sender ps → Agree ps w
  unfolding deliver_wanted deliver filter_by
  deliver_wanted-deliver [] w nodup r = refl
  deliver_wanted-deliver (p ∷ ps) w (new, nodup) r =
      let skip = deliver_wanted-deliver ps w nodup (Ready-tail r) in
      elim (r.live p (contains-cons_eq p ps p refl)) [
        | inl e ↦
            rw (nat_eq_of_eq p null e, ap (hears w sender) e ∙ hears-null w sender r.null_free) skip
        | inr (s, here) ↦
            let not_null = nat_eq_of_ne p null (λ e. cc (ap w.session e, here, r.null_free)) in
            elim (Bool-cases (hears w sender p)) [
              | inr deaf ↦ rw (not_null, wants-hears w sender p (s, here), deaf) skip
              | inl hear ↦
                  let t = r.ready p (contains-cons_eq p ps p refl) hear in
                  let (sent, w₁, e₁, post) =
                    send_msg_lem k p t.fd msg t.at w t.here t.on t.has_fd in
                  let same = filter_by_congr (hears w₁ sender) (hears w sender) ps (λ q m.
                    hears-send w w₁ sender q
                      (post.other_sessions q (λ e. cc (ap (contains ps) e, m, new)))) in
                  rw (not_null, wants-hears w sender p (s, here), hear, e₁, ← same)
                    (deliver_wanted-deliver ps w₁ nodup
                      (Ready-send ps new t.here post (Ready-tail r)))
            ]
      ]

-- In a valid store of sessions, and with distinct recipients each of which is null or alive,
-- broadcast_to_recipients() does not fault, and sends its frame once to each recipient that is active
-- and whose user is not the sender, and to no other session that has a descriptor.
pub broadcast_to_recipients_lem :
    (k : Kernel) (cipher : IEncrypt) (sender message : Bytes) (recipients : List Ptr) (w : World)
    → IsValid w
    → NoDup recipients
    → ((p : Ptr) → contains recipients p ≡ true → (p ≡ null) ⊎ Live w p)
    → (w' : World) × (broadcast_to_recipients k cipher sender message recipients w ≡ some (tt, w'))
      × Reaches (frame cipher sender message) sender recipients w w'
unfolding broadcast_to_recipients
broadcast_to_recipients_lem k cipher sender message recipients w v nodup live =
    let (w', e, reach) =
      deliver-hears k (frame cipher sender message) sender recipients w v nodup in
    let r : Ready w sender recipients = record {
      null_free = v.null_free;
      live = live;
      ready = λ q _ h. Sendable-hears w sender q v h;
    } in
    (
      w',
      deliver_wanted-deliver k (frame cipher sender message) sender recipients w nodup r ∙ e,
      reach,
    )

-- The frame of a private message.
abbrev pub pm_frame : IEncrypt → Bytes → Bytes → Bytes
pm_frame cipher from message =
    frame cipher from (codes "[PM from " ++ (from ++ (codes "]: " ++ message)))

-- In a valid store of sessions, and for a name under which the map has an active session,
-- send_private() does not fault, and sends its frame once to that session and to no other that has a
-- descriptor.
pub send_private_lem :
    (k : Kernel) (cipher : IEncrypt) (b : BroadcastManager) (from to message : Bytes) (p : Ptr)
    (s : Session) (w : World)
    → IsValid w
    → Dict.lookup to b.by_name ≡ some p
    → w.session p ≡ some s
    → s.active ≡ true
    → (w' : World) × (send_private k cipher b from to message w ≡ some (tt, w'))
      × ((q : Ptr) (t : Session) (fd : ℕ)
          → w.session q ≡ some t
          → t.client_fd ≡ some fd
          → Outcome (pm_frame cipher from message) w w' q t fd (nat_eq p q))
unfolding send_private deliver
send_private_lem k cipher b from to message p s w v found here on =
    let (fd, has_fd) = v.has_fd p s here on in
    let ready : (q : Ptr) → contains (p ∷ []) q ≡ true → Sendable w q = λ q m.
      subst (Sendable w) ((nat_eq_iff p q).0 (sym (contains-one p q) ∙ m))
        (record { at = s; fd = fd; here = here; on = on; has_fd = has_fd }) in
    let (w', e, reach) =
      deliver_lem k (pm_frame cipher from message) (p ∷ []) w (contains-nil p, tt) ready
        v.distinct in
    let not_null = nat_eq_of_ne p null (λ e. cc (ap w.session e, here, v.null_free)) in
    (
      w',
      rw (found, not_null, here, on) e,
      λ q t g at_q open_fd.
          subst (Outcome (pm_frame cipher from message) w w' q t g) (contains-one p q)
            (reach q t g at_q open_fd),
    )
