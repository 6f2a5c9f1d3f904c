-- ===== src/Server/Broadcast/Safety.antt =====
-- The broadcaster never faults on live sessions, and only sends.
use mpcc.Common.{
  ◌≡◌, refl, ◌⊎◌, inl, inr, true, some, List, [], ◌∷◌, Bytes, contains, contains-cons_eq,
  contains-tail, arith, nat_eq, nat_eq_of_eq, Bool-cases, ℕ_discrete, nat_eq_of_ne, Option-cases,
  filter_by, contains-filter_by,
}
use mpcc.Common.Dict
use mpcc.Core.Cipher.Laws.{IEncrypt}
use mpcc.Core.Net.{Kernel}
use mpcc.Core.Session.{World, Ptr, null, send_msg}
use mpcc.Core.Session.Sends.{
  Alive, Alive-Sends, OnlySends, OnlySends-pure, OnlySends-bind, OnlySends-if, OnlySends-send_msg,
  OnlySends-read, Sends, Sends-refl, Sends-trans,
}
use mpcc.Server.Broadcast.{
  BroadcastManager, frame, wants, deliver, deliver_wanted, broadcast, broadcast_to_recipients,
  target_at, send_to, send_private,
}
use mpcc.Server.Broadcast.Hearing.{snapshot-hears, hears, wants-hears}
use mpcc.Server.Broadcast.Recipients.{pm_frame}

OnlySends-deliver :
    (k : Kernel) (wire : Bytes) (ps : List Ptr) (w : World)
    → ((q : Ptr) → contains ps q ≡ true → Alive w q)
    → OnlySends (deliver k wire ps) w
unfolding deliver
OnlySends-deliver k wire [] w live = OnlySends-pure tt w
OnlySends-deliver k wire (p ∷ ps) w live =
    OnlySends-bind (send_msg k p wire) (λ _. deliver k wire ps) w
      (OnlySends-send_msg k p wire w (live p (contains-cons_eq p ps p refl)))
      (λ _ w' sent.
        OnlySends-deliver k wire ps w'
          (λ q m. Alive-Sends q sent (live q (contains-tail p ps q m))))

OnlySends-wants : (sender : Bytes) (p : Ptr) (w : World) → Alive w p → OnlySends (wants sender p) w
OnlySends-wants sender p w live =
    OnlySends-read (wants sender p) w (hears w sender p) (wants-hears w sender p live)

-- What deliver_wanted may be given: each pointer is null or may be followed.
abbrev pub NullOrAlive : World → List Ptr → Type 0
NullOrAlive w ps = (q : Ptr) → contains ps q ≡ true → (q ≡ null) ⊎ Alive w q

NullOrAlive-Sends :
    {w w' : World} (ps : List Ptr) → Sends w w' → NullOrAlive w ps → NullOrAlive w' ps
NullOrAlive-Sends {w} {w'} ps c live q m = elim (live q m) [
  | inl e ↦ inl e
  | inr a ↦ inr (Alive-Sends q c a)
]

OnlySends-deliver_wanted :
    (k : Kernel) (sender wire : Bytes) (ps : List Ptr) (w : World)
    → NullOrAlive w ps
    → OnlySends (deliver_wanted k sender wire ps) w
unfolding deliver_wanted
OnlySends-deliver_wanted k sender wire [] w live = OnlySends-pure tt w
OnlySends-deliver_wanted k sender wire (p ∷ ps) w live =
    let rest : (w' : World) → Sends w w' → OnlySends (deliver_wanted k sender wire ps) w' = λ w' c.
      OnlySends-deliver_wanted k sender wire ps w'
        (NullOrAlive-Sends ps c (λ q m. live q (contains-tail p ps q m))) in
    elim (live p (contains-cons_eq p ps p refl)) [
      | inl e ↦ rw (nat_eq_of_eq p null e) (rest w (Sends-refl w))
      | inr here ↦
          OnlySends-if (nat_eq p null) (deliver_wanted k sender wire ps) _ w (rest w (Sends-refl w))
            (OnlySends-bind (wants sender p) _ w (OnlySends-wants sender p w here) (λ keep w' c.
              OnlySends-if keep _ (deliver_wanted k sender wire ps) w'
                (OnlySends-bind (send_msg k p wire) (λ _. deliver_wanted k sender wire ps) w'
                  (OnlySends-send_msg k p wire w' (Alive-Sends p c here))
                  (λ _ w'' c'. rest w'' (Sends-trans c c')))
                (rest w' c)))
    ]

module _ (k : Kernel) (cipher : IEncrypt) where
  pub OnlySends-broadcast :
      (b : BroadcastManager) (sender message : Bytes) (w : World)
      → ((q : Ptr) → contains b.clients q ≡ true → Alive w q)
      → OnlySends (broadcast k cipher b sender message) w
  unfolding broadcast
  OnlySends-broadcast b sender message w live =
      let sent =
        OnlySends-deliver k (frame cipher sender message) (filter_by (hears w sender) b.clients) w
          (λ q m. live q (ground (arith, m, contains-filter_by (hears w sender) b.clients q))) in
      record {
        result = sent.result;
        after = sent.after;
        runs = rw (snapshot-hears w sender b.clients live) sent.runs;
        sends = sent.sends;
      }

  pub OnlySends-broadcast_to_recipients :
      (sender message : Bytes) (ps : List Ptr) (w : World)
      → NullOrAlive w ps
      → OnlySends (broadcast_to_recipients k cipher sender message ps) w
  unfolding broadcast_to_recipients
  OnlySends-broadcast_to_recipients sender message ps w live =
      OnlySends-deliver_wanted k sender (frame cipher sender message) ps w live

  pub OnlySends-send_private :
      (b : BroadcastManager) (from to message : Bytes) (w : World)
      → ((p : Ptr) → Dict.lookup to b.by_name ≡ some p → Alive w p)
      → OnlySends (send_private k cipher b from to message) w
  unfolding send_private target_at send_to
  OnlySends-send_private b from to message w live = elim (Option-cases (Dict.lookup to b.by_name)) [
    | inl e ↦ OnlySends-read (send_private k cipher b from to message) w tt (rw e refl)
    | inr (p, e) ↦ elim (ℕ_discrete p null) [
      | yes is_null ↦
          OnlySends-read (send_private k cipher b from to message) w tt
            (rw (e, nat_eq_of_eq p null is_null) refl)
      | no not_null ↦
          let (s, here) = live p e in
          elim (Bool-cases s.active) [
            | inr off ↦
                OnlySends-read (send_private k cipher b from to message) w tt
                  (rw (e, nat_eq_of_ne p null not_null, here, off) refl)
            | inl on ↦
                let sent = OnlySends-send_msg k p (pm_frame cipher from message) w (s, here) in
                record {
                  result = tt;
                  after = sent.after;
                  runs = rw (e, nat_eq_of_ne p null not_null, here, on, sent.runs) refl;
                  sends = sent.sends;
                }
          ]
    ]
  ]
