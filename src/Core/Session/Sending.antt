-- ===== src/Core/Session/Sending.antt =====
-- What Session::send_msg puts on the wire.
use mpcc.Common.{
  ℕ, zero, suc, ◌≡◌, Bool, true, false, none, some, [], ◌∷◌, ◌++◌, append_assoc, append-nil, Bytes,
  take, drop, ◌≤◌, ◌<◌, inl, inr, arith, take-append-drop, refl, ap, sym, ◌∙◌, ◌≢◌, length,
  Option-cases,
}
use mpcc.Core.Net.{Kernel, Net, took, refused}
use mpcc.Core.UniqueFd.{UniqueFd}
use mpcc.Core.Session.{Session, World, update, send_all, send_msg, mark_sent}

length-drop : (n : ℕ) (s : Bytes) → 0 < n → n ≤ length s → length (drop n s) < length s
length-drop zero s h l = absurd (omega arith)
length-drop (suc n) [] h l = absurd (omega arith)
length-drop (suc zero) (c ∷ s) h l = omega arith
length-drop (suc (suc n)) (c ∷ s) h l = omega (arith, length-drop (suc n) s)

-- What a run of the loop leaves: all of `msg` on the wire, or a part that stops short of its end.
abbrev pub Sent : Bytes → Bytes → Bytes → Bool → Type 0
Sent msg before after true = after ≡ before ++ msg
Sent msg before after false =
    (done : Bytes) × (rest : Bytes) × (msg ≡ done ++ rest) × (rest ≢ []) × (after ≡ before ++ done)

Sent-step :
    (n : ℕ) (msg before middle after : Bytes) (b : Bool)
    → middle ≡ before ++ take n msg
    → Sent (drop n msg) middle after b
    → Sent msg before after b
Sent-step n msg before middle after true e h = rw (h, e, append_assoc, take-append-drop n msg)
Sent-step n msg before middle after false e (done, rest, cut, some_left, h) = (
  take n msg ++ done,
  rest,
  sym (take-append-drop n msg)
      ∙ ap (◌++◌ (take n msg)) cut
      ∙ sym (append_assoc (take n msg) done rest),
  some_left,
  rw (h, e) (append_assoc before (take n msg) done),
)

wire-took : (fd : ℕ) (s : Bytes) (net : Net) → (took (some fd) s net).wire fd ≡ net.wire fd ++ s
wire-took fd s net = ground arith

-- The loop returns on the fuel it is given, on any descriptor.
pub send_all_returns :
    (k : Kernel) (fuel : ℕ) (fd : UniqueFd) (rest : Bytes) (net : Net)
    → length rest ≤ fuel
    → (sent : Bool) × (net' : Net) × (send_all k fuel fd rest net ≡ some (sent, net'))
unfolding send_all
send_all_returns k fuel fd [] net h = (true, net, refl)
send_all_returns k zero fd (c ∷ rest) net h = absurd (omega arith)
send_all_returns k (suc fuel) fd (c ∷ rest) net h =
    elim (Option-cases (k.send net.now fd (c ∷ rest))) [
      | inl e ↦ (false, refused net, rw (e, send_all) refl)
      | inr (n, e) ↦
          let (pos, fits) = k.send_progress net.now fd (c ∷ rest) n e in
          let (sent, net', runs) =
            send_all_returns k fuel fd (drop n (c ∷ rest)) (took fd (take n (c ∷ rest)) net)
              (omega (arith, length-drop n (c ∷ rest) pos fits)) in
          (sent, net', rw (e, send_all) runs)
    ]

-- The last call of ::send, on the part `rest` of the message that is left, took nothing.
abbrev pub Refused : Kernel → ℕ → Bytes → Bytes → Bytes → ℕ → Bool → Type 0
Refused k fd msg before after now true = Unit {0}
Refused k fd msg before after now false =
    (t : ℕ) × (done : Bytes) × (rest : Bytes) × (now ≡ suc t)
    × (msg ≡ done ++ rest)
    × (after ≡ before ++ done)
    × (k.send t (some fd) rest ≡ none)

Refused-step :
    (k : Kernel) (fd n : ℕ) (msg before middle after : Bytes) (now : ℕ) (b : Bool)
    → middle ≡ before ++ take n msg
    → Refused k fd (drop n msg) middle after now b
    → Refused k fd msg before after now b
Refused-step k fd n msg before middle after now true e h = tt
Refused-step k fd n msg before middle after now false e (t, done, rest, last, cut, h, refusal) = (
  t,
  take n msg ++ done,
  rest,
  last,
  sym (take-append-drop n msg)
      ∙ ap (◌++◌ (take n msg)) cut
      ∙ sym (append_assoc (take n msg) done rest),
  rw (h, e) (append_assoc before (take n msg) done),
  refusal,
)

-- A run of the loop, from `net` to `net'` with the result `sent`.
record Ran (k : Kernel) (fd : ℕ) (msg : Bytes) (net net' : Net) (sent : Bool) : Type 0 where
  wire : Sent msg (net.wire fd) (net'.wire fd) sent
  refusal : Refused k fd msg (net.wire fd) (net'.wire fd) net'.now sent
  other_wires : (g : ℕ) → g ≢ fd → net'.wire g ≡ net.wire g
  closed : net'.closed ≡ net.closed

module _ (k : Kernel) (fd : ℕ) where
  Ran-step :
      (n : ℕ) (msg : Bytes) (net net' : Net) (sent : Bool)
      → Ran k fd (drop n msg) (took (some fd) (take n msg) net) net' sent
      → Ran k fd msg net net' sent
  Ran-step n msg net net' sent r =
      let e = wire-took fd (take n msg) net in
      let middle = (took (some fd) (take n msg) net).wire fd in
      record {
        wire = Sent-step n msg (net.wire fd) middle (net'.wire fd) sent e r.wire;
        refusal =
            Refused-step k fd n msg (net.wire fd) middle (net'.wire fd) net'.now sent e r.refusal;
        other_wires = λ g ne. r.other_wires g ne ∙ ground arith;
        closed = r.closed;
      }

  send_all-Ran :
      (fuel : ℕ) (msg : Bytes) (net : Net)
      → length msg ≤ fuel
      → (sent : Bool) × (net' : Net) × (send_all k fuel (some fd) msg net ≡ some (sent, net'))
        × Ran k fd msg net net' sent
  unfolding send_all
  send_all-Ran fuel [] net h = (
    true,
    net,
    refl,
    record {
      wire = sym (append-nil (net.wire fd));
      refusal = tt;
      other_wires = λ g ne. refl;
      closed = refl;
    },
  )
  send_all-Ran zero (c ∷ rest) net h = absurd (omega arith)
  send_all-Ran (suc fuel) (c ∷ rest) net h =
      elim (Option-cases (k.send net.now (some fd) (c ∷ rest))) [
        | inl e ↦ (
          false,
          refused net,
          rw (e, send_all) refl,
          record {
            wire = ([], c ∷ rest, refl, (λ e. cc), sym (append-nil (net.wire fd)));
            refusal = (net.now, [], c ∷ rest, refl, refl, sym (append-nil (net.wire fd)), e);
            other_wires = λ g ne. refl;
            closed = refl;
          },
        )
        | inr (n, e) ↦
            let (pos, fits) = k.send_progress net.now (some fd) (c ∷ rest) n e in
            let (sent, net', runs, ran) =
              send_all-Ran fuel (drop n (c ∷ rest)) (took (some fd) (take n (c ∷ rest)) net)
                (omega (arith, length-drop n (c ∷ rest) pos fits)) in
            (sent, net', rw (e, send_all) runs, Ran-step n (c ∷ rest) net net' sent ran)
      ]

-- What a call of send_msg on an active session does to the world, `sent` being its result.
pub record SendPost (k : Kernel) (p fd : ℕ) (msg : Bytes) (s : Session) (w w' : World) (sent : Bool)
    : Type 0 where
  pub wire : Sent msg (w.net.wire fd) (w'.net.wire fd) sent
  pub refusal : Refused k fd msg (w.net.wire fd) (w'.net.wire fd) w'.net.now sent
  pub session : w'.session p ≡ some (record s { active = sent })
  pub other_sessions : (q : ℕ) → q ≢ p → w'.session q ≡ w.session q
  pub other_wires : (g : ℕ) → g ≢ fd → w'.net.wire g ≡ w.net.wire g
  pub closed : w'.net.closed ≡ w.net.closed

-- On an active session that has a descriptor send_msg returns, within as many rounds as the message has
-- bytes. It returns true exactly if the kernel took the whole message, in order and once, however
-- ::send cuts it. It returns false only after a ::send of all that was left has taken nothing; the
-- part before that, which stops short of the end, is on the wire, and the session is no longer active.
-- No other session and no other wire is touched, and nothing is closed.
pub send_msg_lem :
    (k : Kernel) (p fd : ℕ) (msg : Bytes) (s : Session) (w : World)
    → w.session p ≡ some s
    → s.active ≡ true
    → s.client_fd ≡ some fd
    → (sent : Bool) × (w' : World) × (send_msg k p msg w ≡ some (sent, w'))
      × SendPost k p fd msg s w w' sent
unfolding send_msg
send_msg_lem k p fd msg s w here on open_fd =
    let (sent, net, runs, ran) = send_all-Ran k fd (length msg) msg w.net (omega arith) in
    let on_fd : send_all k (length msg) s.client_fd msg w.net ≡ some (sent, net) =
      ap (λ x. send_all k (length msg) x msg w.net) open_fd ∙ runs in
    (
      sent,
      record { session = update w.session p (some (record s { active = sent })); net = net },
      rw (here, on) (ap (mark_sent p s w) on_fd),
      record {
        wire = ran.wire;
        refusal = ran.refusal;
        session = ground arith;
        other_sessions = λ q ne. ground arith;
        other_wires = ran.other_wires;
        closed = ran.closed;
      },
    )

-- On an inactive session nothing is sent and nothing changes.
pub send_msg_inactive :
    (k : Kernel) (p : ℕ) (msg : Bytes) (s : Session) (w : World)
    → w.session p ≡ some s
    → s.active ≡ false
    → send_msg k p msg w ≡ some (false, w)
unfolding send_msg
send_msg_inactive k p msg s w here off = rw (here, off)
