-- ===== src/Client/Sending.antt =====
-- What the client's sends put on the wire.
use mpcc.Common.{
  ℕ, zero, suc, ◌+◌, ◌≤◌, ◌≡◌, refl, sym, ap, ◌∙◌, ◌↔◌, Bool, true, some, List, [], ◌∷◌, ◌++◌,
  append_assoc, Bytes, length, take, drop, take-append-drop, arith,
}
use mpcc.Client.{
  SendAnswer, takes, interrupted, broken, Host, State, returned, send_all, send_wire,
  send_encrypted,
}

-- How many calls of ::send take something before the first that fails for good.
unfoldable pub capacity : List SendAnswer → ℕ
capacity [] = 0
capacity (takes n ∷ answers) = suc (capacity answers)
capacity (interrupted ∷ answers) = capacity answers
capacity (broken ∷ answers) = 0

-- What was taken is the front of what was to be sent, and `sent` tells whether it is all of it.
record Front (wire : Bytes) (sent : Bool) (taken : Bytes) : Type 0 where
  rest : Bytes
  cut : wire ≡ taken ++ rest
  all_sent : (sent ≡ true) ↔ (rest ≡ [])

send_all-Front :
    (answers : List SendAnswer) (wire : Bytes)
    → let (sent, taken, left) = send_all answers wire in Front wire sent taken
unfolding send_all
send_all-Front answers [] = record { rest = []; cut = refl; all_sent = (λ e. refl, λ e. refl) }
send_all-Front [] (c ∷ wire) = record {
  rest = c ∷ wire;
  cut = refl;
  all_sent = (λ e. absurd (cc e), λ e. absurd (cc e));
}
send_all-Front (interrupted ∷ answers) (c ∷ wire) = send_all-Front answers (c ∷ wire)
send_all-Front (broken ∷ answers) (c ∷ wire) = record {
  rest = c ∷ wire;
  cut = refl;
  all_sent = (λ e. absurd (cc e), λ e. absurd (cc e));
}
send_all-Front (takes n ∷ answers) (c ∷ wire) =
    let later = send_all-Front answers (drop n wire) in
    let (sent, taken, left) = send_all answers (drop n wire) in
    record {
      rest = later.rest;
      cut = ap (◌∷◌ c) (
          sym (take-append-drop n wire)
          ∙ ap (◌++◌ (take n wire)) later.cut
          ∙ sym (append_assoc (take n wire) taken later.rest));
      all_sent = later.all_sent;
    }

length-drop-le : (n : ℕ) (s : Bytes) → length (drop n s) ≤ length s
length-drop-le zero s = omega arith
length-drop-le (suc n) [] = omega arith
length-drop-le (suc n) (c ∷ s) = omega (arith, length-drop-le n s)

-- With enough calls that take something, everything is sent.
record Enough (answers : List SendAnswer) (wire : Bytes) (sent : Bool) (left : List SendAnswer)
    : Type 0 where
  sent_all : sent ≡ true
  still : capacity answers ≤ capacity left + length wire

send_all-Enough :
    (answers : List SendAnswer) (wire : Bytes)
    → length wire ≤ capacity answers
    → let (sent, taken, left) = send_all answers wire in Enough answers wire sent left
unfolding send_all capacity
send_all-Enough answers [] h = record { sent_all = refl; still = omega arith }
send_all-Enough [] (c ∷ wire) h = absurd (omega (arith, h))
send_all-Enough (interrupted ∷ answers) (c ∷ wire) h =
    let later = send_all-Enough answers (c ∷ wire) h in
    record { sent_all = later.sent_all; still = later.still }
send_all-Enough (broken ∷ answers) (c ∷ wire) h = absurd (omega (arith, h))
send_all-Enough (takes n ∷ answers) (c ∷ wire) h =
    let later = send_all-Enough answers (drop n wire) (omega (arith, h, length-drop-le n wire)) in
    record { sent_all = later.sent_all; still = omega (arith, later.still, length-drop-le n wire) }

-- What a send does to the client.
pub record SendPost (s s' : State) (frame : Bytes) (sent : Bool) : Type 0 where
  pub taken : Bytes
  pub rest : Bytes
  pub cut : frame ≡ taken ++ rest
  pub all_sent : (sent ≡ true) ↔ (rest ≡ [])
  pub after : s' ≡ record s { wire = s.wire ++ taken; answers = s'.answers }
  pub enough :
      length frame ≤ capacity s.answers
      → (sent ≡ true) × (capacity s.answers ≤ capacity s'.answers + length frame)

-- A client with a socket: whatever ::send answers, send_encrypted() returns; what ::send has taken is
-- the front of the encrypted text, and `true` is returned exactly if that is all of it. It is all of
-- it when as many calls take something as the text has bytes, before one fails with another error
-- than EINTR. Nothing else of the client changes but the answers of ::send that are used up.
pub send_encrypted_lem :
    (e : Host) (plain : Bytes) (s : State) (fd : ℕ)
    → s.sock_fd ≡ some fd
    → (sent : Bool) × (s' : State) × (send_encrypted e plain s ≡ returned sent s')
      × SendPost s s' (e.cipher.encrypt plain) sent
unfolding send_encrypted send_wire
send_encrypted_lem e plain s fd has_fd =
    let wire = e.cipher.encrypt plain in
    let (sent, taken, left) = send_all s.answers wire in
    let front = send_all-Front s.answers wire in
    (
      sent,
      record s { wire = s.wire ++ taken; answers = left },
      rw has_fd refl,
      record {
        taken = taken;
        rest = front.rest;
        cut = front.cut;
        all_sent = front.all_sent;
        after = refl;
        enough = λ h. let full = send_all-Enough s.answers wire h in (full.sent_all, full.still);
      },
    )
