-- ===== src/Client/Returns.antt =====
-- The code of the dialogue always returns.
use mpcc.Common.{
  ◌≤◌, ◌≡◌, refl, ap, ◌∙◌, Bool, true, false, not, Option, none, some, List, [], ◌∷◌, ◌++◌, Bytes,
  codes, length, arith, if◌then◌else◌, ◌==◌,
}
use mpcc.Core.Message.{parse}
use mpcc.Core.Message.Proto
use mpcc.Core.UniqueFd.{UniqueFd}
use mpcc.Client.{
  Host, State, returned, C, continue, ◌>>=◌, done, print, getline, next_line, send_wire,
  send_encrypted, recv_from, recv_line,
}
use mpcc.Client.Dialogue.{
  answer_prompt, read_response, do_register, do_login, show_menu, choose, sent_if,
}

-- Code that returns, and types no more lines than were there.
pub record Returns {A : Type 0} (code : C A) (s : State) : Type 0 where
  pub result : A
  pub after : State
  pub runs : code s ≡ returned result after
  pub fewer : length after.stdin ≤ length s.stdin

module _ {A : Type 0} where
  pub Returns-done : (x : A) (s : State) → Returns (done x) s
  Returns-done x s = record { result = x; after = s; runs = refl; fewer = omega arith }

  pub Returns-bind :
      {B : Type 0} (code : C A) (next : A → C B) (s : State)
      → Returns code s
      → ((x : A) (s' : State) → Returns (next x) s')
      → Returns (code >>= next) s
  Returns-bind code next s first then_next =
      let rest = then_next first.result first.after in
      record {
        result = rest.result;
        after = rest.after;
        runs = ap (λ r. continue r next) first.runs ∙ rest.runs;
        fewer = omega (arith, first.fewer, rest.fewer);
      }

  pub Returns-if :
      (b : Bool) (x y : C A) (s : State)
      → Returns x s
      → Returns y s
      → Returns (if b then x else y) s
  Returns-if true x y s hx hy = hx
  Returns-if false x y s hx hy = hy

pub Returns-print : (text : Bytes) (s : State) → Returns (print text) s
Returns-print text s = record { result = tt; after = _; runs = refl; fewer = omega arith }

pub Returns-getline : (s : State) → Returns getline s
Returns-getline s = go s.stdin refl
  where
    go : (lines : List Bytes) → s.stdin ≡ lines → Returns getline s
    go [] e = record {
      result = none;
      after = s;
      runs = ap (λ l. next_line l s) e;
      fewer = omega arith;
    }
    go (line ∷ lines) e = record {
      result = some line;
      after = record s { stdin = lines };
      runs = ap (λ l. next_line l s) e;
      fewer = omega (arith, ap length e);
    }

pub Returns-send_wire : (fd : UniqueFd) (wire : Bytes) (s : State) → Returns (send_wire fd wire) s
unfolding send_wire
Returns-send_wire none [] s = record { result = true; after = s; runs = refl; fewer = omega arith }
Returns-send_wire none (c ∷ wire) s = record {
  result = false;
  after = s;
  runs = refl;
  fewer = omega arith;
}
Returns-send_wire (some fd) wire s = record {
  result = _;
  after = _;
  runs = refl;
  fewer = omega arith;
}

pub Returns-recv_from : (e : Host) (fd : UniqueFd) (s : State) → Returns (recv_from e.cipher fd) s
unfolding recv_from
Returns-recv_from e none s = record { result = []; after = s; runs = refl; fewer = omega arith }
Returns-recv_from e (some fd) s = record { result = _; after = _; runs = refl; fewer = omega arith }

module _ (e : Host) where
  pub Returns-send_encrypted : (plain : Bytes) (s : State) → Returns (send_encrypted e plain) s
  unfolding send_encrypted
  Returns-send_encrypted plain s =
      let h = Returns-send_wire s.sock_fd (e.cipher.encrypt plain) s in
      record { result = h.result; after = h.after; runs = h.runs; fewer = h.fewer }

  pub Returns-recv_line : (s : State) → Returns (recv_line e) s
  unfolding recv_line
  Returns-recv_line s =
      let h = Returns-recv_from e s.sock_fd s in
      record { result = h.result; after = h.after; runs = h.runs; fewer = h.fewer }

  pub Returns-answer_prompt : (s : State) → Returns (answer_prompt e) s
  unfolding answer_prompt
  Returns-answer_prompt s = Returns-bind (recv_line e) _ s (Returns-recv_line s) (λ prompt s₁.
      Returns-bind (print prompt) _ s₁ (Returns-print prompt s₁)
        (λ _ s₂. Returns-bind getline _ s₂ (Returns-getline s₂) send))
    where
      send :
          (line : Option Bytes) (s : State)
          → Returns
              (sent_if line (λ typed. do _ ← send_encrypted e (typed ++ b'\n' ∷ []); done true))
              s
      send none s = Returns-done false s
      send (some typed) s =
          Returns-bind (send_encrypted e (typed ++ b'\n' ∷ [])) _ s (Returns-send_encrypted _ s)
            (λ _ s'. Returns-done true s')

  pub Returns-read_response : (s : State) → Returns (read_response e) s
  unfolding read_response
  Returns-read_response s = Returns-bind (recv_line e) _ s (Returns-recv_line s) (λ response s₁.
      Returns-bind (print (codes "[SERVER] " ++ (response ++ b'\n' ∷ [])))
        (λ _. done ((parse response).type == Proto.ok)) s₁ (Returns-print _ s₁)
        (λ _ s₂. Returns-done ((parse response).type == Proto.ok) s₂))

  pub Returns-do_register : (s : State) → Returns (do_register e) s
  unfolding do_register
  Returns-do_register s = Returns-bind (answer_prompt e) _ s (Returns-answer_prompt s) (λ named s₁.
      Returns-if (not named) (done false) _ s₁ (Returns-done false s₁) (
        Returns-bind (answer_prompt e) _ s₁ (Returns-answer_prompt s₁) (λ given s₂.
          Returns-if (not given) (done false) _ s₂ (Returns-done false s₂)
            (Returns-read_response s₂))))

  pub Returns-do_login : (s : State) → Returns (do_login e) s
  unfolding do_login do_register
  Returns-do_login s =
      let h = Returns-do_register s in
      record { result = h.result; after = h.after; runs = h.runs; fewer = h.fewer }

  pub Returns-show_menu : (menu : Bytes) (s : State) → Returns (show_menu e menu) s
  unfolding show_menu
  Returns-show_menu menu s = Returns-if _ _ _ s (Returns-print _ s) (Returns-print _ s)

  pub Returns-choose : (choice : Bytes) (s : State) → Returns (choose e choice) s
  unfolding choose
  Returns-choose choice s =
      Returns-bind (send_encrypted e _) _ s (Returns-send_encrypted _ s) (λ _ s₁.
        Returns-if (choice == codes "1") (do_register e) _ s₁ (Returns-do_register s₁) (
          Returns-if (choice == codes "2") (do_login e) _ s₁ (Returns-do_login s₁) (
            Returns-bind (print (codes "[ERROR] Invalid choice.\n")) _ s₁ (Returns-print _ s₁)
              (λ _ s₂. Returns-done false s₂))))
