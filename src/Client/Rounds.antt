-- ===== src/Client/Rounds.antt =====
-- What the rounds of the two threads do, in any order.
use mpcc.Common.{
  ℕ, ◌≤◌, ◌≡◌, refl, sym, ap, subst, ◌∙◌, Bool, true, false, not, none, some, List, [], ◌∷◌, ◌++◌,
  Bytes, codes, length, is_empty, if◌then◌else◌, Bool-cases, inl, inr,
}
use mpcc.Core.UniqueFd.{UniqueFd}
use mpcc.Client.{Host, State, returned, C, continue, done, print, ◌>>◌, recv_line, recv_from}
use mpcc.Client.Chat.{Turn, types, receives, shown, show_line, recv_round, rounds, greet}
use mpcc.Client.Sending.{capacity}
use mpcc.Client.Schedule.{frames, mix, Conveys, Conveys-trans, Typed, Typed-line}

module _ (e : Host) where
  -- Code that only reads from the socket and prints.
  pub record Prints {A : Type 0} (code : C A) (s : State) : Type 0 where
    pub result : A
    pub after : State
    pub runs : code s ≡ returned result after
    pub only : after ≡ record s { input = after.input; out = after.out }

  Prints-recv_line : (s : State) → Prints (recv_line e) s
  unfolding recv_line recv_from
  Prints-recv_line s = go s.sock_fd refl
    where
      go : (fd : UniqueFd) → s.sock_fd ≡ fd → Prints (recv_line e) s
      go none h = record {
        result = [];
        after = s;
        runs = ap (λ fd. recv_from e.cipher fd s) h;
        only = refl;
      }
      go (some fd) h = record {
        result = _;
        after = _;
        runs = ap (λ fd. recv_from e.cipher fd s) h;
        only = refl;
      }

  pub Prints-show_line : (s : State) → Prints (show_line e) s
  unfolding show_line
  Prints-show_line s =
      let h = Prints-recv_line s in
      let s₁ = h.after in
      elim (Bool-cases (is_empty h.result)) [
        | inl ended ↦ record {
          result = false;
          after = s₁;
          runs =
              ap (λ r. continue r show_or_end) h.runs
              ∙ ap (λ b. (if b then done false else (do print (shown e h.result); done true)) s₁)
                  ended;
          only = h.only;
        }
        | inr line ↦ record {
          result = true;
          after = record s₁ { out = s₁.out ++ shown e h.result };
          runs =
              ap (λ r. continue r show_or_end) h.runs
              ∙ ap (λ b. (if b then done false else (do print (shown e h.result); done true)) s₁)
                  line;
          only = ap (λ (x : State). record x { out = s₁.out ++ shown e h.result }) h.only;
        }
      ]
    where
      show_or_end : Bytes → C Bool
      show_or_end line = if is_empty line then done false else (do print (shown e line); done true)

  Prints-recv_round : (s : State) → Prints (recv_round e) s
  unfolding recv_round
  Prints-recv_round s = go s.running refl
    where
      go : (b : Bool) → s.running ≡ b → Prints (recv_round e) s
      go true h =
          let k = Prints-show_line s in
          record {
            result = k.result;
            after = k.after;
            runs = ap (λ b. (if not b then done false else show_line e) s) h ∙ k.runs;
            only = k.only;
          }
      go false h = record {
        result = false;
        after = s;
        runs = ap (λ b. (if not b then done false else show_line e) s) h;
        only = refl;
      }

  Conveys-Prints :
      {A : Type 0} {code : C A} {s : State} (h : Prints code s) → Conveys e true s true h.after
  Conveys-Prints {s = s} h = record {
    same = h.only ∙ ap (mix s) (sym h.only);
    wire = ap (λ (x : State). x.wire ++ e.cipher.encrypt (frames x.stdin)) h.only;
    room = λ r. subst (λ (x : State). length (frames x.stdin) ≤ capacity x.answers) (sym h.only) r;
  }

  -- Any number of rounds, in any order.
  pub record Rounds (turns : List Turn) (listening : Bool) (s : State) : Type 0 where
    pub go_on : Bool
    pub listens : Bool
    pub after : State
    pub runs : rounds e turns listening s ≡ returned (go_on, listens) after
    pub conveys : Conveys e true s go_on after

  after-Typed :
      (turns : List Turn) (listening : Bool) (s : State) (t : Typed e s)
      → (t.go_on ≡ true → Rounds turns listening t.after)
      → Rounds (types ∷ turns) listening s
  unfolding rounds
  after-Typed turns listening s t later = go t.go_on refl
    where
      next : Bool → C (Bool × Bool)
      next b = if b then rounds e turns listening else done (false, listening)

      go : (b : Bool) → t.go_on ≡ b → Rounds (types ∷ turns) listening s
      go true on =
          let rest = later on in
          record {
            go_on = rest.go_on;
            listens = rest.listens;
            after = rest.after;
            runs = ap (λ r. continue r next) t.runs ∙ ap (λ b. next b t.after) on ∙ rest.runs;
            conveys =
                Conveys-trans e (subst (λ b. Conveys e true s b t.after) on t.conveys) rest.conveys;
          }
      go false off = record {
        go_on = false;
        listens = listening;
        after = t.after;
        runs = ap (λ r. continue r next) t.runs ∙ ap (λ b. next b t.after) off;
        conveys = subst (λ b. Conveys e true s b t.after) off t.conveys;
      }

  pub Rounds-any :
      (turns : List Turn) (listening : Bool) (s : State) (fd : ℕ)
      → s.sock_fd ≡ some fd
      → length (frames s.stdin) ≤ capacity s.answers
      → Rounds turns listening s
  unfolding rounds
  Rounds-any [] listening s fd has_fd room = record {
    go_on = true;
    listens = listening;
    after = s;
    runs = refl;
    conveys = record { same = refl; wire = refl; room = λ r. r };
  }
  Rounds-any (types ∷ turns) listening s fd has_fd room =
      let typed = Typed-line e s fd s.stdin refl has_fd room in
      after-Typed turns listening s typed (λ on.
        let k = subst (λ b. Conveys e true s b typed.after) on typed.conveys in
        Rounds-any turns listening typed.after fd
          (ap (λ (x : State). x.sock_fd) typed.conveys.same ∙ has_fd) (k.room room))
  Rounds-any (receives ∷ turns) false s fd has_fd room =
      let rest = Rounds-any turns false s fd has_fd room in
      record {
        go_on = rest.go_on;
        listens = rest.listens;
        after = rest.after;
        runs = rest.runs;
        conveys = rest.conveys;
      }
  Rounds-any (receives ∷ turns) true s fd has_fd room =
      let h = Prints-recv_round s in
      let k = Conveys-Prints h in
      let rest =
        Rounds-any turns h.result h.after fd (ap (λ (x : State). x.sock_fd) h.only ∙ has_fd)
          (k.room room) in
      record {
        go_on = rest.go_on;
        listens = rest.listens;
        after = rest.after;
        runs = ap (λ r. continue r (λ listening. rounds e turns listening)) h.runs ∙ rest.runs;
        conveys = Conveys-trans e k rest.conveys;
      }

  pub Prints-greet : (s : State) → Prints (greet e) s
  unfolding greet
  Prints-greet s = let h = Prints-recv_line s in go h (is_empty h.result) refl
    where
      say : Bytes → Bool → C (Unit {0})
      say banner b = if not b then print (codes "[SERVER] " ++ (banner ++ b'\n' ∷ [])) else done tt

      go : (h : Prints (recv_line e) s) (b : Bool) → is_empty h.result ≡ b → Prints (greet e) s
      go h true ended = record {
        result = tt;
        after = h.after;
        runs =
            ap (λ r. continue r (λ banner. say banner (is_empty banner))) h.runs
            ∙ ap (λ b. say h.result b h.after) ended;
        only = h.only;
      }
      go h false line = record {
        result = tt;
        after = record h.after {
          out = h.after.out ++ (codes "[SERVER] " ++ (h.result ++ b'\n' ∷ []));
        };
        runs =
            ap (λ r. continue r (λ banner. say banner (is_empty banner))) h.runs
            ∙ ap (λ b. say h.result b h.after) line;
        only =
            ap
              (λ (x : State). record x {
                out = h.after.out ++ (codes "[SERVER] " ++ (h.result ++ b'\n' ∷ []));
              })
              h.only;
      }
