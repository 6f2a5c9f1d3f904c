-- ===== src/Client/Auth.antt =====
-- The loop of authentication ends.
use mpcc.Common.{
  ℕ, zero, suc, ◌≤◌, ◌<◌, ◌≡◌, refl, sym, ap, subst, ◌⊎◌, inl, inr, Bool, true, false, Option, none,
  some, List, [], ◌∷◌, Bytes, codes, length, arith, if◌then◌else◌, is_empty,
}
use mpcc.Client.{
  Host, State, Result, returned, thrown, C, continue, ◌>>=◌, done, throw, print, getline, next_line,
  recv_line,
}
use mpcc.Client.Dialogue.{show_menu, choose, authenticate, auth_loop, after_choice}
use mpcc.Client.Returns.{
  Returns, Returns-choose, Returns-print, Returns-recv_line, Returns-show_menu,
}

module _ (e : Host) where
  -- How the loop ends.
  abbrev pub Ends : Result (Unit {0}) → Type 0
  Ends r =
      (s' : State) × ((r ≡ returned tt s')
        ⊎ (r ≡ thrown (codes "Server disconnected during menu.") s'))

  Ends-bind :
      {A : Type 0} (code : C A) (next : A → C (Unit {0})) (s : State)
      → (h : Returns code s) → Ends (next h.result h.after)
      → Ends ((code >>= next) s)
  Ends-bind code next s h = subst Ends (ap (λ r. continue r next) (sym h.runs))

  Ends-getline :
      (next : Option Bytes → C (Unit {0})) (s : State)
      → Ends (next none s)
      → ((line : Bytes) (s' : State)
          → length s'.stdin < length s.stdin
          → Ends (next (some line) s'))
      → Ends ((getline >>= next) s)
  Ends-getline next s at_end typed = go s.stdin refl
    where
      go : (lines : List Bytes) → s.stdin ≡ lines → Ends ((getline >>= next) s)
      go [] e = subst Ends (ap (λ l. continue (next_line l s) next) (sym e)) at_end
      go (line ∷ lines) e =
          subst Ends (ap (λ l. continue (next_line l s) next) (sym e))
            (typed line (record s { stdin = lines }) (omega (arith, ap length e)))

  Ends-if :
      (b : Bool) (x y : C (Unit {0})) (s : State)
      → Ends (x s)
      → Ends (y s)
      → Ends ((if b then x else y) s)
  Ends-if true x y s hx hy = hx
  Ends-if false x y s hx hy = hy

  Ends-choice :
      (again : C (Unit {0})) (choice : Bytes) (s : State)
      → ((s' : State) → length s'.stdin ≤ length s.stdin → Ends (again s'))
      → Ends (after_choice e again (some choice) s)
  Ends-choice again choice s later =
      let h = Returns-choose e choice s in
      Ends-bind (choose e choice) (λ authenticated. if authenticated then done tt else again) s h
        (Ends-if h.result (done tt) again h.after (h.after, inl refl) (later h.after h.fewer))

  authenticate-Ends : (fuel : ℕ) (s : State) → length s.stdin < fuel → Ends (authenticate e fuel s)
  unfolding authenticate
  authenticate-Ends zero s h = absurd (omega (arith, h))
  authenticate-Ends (suc fuel) s h =
      let menu = Returns-recv_line e s in
      let shown = Returns-show_menu e menu.result menu.after in
      let asked = Returns-print (codes "Your choice: ") shown.after in
      Ends-bind (recv_line e) _ s menu (
        Ends-if (is_empty menu.result) (throw (codes "Server disconnected during menu.")) _
          menu.after (menu.after, inr refl)
          (Ends-bind (show_menu e menu.result) _ menu.after shown (
            Ends-bind (print (codes "Your choice: "))
              (λ _. getline >>= after_choice e (authenticate e fuel)) shown.after asked
              (Ends-getline (after_choice e (authenticate e fuel)) asked.after
                (asked.after, inl refl)
                (λ choice s' fewer. Ends-choice (authenticate e fuel) choice s' (λ s'' no_more.
                  authenticate-Ends fuel s''
                    (omega (arith, h, menu.fewer, shown.fewer, asked.fewer, fewer, no_more))))))))

  -- Whatever is typed, received and answered, auth_loop() ends, in spite of its fuel: it returns, or
  -- it throws because a menu was empty.
  pub auth_loop-Ends : (s : State) → Ends (auth_loop e s)
  unfolding auth_loop
  auth_loop-Ends s = authenticate-Ends (suc (length s.stdin)) s (omega arith)
