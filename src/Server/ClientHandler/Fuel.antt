-- ===== src/Server/ClientHandler/Fuel.antt =====
-- The chat loop has fuel enough.
use mpcc.Common.{
  ℕ, zero, suc, ◌<◌, ◌≡◌, refl, ap, ◌∙◌, Bool, true, false, Option, none, some, List, [], ◌∷◌, ◌++◌,
  Bytes, inl, inr, arith, length, is_empty, nat_eq, Bool-cases, Option-cases, some-eq-some,
}
use mpcc.Core.Cipher.Laws.{IEncrypt}
use mpcc.Core.Session.{get_fd}
use mpcc.Server.ClientHandler.{
  Env, State, Received, byte, interrupted, hung_up, read_line, first_char,
}
use mpcc.Server.ClientHandler.Dialogue.{recv_from, recv_line}
use mpcc.Server.ClientHandler.Commands.{when, handle_line, chat}
use mpcc.Server.ClientHandler.Reading.{KeepsInput-handle_line}

-- A line that is not empty has used up a part of the input.
read_line-shorter :
    (cipher : IEncrypt) (buf : Bytes) (input : List Received)
    → is_empty (read_line cipher buf input).0 ≡ false
    → length (read_line cipher buf input).1 < length input
unfolding read_line
read_line-shorter cipher buf [] h = absurd (cc h)
read_line-shorter cipher buf (hung_up ∷ input) h = omega arith
read_line-shorter cipher buf (interrupted ∷ input) h =
    omega (arith, read_line-shorter cipher buf input h)
read_line-shorter cipher buf (byte c ∷ input) h =
    elim (Bool-cases (nat_eq (first_char (cipher.decrypt (c ∷ []))) b'\n')) [
      | inl e ↦ rw e (omega arith)
      | inr e ↦
          let plain = first_char (cipher.decrypt (c ∷ [])) in
          rw e (omega (arith, read_line-shorter cipher (buf ++ plain ∷ []) input (rw e at h)))
    ]

module _ (e : Env) where
  pub recv_line-shorter :
      (s s₁ : State) (line : Bytes)
      → recv_line e s ≡ some (line, s₁)
      → is_empty line ≡ false
      → length s₁.input < length s.input
  unfolding recv_line recv_from get_fd
  recv_line-shorter s s₁ line h some_line = elim (Option-cases (s.world.session s.session)) [
    | inl dead ↦ absurd (cc (rw dead at h))
    | inr (t, here) ↦ by_fd t.client_fd (rw here at h)
  ]
    where
      by_fd :
          (fd : Option ℕ)
          → recv_from e fd (record s { world = s.world }) ≡ some (line, s₁)
          → length s₁.input < length s.input
      by_fd none h' =
          absurd (cc (some_line, ap (λ (z : Bytes × State). is_empty z.0) (some-eq-some h')))
      by_fd (some fd) h' =
          let ends = some-eq-some h' in
          omega (
            arith,
            read_line-shorter e.cipher [] s.input
                (ap (λ (z : Bytes × State). is_empty z.0) ends ∙ some_line),
            ap (λ (z : Bytes × State). length z.1.input) ends,
          )

  -- Only a line that is not empty leads to another round.
  pub handle_line-goes_on :
      (line : Bytes) (s s' : State) → handle_line e line s ≡ some (true, s') → is_empty line ≡ false
  unfolding handle_line
  handle_line-goes_on [] s s' h = absurd (cc (some-eq-some h))
  handle_line-goes_on (c ∷ line) s s' h = refl

  -- The loop gives the same result on any two amounts of fuel that exceed the answers of ::recv that
  -- are left.
  chat-chat :
      (f g : ℕ) (s : State) → length s.input < f → length s.input < g → chat e f s ≡ chat e g s
  unfolding chat
  chat-chat zero g s hf hg = absurd (omega arith)
  chat-chat (suc f) zero s hf hg = absurd (omega arith)
  chat-chat (suc f) (suc g) s hf hg = elim (Option-cases (recv_line e s)) [
    | inl fault ↦ rw fault refl
    | inr ((line, s₁), r) ↦ rw r (elim (Option-cases (handle_line e line s₁)) [
      | inl fault ↦ rw fault refl
      | inr ((go_on, s₂), h) ↦
          rw h (next (λ s₂ lt. chat-chat f g s₂ (omega arith) (omega arith)) line s₁ r go_on s₂ h)
    ])
  ]
    where
      next :
          ((s₂ : State) → length s₂.input < length s.input → chat e f s₂ ≡ chat e g s₂)
          → (line : Bytes) (s₁ : State) → recv_line e s ≡ some (line, s₁)
          → (go_on : Bool) (s₂ : State) → handle_line e line s₁ ≡ some (go_on, s₂)
          → when e go_on (chat e f) s₂ ≡ when e go_on (chat e g) s₂
      next ih line s₁ r false s₂ h = refl
      next ih line s₁ r true s₂ h =
          let shorter = recv_line-shorter s s₁ line r (handle_line-goes_on line s₁ s₂ h) in
          let kept = ap length ((KeepsInput-handle_line e line).same_input s₁ s₂ true h) in
          ih s₂ (omega (arith, shorter, kept))

-- The chat loop ends by itself within the fuel that recv_loop gives it, one more than the answers of
-- recv that are left: more fuel never changes its result.
pub chat_enough_fuel :
    (e : Env) (fuel : ℕ) (s : State)
    → length s.input < fuel
    → chat e fuel s ≡ chat e (suc (length s.input)) s
chat_enough_fuel e fuel s h = chat-chat e fuel (suc (length s.input)) s h (omega arith)
