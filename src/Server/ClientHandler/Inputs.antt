-- ===== src/Server/ClientHandler/Inputs.antt =====
-- What the checks of the handler let through.
use mpcc.Common.{
  ◌≤◌, ◌≡◌, refl, ◌≢◌, ◌↔◌, inl, inr, true, [], ◌∷◌, Bytes, length, Lacks, arith, find, find-cases,
  find-none,
}
use mpcc.Common.Scan.{is_alnum, is_digit}
use mpcc.Core.Cipher.{max_username_len, max_pass_len}
use mpcc.Server.ClientHandler.{plain_chars, validate_username, validate_password, is_npos}
use mpcc.Server.UserRegistry.Register.{NameValid}

NameValid-plain_chars : (u : Bytes) → plain_chars u ≡ true → NameValid u
unfolding plain_chars is_alnum is_digit
NameValid-plain_chars [] h = (tt, tt)
NameValid-plain_chars (c ∷ u) h =
    let (no_colon, no_newline) = NameValid-plain_chars u (ground arith) in
    ((ground arith, no_colon), (ground arith, no_newline))

-- A user name that the handler accepts is not empty, has at most 64 characters and can stand in a line
-- of the user file: it has no colon and no newline.
pub validate_username-NameValid :
    (u : Bytes)
    → validate_username u ≡ true
    → (u ≢ []) × (length u ≤ max_username_len) × NameValid u
unfolding validate_username
validate_username-NameValid [] h = absurd (ground arith)
validate_username-NameValid (c ∷ u) h =
    ((λ e. cc), ground arith, NameValid-plain_chars (c ∷ u) (ground arith))

no_colon_iff : (p : Bytes) → (is_npos (find p b':') ≡ true) ↔ Lacks b':' p
no_colon_iff p = elim (find-cases p b':') [
  | inl (e, lacks) ↦ rw e ((λ _. lacks), (λ _. refl))
  | inr (i, e, _, _) ↦
      rw e ((λ h. absurd (cc h)), (λ lacks. absurd (cc (e, find-none p b':' lacks))))
]

-- A password is accepted exactly if it is not empty, has at most 128 characters and no colon.
pub validate_password_iff :
    (p : Bytes)
    → (validate_password p ≡ true) ↔ ((p ≢ []) × (length p ≤ max_pass_len) × Lacks b':' p)
unfolding validate_password
validate_password_iff [] = ((λ h. absurd (ground arith)), (λ h. absurd (h.0 refl)))
validate_password_iff (c ∷ p) = (
  (λ h. ((λ e. cc), ground arith, (no_colon_iff (c ∷ p)).0 (ground arith))),
  (λ h. ground (arith, h.1, (no_colon_iff (c ∷ p)).1 h.2)),
)
