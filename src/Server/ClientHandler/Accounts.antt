-- ===== src/Server/ClientHandler/Accounts.antt =====
-- Who can log in after a registration, from the handler's checks down to the file.
use mpcc.Common.{
  ◌≡◌, refl, sym, ap, ◌∙◌, inl, inr, Bool, true, false, not, ◌&&◌, some, Bytes, IsByteString, ◌==◌,
  ==_iff, eq_refl, Bool-cases, some-eq-some,
}
use mpcc.Core.Cipher.Laws.{IEncrypt}
use mpcc.Core.FileIo.Atomic.{Flushes}
use mpcc.Server.UserRegistry.{authenticate, listed}
use mpcc.Server.UserRegistry.Register.{Readable, authenticate-register_user}
use mpcc.Server.ClientHandler.{Env, State, validate_username}
use mpcc.Server.ClientHandler.Dialogue.{register_at, authenticate_at}
use mpcc.Server.ClientHandler.Inputs.{validate_username-NameValid}

-- No two passwords have the same encryption.
encrypt-eq :
    (cipher : IEncrypt) (a b : Bytes)
    → IsByteString a
    → IsByteString b
    → (cipher.encrypt a == cipher.encrypt b) ≡ (a == b)
encrypt-eq cipher a b ha hb = elim (Bool-cases (a == b)) [
  | inl e ↦ rw ((==_iff a b).0 e) (eq_refl (cipher.encrypt b) ∙ sym (eq_refl b))
  | inr e ↦ elim (Bool-cases (cipher.encrypt a == cipher.encrypt b)) [
    | inr f ↦ f ∙ sym e
    | inl f ↦
        let same =
          sym (cipher.decrypt-encrypt a ha)
          ∙ ap cipher.decrypt ((==_iff (cipher.encrypt a) (cipher.encrypt b)).0 f)
          ∙ cipher.decrypt-encrypt b hb in
        absurd (cc (e, (==_iff a b).1 same))
  ]
]

-- With any cipher that has the laws of IEncrypt, a user file that can be opened and streams that lose
-- nothing they have buffered: if the registration of a user name that the handler accepts succeeds,
-- then a login with that name and any password is accepted exactly if the password is the registered
-- one and the user is not banned; logins with other names are answered as before.
pub login_after_register :
    (e : Env) (s s' : State) (username password : Bytes)
    → validate_username username ≡ true
    → IsByteString password
    → Flushes e.os
    → Readable e.os s.registry.filepath
    → register_at e username (e.cipher.encrypt password) s ≡ some (true, s')
    → ((typed : Bytes)
        → IsByteString typed
        → authenticate_at e username (e.cipher.encrypt typed) s'
          ≡ some ((password == typed) && not (listed username s.registry.banned), s'))
      × ((other typed : Bytes)
          → (username == other) ≡ false
          → authenticate e.os s'.registry other typed s'.disk
            ≡ authenticate e.os s.registry other typed s.disk)
unfolding register_at authenticate_at
login_after_register e s s' username password valid bytes flushes can registered =
    let (_, _, name) = validate_username-NameValid username valid in
    let (success, u, d, run, answers) =
      authenticate-register_user e.os s.registry username (e.cipher.encrypt password) s.disk name
        (e.cipher.encrypt-IsByteString password bytes) flushes can in
    let s₁ : State = record s { registry = u; disk = d } in
    let result : register_at e username (e.cipher.encrypt password) s ≡ some (success, s₁) =
      rw run refl in
    let ends : (true, s') ≡ (success, s₁) = some-eq-some (sym registered ∙ result) in
    let ok : success ≡ true = sym (ap (λ (x : Bool × State). x.0) ends) in
    let users = ap (λ (x : Bool × State). x.1.registry) ends in
    let disk = ap (λ (x : Bool × State). x.1.disk) ends in
    let same : (n typed : Bytes)
        → authenticate e.os s'.registry n typed s'.disk ≡ authenticate e.os u n typed d =
      λ n typed. rw (users, disk) refl in
    (
      (λ typed typed_bytes.
          ap (λ b. some (b, s'))
            (same username (e.cipher.encrypt typed)
              ∙ answers username (e.cipher.encrypt typed)
              ∙ rw (ok, eq_refl username, encrypt-eq e.cipher password typed bytes typed_bytes)
                  refl)),
      (λ other typed ne. same other typed ∙ answers other typed ∙ rw (ok, ne) refl),
    )
