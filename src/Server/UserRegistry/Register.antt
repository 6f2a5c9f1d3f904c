-- ===== src/Server/UserRegistry/Register.antt =====
-- Registration, and the logins that follow it.
use mpcc.Common.{
  ℕ, ◌≡◌, refl, ap, ◌∙◌, Bool, true, false, not, ◌&&◌, Option, none, some, List, [], ◌∷◌, ◌++◌,
  Bytes, Lacks, IsByteString, All, All-append, if◌then◌else◌, ◌==◌, ==_iff, Bool-cases, inl, inr,
  subst,
}
use mpcc.Core.FileIo.{Os, Disk, newline, unlines, getlines, lines_of, read_all_lines}
use mpcc.Core.FileIo.Atomic.{Flushes, Replaced, atomic_write_lines_lem}
use mpcc.Server.UserRegistry.{
  Entry, colon, to_hex, parse_lines, load_records, render, save_records, find_entry, UserRegistry,
  find_user_locked, is_some, user_exists, warn, register_user, listed, check_password, authenticate,
}
use mpcc.Server.UserRegistry.Hex.{from_hex-to_hex, to_hex-Lacks}
use mpcc.Server.UserRegistry.Records.{
  EntryValid, or_else, load_records-EntryValid, parse_lines-getlines-unlines, find_entry-snoc,
}

-- The file can be opened whenever it exists.
abbrev pub Readable : Os → Bytes → Type 0
Readable os path = (t : ℕ) → os.can_open t path ≡ true

-- A name that the check of the handler lets through stands on one line, before the colon.
abbrev pub NameValid : Bytes → Type 0
NameValid name = Lacks colon name × Lacks newline name

pub lines_of-open :
    (o : Option Bytes) (opened : Bool) (content : Bytes)
    → o ≡ some content
    → opened ≡ true
    → lines_of o opened ≡ getlines [] content
unfolding lines_of
lines_of-open o opened content e on = rw (e, on) refl

-- The records after a write, which are the ones written or the ones before.
load_records-Replaced :
    (os : Os) (path : Bytes) (rs : List Entry) (d d' : Disk) (ok : Bool)
    → Readable os path
    → All EntryValid rs
    → Replaced path (unlines (render rs)) d d' ok
    → load_records os path d' ≡ (if ok then rs else load_records os path d)
unfolding load_records read_all_lines
load_records-Replaced os path rs d d' true can valid written =
    ap parse_lines (lines_of-open (d'.file path) _ _ written (can d'.now))
    ∙ parse_lines-getlines-unlines rs valid
load_records-Replaced os path rs d d' false can valid kept = rw (kept, can d'.now, can d.now) refl

abbrev pub new_entry : Bytes → Bytes → Entry
new_entry username enc_password = record { name = username; value = to_hex enc_password }

warn_keeps :
    (u : UserRegistry) (username : Bytes) (ok : Bool)
    → ((warn u username ok).filepath ≡ u.filepath) × ((warn u username ok).banned ≡ u.banned)
unfolding warn
warn_keeps u username ok = elim (Bool-cases (not ok && u.has_logger)) [
  | inl e ↦ rw e (refl, refl)
  | inr e ↦ rw e (refl, refl)
]

-- What register_user leaves: the object but for its warnings, and the records of the file.
pub record Registered (os : Os) (u : UserRegistry) (username enc_password : Bytes) (d : Disk)
    (success : Bool) (u' : UserRegistry) (d' : Disk) : Type 0 where
  pub returns : register_user os u username enc_password d ≡ (success, u', d')
  pub filepath : u'.filepath ≡ u.filepath
  pub banned : u'.banned ≡ u.banned
  pub fresh : success ≡ true → user_exists os u username d ≡ false
  pub records : load_records os u.filepath d' ≡ (
      if success
      then load_records os u.filepath d ++ new_entry username enc_password ∷ []
      else load_records os u.filepath d)

module _ (os : Os) (u : UserRegistry) (username enc_password : Bytes) (d : Disk) where
  refuses : user_exists os u username d ≡ true → Registered os u username enc_password d false u d
  unfolding register_user user_exists
  refuses e = record {
    returns = rw e refl;
    filepath = refl;
    banned = refl;
    fresh = λ h. absurd (cc h);
    records = refl;
  }

  adds :
      user_exists os u username d ≡ false
      → NameValid username
      → IsByteString enc_password
      → Flushes os
      → Readable os u.filepath
      → (success : Bool) × (u' : UserRegistry) × (d' : Disk) × Registered os u username enc_password
          d success u' d'
  unfolding register_user save_records user_exists
  adds new (no_colon, no_newline) bytes flushes can =
      let old = load_records os u.filepath d in
      let entry = new_entry username enc_password in
      let (success, d', e, (post, _)) =
        atomic_write_lines_lem os u.filepath (render (old ++ entry ∷ [])) d flushes in
      let valid = All-append _ old (entry ∷ []) (load_records-EntryValid os u.filepath d) (
        record {
          name_colon = no_colon;
          name_line = no_newline;
          value_line = to_hex-Lacks enc_password bytes;
        },
        tt,
      ) in
      (
        success,
        warn u username success,
        d',
        record {
          returns = rw (new, e) refl;
          filepath = (warn_keeps u username success).0;
          banned = (warn_keeps u username success).1;
          fresh = λ _. new;
          records =
              load_records-Replaced os u.filepath (old ++ entry ∷ []) d d' success can valid post;
        },
      )

-- For a name without colon and newline, a password that is a byte string, a file that can be opened
-- and streams that lose nothing they have buffered: register_user() refuses a name that is taken and
-- then changes nothing. Otherwise it either returns true, the name was new, and the file's records
-- are those from before and the new one behind them; or it returns false and the records are those
-- from before. The path and the banned users stay.
pub register_user_lem :
    (os : Os) (u : UserRegistry) (username enc_password : Bytes) (d : Disk)
    → NameValid username
    → IsByteString enc_password
    → Flushes os
    → Readable os u.filepath
    → (success : Bool) × (u' : UserRegistry) × (d' : Disk) × Registered os u username enc_password d
        success u' d'
      × (user_exists os u username d ≡ true → (success ≡ false) × (u' ≡ u) × (d' ≡ d))
register_user_lem os u username enc_password d name bytes flushes can =
    elim (Bool-cases (user_exists os u username d)) [
      | inl taken ↦
          (false, u, d, refuses os u username enc_password d taken, λ _. (refl, refl, refl))
      | inr new ↦
          let (success, u', d', r) = adds os u username enc_password d new name bytes flushes can in
          (success, u', d', r, λ taken. absurd (cc (new, taken)))
    ]

-- What authenticate() answers, by the records of the file.
abbrev answer : UserRegistry → List Entry → Bytes → Bytes → Bool
answer u rs n pw = check_password u n pw (find_entry n rs)

answer-snoc :
    (u : UserRegistry) (rs : List Entry) (username enc_password n pw : Bytes)
    → is_some (find_entry username rs) ≡ false
    → IsByteString enc_password
    → answer u (rs ++ new_entry username enc_password ∷ []) n pw ≡ (
        if username == n then (enc_password == pw) && not (listed n u.banned) else answer u rs n pw)
unfolding check_password
answer-snoc u rs username enc_password n pw new bytes =
    rw (find_entry-snoc rs username (to_hex enc_password) n) (elim (Bool-cases (username == n)) [
      | inl e ↦
          rw
            (
              none_before (find_entry n rs)
                  (subst (λ x. is_some (find_entry x rs) ≡ false) ((==_iff username n).0 e) new),
              e,
              from_hex-to_hex enc_password bytes,
            )
            refl
      | inr e ↦ rw e (unchanged (find_entry n rs))
    ])
  where
    none_before : (o : Option Bytes) → is_some o ≡ false → o ≡ none
    none_before none h = refl
    none_before (some v) h = absurd (cc h)

    unchanged :
        (o : Option Bytes) → check_password u n pw (or_else o none) ≡ check_password u n pw o
    unchanged none = refl
    unchanged (some v) = refl

-- For a name without colon and newline, a password that is a byte string, a file that can be opened
-- and streams that lose nothing they have buffered: after a successful register_user(),
-- authenticate() accepts the new user with exactly the registered password, unless the user is
-- banned, and answers as before for every other user; after one that failed it answers as before for
-- all.
pub authenticate-register_user :
    (os : Os) (u : UserRegistry) (username enc_password : Bytes) (d : Disk)
    → NameValid username
    → IsByteString enc_password
    → Flushes os
    → Readable os u.filepath
    → (success : Bool) × (u' : UserRegistry) × (d' : Disk) × (register_user os u username
          enc_password d
        ≡ (success, u', d'))
      × ((n pw : Bytes)
          → authenticate os u' n pw d' ≡ (
              if success && (username == n)
              then (enc_password == pw) && not (listed n u.banned)
              else authenticate os u n pw d))
unfolding authenticate find_user_locked check_password user_exists
authenticate-register_user os u username enc_password d name bytes flushes can =
    let (success, u', d', r, _) =
      register_user_lem os u username enc_password d name bytes flushes can in
    (
      success,
      u',
      d',
      r.returns,
      λ n pw.
          rw (r.filepath, r.records)
            (elim (Bool-cases success) [
              | inl e ↦ rw e (
                  same_bans u' u n pw r.banned _
                  ∙ answer-snoc u (load_records os u.filepath d) username enc_password n pw
                      (r.fresh e) bytes)
              | inr e ↦ rw e (same_bans u' u n pw r.banned _)
            ]),
    )
  where
    same_bans :
        (a b : UserRegistry) (n pw : Bytes)
        → a.banned ≡ b.banned
        → (o : Option Bytes) → check_password a n pw o ≡ check_password b n pw o
    same_bans a b n pw e none = refl
    same_bans a b n pw e (some v) = rw e refl
