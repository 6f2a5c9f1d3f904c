-- ===== src/Server/UserRegistry/Faults.antt =====
-- Two faults of the machine in which a registration that returns true loses the users before it.
use mpcc.Common.{
  ℕ, ◌≡◌, refl, ap, ◌∙◌, Bool, true, false, Option, none, some, [], ◌∷◌, ◌++◌, Bytes, IsByteString,
  All, eq_refl, take, subst,
}
use mpcc.Core.FileIo.{
  Os, Disk, good, put_file, unlines, getlines, lines_of, read_all_lines, ensure_parent_dir,
  finish_write, rename_file, tmp_path, atomic_write_lines,
}
use mpcc.Core.FileIo.Atomic.{Flushes, Replaced, atomic_write_lines_lem, tmp_path_apart}
use mpcc.Server.UserRegistry.{
  UserRegistry, parse_lines, load_records, render, save_records, find_entry, find_user_locked,
  user_exists, warn, register_user,
}
use mpcc.Server.UserRegistry.Hex.{to_hex-Lacks}
use mpcc.Server.UserRegistry.Records.{EntryValid, parse_lines-getlines-unlines}
use mpcc.Server.UserRegistry.Register.{Readable, NameValid, new_entry, lines_of-open}

unread : (o : Option Bytes) → lines_of o false ≡ []
unfolding lines_of
unread none = refl
unread (some content) = refl

erased :
    (os : Os) (path content : Bytes) (d : Disk)
    → ((t : ℕ) (from to : Bytes) → os.rename t from to ≡ true)
    → (d' : Disk) × (finish_write os path (tmp_path path) content (good 0) d ≡ (true, d'))
      × (d'.file path ≡ some [])
unfolding finish_write rename_file
erased os path content d renames =
    let d₁ = put_file (tmp_path path) (some (take 0 content)) d in
    (
      put_file (tmp_path path) none (put_file path (d₁.file (tmp_path path)) d₁),
      rw renames refl,
      rw (tmp_path_apart path, eq_refl path, eq_refl (tmp_path path)) refl,
    )

-- If the disk loses what the stream had buffered, which good() before the destructor's flush does not
-- see, the parent directory can be made, the file can be opened and renames work, then register_user()
-- returns true for a new name and leaves no user at all in the file, the new one neither.
pub lost_flush_loses_users :
    (os : Os) (u : UserRegistry) (username enc_password : Bytes) (d : Disk)
    → ((t : ℕ) (path content : Bytes) → os.write t path content ≡ good 0)
    → ((t : ℕ) (from to : Bytes) → os.rename t from to ≡ true)
    → Readable os u.filepath
    → (ensure_parent_dir os u.filepath d).0 ≡ true
    → user_exists os u username d ≡ false
    → (u' : UserRegistry) × (d' : Disk) × (register_user os u username enc_password d
        ≡ (true, u', d'))
      × (load_records os u.filepath d' ≡ [])
unfolding register_user save_records atomic_write_lines user_exists load_records read_all_lines
lost_flush_loses_users os u username enc_password d loses renames can parent new =
    let records = load_records os u.filepath d ++ new_entry username enc_password ∷ [] in
    let (d', e, empty) =
      erased os u.filepath (unlines (render records)) (ensure_parent_dir os u.filepath d).1
        renames in
    (
      warn u username true,
      d',
      rw (new, parent, loses, e) refl,
      ap parse_lines (lines_of-open (d'.file u.filepath) _ _ empty (can d'.now))
          ∙ unfold parse_lines getlines in refl,
    )

-- For a name without colon and newline, a password that is a byte string and streams that lose nothing
-- they have buffered: if the file cannot be opened for reading when register_user() runs, a
-- registration that returns true replaces all users of the file by the new one, whether or not the
-- name was taken. They are read when the file can be opened again.
pub unreadable_file_loses_users :
    (os : Os) (u : UserRegistry) (username enc_password : Bytes) (d : Disk)
    → NameValid username
    → IsByteString enc_password
    → Flushes os
    → os.can_open d.now u.filepath ≡ false
    → (success : Bool) × (u' : UserRegistry) × (d' : Disk) × (register_user os u username
          enc_password d
        ≡ (success, u', d'))
      × (success ≡ true
          → os.can_open d'.now u.filepath ≡ true
          → load_records os u.filepath d' ≡ new_entry username enc_password ∷ [])
unfolding register_user save_records load_records read_all_lines find_user_locked parse_lines
    find_entry
unreadable_file_loses_users os u username enc_password d (no_colon, no_newline) bytes flushes shut =
    let records = new_entry username enc_password ∷ [] in
    let valid : All EntryValid records = (
      record {
        name_colon = no_colon;
        name_line = no_newline;
        value_line = to_hex-Lacks enc_password bytes;
      },
      tt,
    ) in
    let (success, d', e, (post, _)) =
      atomic_write_lines_lem os u.filepath (render records) d flushes in
    (
      success,
      warn u username success,
      d',
      rw (shut, unread (d.file u.filepath), e) refl,
      λ yes can.
          ap parse_lines (
            lines_of-open (d'.file u.filepath) _ _
              (subst (Replaced u.filepath (unlines (render records)) d d') yes post) can)
          ∙ parse_lines-getlines-unlines records valid,
    )
