-- ===== src/Server/UserRegistry/Tests.antt =====
-- Disks on which the theorems about the user file apply.
use mpcc.Common.{
  ◌≡◌, refl, Bool, true, false, not, ◌&&◌, some, [], ◌∷◌, Bytes, codes, length, arith,
  if◌then◌else◌, ◌==◌, find, ltb,
}
use mpcc.Core.FileIo.{
  Os, Disk, good, made, getlines, lines_of, read_all_lines, ensure_parent_dir, parent_dir,
  parent_at, rfind,
}
use mpcc.Core.FileIo.Atomic.{Flushes}
use mpcc.Server.UserRegistry.{
  UserRegistry, register_user, load_records, parse_lines, cut_line, user_exists, find_entry,
  find_user_locked, authenticate, listed, to_hex, from_hex,
}
use mpcc.Server.UserRegistry.Register.{
  NameValid, new_entry, Registered, register_user_lem, authenticate-register_user,
}
use mpcc.Server.UserRegistry.Faults.{lost_flush_loses_users, unreadable_file_loses_users}

hex_of_text : (to_hex (codes "Hi~") ≡ codes "48697E") × (from_hex (codes "48697e") ≡ codes "Hi~")
unfolding to_hex from_hex
hex_of_text = (refl, refl)

-- A disk that does as it is told, one that loses all that is buffered, and one on which no file can be
-- opened at time 0.
abbrev good_os : Os
good_os = record {
  mkdir = λ t dir. made;
  can_open = λ t path. true;
  write = λ t path content. good (length content);
  rename = λ t from to. true;
}

abbrev sick_os : Os
sick_os = record good_os { write = λ t path content. good 0 }

abbrev blind_os : Os
blind_os = record good_os { can_open = λ t path. ltb 0 t }

good_os-Flushes : Flushes good_os
good_os-Flushes t path content n e = ground arith

blind_os-Flushes : Flushes blind_os
blind_os-Flushes t path content n e = ground arith

abbrev disk : Disk
disk = record { file = λ path. some (codes "ann:48\n"); mkdirs = []; now = 0 }

abbrev registry : UserRegistry
registry = record { filepath = codes "users.txt"; has_logger = true; banned = []; warnings = [] }

bob-NameValid : NameValid (codes "bob")
bob-NameValid = (
  (omega arith, (omega arith, (omega arith, tt))),
  (omega arith, (omega arith, (omega arith, tt))),
)

register_user_lem_example :
    (success : Bool) × (u' : UserRegistry) × (d' : Disk) × Registered good_os registry
      (codes "bob")
      (codes "Hi")
      disk
      success
      u'
      d'
    × (user_exists good_os registry (codes "bob") disk ≡ true
        → (success ≡ false) × (u' ≡ registry) × (d' ≡ disk))
register_user_lem_example =
    register_user_lem good_os registry (codes "bob") (codes "Hi") disk bob-NameValid
      (omega arith, (omega arith, tt)) good_os-Flushes (λ t. refl)

authenticate-register_user_example :
    (success : Bool) × (u' : UserRegistry) × (d' : Disk) × (register_user good_os registry
        (codes "bob")
        (codes "Hi")
        disk
      ≡ (success, u', d'))
    × ((n pw : Bytes)
        → authenticate good_os u' n pw d' ≡ (
            if success && (codes "bob" == n)
            then (codes "Hi" == pw) && not (listed n [])
            else authenticate good_os registry n pw disk))
authenticate-register_user_example =
    authenticate-register_user good_os registry (codes "bob") (codes "Hi") disk bob-NameValid
      (omega arith, (omega arith, tt)) good_os-Flushes (λ t. refl)

bob_is_new : user_exists sick_os registry (codes "bob") disk ≡ false
unfolding user_exists find_user_locked load_records read_all_lines lines_of getlines parse_lines
    find cut_line find_entry ◌==◌
bob_is_new = refl

no_parent : (ensure_parent_dir sick_os (codes "users.txt") disk).0 ≡ true
unfolding ensure_parent_dir parent_dir rfind parent_at
no_parent = refl

lost_flush_loses_users_example :
    (u' : UserRegistry) × (d' : Disk) × (register_user sick_os registry
        (codes "bob")
        (codes "Hi")
        disk
      ≡ (true, u', d'))
    × (load_records sick_os (codes "users.txt") d' ≡ [])
lost_flush_loses_users_example =
    lost_flush_loses_users sick_os registry (codes "bob") (codes "Hi") disk (λ t path content. refl)
      (λ t from to. refl) (λ t. refl) no_parent bob_is_new

unreadable_file_loses_users_example :
    (success : Bool) × (u' : UserRegistry) × (d' : Disk) × (register_user blind_os registry
        (codes "bob")
        (codes "Hi")
        disk
      ≡ (success, u', d'))
    × (success ≡ true
        → ltb 0 d'.now ≡ true
        → load_records blind_os (codes "users.txt") d' ≡ new_entry (codes "bob") (codes "Hi") ∷ [])
unreadable_file_loses_users_example =
    unreadable_file_loses_users blind_os registry (codes "bob") (codes "Hi") disk bob-NameValid
      (omega arith, (omega arith, tt)) blind_os-Flushes refl
