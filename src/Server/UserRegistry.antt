-- ===== src/Server/UserRegistry.antt =====
-- include/mpcc/server/user_registry.h, src/server/user_registry.cpp and the interface IUserStore of
-- interfaces.h: a flat file with a line name:hex for each user.
pub mod Hex
pub mod Records
pub mod Register
pub mod Faults
mod Tests
use mpcc.Common.{
  ℕ, zero, suc, ◌+◌, ◌-◌, ◌*◌, ◌/◌, ◌%◌, Bool, true, false, not, ◌&&◌, ◌||◌, Option, none, some,
  List, [], ◌∷◌, ◌++◌, Bytes, ◌==◌, nat_eq, ltb, leb, if◌then◌else◌, is_empty, find, before, after,
}
use mpcc.Common.Scan.{is_space}
use mpcc.Core.FileIo.{Os, Disk, read_all_lines, atomic_write_lines, ensure_parent_dir}

abbrev pub colon : ℕ
colon = b':'

-- std::hex << std::uppercase, one digit.
unfoldable pub hex_digit : ℕ → ℕ
hex_digit d = if ltb d 10 then b'0' + d else b'A' + (d - 10)

-- Two digits for each byte, by std::setw(2) and std::setfill('0').
unfoldable pub to_hex : Bytes → Bytes
unfolding hex_digit
to_hex [] = []
to_hex (c ∷ raw) = hex_digit (c / 16) ∷ hex_digit (c % 16) ∷ to_hex raw

-- The value of a character that is a hexadecimal digit.
unfoldable pub hex_value : ℕ → Option ℕ
hex_value c =
    if leb b'0' c && leb c b'9'
    then some (c - b'0')
    else if leb b'A' c && leb c b'F'
    then some (c - b'A' + 10)
    else if leb b'a' c && leb c b'f'
    then some (c - b'a' + 10)
    else none

-- What the extraction leaves in `byte`: a failure leaves 0.
abbrev pub digit_or_zero : Option ℕ → ℕ
digit_or_zero none = 0
digit_or_zero (some v) = v

abbrev pub two_digits : Option ℕ → Option ℕ → ℕ
two_digits none b = 0
two_digits (some a) none = a
two_digits (some a) (some b) = a * 16 + b

-- std::istringstream(two characters) >> std::hex >> byte, with its value cast to `char`. White space
-- in front is skipped; a sign is read, and a minus negates modulo 2^32, so modulo 256 in the cast.
unfoldable pub extract_byte : ℕ → ℕ → ℕ
unfolding hex_value is_space
extract_byte a b =
    if is_space a
    then (if is_space b then 0 else digit_or_zero (hex_value b))
    else if nat_eq a b'+'
    then digit_or_zero (hex_value b)
    else if nat_eq a b'-'
    then (256 - digit_or_zero (hex_value b)) % 256
    else two_digits (hex_value a) (hex_value b)

-- Pairs of characters; an odd one at the end is dropped.
unfoldable pub from_hex : Bytes → Bytes
unfolding extract_byte
from_hex [] = []
from_hex (a ∷ []) = []
from_hex (a ∷ b ∷ hex) = extract_byte a b ∷ from_hex hex

pub record Entry : Type 0 where
  pub name : Bytes
  pub value : Bytes

-- One round of the loop of load_records: no record for an empty line or one without a colon.
unfoldable pub cut_line : Bytes → Option ℕ → List Entry → List Entry
cut_line line none rest = rest
cut_line line (some i) rest = record { name = before line i; value = after line i } ∷ rest

unfoldable pub parse_lines : List Bytes → List Entry
unfolding cut_line
parse_lines [] = []
parse_lines (line ∷ lines) =
    let rest = parse_lines lines in
    if is_empty line then rest else cut_line line (find line colon) rest

unfoldable pub load_records : Os → Bytes → Disk → List Entry
load_records os path d = parse_lines (read_all_lines os path d)

unfoldable pub render : List Entry → List Bytes
render [] = []
render (r ∷ records) = (r.name ++ colon ∷ r.value) ∷ render records

unfoldable pub save_records : Os → Bytes → List Entry → Disk → Bool × Disk
unfolding render
save_records os path records d = atomic_write_lines os path (render records) d

-- The first record of the name.
unfoldable pub find_entry : Bytes → List Entry → Option Bytes
find_entry username [] = none
find_entry username (r ∷ records) =
    if r.name == username then some r.value else find_entry username records

-- The object. `warnings` stands for the calls of logger_->warning, if there is a logger: the user
-- and the path that the text names, without errno.
pub record UserRegistry : Type 0 where
  pub filepath : Bytes
  pub has_logger : Bool
  pub banned : List Bytes
  pub warnings : List (Bytes × Bytes)

-- The constructor makes the parent directory and ignores whether it could.
unfoldable pub init : Os → Bytes → Bool → Disk → UserRegistry × Disk
init os path has_logger d = (
  record { filepath = path; has_logger = has_logger; banned = []; warnings = [] },
  (ensure_parent_dir os path d).1,
)

unfoldable pub find_user_locked : Os → UserRegistry → Bytes → Disk → Option Bytes
unfolding find_entry load_records
find_user_locked os u username d = find_entry username (load_records os u.filepath d)

abbrev pub is_some : Option Bytes → Bool
is_some none = false
is_some (some v) = true

unfoldable pub user_exists : Os → UserRegistry → Bytes → Disk → Bool
unfolding find_user_locked
user_exists os u username d = is_some (find_user_locked os u username d)

unfoldable pub warn : UserRegistry → Bytes → Bool → UserRegistry
warn u username success =
    if not success && u.has_logger
    then record u { warnings = (username, u.filepath) ∷ u.warnings }
    else u

unfoldable pub register_user : Os → UserRegistry → Bytes → Bytes → Disk → Bool × UserRegistry × Disk
unfolding find_user_locked warn
register_user os u username enc_password d =
    if is_some (find_user_locked os u username d)
    then (false, u, d)
    else (let records =
          load_records os u.filepath d
          ++ record { name = username; value = to_hex enc_password } ∷ [] in
        let (success, d') = save_records os u.filepath records d in
        (success, warn u username success, d'))

unfoldable pub listed : Bytes → List Bytes → Bool
listed n [] = false
listed n (b ∷ bs) = (b == n) || listed n bs

unfoldable pub check_password : UserRegistry → Bytes → Bytes → Option Bytes → Bool
unfolding listed
check_password u username enc_password none = false
check_password u username enc_password (some stored_hex) =
    (from_hex stored_hex == enc_password) && not (listed username u.banned)

unfoldable pub authenticate : Os → UserRegistry → Bytes → Bytes → Disk → Bool
unfolding check_password find_user_locked
authenticate os u username enc_password d =
    check_password u username enc_password (find_user_locked os u username d)
