-- ===== src/Server/ClientHandler.antt =====
-- include/mpcc/server/client_handler.h and src/server/client_handler.cpp: the life of one client.
-- The calls of the logger are left out: what they log has no effect on the rest.
pub mod Frames
pub mod Inputs
pub mod Dialogue
pub mod Commands
pub mod Cleanup
pub mod Accounts
pub mod Posting
pub mod Reading
pub mod Fuel
pub mod Invariant
pub mod Tables
pub mod DialogueSafety
pub mod AuthSafety
pub mod ChatSafety
pub mod Life
pub mod Interleaving
pub mod Races
mod Tests
use mpcc.Common.{
  ℕ, zero, suc, Bool, true, false, not, ◌&&◌, ◌||◌, Option, none, some, List, [], ◌∷◌, ◌++◌, Bytes,
  codes, ◌==◌, nat_eq, leb, ltb, if◌then◌else◌, is_empty, find, length,
}
use mpcc.Common.Scan.{is_alnum}
use mpcc.Core.Cipher.{max_username_len, max_pass_len}
use mpcc.Core.Cipher.Laws.{IEncrypt}
use mpcc.Core.FileIo.{Os, Disk}
use mpcc.Core.Net.{Kernel}
use mpcc.Core.Session.{Ptr, null, World, M}
use mpcc.Server.Broadcast.{BroadcastManager}
use mpcc.Server.Rooms.{Rooms}
use mpcc.Server.UserRegistry.{UserRegistry}

-- What surrounds the handler and does not change: the operating system and the cipher.
pub record Env : Type 0 where
  pub kernel : Kernel
  pub os : Os
  pub cipher : IEncrypt

-- What ::recv answers for one byte: the byte, -1 with EINTR, or an end or another error. An input that
-- is used up is the end of the connection.
pub data Received : Type 0 where
  byte : ℕ → Received
  interrupted hung_up : Received

-- What the handler sees and changes. `session` and `current_room` are its own members, the rest is
-- shared with the other handlers.
pub record State : Type 0 where
  pub world : World
  pub broadcaster : BroadcastManager
  pub rooms : Rooms
  pub registry : UserRegistry
  pub disk : Disk
  pub input : List Received
  pub session : Ptr
  pub current_room : Bytes

-- The constructor.
unfoldable pub init :
    Ptr → World → BroadcastManager → Rooms → UserRegistry → Disk → List Received → State
init p w b r u d input = record {
  world = w;
  broadcaster = b;
  rooms = r;
  registry = u;
  disk = d;
  input = input;
  session = p;
  current_room = codes "lobby";
}

-- What a thread is given: whether its pointer to the handler is set.
pub record ThreadCtx : Type 0 where
  pub handler : Bool

-- Code of the handler; `none` is a fault.
abbrev pub H : Type 0 → Type 0
H A = State → Option (A × State)

abbrev pub continue : {A B : Type 0} → Option (A × State) → (A → H B) → Option (B × State)
continue (some (x, s)) next = next x s
continue none next = none

infixl 5 ◌>>=◌ ◌>>◌
abbrev pub ◌>>=◌ : {A B : Type 0} → H A → (A → H B) → H B
◌>>=◌ code next s = continue (code s) next

abbrev pub ◌>>◌ : {B : Type 0} → H (Unit {0}) → H B → H B
code >> next = code >>= λ _. next

abbrev pub done : {A : Type 0} → A → H A
done x s = some (x, s)

abbrev pub with_state : {A : Type 0} → (State → H A) → H A
with_state f s = f s s

abbrev pub put_world : {A : Type 0} → State → Option (A × World) → Option (A × State)
put_world s (some (x, w)) = some (x, record s { world = w })
put_world s none = none

-- Code of the sessions and of the broadcaster's sends.
abbrev pub lift : {A : Type 0} → M A → H A
lift m s = put_world s (m s.world)

abbrev pub put_broadcaster : State → Option (BroadcastManager × World) → Option (Unit {0} × State)
put_broadcaster s (some (b, w)) = some (tt, record s { world = w; broadcaster = b })
put_broadcaster s none = none

abbrev pub update_broadcaster : (BroadcastManager → M BroadcastManager) → H (Unit {0})
update_broadcaster f s = put_broadcaster s (f s.broadcaster s.world)

abbrev pub update_rooms : (Rooms → Rooms) → H (Unit {0})
update_rooms f s = some (tt, record s { rooms = f s.rooms })

abbrev pub set_room : Bytes → H (Unit {0})
set_room room s = some (tt, record s { current_room = room })

-- The first character of a string, NUL if it is empty: operator[](0).
abbrev pub first_char : Bytes → ℕ
first_char [] = 0
first_char (c ∷ s) = c

-- The loop of recv_line, with what it has read so far: the line, and the input behind it.
unfoldable pub read_line : IEncrypt → Bytes → List Received → Bytes × List Received
read_line cipher buf [] = ([], [])
read_line cipher buf (hung_up ∷ input) = ([], input)
read_line cipher buf (interrupted ∷ input) = read_line cipher buf input
read_line cipher buf (byte c ∷ input) =
    let plain = first_char (cipher.decrypt (c ∷ [])) in
    let go_on = read_line cipher (buf ++ plain ∷ []) input in
    if nat_eq plain b'\n' then (buf, input) else go_on

-- Every character is a letter, a digit or an underscore.
unfoldable pub plain_chars : Bytes → Bool
plain_chars [] = true
plain_chars (c ∷ u) = (is_alnum c || nat_eq c b'_') && plain_chars u

unfoldable pub validate_username : Bytes → Bool
unfolding plain_chars
validate_username u = not (is_empty u || ltb max_username_len (length u)) && plain_chars u

abbrev pub is_npos : Option ℕ → Bool
is_npos none = true
is_npos (some i) = false

unfoldable pub validate_password : Bytes → Bool
validate_password p = not (is_empty p || ltb max_pass_len (length p)) && is_npos (find p b':')
