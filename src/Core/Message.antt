-- ===== src/Core/Message.antt =====
-- include/mpcc/core/message.h and src/core/message.cpp: the frames TYPE:payload\n.
pub mod Proto
pub mod RoundTrip
pub mod Factories
mod Tests
use mathlib.Core.List.{reverse}
use mpcc.Common.{
  ℕ, ◌≡◌, refl, Bool, true, false, not, ◌||◌, Option, none, some, List, [], ◌∷◌, ◌++◌, Bytes, codes,
  nat_eq, if◌then◌else◌, is_empty, find, before, after,
}

pub record Message : Type 0 where
  pub type : Bytes
  pub payload : Bytes

abbrev pub newline : ℕ
newline = b'\n'

abbrev pub carriage_return : ℕ
carriage_return = b'\r'

abbrev pub colon : ℕ
colon = b':'

unfoldable pub serialise : Message → Bytes
serialise m =
    m.type ++ ((if not (is_empty m.payload) then colon ∷ m.payload else []) ++ newline ∷ [])

-- line.back() == '\n' || line.back() == '\r'
unfoldable pub is_eol : ℕ → Bool
is_eol c = nat_eq c newline || nat_eq c carriage_return

-- The loop of `parse` that calls pop_back(). Its argument is the line read from the back.
unfoldable pub pop_eols : Bytes → Bytes
unfolding is_eol
pop_eols [] = []
pop_eols (c ∷ s) = if is_eol c then pop_eols s else c ∷ s

unfoldable pub strip : Bytes → Bytes
unfolding pop_eols
strip raw = reverse (pop_eols (reverse raw))

-- The line after the loop, cut at its first colon if it has one.
unfoldable pub parse_line : Bytes → Message
parse_line line = elim (find line colon) [
  | none ↦ record { type = line; payload = [] }
  | some i ↦ record { type = before line i; payload = after line i }
]

unfoldable pub parse : Bytes → Message
unfolding strip parse_line
parse raw = parse_line (strip raw)

unfoldable pub is_valid : Message → Bool
is_valid m = not (is_empty m.type)

unfoldable pub make_reg : Bytes → Bytes → Message
make_reg user pass = record { type = Proto.reg; payload = user ++ colon ∷ pass }

unfoldable pub make_login : Bytes → Bytes → Message
make_login user pass = record { type = Proto.login; payload = user ++ colon ∷ pass }

unfoldable pub make_msg : Bytes → Message
make_msg text = record { type = Proto.msg; payload = text }

unfoldable pub make_ok : Bytes → Message
make_ok detail = record { type = Proto.ok; payload = detail }

unfoldable pub make_err : Bytes → Message
make_err detail = record { type = Proto.err; payload = detail }

unfoldable pub make_bcast : Bytes → Bytes → Message
make_bcast sender text = record {
  type = Proto.bcast;
  payload = codes "[" ++ (sender ++ (codes "]: " ++ text));
}

unfoldable pub make_exit : Message
make_exit = record { type = Proto.exit; payload = [] }

unfoldable pub make_menu : Message
make_menu = record { type = Proto.menu; payload = codes "1=Register 2=Login" }
