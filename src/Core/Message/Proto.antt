-- ===== src/Core/Message/Proto.antt =====
-- namespace proto of message.h: the protocol tags.
use mpcc.Common.{Bytes, codes}

abbrev pub choice : Bytes
choice = codes "CHOICE"

abbrev pub reg : Bytes
reg = codes "REG"

abbrev pub login : Bytes
login = codes "LOGIN"

abbrev pub msg : Bytes
msg = codes "MSG"

abbrev pub exit : Bytes
exit = codes "EXIT"

abbrev pub ok : Bytes
ok = codes "OK"

abbrev pub err : Bytes
err = codes "ERR"

abbrev pub bcast : Bytes
bcast = codes "BCAST"

abbrev pub menu : Bytes
menu = codes "MENU"
