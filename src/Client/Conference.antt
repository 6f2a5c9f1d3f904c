-- ===== src/Client/Conference.antt =====
-- A text on its whole way: typed at one client, posted by the server, shown at the others.
use mpcc.Common.{
  ℕ, ◌≤◌, ◌<◌, ◌≡◌, refl, sym, ap, subst, ◌∙◌, ◌≢◌, Bool, true, false, not, ◌&&◌, ◌||◌, some, List,
  [], ◌++◌, Bytes, codes, IsByteString, Lacks, length, All-append, arith, ◌==◌,
}
use mpcc.Core.Cipher.{max_msg_len}
use mpcc.Core.Message.{serialise, parse, make_msg, newline}
use mpcc.Core.Message.RoundTrip.{EndsClean}
use mpcc.Core.Message.Factories.{EndsClean-append, append-ne-nil}
use mpcc.Core.Session.{Session, World, Ptr}
use mpcc.Server.Broadcast.{frame}
use mpcc.Core.Session.Sending.{Sent}
use mpcc.Server.Broadcast.Delivery.{Outcome}
use mpcc.Server.Broadcast.Hearing.{IsValid, Live}
use mpcc.Server.Rooms.Membership.{RoomsValid, member}
use mpcc.Server.ClientHandler.{Env, Received, read_line}
use mpcc.Server.ClientHandler
use mpcc.Server.ClientHandler.Commands.{handle_line, handle_text, post, says_exit, is_command}
use mpcc.Server.ClientHandler.Frames.{arriving}
use mpcc.Server.ClientHandler.Posting.{post_in_room, not_empty}
use mpcc.Client.{Host, State, returned}
use mpcc.Client.Chat.{type_line, recv_round}
use mpcc.Client.Delivery.{typed_text_arrives, broadcast_is_shown}
use mpcc.Client.Sending.{capacity}

-- A text that can be sent in a frame.
pub record IsText (text : Bytes) : Type 0 where
  pub some_text : text ≢ []
  pub clean : EndsClean text
  pub bytes : IsByteString text
  pub lacks : Lacks newline text

-- A text with the tag of a room.
abbrev pub tagged : Bytes → Bytes → Bytes
tagged room text = codes "[" ++ (room ++ (codes "] " ++ text))

IsText-tagged :
    (room text : Bytes)
    → IsByteString room
    → Lacks newline room
    → IsText text
    → IsText (tagged room text)
IsText-tagged room text bytes lacks h =
    let link = append-ne-nil (codes "] ") text h.some_text in
    let named = append-ne-nil room (codes "] " ++ text) link in
    record {
      some_text = append-ne-nil (codes "[") (room ++ (codes "] " ++ text)) named;
      clean = EndsClean-append (codes "[") (room ++ (codes "] " ++ text)) named (
          EndsClean-append room (codes "] " ++ text) link
            (EndsClean-append (codes "] ") text h.some_text h.clean));
      bytes = (
        omega arith,
        All-append (λ x. x < 256) room (codes "] " ++ text) bytes
            (omega arith, (omega arith, h.bytes)),
      );
      lacks = (
        omega arith,
        All-append (λ x. x ≢ newline) room (codes "] " ++ text) lacks
            (omega arith, (omega arith, h.lacks)),
      );
    }

-- A client of a server: it has the server's cipher.
abbrev pub client_of : Env → Host → Host
client_of e h = record h { cipher = e.cipher }

-- What a client prints when these bytes arrive.
pub record Shows (h : Host) (wire shown : Bytes) : Type 0 where
  pub prints :
      (d : State) (fd : ℕ) (at : ℕ → Bool) (rest : List Received)
      → d.running ≡ true
      → d.sock_fd ≡ some fd
      → d.input ≡ arriving at 0 wire rest
      → recv_round h d ≡ returned true (record d { input = rest; out = d.out ++ shown })

handles_text :
    (e : Env) (text : Bytes) (s s' : ClientHandler.State)
    → text ≢ []
    → parse (codes "MSG:" ++ text) ≡ make_msg text
    → (text == codes "exit") ≡ false
    → (text == codes "quit") ≡ false
    → is_command e text ≡ false
    → post e text s ≡ some (tt, s')
    → handle_line e (codes "MSG:" ++ text) s ≡ some (true, s')
unfolding handle_line handle_text says_exit make_msg ◌==◌
handles_text e text s s' some_text parsed exit quit command posted =
    rw (parsed, exit, quit, not_empty text some_text, command, posted) refl

-- The handler takes the line of a typed text for a text to post.
handle_line-text :
    (e : Env) (text line : Bytes) (s s' : ClientHandler.State)
    → line ≡ codes "MSG:" ++ text
    → text ≢ []
    → parse line ≡ make_msg text
    → (text == codes "exit") ≡ false
    → (text == codes "quit") ≡ false
    → is_command e text ≡ false
    → post e text s ≡ some (tt, s')
    → handle_line e line s ≡ some (true, s')
handle_line-text e text line s s' cut some_text parsed exit quit command posted =
    ap (λ l. handle_line e l s) cut ∙ go (ap parse (sym cut) ∙ parsed)
  where
    go :
        parse (codes "MSG:" ++ text) ≡ make_msg text
        → handle_line e (codes "MSG:" ++ text) s ≡ some (true, s')
    go p = handles_text e text s s' some_text p exit quit command posted

module _ (e : Env) (h : Host) (text : Bytes) (is_text : IsText text)
    (not_help : (text == codes "/help") ≡ false) (not_exit : (text == codes "exit") ≡ false)
    (not_quit : (text == codes "quit") ≡ false) (not_command : is_command e text ≡ false)
    (short : length text ≤ max_msg_len) where
  -- What a member of the room is shown.
  abbrev pub shown_text : Bytes → Bytes → Bytes
  shown_text who room =
      codes "\r[" ++ ((who ++ (codes "]: " ++ tagged room (tagged room text))) ++ codes "\nYou: ")

  said-Shows :
      (who room : Bytes)
      → IsByteString who
      → Lacks newline who
      → IsByteString room
      → Lacks newline room
      → Shows
          (client_of e h)
          (frame e.cipher who (tagged room (tagged room text)))
          (shown_text who room)
  said-Shows who room who_bytes who_lacks room_bytes room_lacks =
      let once = IsText-tagged room text room_bytes room_lacks is_text in
      let twice = IsText-tagged room (tagged room text) room_bytes room_lacks once in
      record {
        prints = λ d fd at rest running has_fd arrived.
            broadcast_is_shown (client_of e h) (tagged room (tagged room text)) twice.some_text
              twice.clean twice.bytes twice.lacks who d fd at rest who_bytes who_lacks running
              has_fd arrived;
      }

  -- The way of a text from the client in `c`, whose handler is in `s`, to a member of the room.
  pub record Said (c : State) (s : ClientHandler.State) (t : Session) (at : ℕ → Bool)
      (rest : List Received) : Type 0 where
    pub client : State
    pub wire : Bytes
    pub line : Bytes
    pub world : World
    pub typed : type_line (client_of e h) text c ≡ returned true client
    pub sent : client.wire ≡ c.wire ++ wire
    pub received : read_line e.cipher [] (arriving at 0 wire rest) ≡ (line, rest)
    pub handled : handle_line e line s ≡ some (true, record s { world = world })
    pub delivered :
        (q : Ptr) (u : Session) (fd : ℕ)
        → s.world.session q ≡ some u
        → u.client_fd ≡ some fd
        → (member s.rooms s.current_room q && (u.active && not (u.username == t.username))) ≡ true
        → (whole : Bool) × (world.session q ≡ some (record u { active = whole }))
          × (whole ≡ true
              → (arrived : Bytes) × (world.net.wire fd ≡ s.world.net.wire fd ++ arrived)
                × Shows (client_of e h) arrived (shown_text t.username s.current_room))

  -- A text of at most 4096 bytes that is not empty, holds no newline, does not end in a carriage return,
  -- does not begin with a slash and is neither exit nor quit; a client with a socket, for which as many
  -- calls of ::send take something as the frame has bytes; a handler with a live session in a room, in
  -- valid stores whose members are alive, with a name and a room of bytes without a newline. When the
  -- text is typed, the handler reads its line, wherever it is interrupted, and handles it without a
  -- fault; and to each active member of the room whose user is another, if its socket takes all of it,
  -- bytes are sent at which a client that listens, wherever it is interrupted, prints the sender's name
  -- in brackets, twice the tag of the room, and the text.
  pub room_text_is_shown :
      (c : State) (client_fd : ℕ) (s : ClientHandler.State) (t : Session) (at : ℕ → Bool)
      (rest : List Received)
      → c.sock_fd ≡ some client_fd
      → length (serialise (make_msg text)) ≤ capacity c.answers
      → s.world.session s.session ≡ some t
      → IsValid s.world
      → s.current_room ≢ []
      → RoomsValid s.rooms
      → ((p : Ptr) → member s.rooms s.current_room p ≡ true → Live s.world p)
      → IsByteString t.username
      → Lacks newline t.username
      → IsByteString s.current_room
      → Lacks newline s.current_room
      → Said c s t at rest
  room_text_is_shown c client_fd s t at rest has_fd room here valid in_room rooms live who_bytes
        who_lacks room_bytes room_lacks =
      let leave : (text == codes "exit" || text == codes "quit") ≡ false =
        rw (not_exit, not_quit) refl in
      let (c', w, line, typed, sent, received, cut, parsed) =
        typed_text_arrives (client_of e h) text is_text.some_text is_text.clean is_text.bytes
          is_text.lacks c client_fd at rest has_fd not_help leave room in
      let (w', posted, reach) = post_in_room e s t text short here valid in_room rooms live in
      record {
        client = c';
        wire = w;
        line = line;
        world = w';
        typed = typed;
        sent = sent;
        received = received;
        handled =
            handle_line-text e text line s (record s { world = w' }) cut is_text.some_text parsed
              not_exit not_quit not_command posted;
        delivered = λ q u fd at_q has_fd hears.
            let msg =
              frame e.cipher t.username (tagged s.current_room (tagged s.current_room text)) in
            let (whole, session, got) =
              subst (Outcome msg s.world w' q u fd) hears (reach q u fd at_q has_fd) in
            (
              whole,
              session,
              λ full. (
                msg,
                subst (Sent msg (s.world.net.wire fd) (w'.net.wire fd)) full got,
                said-Shows t.username s.current_room who_bytes who_lacks room_bytes room_lacks,
              ),
            );
      }
