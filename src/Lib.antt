-- ===== src/Lib.antt =====
-- MPCC, a chat server and its client over TCP sockets, as a model of the program and proofs about it.
--
-- A server accepts connections and runs a handler for each client in a thread. The handler registers
-- or logs in the user against a file of users, and then passes on what the user types: to all
-- clients, to the members of a room, or to one user. Frames are lines TYPE:payload, each byte of
-- which is XORed with a key.
--
-- The parts and their files:
--   Common          shared helpers: tests, lists, byte strings, sets of numbers, dictionaries
--   Core/Cipher     include/mpcc/core/cipher.h, src/core/cipher.cpp: Cipher::encrypt, decrypt; the
--                   record IEncrypt of Core/Cipher/Laws is the interface that the clients use
--   Core/Message    include/mpcc/core/message.h, src/core/message.cpp: Message::serialise, parse and
--                   the factories
--   Core/Net        what sockets are to the rest: the kernel's send, and the order of the calls of
--                   shutdown and close
--   Core/UniqueFd   include/mpcc/core/unique_fd.h
--   Core/Session    include/mpcc/core/session.h, src/core/session.cpp: the sessions live at
--                   addresses in a World; code that uses them is in the monad M, in which `none` is
--                   a fault, the use of a null or deleted session
--   Core/FileIo     include/mpcc/core/file_io.h, src/core/file_io.cpp
--   Server/Broadcast     include/mpcc/server/broadcast_manager.h, src/server/broadcast_manager.cpp
--   Server/Rooms         include/mpcc/server/room_manager.h, src/server/room_manager.cpp
--   Server/UserRegistry  include/mpcc/server/user_registry.h, src/server/user_registry.cpp
--   Server/ClientHandler include/mpcc/server/client_handler.h, src/server/client_handler.cpp: the
--                        dialogue, the chat loop and the cleanup of one client, in the monad H over
--                        everything that the handler sees
--   Server/Listener      include/mpcc/server/server.h, src/server/server.cpp: start, accept_loop and
--                        shutdown, with SIGINT as a part of the rounds
--   Server/Samples       the sessions on which the tests of the server run
--   Util/Threads    include/mpcc/util/thread_handler.h, include/mpcc/core/lock_guard.h
--   Util/Logger     include/mpcc/util/logger.h, src/util/logger.cpp
--   Client          include/mpcc/client/client.h, src/client/client.cpp: Dialogue has the
--                   authentication, Chat the two loops, which take turns by rounds
--   Main            src/server/server_main.cpp, src/client/client_main.cpp
--
-- How they interact: Server/Rooms sends through broadcast_to_recipients of Server/Broadcast, which
-- sends through send_msg of Core/Session, which sends through the kernel of Core/Net.
-- Server/UserRegistry reads and writes its file through Core/FileIo. Server/ClientHandler calls all of
-- them, as the handler does: run is try_authenticate, recv_loop and cleanup_and_exit. Server/Listener
-- makes a session for each connection and a thread for its handler, with Util/Threads, and shuts the
-- sessions down through Server/Broadcast. Client reads frames with the loop that Server/ClientHandler
-- has, since the two recv_line are the same, and Client/Delivery and Client/Conference put a client and the
-- handler together. Main puts Server/Listener and Client behind their command lines. The
-- cipher is passed on as a value of IEncrypt, which `cipher-IEncrypt` provides.
--
-- Bounds and fuel. Strings are lists of bytes, numbers below 256 where it matters. The loop of
-- send_msg runs on fuel, the length of the message: each round that goes on has sent a byte.
-- The chat loop of recv_loop runs on fuel, one more than the answers of recv that are left: each round
-- that goes on has read a newline. The three attempts of try_authenticate are counted. auth_loop of
-- the client runs on one more than the lines that are left to be typed, since each round that goes on
-- reads one; a round of accept_loop is one answer of accept. An int is written with ten digits. All
-- other loops are structural recursion. std::stoi and the reading of words are written out in Common/Scan.
--
-- Parameters. The operating system's send is `Kernel`: it may take a part of the buffer or refuse,
-- and takes a byte at least and no more than the buffer. The file calls are `Os`: mkdir, open, write
-- and rename may each fail, and a write may lose what is buffered. Theorems that need a write to be
-- complete or the file to be readable say so by `Flushes` and `Readable`. What recv answers is a list,
-- `Received`; when it is used up the connection has ended.
--
-- The client's send is a list of answers, `SendAnswer`, because its loop tells EINTR from other errors.
-- pthread_attr_init and pthread_create are `Pthreads`; pthread_join returns when its thread ends, which
-- the joins of a group and shutdown take as a test of threads, `ends` and `by_itself`. The join of a
-- JoinableThread is taken to return. The clock and the thread ids of the log are `LogEnv` and an argument.
--
-- Interleaving. The calls of the server's objects are one step each, since they hold a mutex, but for
-- broadcast(), which Server/ClientHandler/Interleaving has as the steps of a thread with the mutex, in
-- turns with a handler that leaves. The two threads of the client take turns in any order, a round at a
-- time.
--
-- Not modelled: the other interleavings of handlers, and what they change between the rounds of
-- accept_loop; setsockopt, with the timeout of recv, which is one of its errors; sigaction; the calls
-- of the logger by the other parts, which only write lines; the text of print_usage; the tests.
pub mod Common
pub mod Core
pub mod Server
pub mod Util
pub mod Client
pub mod Main
