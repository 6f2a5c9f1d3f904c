-- ===== src/Util/Logger.antt =====
-- include/mpcc/util/logger.h and src/util/logger.cpp. The clock, the thread that calls and what the
-- operating system answers are parameters.
pub mod Written
mod Tests
use mpcc.Common.{
  ℕ, suc, ◌≡◌, Bool, true, false, not, ◌||◌, Option, none, some, [], ◌∷◌, ◌++◌, Bytes, codes, ltb,
  nat_eq, if◌then◌else◌,
}
use mpcc.Core.FileIo.{Os, Disk, ensure_parent_dir}

pub data LogLevel : Type 0 where
  fatal warning info debug : LogLevel

-- static_cast<int>
unfoldable pub to_int : LogLevel → ℕ
to_int fatal = 0
to_int warning = 1
to_int info = 2
to_int debug = 3

pub record LogEnv : Type 0 where
  pub os : Os
  -- whether a file can be opened for appending, and what strerror(errno) says if not
  pub can_append : ℕ → Bytes → Bool
  pub strerror : ℕ → Bytes
  -- current_timestamp() at its t-th call
  pub timestamp : ℕ → Bytes

-- `is_open`: whether log_file_ is. `locked`: whether the mutex is held.
pub record Logger : Type 0 where
  pub min_level : LogLevel
  pub is_open : Bool
  pub locked : Bool

-- What was written to the log file and flushed, to stdout and to stderr, and the times asked for.
pub record Streams : Type 0 where
  pub file : Bytes
  pub out : Bytes
  pub err : Bytes
  pub now : ℕ

-- The dash of the source is E2 80 93 in UTF-8.
abbrev cannot_open : LogEnv → ℕ → Bytes → Bytes
cannot_open e now path =
    codes "[FATAL] Logger: cannot open log file: "
    ++ (path ++ (b' ' ∷ 226 ∷ 128 ∷ 147 ∷ b' ' ∷ (e.strerror now ++ b'\n' ∷ [])))

-- The constructor.
unfoldable pub init : LogEnv → Bytes → LogLevel → Disk → Streams → Logger × Disk × Streams
unfolding ensure_parent_dir
init e path min_level d s =
    let (made, d') = ensure_parent_dir e.os path d in
    let is_open = e.can_append d'.now path in
    (
      record { min_level = min_level; is_open = is_open; locked = false },
      d',
      if not is_open then record s { err = s.err ++ cannot_open e d'.now path } else s,
    )

-- The destructor closes the file; all that was written is flushed already.
unfoldable pub destroy : Logger → Logger
destroy l = record l { is_open = false }

unfoldable pub level_to_str : LogLevel → Bytes
level_to_str fatal = codes "FATAL  "
level_to_str warning = codes "WARNING"
level_to_str info = codes "INFO   "
level_to_str debug = codes "DEBUG  "

-- The line of a message, by the time and by the thread that writes it.
unfoldable pub entry : Bytes → Bytes → LogLevel → Bytes → Bytes
unfolding level_to_str
entry timestamp tid level msg =
    b'['
    ∷ (level_to_str level
        ++ (codes "]["
            ++ (timestamp ++ (codes "][" ++ (tid ++ (codes "] " ++ (msg ++ b'\n' ∷ [])))))))

-- level == LogLevel::FATAL || level == LogLevel::WARNING
unfoldable pub is_severe : LogLevel → Bool
unfolding to_int
is_severe level = nat_eq (to_int level) (to_int fatal) || nat_eq (to_int level) (to_int warning)

-- What log() writes while it holds the mutex.
unfoldable pub write : Logger → LogLevel → Bytes → Streams → Streams
unfolding is_severe
write l level text s =
    let s' = if l.is_open then record s { file = s.file ++ text } else s in
    if is_severe level
    then record s' { err = s'.err ++ text }
    else record s' { out = s'.out ++ text }

-- `none`: the mutex is held, and the call does not return.
unfoldable pub log : LogEnv → Bytes → LogLevel → Bytes → Logger → Streams → Option Streams
unfolding to_int entry write
log e tid level msg l s =
    if ltb (to_int l.min_level) (to_int level)
    then some s
    else (let text = entry (e.timestamp s.now) tid level msg in
        if l.locked then none else some (write l level text (record s { now = suc s.now })))

-- ILog
unfoldable pub log_fatal : LogEnv → Bytes → Bytes → Logger → Streams → Option Streams
unfolding log
log_fatal e tid msg = log e tid fatal msg

unfoldable pub log_warning : LogEnv → Bytes → Bytes → Logger → Streams → Option Streams
unfolding log
log_warning e tid msg = log e tid warning msg

unfoldable pub log_info : LogEnv → Bytes → Bytes → Logger → Streams → Option Streams
unfolding log
log_info e tid msg = log e tid info msg

unfoldable pub log_debug : LogEnv → Bytes → Bytes → Logger → Streams → Option Streams
unfolding log
log_debug e tid msg = log e tid debug msg
