-- ===== src/Main/CommandLine.antt =====
-- A command line is read as it is written.
use mpcc.Common.{
  ◌≡◌, refl, ◌∙◌, Bool, true, false, some, List, [], ◌∷◌, Bytes, codes, if◌then◌else◌, ◌==◌,
}
use mpcc.Common.Scan.{ℤ, show_int}
use mpcc.Util.Logger.{LogLevel, fatal, warning, info, debug}
use mpcc.Main.{ServerOptions, goes_on, parse_level, server_args}
use mpcc.Main.Numbers.{IsInt, stoi-show_int}

-- One setting of the server's command line.
pub data ServerSetting : Type 0 where
  port_is : ℤ → ServerSetting
  level_is : LogLevel → ServerSetting
  file_is : Bytes → ServerSetting

-- The name of a level on the command line.
abbrev pub level_name : LogLevel → Bytes
level_name fatal = codes "FATAL"
level_name warning = codes "WARNING"
level_name info = codes "INFO"
level_name debug = codes "DEBUG"

-- How a setting is written, with the long or the short name of its option.
abbrev pub words : Bool → ServerSetting → List Bytes → List Bytes
words long (port_is n) args = (if long then codes "--port" else codes "-p") ∷ show_int n ∷ args
words long (level_is l) args =
    (if long then codes "--loglevel" else codes "-l") ∷ level_name l ∷ args
words long (file_is f) args = (if long then codes "--logfile" else codes "-f") ∷ f ∷ args

abbrev pub set : ServerSetting → ServerOptions → ServerOptions
set (port_is n) o = record o { port = n }
set (level_is l) o = record o { log_level = l }
set (file_is f) o = record o { log_file = f }

abbrev pub command_line : List (Bool × ServerSetting) → List Bytes
command_line [] = []
command_line ((long, x) ∷ xs) = words long x (command_line xs)

abbrev pub set_all : List (Bool × ServerSetting) → ServerOptions → ServerOptions
set_all [] o = o
set_all ((long, x) ∷ xs) o = set_all xs (set x o)

abbrev pub IsSetting : ServerSetting → Type 0
IsSetting (port_is n) = IsInt n
IsSetting (level_is l) = Unit
IsSetting (file_is f) = Unit

abbrev pub AreSettings : List (Bool × ServerSetting) → Type 0
AreSettings [] = Unit
AreSettings ((long, x) ∷ xs) = IsSetting x × AreSettings xs

parse_level-level_name : (l : LogLevel) → parse_level (level_name l) ≡ some l
unfolding parse_level ◌==◌
parse_level-level_name fatal = refl
parse_level-level_name warning = refl
parse_level-level_name info = refl
parse_level-level_name debug = refl

reads_setting :
    (long : Bool) (x : ServerSetting) (args : List Bytes) (o : ServerOptions)
    → IsSetting x
    → server_args (words long x args) o ≡ server_args args (set x o)
unfolding server_args ◌==◌
reads_setting true (port_is n) args o h = rw (stoi-show_int n h) refl
reads_setting false (port_is n) args o h = rw (stoi-show_int n h) refl
reads_setting true (level_is l) args o h = rw (parse_level-level_name l) refl
reads_setting false (level_is l) args o h = rw (parse_level-level_name l) refl
reads_setting true (file_is f) args o h = refl
reads_setting false (file_is f) args o h = refl

-- A command line of the server that writes any settings of the port (as any int), the level and the
-- log file, in any order and number, each with the long or the short name of its option, is read as
-- these settings: the last of each kind stands, and what is not set is as before.
pub server_args-command_line :
    (settings : List (Bool × ServerSetting)) (o : ServerOptions)
    → AreSettings settings
    → server_args (command_line settings) o ≡ goes_on (set_all settings o)
unfolding server_args
server_args-command_line [] o h = refl
server_args-command_line ((long, x) ∷ xs) o (hx, hxs) =
    reads_setting long x (command_line xs) o hx ∙ server_args-command_line xs (set x o) hxs
