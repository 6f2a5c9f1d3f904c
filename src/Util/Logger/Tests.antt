-- ===== src/Util/Logger/Tests.antt =====
-- A logger for warnings.
use mpcc.Common.{ℕ, ◌≡◌, refl, true, false, some, none, List, [], ◌∷◌, codes, length}
use mpcc.Core.FileIo.{made, good, ensure_parent_dir}
use mpcc.Util.Logger.{LogEnv, Logger, Streams, fatal, warning, info, init, entry}
use mpcc.Util.Logger.Written.{LogCall, run_calls, lines, written, run_calls-written}

abbrev env : LogEnv
env = record {
  os = record {
    mkdir = λ t dir. made;
    can_open = λ t path. true;
    write = λ t path content. good (length content);
    rename = λ t from to. true;
  };
  can_append = λ t path. true;
  strerror = λ t. codes "No such file";
  timestamp = λ t. codes "2024-01-01 00:00:00";
}

abbrev logger : Logger
logger = record { min_level = warning; is_open = true; locked = false }

abbrev streams : Streams
streams = record { file = []; out = []; err = []; now = 0 }

abbrev calls : List LogCall
calls =
    record { level = info; tid = codes "1"; msg = codes "up" }
    ∷ record { level = fatal; tid = codes "2"; msg = codes "down" }
    ∷ []

run_calls-written_example :
    (now : ℕ) × (run_calls env calls logger streams
      ≡ some (written logger (lines env warning 0 calls) streams now))
run_calls-written_example = run_calls-written env calls logger streams refl

fatal_line : entry (codes "now") (codes "7") fatal (codes "x") ≡ codes "[FATAL  ][now][7] x\n"
unfolding entry
fatal_line = refl

opens :
    (init env
      (codes "logs/a.log")
      info
      (record { file = λ path. none; mkdirs = []; now = 0 })
      streams).0
    ≡ record { min_level = info; is_open = true; locked = false }
unfolding init ensure_parent_dir
opens = refl
