-- ===== src/Util/Logger/Written.antt =====
-- What a sequence of calls of the logger leaves in its file and on the two streams.
use mpcc.Common.{
  ℕ, suc, ◌≡◌, refl, sym, ap, ◌∙◌, Bool, true, false, not, Option, none, some, List, [], ◌∷◌, ◌++◌,
  append_assoc, append-nil, Bytes, codes, leb, if◌then◌else◌, Bool-cases, inl, inr, arith,
}
use mpcc.Util.Logger.{
  LogLevel, fatal, warning, info, debug, to_int, level_to_str, LogEnv, Logger, Streams, entry,
  is_severe, write, log, log_fatal, log_warning, log_info, log_debug,
}

-- A call, by one of the four methods, of a thread.
pub record LogCall : Type 0 where
  pub level : LogLevel
  pub tid : Bytes
  pub msg : Bytes

abbrev and_then : Option Streams → (Streams → Option Streams) → Option Streams
and_then none next = none
and_then (some s) next = next s

module _ (e : LogEnv) where
  abbrev pub method : LogLevel → Bytes → Bytes → Logger → Streams → Option Streams
  method fatal = log_fatal e
  method warning = log_warning e
  method info = log_info e
  method debug = log_debug e

  unfoldable pub run_calls : List LogCall → Logger → Streams → Option Streams
  unfolding log_fatal log_warning log_info log_debug
  run_calls [] l s = some s
  run_calls (c ∷ calls) l s = and_then (method c.level c.tid c.msg l s) (run_calls calls l)

-- Which levels a logger shows, which of them go to stderr, and what a line looks like, as the
-- documentation has them.
unfoldable pub shows : LogLevel → LogLevel → Bool
shows debug level = true
shows info debug = false
shows info level = true
shows warning fatal = true
shows warning warning = true
shows warning level = false
shows fatal fatal = true
shows fatal level = false

unfoldable pub on_stderr : LogLevel → Bool
on_stderr fatal = true
on_stderr warning = true
on_stderr info = false
on_stderr debug = false

abbrev title : LogLevel → Bytes
title fatal = codes "FATAL  "
title warning = codes "WARNING"
title info = codes "INFO   "
title debug = codes "DEBUG  "

abbrev pub line : Bytes → LogCall → Bytes
line timestamp c =
    codes "["
    ++ (title c.level
        ++ (codes "]["
            ++ (timestamp ++ (codes "][" ++ (c.tid ++ (codes "] " ++ (c.msg ++ codes "\n")))))))

-- The lines of the calls that are shown, with their levels.
unfoldable pub lines : LogEnv → LogLevel → ℕ → List LogCall → List (LogLevel × Bytes)
unfolding shows
lines e least now [] = []
lines e least now (c ∷ calls) =
    let skipped = lines e least now calls in
    let written = (c.level, line (e.timestamp now) c) ∷ lines e least (suc now) calls in
    if shows least c.level then written else skipped

-- The texts of those lines that have the given severity.
unfoldable pub texts : (LogLevel → Bool) → List (LogLevel × Bytes) → Bytes
texts wanted [] = []
texts wanted ((level, text) ∷ ls) =
    let rest = texts wanted ls in if wanted level then text ++ rest else rest

-- A logger after some lines.
abbrev pub written : Logger → List (LogLevel × Bytes) → Streams → ℕ → Streams
written l ls s now = record {
  file = s.file ++ texts (λ level. l.is_open) ls;
  out = s.out ++ texts (λ level. not (on_stderr level)) ls;
  err = s.err ++ texts on_stderr ls;
  now = now;
}

abbrev streams : ℕ → Bytes → Bytes → Bytes → Streams
streams now file out err = record { file = file; out = out; err = err; now = now }

-- The tests of the code are those of the documentation.
is_severe-on_stderr : (level : LogLevel) → is_severe level ≡ on_stderr level
unfolding is_severe on_stderr to_int
is_severe-on_stderr fatal = refl
is_severe-on_stderr warning = refl
is_severe-on_stderr info = refl
is_severe-on_stderr debug = refl

leb-shows : (level least : LogLevel) → leb (to_int level) (to_int least) ≡ shows least level
unfolding shows to_int
leb-shows fatal fatal = refl
leb-shows fatal warning = refl
leb-shows fatal info = refl
leb-shows fatal debug = refl
leb-shows warning fatal = refl
leb-shows warning warning = refl
leb-shows warning info = refl
leb-shows warning debug = refl
leb-shows info fatal = refl
leb-shows info warning = refl
leb-shows info info = refl
leb-shows info debug = refl
leb-shows debug fatal = refl
leb-shows debug warning = refl
leb-shows debug info = refl
leb-shows debug debug = refl

entry-line :
    (timestamp : Bytes) (c : LogCall) → entry timestamp c.tid c.level c.msg ≡ line timestamp c
unfolding entry level_to_str
entry-line timestamp c = go c.level
  where
    go :
        (level : LogLevel)
        → entry timestamp c.tid level c.msg ≡ line timestamp (record c { level = level })
    go fatal = refl
    go warning = refl
    go info = refl
    go debug = refl

write-streams :
    (l : Logger) (level : LogLevel) (text : Bytes) (s : Streams)
    → write l level text s
      ≡ streams s.now
          (if l.is_open then s.file ++ text else s.file)
          (if not (on_stderr level) then s.out ++ text else s.out)
          (if on_stderr level then s.err ++ text else s.err)
unfolding write
write-streams l level text s =
    ap (λ severe. written_if severe) (is_severe-on_stderr level) ∙ go l.is_open (on_stderr level)
  where
    written_if : Bool → Streams
    written_if severe =
        let s' = if l.is_open then record s { file = s.file ++ text } else s in
        if severe then record s' { err = s'.err ++ text } else record s' { out = s'.out ++ text }

    go :
        (opened severe : Bool)
        → (let s' = if opened then record s { file = s.file ++ text } else s in
            if severe
            then record s' { err = s'.err ++ text }
            else record s' { out = s'.out ++ text })
          ≡ streams s.now
              (if opened then s.file ++ text else s.file)
              (if not severe then s.out ++ text else s.out)
              (if severe then s.err ++ text else s.err)
    go true true = refl
    go true false = refl
    go false true = refl
    go false false = refl

grown :
    (b : Bool) (s text rest : Bytes)
    → (if b then s ++ text else s) ++ rest ≡ s ++ (if b then text ++ rest else rest)
grown true s text rest = append_assoc s text rest
grown false s text rest = refl

write-written :
    (l : Logger) (level : LogLevel) (text : Bytes) (ls : List (LogLevel × Bytes)) (s : Streams)
    (now : ℕ)
    → written l ls (write l level text s) now ≡ written l ((level, text) ∷ ls) s now
unfolding texts
write-written l level text ls s now =
    ap (λ x. written l ls x now) (write-streams l level text s)
    ∙ same (grown l.is_open s.file text (texts (λ level. l.is_open) ls))
        (grown (not (on_stderr level)) s.out text (texts (λ level. not (on_stderr level)) ls))
        (grown (on_stderr level) s.err text (texts on_stderr ls))
  where
    same :
        {f f' o o' r r' : Bytes}
        → f ≡ f'
        → o ≡ o'
        → r ≡ r'
        → streams now f o r ≡ streams now f' o' r'
    same {f} {f'} {o} {o'} {r} {r'} p q h =
        ap (λ x. streams now x o r) p ∙ ap (λ x. streams now f' x r) q ∙ ap (streams now f' o') h

write-now :
    (l : Logger) (level : LogLevel) (text : Bytes) (s : Streams)
    → (write l level text s).now ≡ s.now
write-now l level text s = ap (λ (x : Streams). x.now) (write-streams l level text s)

written-nil : (l : Logger) (s : Streams) → written l [] s s.now ≡ s
unfolding texts
written-nil l s = rw (append-nil s.file, append-nil s.out, append-nil s.err) refl

module _ (e : LogEnv) where
  method-log :
      (level : LogLevel) (tid msg : Bytes) (l : Logger) (s : Streams)
      → method e level tid msg l s ≡ log e tid level msg l s
  unfolding log_fatal log_warning log_info log_debug
  method-log fatal tid msg l s = refl
  method-log warning tid msg l s = refl
  method-log info tid msg l s = refl
  method-log debug tid msg l s = refl

  logged :
      (c : LogCall) (l : Logger) (s : Streams)
      → l.locked ≡ false
      → leb (to_int c.level) (to_int l.min_level) ≡ true
      → log e c.tid c.level c.msg l s
        ≡ some (
            write l c.level
              (entry (e.timestamp s.now) c.tid c.level c.msg)
              (record s { now = suc s.now }))
  unfolding log
  logged c l s free enabled = ground (arith, free, enabled)

  passed :
      (c : LogCall) (l : Logger) (s : Streams)
      → leb (to_int c.level) (to_int l.min_level) ≡ false
      → log e c.tid c.level c.msg l s ≡ some s
  unfolding log
  passed c l s skipped = ground (arith, skipped)

  -- For every sequence of calls of fatal(), warning(), info() and debug(), by any threads, on a logger
  -- whose mutex is free: no call blocks. A logger for FATAL shows those calls alone, one for WARNING
  -- also the warnings, one for INFO all but DEBUG, and one for DEBUG all. Exactly the lines shown are
  -- written, each as [LEVEL][time][thread] and the message, in the order of the calls: to the file if it
  -- could be opened, and to one of the two streams, those of FATAL and WARNING to stderr, those of INFO
  -- and DEBUG to stdout.
  pub run_calls-written :
      (calls : List LogCall) (l : Logger) (s : Streams)
      → l.locked ≡ false
      → (now : ℕ) × (run_calls e calls l s
          ≡ some (written l (lines e l.min_level s.now calls) s now))
  unfolding run_calls lines
  run_calls-written [] l s free = (s.now, ap some (sym (written-nil l s)))
  run_calls-written (c ∷ calls) l s free = elim (Bool-cases (shows l.min_level c.level)) [
    | inl enabled ↦
        let text = line (e.timestamp s.now) c in
        let s' = write l c.level text (record s { now = suc s.now }) in
        let (now, rest) = run_calls-written calls l s' free in
        let at_time : lines e l.min_level s'.now calls ≡ lines e l.min_level (suc s.now) calls =
          ap (λ t. lines e l.min_level t calls) (write-now l c.level text _) in
        let here : log e c.tid c.level c.msg l s ≡ some s' =
          logged c l s free (leb-shows c.level l.min_level ∙ enabled)
          ∙ ap (λ x. some (write l c.level x (record s { now = suc s.now })))
              (entry-line (e.timestamp s.now) c) in
        (
          now,
          ap (λ o. and_then o (run_calls e calls l)) (method-log c.level c.tid c.msg l s ∙ here)
              ∙ rest
              ∙ ap (λ ls. some (written l ls s' now)) at_time
              ∙ ap some (write-written l c.level text (lines e l.min_level (suc s.now) calls) _ now)
              ∙ rw enabled refl,
        )
    | inr skipped ↦
        let (now, rest) = run_calls-written calls l s free in
        (
          now,
          ap (λ o. and_then o (run_calls e calls l))
                (method-log c.level c.tid c.msg l s
                  ∙ passed c l s (leb-shows c.level l.min_level ∙ skipped))
              ∙ rest
              ∙ rw skipped refl,
        )
  ]
