-- ===== src/Logger/Front.antt =====
-- The logger's front end: `Logger` of logger/include/logger/logger.h and logger/src/logger.cpp. The
-- mutex is held for the whole of a call; `std::abort` ends the program.
pub mod Files
pub mod Kept
mod Tests
use cc_learning.Base.{
  ℕ, Bool, true, false, not, ◌||◌, List, [], ◌∷◌, Option, none, some, Bytes, StringMap,
  if◌then◌else◌,
}
use cc_learning.Logger.{
  Clock, LogFile, new_log_file, check_rotate, write, LogLevel, debug, info, warn, error, fatal,
  make_log_line,
}

pub record Logger : Type 0 where
  pub log_file : Option LogFile
  pub initialized : Bool

abbrev pub instance_at_first : Logger
instance_at_first = record { log_file = none; initialized = false }

-- `Init`; where the file cannot be opened the constructor throws before anything is set.
unfoldable pub init : Bool → Clock → Bytes → Bytes → ℕ → StringMap Bytes → Logger → Bool × Logger
unfolding new_log_file
init opens now dir log_name max_file_size files l =
    let (opened, f) = new_log_file opens now dir log_name max_file_size files in
    if opened then (true, record { log_file = some f; initialized = true }) else (false, l)

-- What comes of a call of `Log`.
pub data LogResult : Type 0 where
  dropped thrown logged aborted : LogResult

unfoldable pub is_fatal : LogLevel → Bool
is_fatal debug = false
is_fatal info = false
is_fatal warn = false
is_fatal error = false
is_fatal fatal = true

-- A call of `Log`: `msg` is what `snprintf` makes of the format, `none` if it fails; `opens` says
-- whether a file that is opened can be.
pub record Entry : Type 0 where
  pub now : Clock
  pub opens : Bool
  pub level : LogLevel
  pub file : Bytes
  pub line : ℕ
  pub msg : Option Bytes

-- The third and the fourth step, and the fifth.
unfoldable pub log_line : Entry → Bytes → LogFile → LogResult × LogFile
unfolding check_rotate write is_fatal
log_line e text f =
    let (opened, f') = check_rotate e.opens e.now f in
    if opened then (if is_fatal e.level then aborted else logged, write text f') else (thrown, f')

unfoldable pub log_message : Entry → Option Bytes → LogFile → LogResult × LogFile
unfolding make_log_line log_line
log_message e none f = (dropped, f)
log_message e (some msg) f = log_line e (make_log_line e.now e.level e.file e.line msg) f

-- `Log`
unfoldable pub log : Entry → Logger → LogResult × Logger
unfolding log_message
log e l = elim l.log_file [
  | none ↦ (dropped, l)
  | some f ↦
      let (o, f') = log_message e e.msg f in
      if l.initialized then (o, record l { log_file = some f' }) else (dropped, l)
]

unfoldable pub is_aborted : LogResult → Bool
is_aborted dropped = false
is_aborted thrown = false
is_aborted logged = false
is_aborted aborted = true

-- The program's calls, up to the first that ends it.
unfoldable pub log_all : List Entry → Logger → Logger
unfolding log is_aborted
log_all [] l = l
log_all (e ∷ es) l =
    let (o, l') = log e l in let rest = log_all es l' in if is_aborted o then l' else rest
