-- ===== src/Logger/Front/Tests.antt =====
-- Three calls, of which the second archives a full file and the third ends the program.
use cc_learning.Base.{
  ℕ, ◌≡◌, refl, subst, List, [], ◌∷◌, true, Option, none, some, Bytes, bytes, lookup, insert, erase,
  lt_bytes, eq_bytes, padded, decimal, decimal_loop,
}
use cc_learning.Logger.{
  Clock, LogFile, make_file_name, file_path, archive_path, before_dot, rfind, day_changed, is_full,
  rename, rotate_file, open_file, new_log_file, write, check_rotate, LogLevel, info, warn, fatal,
  make_log_line, get_timestamp, log_level_to_string, file_name,
}
use cc_learning.Logger.Front.{
  Logger, Entry, init, instance_at_first, log, log_line, log_message, log_all, is_fatal,
}
use cc_learning.Logger.Front.Files.{IsFree}
use cc_learning.Logger.Front.Kept.{IsUndisturbed, Kept, log_all-Kept}

abbrev at : ℕ → Clock
at s = record {
  year = 2026;
  month = 6;
  day = 8;
  hour = 12;
  minute = 0;
  second = s;
  millisecond = 7;
  day_of_year = 158;
}

abbrev entry : ℕ → LogLevel → Option Bytes → Entry
entry s level msg = record {
  now = at s;
  opens = true;
  level = level;
  file = bytes "src/main.cpp";
  line = 42;
  msg = msg;
}

abbrev file : LogFile
file = record {
  file = some (bytes "d/app_20260608.log");
  dir = bytes "d";
  base_name = bytes "app.log";
  max_size = 10;
  current_day = some 158;
  files = (bytes "d/app_20260608.log", []) ∷ [];
}

abbrev logger : Logger
logger = record { log_file = some file; initialized = true }

logger-init : (init true (at 1) (bytes "d") (bytes "app.log") 10 [] instance_at_first).1 ≡ logger
unfolding init new_log_file open_file file_path make_file_name before_dot rfind padded decimal
    decimal_loop lookup insert lt_bytes eq_bytes
logger-init = refl

abbrev entries : List Entry
entries =
    entry 1 info (some (bytes "hi"))
    ∷ entry 2 warn none
    ∷ entry 3 warn (some (bytes "full"))
    ∷ entry 4 fatal (some (bytes "end"))
    ∷ entry 5 info (some (bytes "never"))
    ∷ []

IsFree-same : (now : Clock) (g f : LogFile) → IsFree now g → some g ≡ some f → IsFree now f
IsFree-same now g f free e = subst (IsFree now) (let q : g ≡ f = cc in q) free

undisturbed : IsUndisturbed entries logger
unfolding log log_line log_message is_fatal init new_log_file open_file file_path archive_path
    make_file_name before_dot rfind padded decimal decimal_loop lookup insert lt_bytes eq_bytes
    erase rename rotate_file day_changed is_full check_rotate write make_log_line get_timestamp
    log_level_to_string file_name
undisturbed = (
  refl,
  λ f k. IsFree-same (at 1) _ f refl k,
  (
    refl,
    λ f k. IsFree-same (at 2) _ f refl k,
    (
      refl,
      λ f k. IsFree-same (at 3) _ f refl k,
      (
        refl,
        λ f k. IsFree-same (at 4) _ f refl k,
        (refl, λ f k. IsFree-same (at 5) _ f refl k, tt),
      ),
    ),
  ),
)

log_all-Kept_example : Kept entries file (log_all entries logger)
log_all-Kept_example =
    log_all-Kept entries logger file
      (record {
        log_file = refl;
        initialized = refl;
        path = bytes "d/app_20260608.log";
        file = refl;
      })
      undisturbed
