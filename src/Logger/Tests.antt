-- ===== src/Logger/Tests.antt =====
-- A small log in an empty directory.
use cc_learning.Base.{
  ◌≡◌, refl, arith, [], ◌∷◌, some, Bytes, bytes, lookup, eq_bytes, padded, decimal, decimal_loop,
  true,
}
use cc_learning.Logger.{
  Clock, LogFile, make_file_name, file_path, archive_path, before_dot, rfind, check_rotate,
}
use cc_learning.Logger.Rotation.{IsRotated, check_rotate_lem}

abbrev noon : Clock
noon = record {
  year = 2026;
  month = 6;
  day = 8;
  hour = 12;
  minute = 0;
  second = 5;
  millisecond = 7;
  day_of_year = 158;
}

abbrev path : Bytes
path = bytes "d/app_20260608.log"

abbrev log : LogFile
log = record {
  file = some path;
  dir = bytes "d";
  base_name = bytes "app.log";
  max_size = 2;
  current_day = some 158;
  files = (path, bytes "abc") ∷ [];
}

file_path-log : file_path noon log ≡ path
unfolding file_path make_file_name before_dot rfind padded decimal decimal_loop
file_path-log = refl

check_rotate_lem_example :
    IsRotated
      (file_path noon log)
      (archive_path noon (file_path noon log))
      (bytes "abc")
      log.files
      (check_rotate true noon log).1.files
unfolding file_path make_file_name before_dot rfind padded decimal decimal_loop lookup eq_bytes
check_rotate_lem_example = check_rotate_lem noon log (bytes "abc") refl refl (omega arith)

abbrev yesterday : LogFile
yesterday = record {
  file = some (bytes "d/app_20260607.log");
  dir = bytes "d";
  base_name = bytes "app.log";
  max_size = 2;
  current_day = some 157;
  files = (bytes "d/app_20260607.log", bytes "a") ∷ [];
}
