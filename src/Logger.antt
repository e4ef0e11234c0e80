-- ===== src/Logger.antt =====
-- logger/src/log_file.cpp and logger/src/logger.cpp: the file behind the log, its rotation, and the
-- lines. The file system is a map from paths to contents; the clock, and whether `fopen` succeeds, are
-- arguments. Under `mutex_` a call is one step. The position in a file opened for appending is its size.
pub mod Rotation
pub mod Front
mod Tests
use cc_learning.Base.{
  ℕ, zero, suc, ◌+◌, ◌-◌, Bool, true, false, not, ◌&&◌, ◌||◌, List, [], ◌∷◌, ◌++◌, Option, none,
  some, Bytes, bytes, length, take, drop, ltb, leb, ◌==◌, if◌then◌else◌, StringMap, lookup, insert,
  erase, decimal, padded,
}

-- `std::tm`, with the year and the month as they are written.
pub record Clock : Type 0 where
  pub year : ℕ
  pub month : ℕ
  pub day : ℕ
  pub hour : ℕ
  pub minute : ℕ
  pub second : ℕ
  pub millisecond : ℕ
  pub day_of_year : ℕ

-- `file` is the path of the open file; `current_day` is `none` for -1. `files` is the file system.
pub record LogFile : Type 0 where
  pub file : Option Bytes
  pub dir : Bytes
  pub base_name : Bytes
  pub max_size : ℕ
  pub current_day : Option ℕ
  pub files : StringMap Bytes

-- `rfind` of a character.
unfoldable pub rfind : ℕ → Bytes → Option ℕ
rfind p [] = none
rfind p (c ∷ cs) = elim (rfind p cs) [
  | some i ↦ some (suc i)
  | none ↦ if c == p then some 0 else none
]

-- Something is put before the last dot, or at the end.
unfoldable pub before_dot : Bytes → Bytes → Bytes
unfolding rfind
before_dot name part = elim (rfind 46 name) [
  | some i ↦ take i name ++ (95 ∷ (part ++ drop i name))
  | none ↦ name ++ (95 ∷ part)
]

-- `MakeFileName`
unfoldable pub make_file_name : Clock → LogFile → Bytes
unfolding before_dot padded
make_file_name now f =
    before_dot f.base_name (padded 4 now.year ++ (padded 2 now.month ++ padded 2 now.day))

unfoldable pub file_path : Clock → LogFile → Bytes
unfolding make_file_name
file_path now f = f.dir ++ (47 ∷ make_file_name now f)

-- The name of the archive for this file.
unfoldable pub archive_path : Clock → Bytes → Bytes
unfolding before_dot padded
archive_path now old_path =
    before_dot old_path (padded 2 now.hour ++ (padded 2 now.minute ++ padded 2 now.second))

-- `std::rename` on a file that exists; a file of the new name is lost.
unfoldable pub rename : Bytes → Bytes → Bytes → StringMap Bytes → StringMap Bytes
rename old_path new_path content files = insert new_path content (erase old_path files)

-- `RotateFileLocked`
unfoldable pub rotate_file : Clock → LogFile → LogFile
unfolding file_path archive_path rename
rotate_file now f = elim f.file [
  | none ↦ f
  | some path ↦ record f {
    file = none;
    files = elim (lookup f.files (file_path now f)) [
      | none ↦ f.files
      | some content ↦ rename (file_path now f) (archive_path now (file_path now f)) content f.files
    ];
  }
]

-- `OpenFileLocked`; the first part is false for the exception.
unfoldable pub open_file : Bool → Clock → LogFile → Bool × LogFile
unfolding file_path
open_file opens now f =
    if opens
    then (
      true,
      record f {
        file = some (file_path now f);
        files = elim (lookup f.files (file_path now f)) [
          | some content ↦ f.files
          | none ↦ insert (file_path now f) [] f.files
        ];
      },
    )
    else (false, record f { file = none })

unfoldable pub close_file : LogFile → LogFile
close_file f = record f { file = none }

-- The constructor.
unfoldable pub new_log_file : Bool → Clock → Bytes → Bytes → ℕ → StringMap Bytes → Bool × LogFile
unfolding open_file
new_log_file opens now dir base_name max_size files = open_file opens now (record {
  file = none;
  dir = dir;
  base_name = base_name;
  max_size = max_size;
  current_day = some now.day_of_year;
  files = files;
})

-- `fwrite` on the open file; a file that was taken away meanwhile is not modelled.
unfoldable pub write : Bytes → LogFile → LogFile
write msg f = elim f.file [
  | none ↦ f
  | some path ↦ record f {
    files = elim (lookup f.files path) [
      | none ↦ insert path msg f.files
      | some content ↦ insert path (content ++ msg) f.files
    ];
  }
]

unfoldable pub day_changed : Clock → Option ℕ → Bool
day_changed now none = false
day_changed now (some d) = not (d == now.day_of_year)

-- `ftell(file_) >= max_size_`
unfoldable pub is_full : LogFile → Bool
is_full f = elim f.file [
  | none ↦ false
  | some path ↦ elim (lookup f.files path) [
    | none ↦ leb f.max_size 0
    | some content ↦ leb f.max_size (length content)
  ]
]

-- `CheckRotate`
unfoldable pub check_rotate : Bool → Clock → LogFile → Bool × LogFile
unfolding day_changed is_full rotate_file open_file
check_rotate opens now f =
    if day_changed now f.current_day || is_full f
    then open_file opens now (record (rotate_file now f) { current_day = some now.day_of_year })
    else (true, f)

pub data LogLevel : Type 0 where
  debug info warn error fatal : LogLevel

unfoldable pub log_level_to_string : LogLevel → Bytes
log_level_to_string debug = bytes "DEBUG"
log_level_to_string info = bytes "INFO"
log_level_to_string warn = bytes "WARN"
log_level_to_string error = bytes "ERROR"
log_level_to_string fatal = bytes "FATAL"

-- `GetTimestamp`
unfoldable pub get_timestamp : Clock → Bytes
unfolding padded
get_timestamp now =
    padded 4 now.year
    ++ (45
        ∷ (padded 2 now.month
            ++ (45
                ∷ (padded 2 now.day
                    ++ (32
                        ∷ (padded 2 now.hour
                            ++ (58
                                ∷ (padded 2 now.minute
                                    ++ (58
                                        ∷ (padded 2 now.second
                                            ++ (46 ∷ padded 3 now.millisecond)))))))))))

-- The name behind the last `/` or `\`, whichever comes later.
unfoldable pub file_name : Bytes → Bytes
file_name [] = []
file_name (c ∷ cs) = elim (rfind 92 (c ∷ cs)) [
  | none ↦ elim (rfind 47 (c ∷ cs)) [ none ↦ c ∷ cs | some i ↦ drop (i + 1) (c ∷ cs) ]
  | some j ↦ elim (rfind 47 (c ∷ cs)) [
    | none ↦ drop (j + 1) (c ∷ cs)
    | some i ↦ if ltb i j then drop (j + 1) (c ∷ cs) else drop (i + 1) (c ∷ cs)
  ]
]

-- `MakeLogLine`; `%-5s` pads on the right, and the buffer holds 4095 characters. The message has no
-- zero byte.
unfoldable pub make_log_line : Clock → LogLevel → Bytes → ℕ → Bytes → Bytes
unfolding get_timestamp log_level_to_string file_name decimal
make_log_line now level file line msg = take 4095 (
    bytes "["
    ++ (get_timestamp now
        ++ (bytes "] ["
            ++ (take 5 (log_level_to_string level ++ bytes "     ")
                ++ (bytes "] ["
                    ++ (file_name file
                        ++ (bytes ":" ++ (decimal line ++ (bytes "] " ++ (msg ++ 10 ∷ []))))))))))
