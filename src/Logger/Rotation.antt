-- ===== src/Logger/Rotation.antt =====
-- `LogFile::CheckRotate` of logger/src/log_file.cpp: what becomes of the files.
use cc_learning.Base.{
  ℕ, ◌≤◌, ◌<◌, ◌≡◌, ◌⊎◌, refl, sym, ap, ◌∙◌, arith, Bool, true, false, ◌||◌, [], ◌∷◌, ◌++◌, Option,
  none, some, Bytes, length, take, drop, if_elim, Bool-cases, Option-cases, inl, inr, subst,
  eq_bytes, eq_bytes→eq, eq_bytes_refl, length-append, take-append-drop, StringMap, lookup, insert,
  erase, lookup-insert_self, lookup-insert_ne, lookup-erase_self, lookup-erase_ne,
}
use cc_learning.Logger.{
  Clock, LogFile, rfind, before_dot, file_path, archive_path, rename, rotate_file, open_file,
  day_changed, is_full, check_rotate,
}

or_ne : (a b : Bool) → (a ≡ true) ⊎ (b ≡ true) → (a || b) ≡ false → ⊥
or_ne a b k n = ground arith

length-before_dot : (name part : Bytes) → length name < length (before_dot name part)
unfolding before_dot
length-before_dot name part = elim (Option-cases (rfind 46 name)) [
  | inl e ↦ rw (before_dot, e) (omega (arith, length-append name (95 ∷ part)))
  | inr (i, e) ↦
      rw (before_dot, e)
        (omega (
          arith,
          length-append (take i name) (95 ∷ (part ++ drop i name)),
          length-append part (drop i name),
          length-append (take i name) (drop i name),
          ap length (take-append-drop i name),
        ))
]

shorter_ne : (xs ys : Bytes) → length xs < length ys → eq_bytes xs ys ≡ false
shorter_ne xs ys h = elim (Bool-cases (eq_bytes xs ys)) [
  | inl e ↦ absurd (omega (arith, h, ap length (eq_bytes→eq xs ys e)))
  | inr e ↦ e
]

ne_sym : (xs ys : Bytes) → eq_bytes xs ys ≡ false → eq_bytes ys xs ≡ false
ne_sym xs ys h = elim (Bool-cases (eq_bytes ys xs)) [
  | inl e ↦ absurd (
      let k : eq_bytes xs ys ≡ true =
        subst (λ z. eq_bytes xs z ≡ true) (sym (eq_bytes→eq ys xs e)) (eq_bytes_refl xs) in
      let z : ⊥ = cc in z)
  | inr e ↦ e
]

archive-ne : (now : Clock) (path : Bytes) → eq_bytes path (archive_path now path) ≡ false
unfolding archive_path
archive-ne now path = shorter_ne path (archive_path now path) (length-before_dot path _)

open_lem :
    (now : Clock) (g : LogFile)
    → lookup g.files (file_path now g) ≡ none
    → (open_file true now g).1.files ≡ insert (file_path now g) [] g.files
unfolding open_file
open_lem now g e = rw e refl

-- The log file when the full file has been archived.
abbrev archived : Clock → LogFile → Bytes → LogFile
archived now f content = record f {
  file = none;
  files = rename (file_path now f) (archive_path now (file_path now f)) content f.files;
}

rotate_lem :
    (now : Clock) (f : LogFile) (content : Bytes)
    → f.file ≡ some (file_path now f)
    → lookup f.files (file_path now f) ≡ some content
    → rotate_file now f ≡ archived now f content
unfolding rotate_file
rotate_lem now f content e q = rw (rotate_file, e, q) refl

-- The archive holds the content, the file is empty, and no other file is changed.
pub record IsRotated (path archive content : Bytes) (before after : StringMap Bytes) : Type 0 where
  pub kept : lookup after archive ≡ some content
  pub empty : lookup after path ≡ some []
  pub others :
      (name : Bytes)
      → eq_bytes name path ≡ false
      → eq_bytes name archive ≡ false
      → lookup after name ≡ lookup before name

reopened :
    (now : Clock) (f : LogFile) (content : Bytes) (day : Option ℕ)
    → IsRotated
        (file_path now f)
        (archive_path now (file_path now f))
        content
        f.files
        (open_file true now (record (archived now f content) { current_day = day })).1.files
unfolding rename file_path
reopened now f content day =
    let path : Bytes = file_path now f in
    let archive : Bytes = archive_path now path in
    let g : LogFile = record (archived now f content) { current_day = day } in
    let gone : lookup g.files path ≡ none =
      lookup-insert_ne archive path content (erase path f.files) (archive-ne now path)
      ∙ lookup-erase_self path f.files in
    let opened : (open_file true now g).1.files ≡ insert path [] g.files = open_lem now g gone in
    record {
      kept =
          ap (λ m. lookup m archive) opened
          ∙ lookup-insert_ne path archive [] g.files (ne_sym path archive (archive-ne now path))
          ∙ lookup-insert_self archive content (erase path f.files);
      empty = ap (λ m. lookup m path) opened ∙ lookup-insert_self path [] g.files;
      others = λ name n m.
          ap (λ x. lookup x name) opened
          ∙ lookup-insert_ne path name [] g.files n
          ∙ lookup-insert_ne archive name content (erase path f.files) m
          ∙ lookup-erase_ne path name f.files n;
    }

-- When the open file is the one of this day and has reached the size, `CheckRotate` keeps its whole
-- content under the name of the archive, goes on with an empty file of the same name, and changes no
-- other file.
pub check_rotate_lem :
    (now : Clock) (f : LogFile) (content : Bytes)
    → f.file ≡ some (file_path now f)
    → lookup f.files (file_path now f) ≡ some content
    → f.max_size ≤ length content
    → IsRotated
        (file_path now f)
        (archive_path now (file_path now f))
        content
        f.files
        (check_rotate true now f).1.files
unfolding check_rotate is_full
check_rotate_lem now f content e q h =
    let full : is_full f ≡ true = rw (is_full, e, q) (ground arith) in
    if_elim
      (λ (r : Bool × LogFile).
        IsRotated (file_path now f) (archive_path now (file_path now f)) content f.files r.1.files)
      (day_changed now f.current_day || is_full f)
      (λ _.
        subst
          (λ g.
            IsRotated (file_path now f) (archive_path now (file_path now f)) content f.files
              (open_file true now (record g { current_day = some now.day_of_year })).1.files)
          (sym (rotate_lem now f content e q)) (reopened now f content (some now.day_of_year)))
      (λ n. absurd (or_ne (day_changed now f.current_day) (is_full f) (inr full) n))
