-- ===== src/Logger/Front/Files.antt =====
-- What LogFile of logger/src/log_file.cpp keeps of the files that it writes.
use cc_learning.Base.{
  ◌≡◌, ◌∙◌, sym, ap, subst, refl, arith, Bool, true, false, ◌||◌, [], ◌++◌, append_assoc,
  append-nil, none, some, Bytes, inl, inr, Bool-cases, Option-cases, if_elim, StringMap, lookup,
  insert, erase, eq_bytes, eq_bytes→eq, lookup-insert_self, lookup-insert_ne, lookup-erase_ne,
}
use cc_learning.Logger.{
  Clock, LogFile, file_path, archive_path, rename, rotate_file, open_file, check_rotate, write,
  day_changed, is_full,
}

-- Some file holds these bytes in one piece.
pub record IsIn (x : Bytes) (files : StringMap Bytes) : Type 0 where
  pub path : Bytes
  pub before : Bytes
  pub after : Bytes
  pub found : lookup files path ≡ some (before ++ (x ++ after))

-- What stands at a path where something was found.
content_at :
    (x : Bytes) (files : StringMap Bytes) (p : Bytes) (i : IsIn x files)
    → eq_bytes i.path p ≡ true
    → lookup files p ≡ some (i.before ++ (x ++ i.after))
content_at x files p i k =
    subst (λ q. lookup files q ≡ some (i.before ++ (x ++ i.after))) (eq_bytes→eq i.path p k) i.found

IsIn-insert :
    (x : Bytes) (files : StringMap Bytes) (p content more : Bytes)
    → lookup files p ≡ some content
    → IsIn x files
    → IsIn x (insert p (content ++ more) files)
IsIn-insert x files p content more e i = elim (Bool-cases (eq_bytes i.path p)) [
  | inl k ↦
      let found = content_at x files p i k in
      let c : content ≡ i.before ++ (x ++ i.after) = cc in
      let longer : content ++ more ≡ i.before ++ (x ++ (i.after ++ more)) =
        ap (λ l. l ++ more) c
        ∙ (append_assoc i.before (x ++ i.after) more
            ∙ ap (λ l. i.before ++ l) (append_assoc x i.after more)) in
      record {
        path = p;
        before = i.before;
        after = i.after ++ more;
        found = lookup-insert_self p (content ++ more) files ∙ ap some longer;
      }
  | inr k ↦ record {
    path = i.path;
    before = i.before;
    after = i.after;
    found = lookup-insert_ne p i.path (content ++ more) files k ∙ i.found;
  }
]

IsIn-new :
    (x : Bytes) (files : StringMap Bytes) (p content : Bytes)
    → lookup files p ≡ none
    → IsIn x files
    → IsIn x (insert p content files)
IsIn-new x files p content e i = elim (Bool-cases (eq_bytes i.path p)) [
  | inl k ↦ let found = content_at x files p i k in absurd (let z : ⊥ = cc in z)
  | inr k ↦ record {
    path = i.path;
    before = i.before;
    after = i.after;
    found = lookup-insert_ne p i.path content files k ∙ i.found;
  }
]

found_ne :
    (files : StringMap Bytes) (p q content : Bytes)
    → lookup files p ≡ none
    → lookup files q ≡ some content
    → eq_bytes p q ≡ false
found_ne files p q content e k = elim (Bool-cases (eq_bytes p q)) [
  | inl s ↦
      let same : p ≡ q = eq_bytes→eq p q s in
      let found : lookup files q ≡ none = subst (λ r. lookup files r ≡ none) same e in
      absurd (let z : ⊥ = cc in z)
  | inr s ↦ s
]

-- An archive whose name was free loses nothing.
IsIn-rename :
    (x : Bytes) (files : StringMap Bytes) (old new content : Bytes)
    → lookup files old ≡ some content
    → lookup files new ≡ none
    → IsIn x files
    → IsIn x (rename old new content files)
unfolding rename
IsIn-rename x files old new content e free i = elim (Bool-cases (eq_bytes i.path old)) [
  | inl k ↦
      let found = content_at x files old i k in
      let c : content ≡ i.before ++ (x ++ i.after) = cc in
      record {
        path = new;
        before = i.before;
        after = i.after;
        found = lookup-insert_self new content (erase old files) ∙ ap some c;
      }
  | inr k ↦
      IsIn-new x (erase old files) new content
        (lookup-erase_ne old new files (found_ne files new old content free e) ∙ free)
        (record {
          path = i.path;
          before = i.before;
          after = i.after;
          found = lookup-erase_ne old i.path files k ∙ i.found;
        })
]

-- No file has the name that the archive would get.
abbrev pub IsFree : Clock → LogFile → Type 0
IsFree now f = lookup f.files (archive_path now (file_path now f)) ≡ none

open_file-true : (now : Clock) (f : LogFile) → (open_file true now f).0 ≡ true
unfolding open_file
open_file-true now f = refl

open_file-file :
    (now : Clock) (f : LogFile) → (open_file true now f).1.file ≡ some (file_path now f)
unfolding open_file
open_file-file now f = refl

rotate_absent :
    (now : Clock) (f : LogFile) (p : Bytes)
    → f.file ≡ some p
    → lookup f.files (file_path now f) ≡ none
    → (rotate_file now f).files ≡ f.files
unfolding rotate_file
rotate_absent now f p o e = ground (arith, o, e)

rotate_present :
    (now : Clock) (f : LogFile) (p content : Bytes)
    → f.file ≡ some p
    → lookup f.files (file_path now f) ≡ some content
    → (rotate_file now f).files
      ≡ rename (file_path now f) (archive_path now (file_path now f)) content f.files
unfolding rotate_file
rotate_present now f p content o e = ground (arith, o, e)

IsIn-rotate_file :
    (x : Bytes) (now : Clock) (f : LogFile) (p : Bytes)
    → f.file ≡ some p
    → IsFree now f
    → IsIn x f.files
    → IsIn x (rotate_file now f).files
IsIn-rotate_file x now f p o free i = elim (Option-cases (lookup f.files (file_path now f))) [
  | inl e ↦ subst (IsIn x) (sym (rotate_absent now f p o e)) i
  | inr (c, e) ↦
      subst (IsIn x) (sym (rotate_present now f p c o e))
        (IsIn-rename x f.files (file_path now f) (archive_path now (file_path now f)) c e free i)
]

IsIn-open_file :
    (x : Bytes) (now : Clock) (f : LogFile) → IsIn x f.files → IsIn x (open_file true now f).1.files
unfolding open_file
IsIn-open_file x now f i = elim (Option-cases (lookup f.files (file_path now f))) [
  | inl e ↦ rw e (IsIn-new x f.files (file_path now f) [] e i)
  | inr (c, e) ↦ rw e i
]

write_absent :
    (text p : Bytes) (f : LogFile)
    → f.file ≡ some p
    → lookup f.files p ≡ none
    → (write text f).files ≡ insert p text f.files
unfolding write
write_absent text p f o e = ground (arith, o, e)

write_present :
    (text p content : Bytes) (f : LogFile)
    → f.file ≡ some p
    → lookup f.files p ≡ some content
    → (write text f).files ≡ insert p (content ++ text) f.files
unfolding write
write_present text p content f o e = ground (arith, o, e)

pub IsIn-write :
    (x text p : Bytes) (f : LogFile)
    → f.file ≡ some p
    → IsIn x f.files
    → IsIn x (write text f).files
IsIn-write x text p f o i = elim (Option-cases (lookup f.files p)) [
  | inl e ↦ subst (IsIn x) (sym (write_absent text p f o e)) (IsIn-new x f.files p text e i)
  | inr (c, e) ↦
      subst (IsIn x) (sym (write_present text p c f o e)) (IsIn-insert x f.files p c text e i)
]

pub written : (text p : Bytes) (f : LogFile) → f.file ≡ some p → IsIn text (write text f).files
written text p f o = elim (Option-cases (lookup f.files p)) [
  | inl e ↦ subst (IsIn text) (sym (write_absent text p f o e)) (record {
    path = p;
    before = [];
    after = [];
    found = lookup-insert_self p text f.files ∙ ap some (sym (append-nil text));
  })
  | inr (c, e) ↦ subst (IsIn text) (sym (write_present text p c f o e)) (record {
    path = p;
    before = c;
    after = [];
    found =
        lookup-insert_self p (c ++ text) f.files ∙ ap (λ l. some (c ++ l)) (sym (append-nil text));
  })
]

pub write_file : (text : Bytes) (f : LogFile) → (write text f).file ≡ f.file
unfolding write
write_file text f = elim (Option-cases f.file) [ inl e ↦ rw e refl | inr (p, e) ↦ rw e refl ]

-- `CheckRotate` leaves a file open and every line where it is or in the archive.
pub record Checked (f : LogFile) (r : Bool × LogFile) : Type 0 where
  pub opened : r.0 ≡ true
  pub path : Bytes
  pub file : r.1.file ≡ some path
  pub kept : (x : Bytes) → IsIn x f.files → IsIn x r.1.files

pub check_rotate-Checked :
    (now : Clock) (f : LogFile) (p : Bytes)
    → f.file ≡ some p
    → IsFree now f
    → Checked f (check_rotate true now f)
unfolding check_rotate
check_rotate-Checked now f p o free =
    if_elim (Checked f) (day_changed now f.current_day || is_full f)
      (λ k.
        let g : LogFile = record (rotate_file now f) { current_day = some now.day_of_year } in
        record {
          opened = open_file-true now g;
          path = file_path now g;
          file = open_file-file now g;
          kept = λ x i. IsIn-open_file x now g (IsIn-rotate_file x now f p o free i);
        })
      (λ k. record { opened = refl; path = p; file = o; kept = λ x i. i })
