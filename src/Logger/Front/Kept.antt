-- ===== src/Logger/Front/Kept.antt =====
-- No line of the log of logger/include/logger/logger.h is lost.
use cc_learning.Base.{
  ◌≡◌, ◌∙◌, sym, ap, subst, refl, arith, Bool, true, false, List, [], ◌∷◌, none, some, Bytes, inl,
  inr, Bool-cases, Option-cases, if◌then◌else◌, All,
}
use cc_learning.Logger.{LogFile, check_rotate, write, make_log_line}
use cc_learning.Logger.Front.{
  Logger, LogResult, dropped, logged, aborted, is_fatal, Entry, log_line, log_message, log,
  is_aborted, log_all,
}
use cc_learning.Logger.Front.Files.{
  IsIn, IsFree, IsIn-write, written, write_file, Checked, check_rotate-Checked,
}

-- The line that a message gives.
abbrev pub text_of : Entry → Bytes → Bytes
text_of e msg = make_log_line e.now e.level e.file e.line msg

-- What the calls have to write, up to the first that ends the program.
unfoldable pub lines_of : List Entry → List Bytes
unfolding is_fatal
lines_of [] = []
lines_of (e ∷ es) =
    let rest = lines_of es in
    elim e.msg [ none ↦ rest | some msg ↦ text_of e msg ∷ (if is_fatal e.level then [] else rest) ]

-- Each file that is opened can be opened, and each archive gets a name that is free.
abbrev pub IsUndisturbed : List Entry → Logger → Type 0
IsUndisturbed [] l = Unit
IsUndisturbed (e ∷ es) l =
    (e.opens ≡ true)
    × ((f : LogFile) → l.log_file ≡ some f → IsFree e.now f)
    × IsUndisturbed es (log e l).1

pub record IsReady (l : Logger) (f : LogFile) : Type 0 where
  pub log_file : l.log_file ≡ some f
  pub initialized : l.initialized ≡ true
  pub path : Bytes
  pub file : f.file ≡ some path

log_file-step :
    (e : Entry) (l : Logger) (f : LogFile)
    → IsReady l f
    → log e l ≡ ((log_message e e.msg f).0, record l { log_file = some (log_message e e.msg f).1 })
unfolding log
log_file-step e l f r = let k = r.log_file in let i = r.initialized in ground (arith, k, i)

log_line-opened :
    (e : Entry) (text : Bytes) (f : LogFile)
    → (check_rotate e.opens e.now f).0 ≡ true
    → log_line e text f
      ≡ (if is_fatal e.level then aborted else logged, write text (check_rotate e.opens e.now f).1)
unfolding log_line
log_line-opened e text f k = rw k refl

-- What a call that writes leaves behind.
record Logged (e : Entry) (text : Bytes) (f : LogFile) (r : LogResult × LogFile) : Type 0 where
  pub outcome : r.0 ≡ (if is_fatal e.level then aborted else logged)
  pub path : Bytes
  pub file : r.1.file ≡ some path
  pub kept : (x : Bytes) → IsIn x f.files → IsIn x r.1.files
  pub added : IsIn text r.1.files

log_line-Logged :
    (e : Entry) (text : Bytes) (f : LogFile) (p : Bytes)
    → f.file ≡ some p
    → e.opens ≡ true
    → IsFree e.now f
    → Logged e text f (log_line e text f)
log_line-Logged e text f p o opens free =
    let c : Checked f (check_rotate e.opens e.now f) =
      subst (λ b. Checked f (check_rotate b e.now f)) (sym opens)
        (check_rotate-Checked e.now f p o free) in
    let g : LogFile = (check_rotate e.opens e.now f).1 in
    subst (Logged e text f) (sym (log_line-opened e text f c.opened)) (record {
      outcome = refl;
      path = c.path;
      file = write_file text g ∙ c.file;
      kept = λ x i. IsIn-write x text c.path g c.file (c.kept x i);
      added = written text c.path g c.file;
    })

pub record Kept (es : List Entry) (f : LogFile) (l : Logger) : Type 0 where
  pub left : LogFile
  pub log_file : l.log_file ≡ some left
  pub kept : (x : Bytes) → IsIn x f.files → IsIn x left.files
  pub added : All (λ x. IsIn x left.files) (lines_of es)

log_all-goes_on :
    (e : Entry) (es : List Entry) (l : Logger)
    → is_aborted (log e l).0 ≡ false
    → log_all (e ∷ es) l ≡ log_all es (log e l).1
unfolding log_all
log_all-goes_on e es l k = rw k refl

log_all-stops :
    (e : Entry) (es : List Entry) (l : Logger)
    → is_aborted (log e l).0 ≡ true
    → log_all (e ∷ es) l ≡ (log e l).1
unfolding log_all
log_all-stops e es l k = rw k refl

is_aborted-fatal : (b : Bool) → is_aborted (if b then aborted else logged) ≡ b
unfolding is_aborted
is_aborted-fatal true = refl
is_aborted-fatal false = refl

lines_of-none : (e : Entry) (es : List Entry) → e.msg ≡ none → lines_of (e ∷ es) ≡ lines_of es
unfolding lines_of
lines_of-none e es k = rw k refl

lines_of-some :
    (e : Entry) (es : List Entry) (msg : Bytes)
    → e.msg ≡ some msg
    → lines_of (e ∷ es) ≡ text_of e msg ∷ (if is_fatal e.level then [] else lines_of es)
unfolding lines_of
lines_of-some e es msg k = rw k refl

message_none : (e : Entry) (f : LogFile) → log_message e none f ≡ (dropped, f)
unfolding log_message
message_none e f = refl

message_some :
    (e : Entry) (msg : Bytes) (f : LogFile)
    → log_message e (some msg) f ≡ log_line e (text_of e msg) f
unfolding log_message
message_some e msg f = refl

abbrev back : Logger → LogResult × LogFile → LogResult × Logger
back l (o, f) = (o, record l { log_file = some f })

-- A message that could not be formatted changes nothing.
log-quiet :
    (e : Entry) (l : Logger) (f : LogFile)
    → IsReady l f
    → e.msg ≡ none
    → (is_aborted (log e l).0 ≡ false) × IsReady (log e l).1 f
unfolding is_aborted
log-quiet e l f r k =
    let q : log e l ≡ (dropped, record l { log_file = some f }) =
      log_file-step e l f r ∙ ap (back l) (ap (λ m. log_message e m f) k ∙ message_none e f) in
    (
      ap (λ x. is_aborted x.0) q,
      subst (λ x. IsReady x.1 f) (sym q)
          (record { log_file = refl; initialized = r.initialized; path = r.path; file = r.file }),
    )

log-writes :
    (e : Entry) (l : Logger) (f : LogFile) (msg : Bytes)
    → IsReady l f
    → e.msg ≡ some msg
    → e.opens ≡ true
    → IsFree e.now f
    → (f' : LogFile) × (is_aborted (log e l).0 ≡ is_fatal e.level)
      × IsReady (log e l).1 f'
      × ((x : Bytes) → IsIn x f.files → IsIn x f'.files)
      × IsIn (text_of e msg) f'.files
log-writes e l f msg r k opens free =
    let g : LogResult × LogFile = log_line e (text_of e msg) f in
    let w : Logged e (text_of e msg) f g =
      log_line-Logged e (text_of e msg) f r.path r.file opens free in
    let q : log e l ≡ (g.0, record l { log_file = some g.1 }) =
      log_file-step e l f r ∙ ap (back l) (ap (λ m. log_message e m f) k ∙ message_some e msg f) in
    (
      g.1,
      ap (λ x. is_aborted x.0) q ∙ (ap is_aborted w.outcome ∙ is_aborted-fatal (is_fatal e.level)),
      subst (λ x. IsReady x.1 g.1) (sym q)
          (record { log_file = refl; initialized = r.initialized; path = w.path; file = w.file }),
      w.kept,
      w.added,
    )

-- Where every file that is opened can be opened and no archive takes the name of a file that is
-- there, each line that `Log` was called with, up to the first FATAL one, stands whole in some file
-- of the log when the calls are done, and so does all that stood in the files before: rotation by
-- size or by day and the archives lose nothing.
pub log_all-Kept :
    (es : List Entry) (l : Logger) (f : LogFile)
    → IsReady l f
    → IsUndisturbed es l
    → Kept es f (log_all es l)
unfolding lines_of log_all
log_all-Kept [] l f r u = record { left = f; log_file = r.log_file; kept = λ x i. i; added = tt }
log_all-Kept (e ∷ es) l f r u = elim (Option-cases e.msg) [
  | inl k ↦
      let (go, ready) = log-quiet e l f r k in
      let rest : Kept es f (log_all es (log e l).1) = log_all-Kept es (log e l).1 f ready u.2 in
      subst (Kept (e ∷ es) f) (sym (log_all-goes_on e es l go)) (record {
        left = rest.left;
        log_file = rest.log_file;
        kept = rest.kept;
        added = subst (All (λ x. IsIn x rest.left.files)) (sym (lines_of-none e es k)) rest.added;
      })
  | inr (msg, k) ↦
      let (f', o, ready, kept, added) = log-writes e l f msg r k u.0 (u.1 f r.log_file) in
      elim (Bool-cases (is_fatal e.level)) [
        | inl b ↦ subst (Kept (e ∷ es) f) (sym (log_all-stops e es l (o ∙ b))) (record {
          left = f';
          log_file = ready.log_file;
          kept = kept;
          added =
              subst (All (λ x. IsIn x f'.files))
                (sym (
                  lines_of-some e es msg k
                  ∙ ap (λ c. text_of e msg ∷ (if c then [] else lines_of es)) b))
                (added, tt);
        })
        | inr b ↦
            let rest : Kept es f' (log_all es (log e l).1) =
              log_all-Kept es (log e l).1 f' ready u.2 in
            subst (Kept (e ∷ es) f) (sym (log_all-goes_on e es l (o ∙ b))) (record {
              left = rest.left;
              log_file = rest.log_file;
              kept = λ x i. rest.kept x (kept x i);
              added =
                  subst (All (λ x. IsIn x rest.left.files))
                    (sym (
                      lines_of-some e es msg k
                      ∙ ap (λ c. text_of e msg ∷ (if c then [] else lines_of es)) b))
                    (rest.kept (text_of e msg) added, rest.added);
            })
      ]
]
