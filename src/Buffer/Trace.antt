-- ===== src/Buffer/Trace.antt =====
-- Any sequence of calls on a buffer, against the plain queue of bytes.
use cc_learning.Base.{
  ℕ, ◌+◌, ◌≤◌, ◌<◌, ◌≡◌, sym, ◌∙◌, ap, arith, Bytes, List, [], ◌∷◌, ◌++◌, length, take, size_mod,
  min, append-nil, append_assoc, take-append-drop, length-append,
}
use cc_learning.Buffer.{
  Buffer, readable_bytes, contents, retrieve_as_string, append, read_fd, readv_capacity, write_fd,
  received, wrote,
}
use cc_learning.Buffer.Size.{length-append_le, buf-retrieve}
use cc_learning.Buffer.Stream.{contents-append, contents-retrieve, retrieve_as_string_lem}
use cc_learning.Buffer.Receive.{contents-read_fd, length-read_fd_le}
use cc_learning.Buffer.Invariant.{IsValid, append-IsValid, retrieve-IsValid}

-- The calls by which a connection uses its buffers: `append`, `readFd`, `retrieveAsString`, `writeFd`.
pub data Call : Type 0 where
  appends : Bytes → Call
  reads : Bytes → Call
  retrieves : ℕ → Call
  writes : ℕ → Call

-- The bytes that a call hands out, and the buffer after it. `write` takes a prefix of the readable bytes.
unfoldable pub step : Buffer → Call → Bytes × Buffer
unfolding append read_fd retrieve_as_string write_fd contents
step b (appends d) = ([], append b d)
step b (reads d) = ([], (read_fd b (received d)).1)
step b (retrieves n) = retrieve_as_string b n
step b (writes n) = (take n (contents b), (write_fd b (wrote n)).1)

unfoldable pub run : Buffer → List Call → Bytes × Buffer
unfolding step
run b [] = ([], b)
run b (c ∷ cs) = let (out, b') = step b c in let (rest, b'') = run b' cs in (out ++ rest, b'')

abbrev pub input : Call → Bytes
input (appends d) = d
input (reads d) = d
input (retrieves n) = []
input (writes n) = []

abbrev pub inputs : List Call → Bytes
inputs [] = []
inputs (c ∷ cs) = input c ++ inputs cs

-- The kernel fills no more than the vectors hold.
abbrev pub IsFed : Buffer → Call → Type 0
IsFed b (reads d) = length d ≤ readv_capacity b
IsFed b c = Unit {0}

abbrev pub AllFed : Buffer → List Call → Type 0
AllFed b [] = Unit {0}
AllFed b (c ∷ cs) = IsFed b c × AllFed (step b c).1 cs

pub buf-retrieve_as_string : (b : Buffer) (n : ℕ) → (retrieve_as_string b n).1.buf ≡ b.buf
unfolding retrieve_as_string
buf-retrieve_as_string b n = buf-retrieve b (min n (readable_bytes b))

-- What one call hands out and leaves is what was there with its input behind it.
pub step_lem :
    {b : Buffer} (c : Call)
    → IsValid b
    → IsFed b c
    → length b.buf + length (input c) + 8 < size_mod
    → ((step b c).0 ++ contents (step b c).1 ≡ contents b ++ input c)
      × IsValid (step b c).1
      × (length (step b c).1.buf ≤ length b.buf + length (input c))
unfolding step
step_lem (appends d) v f h = (contents-append d v h, append-IsValid d v h, length-append_le d v h)
step_lem (reads d) v f h = let r = contents-read_fd d v h f in (r.0, r.1, length-read_fd_le d v h f)
step_lem {b} (retrieves n) v f h =
    let r = retrieve_as_string_lem n v in
    (
      rw (r.0, r.1, append-nil) (take-append-drop n (contents b)),
      r.2,
      omega (arith, ap length (buf-retrieve_as_string b n)),
    )
step_lem {b} (writes n) v f h = (
  rw (contents-retrieve n v, append-nil) (take-append-drop n (contents b)),
  retrieve-IsValid n v,
  omega (arith, ap length (buf-retrieve b n)),
)

-- Whatever calls are made, the bytes handed out, with those still in the buffer behind them, are
-- those that were there at first with all the input behind them: none is lost, doubled or reordered,
-- as long as the kernel keeps to the vectors and the sizes stay below `size_t`.
pub run_lem :
    (cs : List Call) {b : Buffer}
    → IsValid b
    → AllFed b cs
    → length b.buf + length (inputs cs) + 8 < size_mod
    → ((run b cs).0 ++ contents (run b cs).1 ≡ contents b ++ inputs cs) × IsValid (run b cs).1
unfolding run
run_lem [] {b} v f h = (sym (append-nil (contents b)), v)
run_lem (c ∷ cs) {b} v f h =
    let s = step_lem c v f.0 (omega (arith, length-append (input c) (inputs cs))) in
    let r = run_lem cs s.1 f.1 (omega (arith, s.2, length-append (input c) (inputs cs))) in
    (
      append_assoc (step b c).0 (run (step b c).1 cs).0 (contents (run (step b c).1 cs).1)
          ∙ ap (λ x. (step b c).0 ++ x) r.0
          ∙ sym (append_assoc (step b c).0 (contents (step b c).1) (inputs cs))
          ∙ ap (λ x. x ++ inputs cs) s.0
          ∙ append_assoc (contents b) (input c) (inputs cs),
      r.1,
    )
