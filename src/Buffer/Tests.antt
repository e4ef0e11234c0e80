-- ===== src/Buffer/Tests.antt =====
-- Runs of the buffer on small inputs.
use cc_learning.Base.{◌≡◌, arith, Bytes, List, [], ◌∷◌, ◌++◌, replicate}
use cc_learning.Buffer.{
  Buffer, contents, append, readv_capacity, writable_bytes, ensure_writable_bytes, put, make_space,
  prependable_bytes, readable_bytes,
}
use cc_learning.Buffer.Invariant.{IsValid}
use cc_learning.Buffer.Trace.{Call, appends, reads, retrieves, writes, step, run, run_lem, inputs}

-- A buffer of four writable bytes.
abbrev small : Buffer
small = record { buf = replicate 12 0; read_index = 8; write_index = 8 }

small-IsValid : IsValid small
small-IsValid = omega arith

abbrev six : Bytes
six = 1 ∷ 2 ∷ 3 ∷ 4 ∷ 5 ∷ 6 ∷ []

abbrev calls : List Call
calls = appends six ∷ reads (7 ∷ 8 ∷ []) ∷ retrieves 5 ∷ writes 2 ∷ []

run_lem_example :
    ((run small calls).0 ++ contents (run small calls).1 ≡ contents small ++ inputs calls)
    × IsValid (run small calls).1
unfolding step readv_capacity writable_bytes ensure_writable_bytes make_space readable_bytes
    prependable_bytes put append
run_lem_example = run_lem calls small-IsValid (tt, (omega arith, (tt, (tt, tt)))) (omega arith)
