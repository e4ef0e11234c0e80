-- ===== src/Buffer/Invariant.antt =====
-- The layout `[prependable][readable][writable]` of the vector of reactor_net/src/Buffer.cpp, and the
-- sizes that depend on it.
use cc_learning.Base.{
  ℕ, ◌+◌, ◌-◌, ◌≤◌, ◌<◌, ◌≡◌, arith, Bytes, length, replicate, take, size_mod, length-write_at,
  length-append, length-replicate, length-take, slice, resize, add_size,
}
use cc_learning.Buffer.{
  Buffer, init, readable_bytes, writable_bytes, retrieve, retrieve_all, make_space,
  ensure_writable_bytes, put, append,
}

pub record IsValid (b : Buffer) : Type 0 where
  pub prepend : 8 ≤ b.read_index
  pub ordered : b.read_index ≤ b.write_index
  pub inside : b.write_index ≤ length b.buf
  pub small : length b.buf < size_mod

pub readable_bytes_eq : {b : Buffer} → IsValid b → readable_bytes b ≡ b.write_index - b.read_index
unfolding readable_bytes
readable_bytes_eq v = omega arith

pub writable_bytes_eq : {b : Buffer} → IsValid b → writable_bytes b ≡ length b.buf - b.write_index
unfolding writable_bytes
writable_bytes_eq v = omega arith

pub init-IsValid : (n : ℕ) → n + 8 < size_mod → IsValid (init n)
unfolding init
init-IsValid n h = ground (arith, length-replicate {A = ℕ} (8 + n) 0)

pub retrieve_all-IsValid : {b : Buffer} → IsValid b → IsValid (retrieve_all b)
unfolding retrieve_all
retrieve_all-IsValid v = omega arith

pub retrieve-IsValid : {b : Buffer} (n : ℕ) → IsValid b → IsValid (retrieve b n)
unfolding retrieve
retrieve-IsValid n v = ground arith

pub length-resize : (n : ℕ) (xs : Bytes) → length xs ≤ n → length (resize n 0 xs) ≡ n
length-resize n xs h = omega (
  arith,
  length-append (take n xs) (replicate (n - length xs) 0),
  length-take n xs,
  length-replicate {A = ℕ} (n - length xs) 0,
)

-- What `make_space` and `ensure_writable_bytes` owe: room for `len` bytes.
pub record HasRoom (b : Buffer) (len : ℕ) : Type 0 where
  pub valid : IsValid b
  pub room : b.write_index + len ≤ length b.buf

pub make_space-HasRoom :
    {b : Buffer} (len : ℕ)
    → IsValid b
    → length b.buf + len + 8 < size_mod
    → HasRoom (make_space b len) len
unfolding make_space
make_space-HasRoom {b} len v h = ground (
  arith,
  length-write_at 8 (slice b.read_index (readable_bytes b) b.buf) b.buf,
  readable_bytes_eq v,
  writable_bytes_eq v,
  length-resize (add_size b.write_index len) b.buf,
)

pub ensure-HasRoom :
    {b : Buffer} (len : ℕ)
    → IsValid b
    → length b.buf + len + 8 < size_mod
    → HasRoom (ensure_writable_bytes b len) len
unfolding ensure_writable_bytes
ensure-HasRoom {b} len v h = ground (arith, make_space-HasRoom len v h, writable_bytes_eq v)

pub put-IsValid : {b : Buffer} (d : Bytes) → HasRoom b (length d) → IsValid (put b d)
unfolding put
put-IsValid {b} d r = ground (arith, length-write_at b.write_index d b.buf, r.valid)

pub append-IsValid :
    {b : Buffer} (d : Bytes)
    → IsValid b
    → length b.buf + length d + 8 < size_mod
    → IsValid (append b d)
unfolding append
append-IsValid d v h = put-IsValid d (ensure-HasRoom (length d) v h)
