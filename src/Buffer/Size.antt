-- ===== src/Buffer/Size.antt =====
-- The size of the vector under `append`.
use cc_learning.Base.{
  ℕ, ◌+◌, ◌≤◌, ◌<◌, ◌≡◌, arith, Bytes, length, size_mod, length-write_at, write_at, slice, add_size,
}
use cc_learning.Buffer.{
  Buffer, readable_bytes, writable_bytes, prependable_bytes, retrieve, make_space,
  ensure_writable_bytes, put, append,
}
use cc_learning.Buffer.Invariant.{IsValid, readable_bytes_eq, writable_bytes_eq, length-resize}

length-make_space :
    {b : Buffer} (len : ℕ)
    → IsValid b
    → length b.buf + len + 8 < size_mod
    → writable_bytes b < len
    → length (make_space b len).buf ≤ length b.buf + len
unfolding make_space
length-make_space {b} len v h k = ground (
  arith,
  length-write_at 8 (slice b.read_index (readable_bytes b) b.buf) b.buf,
  length-resize (add_size b.write_index len) b.buf,
  writable_bytes_eq v,
)

pub length-append_le :
    {b : Buffer} (d : Bytes)
    → IsValid b
    → length b.buf + length d + 8 < size_mod
    → length (append b d).buf ≤ length b.buf + length d
unfolding append ensure_writable_bytes put
length-append_le {b} d v h = ground (
  arith,
  length-make_space (length d) v h,
  length-write_at b.write_index d b.buf,
  length-write_at (make_space b (length d)).write_index d (make_space b (length d)).buf,
)

-- While the readable bytes, the new ones and the reserved eight fit, the vector keeps its size:
-- `makeSpace` moves the readable bytes down instead.
pub length-append_fits :
    {b : Buffer} (d : Bytes)
    → IsValid b
    → readable_bytes b + length d + 8 ≤ length b.buf
    → length (append b d).buf ≡ length b.buf
unfolding append ensure_writable_bytes put make_space prependable_bytes
length-append_fits {b} d v h = ground (
  arith,
  readable_bytes_eq v,
  writable_bytes_eq v,
  length-write_at b.write_index d b.buf,
  length-write_at (add_size 8 (readable_bytes b)) d
      (write_at 8 (slice b.read_index (readable_bytes b) b.buf) b.buf),
  length-write_at 8 (slice b.read_index (readable_bytes b) b.buf) b.buf,
)

pub buf-retrieve : (b : Buffer) (n : ℕ) → (retrieve b n).buf ≡ b.buf
unfolding retrieve
buf-retrieve b n = ground arith
