-- ===== src/Buffer/Receive.antt =====
-- `Buffer::readFd`: one `readv` into the writable bytes and a stack buffer.
use cc_learning.Base.{
  ℕ, ◌+◌, ◌≤◌, ◌<◌, ◌≡◌, ◌∙◌, ap, arith, Bytes, ◌++◌, length, take, drop, size_mod, length-write_at,
  write_at, append_assoc, take-append-drop, dec_lt, drop_all, take_all, length-take, length-drop,
}
use cc_learning.Buffer.{
  Buffer, writable_bytes, contents, put, append, read_fd, readv_capacity, extra_bytes, extra_size,
  received,
}
use cc_learning.Buffer.Size.{length-append_le}
use cc_learning.Buffer.Stream.{contents-put, contents-append}
use cc_learning.Buffer.Invariant.{IsValid, HasRoom, writable_bytes_eq, put-IsValid, append-IsValid}

HasRoom-writable : {b : Buffer} (len : ℕ) → IsValid b → len ≤ writable_bytes b → HasRoom b len
HasRoom-writable len v h = omega (arith, writable_bytes_eq v)

extra_bytes_eq :
    (b : Buffer) (d : Bytes)
    → length d ≤ readv_capacity b
    → extra_bytes b d ≡ drop (writable_bytes b) d
unfolding extra_bytes readv_capacity
extra_bytes_eq b d h = ground (
  arith,
  take_all extra_size (drop (writable_bytes b) d),
  drop_all (writable_bytes b) d,
  length-drop (writable_bytes b) d,
)

-- The state in which `readFd` calls `append`.
overflowed : Buffer → Bytes → Buffer
overflowed b d = record b {
  buf = write_at b.write_index (take (writable_bytes b) d) b.buf;
  write_index = length (write_at b.write_index (take (writable_bytes b) d) b.buf);
}

overflowed_eq :
    {b : Buffer} (d : Bytes)
    → IsValid b
    → writable_bytes b < length d
    → overflowed b d ≡ put b (take (writable_bytes b) d)
unfolding overflowed put
overflowed_eq {b} d v h = ground (
  arith,
  length-write_at b.write_index (take (writable_bytes b) d) b.buf,
  length-take (writable_bytes b) d,
  writable_bytes_eq v,
)

read_fd-fits :
    (b : Buffer) (d : Bytes) → length d ≤ writable_bytes b → (read_fd b (received d)).1 ≡ put b d
unfolding read_fd put
read_fd-fits b d h = ground (arith, take_all (writable_bytes b) d)

read_fd-overflows :
    (b : Buffer) (d : Bytes)
    → writable_bytes b < length d
    → (read_fd b (received d)).1 ≡ append (overflowed b d) (extra_bytes b d)
unfolding read_fd overflowed
read_fd-overflows b d h = ground arith

length-put : (b : Buffer) (d : Bytes) → length (put b d).buf ≡ length b.buf
unfolding put
length-put b d = length-write_at b.write_index d b.buf

-- Putting the first part and appending the rest.
append-put :
    {b : Buffer} (n : ℕ) (d : Bytes)
    → IsValid b
    → HasRoom b (length (take n d))
    → length b.buf + length d + 8 < size_mod
    → (contents (append (put b (take n d)) (drop n d)) ≡ contents b ++ d)
      × IsValid (append (put b (take n d)) (drop n d))
append-put {b} n d v r h =
    let w = put-IsValid (take n d) r in
    let small : length (put b (take n d)).buf + length (drop n d) + 8 < size_mod =
      omega (arith, length-put b (take n d), length-drop n d) in
    (
      contents-append (drop n d) w small
          ∙ ap (λ c. c ++ drop n d) (contents-put (take n d) r)
          ∙ append_assoc (contents b) (take n d) (drop n d)
          ∙ ap (λ c. contents b ++ c) (take-append-drop n d),
      append-IsValid (drop n d) w small,
    )

-- Both vectors of `readv`: the bytes that arrived stand behind what was there, if the kernel kept
-- to the capacity that it was given.
pub contents-read_fd :
    {b : Buffer} (d : Bytes)
    → IsValid b
    → length b.buf + length d + 8 < size_mod
    → length d ≤ readv_capacity b
    → (contents (read_fd b (received d)).1 ≡ contents b ++ d) × IsValid (read_fd b (received d)).1
contents-read_fd {b} d v h k = elim (dec_lt (writable_bytes b) (length d)) [
  | yes over ↦
      let r : HasRoom b (length (take (writable_bytes b) d)) =
        HasRoom-writable (length (take (writable_bytes b) d)) v
          (omega (arith, length-take (writable_bytes b) d)) in
      rw (read_fd-overflows b d over, overflowed_eq d v over, extra_bytes_eq b d k)
        (append-put (writable_bytes b) d v r h)
  | no fits ↦
      let r : HasRoom b (length d) = HasRoom-writable (length d) v (omega arith) in
      rw (read_fd-fits b d (omega arith)) (contents-put d r, put-IsValid d r)
]

pub length-read_fd_le :
    {b : Buffer} (d : Bytes)
    → IsValid b
    → length b.buf + length d + 8 < size_mod
    → length d ≤ readv_capacity b
    → length (read_fd b (received d)).1.buf ≤ length b.buf + length d
length-read_fd_le {b} d v h k = elim (dec_lt (writable_bytes b) (length d)) [
  | yes over ↦
      let r : HasRoom b (length (take (writable_bytes b) d)) =
        HasRoom-writable (length (take (writable_bytes b) d)) v
          (omega (arith, length-take (writable_bytes b) d)) in
      let p = put b (take (writable_bytes b) d) in
      rw (read_fd-overflows b d over, overflowed_eq d v over, extra_bytes_eq b d k)
        (omega (
          arith,
          length-append_le (drop (writable_bytes b) d) (put-IsValid (take (writable_bytes b) d) r) (
              omega (
                arith,
                length-put b (take (writable_bytes b) d),
                length-drop (writable_bytes b) d,
              )),
          length-put b (take (writable_bytes b) d),
          length-drop (writable_bytes b) d,
        ))
  | no fits ↦ rw (read_fd-fits b d (omega arith)) (omega (arith, length-put b d))
]
