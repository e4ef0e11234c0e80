-- ===== src/Buffer/Stream.antt =====
-- The buffer as a queue of bytes: `append`, `retrieve` and `makeSpace` in terms of the readable bytes.
use cc_learning.Base.{
  ℕ, ◌+◌, ◌-◌, ◌≤◌, ◌<◌, ◌≡◌, refl, sym, ◌∙◌, ap, arith, Bytes, [], ◌++◌, length, replicate, take,
  drop, size_mod, min, slice, slice-write_at, slice-append, length-slice, drop-slice, take-slice,
  resize, resize-grow, add_size, dec_lt, drop_all, take-min, drop-min,
}
use cc_learning.Buffer.{
  Buffer, readable_bytes, contents, retrieve, retrieve_all, retrieve_as_string, make_space,
  ensure_writable_bytes, put, append,
}
use cc_learning.Buffer.Invariant.{
  IsValid, HasRoom, readable_bytes_eq, writable_bytes_eq, make_space-HasRoom, ensure-HasRoom,
  put-IsValid, retrieve-IsValid,
}

pub contents_eq :
    {b : Buffer} → IsValid b → contents b ≡ slice b.read_index (b.write_index - b.read_index) b.buf
unfolding contents
contents_eq {b} v = ap (λ n. slice b.read_index n b.buf) (readable_bytes_eq v)

pub length-contents : {b : Buffer} → IsValid b → length (contents b) ≡ readable_bytes b
unfolding contents
length-contents {b} v =
    length-slice b.read_index (readable_bytes b) b.buf (omega (arith, readable_bytes_eq v))

retrieve-lt :
    {b : Buffer} (n : ℕ)
    → IsValid b
    → n < readable_bytes b
    → retrieve b n ≡ record b { read_index = b.read_index + n }
unfolding retrieve
retrieve-lt n v h = ground (arith, readable_bytes_eq v)

retrieve-ge : (b : Buffer) (n : ℕ) → readable_bytes b ≤ n → retrieve b n ≡ retrieve_all b
unfolding retrieve
retrieve-ge b n h = ground arith

contents-retrieve_all : (b : Buffer) → contents (retrieve_all b) ≡ []
unfolding contents retrieve_all
contents-retrieve_all b = refl

-- `retrieve` drops that many bytes from the front, or all of them.
pub contents-retrieve :
    {b : Buffer} (n : ℕ) → IsValid b → contents (retrieve b n) ≡ drop n (contents b)
contents-retrieve {b} n v = elim (dec_lt n (readable_bytes b)) [
  | yes h ↦
      contents_eq (retrieve-IsValid n v)
      ∙ rw (retrieve-lt n v h, contents_eq v)
          (sym (
            drop-slice n b.read_index (b.read_index + n) (b.write_index - b.read_index)
              (b.write_index - (b.read_index + n)) b.buf refl (omega (arith, readable_bytes_eq v))))
  | no h ↦
      ap contents (retrieve-ge b n (omega arith))
      ∙ contents-retrieve_all b
      ∙ sym (drop_all n (contents b) (omega (arith, length-contents v)))
]

slice-resize :
    (i n m : ℕ) (xs : Bytes)
    → i + n ≤ length xs
    → length xs ≤ m
    → slice i n (resize m 0 xs) ≡ slice i n xs
slice-resize i n m xs h k =
    ap (slice i n) (resize-grow m 0 xs k) ∙ slice-append i n xs (replicate (m - length xs) 0) h

-- `make_space` moves or grows, and keeps the readable bytes.
contents-make_space :
    {b : Buffer} (len : ℕ)
    → IsValid b
    → length b.buf + len + 8 < size_mod
    → contents (make_space b len) ≡ contents b
unfolding make_space
contents-make_space {b} len v h =
    let w = make_space-HasRoom len v h in
    ground (
      arith,
      contents_eq v,
      contents_eq w.valid,
      readable_bytes_eq v,
      writable_bytes_eq v,
      slice-resize b.read_index (b.write_index - b.read_index) (add_size b.write_index len) b.buf,
      slice-write_at 8 8 0 (readable_bytes b) (slice b.read_index (readable_bytes b) b.buf) b.buf,
      length-slice b.read_index (readable_bytes b) b.buf,
    )

contents-ensure :
    {b : Buffer} (len : ℕ)
    → IsValid b
    → length b.buf + len + 8 < size_mod
    → contents (ensure_writable_bytes b len) ≡ contents b
unfolding ensure_writable_bytes
contents-ensure {b} len v h = ground (arith, contents-make_space len v h)

pub contents-put :
    {b : Buffer} (d : Bytes) → HasRoom b (length d) → contents (put b d) ≡ contents b ++ d
unfolding put
contents-put {b} d r =
    contents_eq (put-IsValid d r)
    ∙ rw (contents_eq r.valid) (
        slice-write_at b.read_index b.write_index (b.write_index - b.read_index)
          (add_size b.write_index (length d) - b.read_index) d b.buf (omega arith) (omega arith)
          (omega arith))

-- What is appended stands behind what was there.
pub contents-append :
    {b : Buffer} (d : Bytes)
    → IsValid b
    → length b.buf + length d + 8 < size_mod
    → contents (append b d) ≡ contents b ++ d
unfolding append
contents-append d v h =
    contents-put d (ensure-HasRoom (length d) v h)
    ∙ ap (λ c. c ++ d) (contents-ensure (length d) v h)

-- What `retrieve_as_string` hands out is what it removes.
pub retrieve_as_string_lem :
    {b : Buffer} (n : ℕ)
    → IsValid b
    → let (s, b') = retrieve_as_string b n in
      (s ≡ take n (contents b)) × (contents b' ≡ drop n (contents b)) × IsValid b'
unfolding retrieve_as_string
retrieve_as_string_lem {b} n v =
    let m : ℕ = min n (readable_bytes b) in
    (
      sym (
            take-slice m b.read_index (b.write_index - b.read_index) b.buf
              (omega (arith, readable_bytes_eq v)))
          ∙ ap (take m) (sym (contents_eq v))
          ∙ take-min n (readable_bytes b) (contents b) (sym (length-contents v)),
      contents-retrieve m v ∙ drop-min n (readable_bytes b) (contents b) (sym (length-contents v)),
      retrieve-IsValid m v,
    )
