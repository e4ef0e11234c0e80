-- ===== src/Buffer.antt =====
-- The byte buffer of a TCP connection: reactor_net/include/Buffer.h and reactor_net/src/Buffer.cpp.
-- The vector, with everything it holds, is the list `buf`; a pointer into it is an index.
pub mod Invariant
pub mod Size
pub mod Stream
pub mod Receive
pub mod Trace
mod Tests
use cc_learning.Base.{
  ℕ, ◌+◌, Bytes, [], ◌∷◌, Option, length, ltb, leb, min, add_size, sub_size, write_at, slice,
  resize, replicate, take, drop, find_sub, if◌then◌else◌,
}

abbrev pub cheap_prepend : ℕ
cheap_prepend = 8

abbrev pub initial_size : ℕ
initial_size = 1024

-- The bytes of the stack buffer of `readFd`.
abbrev pub extra_size : ℕ
extra_size = 65536

pub record Buffer : Type 0 where
  pub buf : Bytes
  pub read_index : ℕ
  pub write_index : ℕ

unfoldable pub init : ℕ → Buffer
init initial = record {
  buf = replicate (cheap_prepend + initial) 0;
  read_index = cheap_prepend;
  write_index = cheap_prepend;
}

unfoldable pub readable_bytes : Buffer → ℕ
readable_bytes b = sub_size b.write_index b.read_index

unfoldable pub writable_bytes : Buffer → ℕ
writable_bytes b = sub_size (length b.buf) b.write_index

unfoldable pub prependable_bytes : Buffer → ℕ
prependable_bytes b = b.read_index

-- The bytes from `peek()` to `peek() + readableBytes()`.
unfoldable pub contents : Buffer → Bytes
unfolding readable_bytes
contents b = slice b.read_index (readable_bytes b) b.buf

unfoldable pub retrieve_all : Buffer → Buffer
retrieve_all b = record b { read_index = cheap_prepend; write_index = cheap_prepend }

unfoldable pub retrieve : Buffer → ℕ → Buffer
unfolding readable_bytes retrieve_all
retrieve b len =
    if ltb len (readable_bytes b)
    then record b { read_index = add_size b.read_index len }
    else retrieve_all b

unfoldable pub retrieve_as_string : Buffer → ℕ → Bytes × Buffer
unfolding readable_bytes retrieve
retrieve_as_string b len =
    let actual = min len (readable_bytes b) in (slice b.read_index actual b.buf, retrieve b actual)

unfoldable pub retrieve_all_as_string : Buffer → Bytes × Buffer
unfolding readable_bytes retrieve_as_string
retrieve_all_as_string b = retrieve_as_string b (readable_bytes b)

-- `buffer_.resize` writes zeros into the new bytes; `std::copy` moves the readable bytes down.
unfoldable pub make_space : Buffer → ℕ → Buffer
unfolding readable_bytes writable_bytes prependable_bytes
make_space b len =
    if ltb (add_size (writable_bytes b) (prependable_bytes b)) (add_size len cheap_prepend)
    then record b { buf = resize (add_size b.write_index len) 0 b.buf }
    else record {
      buf = write_at cheap_prepend (slice b.read_index (readable_bytes b) b.buf) b.buf;
      read_index = cheap_prepend;
      write_index = add_size cheap_prepend (readable_bytes b);
    }

unfoldable pub ensure_writable_bytes : Buffer → ℕ → Buffer
unfolding writable_bytes make_space
ensure_writable_bytes b len = if ltb (writable_bytes b) len then make_space b len else b

-- `std::copy(data, data + len, begin() + writeIndex_); writeIndex_ += len`
unfoldable pub put : Buffer → Bytes → Buffer
put b data' = record b {
  buf = write_at b.write_index data' b.buf;
  write_index = add_size b.write_index (length data');
}

unfoldable pub append : Buffer → Bytes → Buffer
unfolding ensure_writable_bytes put
append b data' = put (ensure_writable_bytes b (length data')) data'

-- What a system call on the descriptor does: it fails with an `errno`, or moves bytes.
pub data Received : Type 0 where
  failed : ℕ → Received
  received : Bytes → Received

pub data Written : Type 0 where
  failed : ℕ → Written
  wrote : ℕ → Written

-- The bytes that `readv` may fill: the second vector is passed if the first is short.
unfoldable pub readv_capacity : Buffer → ℕ
unfolding writable_bytes
readv_capacity b =
    if ltb (writable_bytes b) extra_size then writable_bytes b + extra_size else writable_bytes b

-- What of the received bytes lies in `extrabuf`.
unfoldable pub extra_bytes : Buffer → Bytes → Bytes
unfolding writable_bytes
extra_bytes b data' =
    if ltb (writable_bytes b) extra_size
    then take extra_size (drop (writable_bytes b) data')
    else []

-- `readv` has put what it received into the writable bytes first, then into `extrabuf`.
-- The answer is the returned count, or the saved `errno`.
unfoldable pub read_fd : Buffer → Received → Received × Buffer
unfolding writable_bytes append extra_bytes
read_fd b (Received.failed errno) = (Received.failed errno, b)
read_fd b (received data') =
    let writable = writable_bytes b in
    let filled = write_at b.write_index (take writable data') b.buf in
    (
      received data',
      if leb (length data') writable
          then record b { buf = filled; write_index = add_size b.write_index (length data') }
          else append (record b { buf = filled; write_index = length filled })
              (extra_bytes b data'),
    )

-- `write` is given the readable bytes and takes a number of them.
unfoldable pub write_fd : Buffer → Written → Written × Buffer
unfolding retrieve
write_fd b (Written.failed errno) = (Written.failed errno, b)
write_fd b (wrote n) = (wrote n, retrieve b n)

-- The position of `\r\n` in the readable bytes.
unfoldable pub find_crlf : Buffer → Option ℕ
unfolding contents find_sub
find_crlf b = find_sub (13 ∷ 10 ∷ []) (contents b)
