-- ===== src/MemoryPool/Links.antt =====
-- Words and links in the memory of pool/pool.c: what a write changes, and what is read after it.
use cc_learning.Base.{
  ℕ, zero, suc, ◌+◌, ◌*◌, ◌/◌, ◌%◌, ◌≤◌, ◌<◌, ◌≡◌, ◌⊎◌, inl, inr, refl, ap, ap₂, ◌∙◌, arith, Option,
  size_mod,
}
use cc_learning.MemoryPool.{
  Memory, node_size, pointer, from_pointer, read_word, write_byte, write_word, read_link,
  write_link,
}

-- How many numbers so many bytes can spell out.
abbrev limit : ℕ → ℕ
limit zero = 1
limit (suc k) = 256 * limit k

pub write_byte_other : (a x b : ℕ) (mem : Memory) → (b < a) ⊎ (a < b) → write_byte a x mem b ≡ mem b
unfolding write_byte
write_byte_other a x b mem (inl l) = ground arith
write_byte_other a x b mem (inr l) = ground arith

write_byte_self : (a x : ℕ) (mem : Memory) → write_byte a x mem a ≡ x
unfolding write_byte
write_byte_self a x mem = ground arith

write_word_other :
    (k a v b : ℕ) (mem : Memory) → (b < a) ⊎ (a + k ≤ b) → write_word k a v mem b ≡ mem b
unfolding write_word
write_word_other zero a v b mem o = refl
write_word_other (suc k) a v b mem (inl l) =
    write_byte_other a (v % 256) b (write_word k (suc a) (v / 256) mem) (inl l)
    ∙ write_word_other k (suc a) (v / 256) b mem (inl (omega (arith, l)))
write_word_other (suc k) a v b mem (inr l) =
    write_byte_other a (v % 256) b (write_word k (suc a) (v / 256) mem) (inr (omega (arith, l)))
    ∙ write_word_other k (suc a) (v / 256) b mem (inr (omega (arith, l)))

read_word_same :
    (k a : ℕ) (m n : Memory)
    → ((b : ℕ) → a ≤ b → b < a + k → m b ≡ n b)
    → read_word k a m ≡ read_word k a n
unfolding read_word
read_word_same zero a m n h = refl
read_word_same (suc k) a m n h =
    ap₂ (λ x y. x + 256 * y) (h a (omega arith) (omega arith))
      (read_word_same k (suc a) m n (λ b l r. h b (omega (arith, l)) (omega (arith, r))))

read_word-write_word :
    (k a v : ℕ) (mem : Memory) → v < limit k → read_word k a (write_word k a v mem) ≡ v
unfolding read_word write_word
read_word-write_word zero a v mem l = omega (arith, l)
read_word-write_word (suc k) a v mem l =
    let rest : Memory = write_word k (suc a) (v / 256) mem in
    let first : write_byte a (v % 256) rest a ≡ v % 256 = write_byte_self a (v % 256) rest in
    let others : read_word k (suc a) (write_byte a (v % 256) rest) ≡ v / 256 =
      read_word_same k (suc a) (write_byte a (v % 256) rest) rest
        (λ b h _. write_byte_other a (v % 256) b rest (inr (omega (arith, h))))
      ∙ read_word-write_word k (suc a) (v / 256) mem (omega (arith, l)) in
    ap₂ (λ x y. x + 256 * y) first others ∙ omega arith

-- A link that is written is read again.
pub read_link-write_link :
    (a : ℕ) (v : Option ℕ) (mem : Memory)
    → pointer v < size_mod
    → from_pointer (pointer v) ≡ v
    → read_link a (write_link a v mem) ≡ v
unfolding read_link write_link
read_link-write_link a v mem l e =
    ap from_pointer (read_word-write_word node_size a (pointer v) mem l) ∙ e

-- The bytes outside of these are the same.
abbrev pub IsSameOutside : ℕ → ℕ → Memory → Memory → Type 0
IsSameOutside a size m n = (b : ℕ) → (b < a) ⊎ (a + size ≤ b) → m b ≡ n b

pub write_link-IsSameOutside :
    (a size : ℕ) (v : Option ℕ) (mem : Memory)
    → node_size ≤ size
    → IsSameOutside a size (write_link a v mem) mem
unfolding write_link
write_link-IsSameOutside a size v mem l b (inl h) =
    write_word_other node_size a (pointer v) b mem (inl h)
write_link-IsSameOutside a size v mem l b (inr h) =
    write_word_other node_size a (pointer v) b mem (inr (omega (arith, l, h)))

-- A link in another block is read as before.
pub read_link_same :
    (a b size : ℕ) (m n : Memory)
    → node_size ≤ size
    → IsSameOutside a size m n
    → (a + size ≤ b) ⊎ (b + size ≤ a)
    → read_link b m ≡ read_link b n
unfolding read_link
read_link_same a b size m n l h (inl o) =
    ap from_pointer (read_word_same node_size b m n (λ c p q. h c (inr (omega (arith, o, p)))))
read_link_same a b size m n l h (inr o) =
    ap from_pointer (read_word_same node_size b m n (λ c p q. h c (inl (omega (arith, o, l, q)))))
