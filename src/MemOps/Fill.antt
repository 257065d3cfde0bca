-- ===== src/MemOps/Fill.antt =====
-- `memset` word by word writes the same cells as a byte loop would.
use yasos_libc.Base.{
  ℕ, zero, suc, ◌+◌, ◌-◌, ◌*◌, ◌%◌, ◌^◌, ◌≤◌, ◌<◌, ◌≡◌, refl, arith, true, false, not, leb, ◌==◌,
  if◌then◌else◌, leb→le, if_both,
}
use yasos_libc.Base.Bits.{bit_and_three}
use yasos_libc.Base.Loop.{while, while_inv}
use yasos_libc.Memory.{Ram, inside, store32}
use yasos_libc.Memory.Laws.{store8-inside, store32-fill}
use yasos_libc.MemOps.{
  Filling, is_misaligned, put_byte, store_words, put_words, fill_words, fill_head, fill_bytes,
  memset,
}

-- The loop variables after the cells from `p0` up to `s.p` have been set to `b`.
pub record IsFilled (p0 n0 b : ℕ) (m0 : Ram) (s : Filling) : Type 0 where
  pub started : p0 ≤ s.p
  pub left : s.p + s.num ≡ p0 + n0
  pub cells : (a : ℕ) → s.mem a ≡ (if inside p0 (s.p - p0) a then b else m0 a)

store_words-inside :
    (k p b a : ℕ) (m : Ram)
    → b < 256
    → store_words k p (0x01010101 * b % 2 ^ 32) m a ≡ (if inside p (4 * k) a then b else m a)
unfolding store_words
store_words-inside zero p b a m h = ground arith
store_words-inside (suc k) p b a m h = ground (
  arith,
  store_words-inside k (p + 4) b a (store32 m p (0x01010101 * b % 2 ^ 32)) h,
  store32-fill m p b a h,
)

module _ (p0 n0 b : ℕ) (m0 : Ram) (fits : n0 < 2 ^ 32) (byte : b < 256) where
  abbrev w : ℕ
  w = 0x01010101 * b % 2 ^ 32

  put_byte-IsFilled :
      (s : Filling) → IsFilled p0 n0 b m0 s → 0 < s.num → IsFilled p0 n0 b m0 (put_byte b s)
  unfolding put_byte
  put_byte-IsFilled s f more = record {
    started = omega arith;
    left = omega arith;
    cells = λ a. ground (arith, store8-inside s.mem s.p b a, f.cells a);
  }

  put_words-IsFilled :
      (k : ℕ) (s : Filling)
      → IsFilled p0 n0 b m0 s
      → 4 * k ≤ s.num
      → IsFilled p0 n0 b m0 (put_words k w s)
  unfolding put_words
  put_words-IsFilled k s f more = record {
    started = omega arith;
    left = omega arith;
    cells = λ a. ground (arith, store_words-inside k s.p b a s.mem byte, f.cells a);
  }

  words_loop :
      (k : ℕ) (s : Filling)
      → 0 < k
      → IsFilled p0 n0 b m0 s
      → IsFilled p0 n0 b m0 (while (suc s.num) (λ t. leb (4 * k) t.num) (put_words k w) s)
  words_loop k s pos f =
      (while_inv (IsFilled p0 n0 b m0) (λ t. t.num) _ _ keep (suc s.num) s (omega arith) f).0
    where
      keep :
          (t : Filling)
          → IsFilled p0 n0 b m0 t
          → leb (4 * k) t.num ≡ true
          → IsFilled p0 n0 b m0 (put_words k w t) × ((put_words k w t).num < t.num)
      keep t g h =
          (put_words-IsFilled k t g (leb→le _ _ h), unfold put_words in omega (arith, leb→le _ _ h))

  fill_words-IsFilled : (s : Filling) → IsFilled p0 n0 b m0 s → IsFilled p0 n0 b m0 (fill_words w s)
  unfolding fill_words
  fill_words-IsFilled s f = words_loop 1 _ (omega arith) (
      words_loop 4 _ (omega arith)
        (words_loop 16 _ (omega arith) (words_loop 32 s (omega arith) f)))

  -- The bytes up to the first aligned address: at most three.
  align_loop :
      (s : Filling) → IsFilled p0 n0 b m0 s → 8 ≤ s.num → IsFilled p0 n0 b m0 (fill_head b s)
  unfolding fill_head
  align_loop s f h =
      (while_inv (λ t. IsFilled p0 n0 b m0 t × ((4 - t.p % 4) % 4 < t.num)) (λ t. (4 - t.p % 4) % 4)
        _ _ keep 4 s (omega arith) (f, omega arith)).0.0
    where
      keep :
          (t : Filling)
          → IsFilled p0 n0 b m0 t × ((4 - t.p % 4) % 4 < t.num)
          → is_misaligned t.p ≡ true
          → (IsFilled p0 n0 b m0 (put_byte b t)
              × ((4 - (put_byte b t).p % 4) % 4 < (put_byte b t).num))
            × ((4 - (put_byte b t).p % 4) % 4 < (4 - t.p % 4) % 4)
      keep t (g, few) h =
          let off : 0 < t.p % 4 = ground (arith, bit_and_three t.p) in
          (
            (put_byte-IsFilled t g (omega arith), unfold put_byte in omega arith),
            unfold put_byte in omega arith,
          )

  bytes_loop :
      (s : Filling)
      → IsFilled p0 n0 b m0 s
      → (a : ℕ) → (fill_bytes b s).mem a ≡ (if inside p0 n0 a then b else m0 a)
  unfolding fill_bytes
  bytes_loop s f a = ground (arith, loop.0.cells a, loop.0.left, loop.0.started, loop.1)
    where
      keep :
          (t : Filling)
          → IsFilled p0 n0 b m0 t
          → not (t.num == 0) ≡ true
          → IsFilled p0 n0 b m0 (put_byte b t) × ((put_byte b t).num < t.num)
      keep t g h =
          let more : 0 < t.num = ground arith in
          (put_byte-IsFilled t g more, unfold put_byte in omega arith)

      loop :
          IsFilled p0 n0 b m0 (while (suc s.num) (λ t. not (t.num == 0)) (put_byte b) s)
          × (not ((while (suc s.num) (λ t. not (t.num == 0)) (put_byte b) s).num == 0) ≡ false)
      loop = while_inv (IsFilled p0 n0 b m0) (λ t. t.num) _ _ keep (suc s.num) s (omega arith) f

-- `memset` sets each of the `num` bytes from `ptr` on to `(uint8_t)value`, and no other.
pub memset-inside :
    (m : Ram) (ptr value num : ℕ)
    → num < 2 ^ 32
    → (a : ℕ) → memset m ptr value num a ≡ (if inside ptr num a then value % 256 else m a)
unfolding memset
memset-inside m ptr value num fits a =
    let b = value % 256 in
    let s : Filling = record { p = ptr; num = num; mem = m } in
    let f : IsFilled ptr num b m s = record {
      started = omega arith;
      left = refl;
      cells = λ a. ground arith;
    } in
    let byte : b < 256 = omega arith in
    bytes_loop ptr num b m fits byte _
      (if_both (IsFilled ptr num b m) (leb 8 num)
        (λ long.
          fill_words-IsFilled ptr num b m fits byte _
            (align_loop ptr num b m fits byte s f (leb→le _ _ long)))
        (λ _. f))
      a
