-- ===== src/MemOps/Copy.antt =====
-- `memcpy` in ascending order: bytes, words and blocks of words give the same cells, also when the
-- regions overlap with the destination below the source.
use yasos_libc.Base.{
  ℕ, suc, ◌+◌, ◌-◌, ◌%◌, ◌^◌, ◌≤◌, ◌<◌, ◌≡◌, refl, arith, true, false, not, ◌&&◌, leb, ◌==◌,
  if◌then◌else◌, leb→le, ◌⊎◌, if_both,
}
use yasos_libc.Base.Loop.{while, while_inv}
use yasos_libc.Base.Bits.{bit_and_three}
use yasos_libc.Memory.{store8, Ram, IsBytes, inside}
use yasos_libc.Memory.Laws.{store8-inside, store32-load32}
use yasos_libc.MemOps.{
  Copying, copy_word, byte_up, word_up, block_up, head_up, bytes_up, some_up, copy_few, words_up,
  memcpy, store8, is_misaligned, is_coaligned,
}

-- The loop variables after the bytes below `c.d` have been copied.
pub record IsCopied (d0 s0 n0 : ℕ) (m0 : Ram) (c : Copying) : Type 0 where
  pub started : d0 ≤ c.d
  pub paired : c.d + s0 ≡ c.s + d0
  pub left : c.d + c.n ≡ d0 + n0
  pub cells : (a : ℕ) → c.mem a ≡ (if inside d0 (c.d - d0) a then m0 (s0 + (a - d0)) else m0 a)

-- An ascending copy reads no cell that it has written.
abbrev pub IsAscending : ℕ → ℕ → ℕ → Type 0
IsAscending d0 s0 n0 = (d0 ≤ s0) ⊎ (s0 + n0 ≤ d0)

pub copy_word-inside :
    (m : Ram) (d s a : ℕ)
    → IsBytes m
    → copy_word d s m a ≡ (if inside d 4 a then m (s + (a - d)) else m a)
unfolding copy_word
copy_word-inside m d s a bytes = store32-load32 m d s a bytes

-- A block is four words.
block_up-words : (c : Copying) → block_up c ≡ word_up (word_up (word_up (word_up c)))
unfolding block_up word_up
block_up-words c = ground arith

module _ (d0 s0 n0 : ℕ) (m0 : Ram) (fits : n0 < 2 ^ 32) (bytes : IsBytes m0)
    (up : IsAscending d0 s0 n0) where
  copied-IsBytes : (c : Copying) → IsCopied d0 s0 n0 m0 c → IsBytes c.mem
  copied-IsBytes c f a = ground (arith, f.cells a, bytes a, bytes (s0 + (a - d0)))

  -- The source bytes that are still to be read are those of the start.
  unread :
      (c : Copying) → IsCopied d0 s0 n0 m0 c → (i : ℕ) → i < c.n → c.mem (c.s + i) ≡ m0 (c.s + i)
  unread c f i h = ground (arith, f.cells (c.s + i))

  byte_up-IsCopied :
      (c : Copying) → IsCopied d0 s0 n0 m0 c → 0 < c.n → IsCopied d0 s0 n0 m0 (byte_up c)
  unfolding byte_up
  byte_up-IsCopied c f more = record {
    started = omega arith;
    paired = omega arith;
    left = omega arith;
    cells =
        λ a. ground (arith, store8-inside c.mem c.d (c.mem c.s) a, f.cells a, unread c f 0 more);
  }

  word_up-IsCopied :
      (c : Copying) → IsCopied d0 s0 n0 m0 c → 4 ≤ c.n → IsCopied d0 s0 n0 m0 (word_up c)
  unfolding word_up
  word_up-IsCopied c f more = record {
    started = omega arith;
    paired = omega arith;
    left = omega arith;
    cells = λ a. ground (
      arith,
      copy_word-inside c.mem c.d c.s a (copied-IsBytes c f),
      f.cells a,
      unread c f (a - c.d),
    );
  }

  block_up-IsCopied :
      (c : Copying) → IsCopied d0 s0 n0 m0 c → 16 ≤ c.n → IsCopied d0 s0 n0 m0 (block_up c)
  block_up-IsCopied c f more = rw (block_up-words c) (
      word_up-IsCopied _
        (word_up-IsCopied _
          (word_up-IsCopied _ (word_up-IsCopied c f (omega arith)) (unfold word_up in omega arith))
          (unfold word_up in omega arith))
        (unfold word_up in omega arith))

  words_up-IsCopied : (c : Copying) → IsCopied d0 s0 n0 m0 c → IsCopied d0 s0 n0 m0 (words_up c)
  unfolding words_up
  words_up-IsCopied c f =
      let g =
        (while_inv (IsCopied d0 s0 n0 m0) (λ t. t.n) _ _ blocks (suc c.n) c (omega arith) f).0 in
      (while_inv (IsCopied d0 s0 n0 m0) (λ t. t.n) _ _ words _ _ (omega arith) g).0
    where
      blocks :
          (t : Copying)
          → IsCopied d0 s0 n0 m0 t
          → leb 16 t.n ≡ true
          → IsCopied d0 s0 n0 m0 (block_up t) × ((block_up t).n < t.n)
      blocks t g h =
          let more = leb→le _ _ h in (block_up-IsCopied t g more, unfold block_up in omega arith)

      words :
          (t : Copying)
          → IsCopied d0 s0 n0 m0 t
          → leb 4 t.n ≡ true
          → IsCopied d0 s0 n0 m0 (word_up t) × ((word_up t).n < t.n)
      words t g h =
          let more = leb→le _ _ h in (word_up-IsCopied t g more, unfold word_up in omega arith)

  bytes_up-inside :
      (c : Copying)
      → IsCopied d0 s0 n0 m0 c
      → (a : ℕ) → bytes_up c a ≡ (if inside d0 n0 a then m0 (s0 + (a - d0)) else m0 a)
  unfolding bytes_up
  bytes_up-inside c f a = ground (arith, loop.0.cells a, loop.0.left, loop.0.started, loop.1)
    where
      keep :
          (t : Copying)
          → IsCopied d0 s0 n0 m0 t
          → not (t.n == 0) ≡ true
          → IsCopied d0 s0 n0 m0 (byte_up t) × ((byte_up t).n < t.n)
      keep t g h =
          let more : 0 < t.n = ground arith in
          (byte_up-IsCopied t g more, unfold byte_up in omega arith)

      loop :
          IsCopied d0 s0 n0 m0 (while (suc c.n) (λ t. not (t.n == 0)) byte_up c)
          × (not ((while (suc c.n) (λ t. not (t.n == 0)) byte_up c).n == 0) ≡ false)
      loop = while_inv (IsCopied d0 s0 n0 m0) (λ t. t.n) _ _ keep (suc c.n) c (omega arith) f

  head_up-IsCopied :
      (c : Copying) → IsCopied d0 s0 n0 m0 c → 8 ≤ c.n → IsCopied d0 s0 n0 m0 (head_up c)
  unfolding head_up
  head_up-IsCopied c f h =
      (while_inv (λ t. IsCopied d0 s0 n0 m0 t × ((4 - t.d % 4) % 4 < t.n)) (λ t. (4 - t.d % 4) % 4)
        _ _ keep 4 c (omega arith) (f, omega arith)).0.0
    where
      keep :
          (t : Copying)
          → IsCopied d0 s0 n0 m0 t × ((4 - t.d % 4) % 4 < t.n)
          → is_misaligned t.d ≡ true
          → (IsCopied d0 s0 n0 m0 (byte_up t) × ((4 - (byte_up t).d % 4) % 4 < (byte_up t).n))
            × ((4 - (byte_up t).d % 4) % 4 < (4 - t.d % 4) % 4)
      keep t (g, few) h =
          let off : 0 < t.d % 4 = ground (arith, bit_and_three t.d) in
          (
            (byte_up-IsCopied t g (omega arith), unfold byte_up in omega arith),
            unfold byte_up in omega arith,
          )

  some_up-IsCopied : (c : Copying) → IsCopied d0 s0 n0 m0 c → IsCopied d0 s0 n0 m0 (some_up c)
  unfolding some_up
  some_up-IsCopied c f =
      (while_inv (IsCopied d0 s0 n0 m0) (λ t. t.n) _ _ keep (suc c.n) c (omega arith) f).0
    where
      keep :
          (t : Copying)
          → IsCopied d0 s0 n0 m0 t
          → (is_misaligned t.d && not (t.n == 0)) ≡ true
          → IsCopied d0 s0 n0 m0 (byte_up t) × ((byte_up t).n < t.n)
      keep t g h =
          let more : 0 < t.n = ground arith in
          (byte_up-IsCopied t g more, unfold byte_up in omega arith)

  copy_few-inside :
      0 < n0
      → n0 < 4
      → (a : ℕ) → copy_few d0 s0 n0 m0 a ≡ (if inside d0 n0 a then m0 (s0 + (a - d0)) else m0 a)
  unfolding copy_few store8
  copy_few-inside pos few a = ground arith

  -- When the regions do not overlap, or overlap with `dst` below `src`, `memcpy` gives each of the
  -- `n` cells from `dst` on the byte that its source cell had before, and changes no other cell.
  pub memcpy-inside :
      (a : ℕ) → memcpy m0 d0 s0 n0 a ≡ (if inside d0 n0 a then m0 (s0 + (a - d0)) else m0 a)
  unfolding memcpy
  memcpy-inside a =
      if_both Good (leb 8 n0 && is_coaligned d0 s0)
        (λ long. bytes_up-inside _ (words_up-IsCopied _ (head_up-IsCopied c f (ground arith))) a)
        λ _.
          if_both Good (leb 4 n0)
            (λ middle. bytes_up-inside _ (words_up-IsCopied _ (some_up-IsCopied c f)) a)
            λ short.
              if_both Good (not (n0 == 0)) (λ few. copy_few-inside (ground arith) (ground arith) a)
                λ none_left. bytes_up-inside c f a
    where
      Good : Ram → Type 0
      Good m = m a ≡ (if inside d0 n0 a then m0 (s0 + (a - d0)) else m0 a)

      c : Copying
      c = record { d = d0; s = s0; n = n0; mem = m0 }

      f : IsCopied d0 s0 n0 m0 c
      f = record {
        started = omega arith;
        paired = omega arith;
        left = refl;
        cells = λ b. ground arith;
      }
