-- ===== src/MemOps/Move.antt =====
-- `memmove`: the descending copy, and the choice of a direction.
use yasos_libc.Base.{
  ℕ, suc, ◌+◌, ◌-◌, ◌%◌, ◌^◌, ◌≤◌, ◌<◌, ◌≡◌, refl, arith, true, false, not, ◌&&◌, ◌||◌, ltb, leb,
  ◌==◌, if◌then◌else◌, leb→le, tests, inl, if_both,
}
use yasos_libc.Base.Loop.{while, while_inv}
use yasos_libc.Base.Bits.{bit_and_three}
use yasos_libc.Memory.{Ram, IsBytes, inside}
use yasos_libc.Memory.Laws.{store8-inside}
use yasos_libc.MemOps.{
  Copying, is_misaligned, is_coaligned, byte_down, word_down, block_down, words_down, head_down,
  bytes_down, memmove,
}
use yasos_libc.MemOps.Copy.{copy_word-inside, memcpy-inside}

-- The loop variables after the bytes from `c.d` up to the end have been copied.
pub record IsCopiedDown (d0 s0 n0 : ℕ) (m0 : Ram) (c : Copying) : Type 0 where
  pub paired : c.d + s0 ≡ c.s + d0
  pub left : c.d ≡ d0 + c.n
  pub within : c.n ≤ n0
  pub cells :
      (a : ℕ) → c.mem a ≡ (if inside c.d (d0 + n0 - c.d) a then m0 (s0 + (a - d0)) else m0 a)

-- A block is four words.
block_down-words :
    (c : Copying)
    → 16 ≤ c.d
    → 16 ≤ c.s
    → block_down c ≡ word_down (word_down (word_down (word_down c)))
unfolding block_down word_down
block_down-words c h k = ground arith

module _ (d0 s0 n0 : ℕ) (m0 : Ram) (fits : n0 < 2 ^ 32) (bytes : IsBytes m0) (up : s0 ≤ d0) where
  copied-IsBytes : (c : Copying) → IsCopiedDown d0 s0 n0 m0 c → IsBytes c.mem
  copied-IsBytes c f a = ground (arith, f.cells a, bytes a, bytes (s0 + (a - d0)))

  -- The source bytes that are still to be read are those of the start.
  unread : (c : Copying) → IsCopiedDown d0 s0 n0 m0 c → (b : ℕ) → b < c.s → c.mem b ≡ m0 b
  unread c f b h = ground (arith, f.cells b)

  byte_down-IsCopiedDown :
      (c : Copying) → IsCopiedDown d0 s0 n0 m0 c → 0 < c.n → IsCopiedDown d0 s0 n0 m0 (byte_down c)
  unfolding byte_down
  byte_down-IsCopiedDown c f more = record {
    paired = omega arith;
    left = omega arith;
    within = omega arith;
    cells = λ a.
        ground (
          arith,
          store8-inside c.mem (c.d - 1) (c.mem (c.s - 1)) a,
          f.cells a,
          unread c f (c.s - 1),
        );
  }

  word_down-IsCopiedDown :
      (c : Copying) → IsCopiedDown d0 s0 n0 m0 c → 4 ≤ c.n → IsCopiedDown d0 s0 n0 m0 (word_down c)
  unfolding word_down
  word_down-IsCopiedDown c f more = record {
    paired = omega arith;
    left = omega arith;
    within = omega arith;
    cells = λ a. ground (
      arith,
      copy_word-inside c.mem (c.d - 4) (c.s - 4) a (copied-IsBytes c f),
      f.cells a,
      unread c f (c.s - 4 + (a - (c.d - 4))),
    );
  }

  block_down-IsCopiedDown :
      (c : Copying)
      → IsCopiedDown d0 s0 n0 m0 c
      → 16 ≤ c.n
      → IsCopiedDown d0 s0 n0 m0 (block_down c)
  block_down-IsCopiedDown c f more = rw (block_down-words c (omega arith) (omega arith)) (
      word_down-IsCopiedDown _
        (word_down-IsCopiedDown _
          (word_down-IsCopiedDown _ (word_down-IsCopiedDown c f (omega arith))
            (unfold word_down in omega arith))
          (unfold word_down in omega arith))
        (unfold word_down in omega arith))

  words_down-IsCopiedDown :
      (c : Copying) → IsCopiedDown d0 s0 n0 m0 c → IsCopiedDown d0 s0 n0 m0 (words_down c)
  unfolding words_down
  words_down-IsCopiedDown c f =
      let g =
        (while_inv (IsCopiedDown d0 s0 n0 m0) (λ t. t.n) _ _ blocks (suc c.n) c (omega arith)
          f).0 in
      (while_inv (IsCopiedDown d0 s0 n0 m0) (λ t. t.n) _ _ words _ _ (omega arith) g).0
    where
      blocks :
          (t : Copying)
          → IsCopiedDown d0 s0 n0 m0 t
          → leb 16 t.n ≡ true
          → IsCopiedDown d0 s0 n0 m0 (block_down t) × ((block_down t).n < t.n)
      blocks t g h =
          let more = leb→le _ _ h in
          (block_down-IsCopiedDown t g more, unfold block_down in omega arith)

      words :
          (t : Copying)
          → IsCopiedDown d0 s0 n0 m0 t
          → leb 4 t.n ≡ true
          → IsCopiedDown d0 s0 n0 m0 (word_down t) × ((word_down t).n < t.n)
      words t g h =
          let more = leb→le _ _ h in
          (word_down-IsCopiedDown t g more, unfold word_down in omega arith)

  bytes_down-inside :
      (c : Copying)
      → IsCopiedDown d0 s0 n0 m0 c
      → (a : ℕ) → bytes_down c a ≡ (if inside d0 n0 a then m0 (s0 + (a - d0)) else m0 a)
  unfolding bytes_down
  bytes_down-inside c f a = ground (arith, loop.0.cells a, loop.0.left, loop.1)
    where
      keep :
          (t : Copying)
          → IsCopiedDown d0 s0 n0 m0 t
          → not (t.n == 0) ≡ true
          → IsCopiedDown d0 s0 n0 m0 (byte_down t) × ((byte_down t).n < t.n)
      keep t g h =
          let more : 0 < t.n = ground arith in
          (byte_down-IsCopiedDown t g more, unfold byte_down in omega arith)

      loop :
          IsCopiedDown d0 s0 n0 m0 (while (suc c.n) (λ t. not (t.n == 0)) byte_down c)
          × (not ((while (suc c.n) (λ t. not (t.n == 0)) byte_down c).n == 0) ≡ false)
      loop = while_inv (IsCopiedDown d0 s0 n0 m0) (λ t. t.n) _ _ keep (suc c.n) c (omega arith) f

  head_down-IsCopiedDown :
      (c : Copying) → IsCopiedDown d0 s0 n0 m0 c → 8 ≤ c.n → IsCopiedDown d0 s0 n0 m0 (head_down c)
  unfolding head_down
  head_down-IsCopiedDown c f h =
      (while_inv (λ t. IsCopiedDown d0 s0 n0 m0 t × (t.d % 4 < t.n)) (λ t. t.d % 4) _ _ keep 4 c
        (omega arith) (f, omega arith)).0.0
    where
      keep :
          (t : Copying)
          → IsCopiedDown d0 s0 n0 m0 t × (t.d % 4 < t.n)
          → is_misaligned t.d ≡ true
          → (IsCopiedDown d0 s0 n0 m0 (byte_down t) × ((byte_down t).d % 4 < (byte_down t).n))
            × ((byte_down t).d % 4 < t.d % 4)
      keep t (g, few) h =
          let off : 0 < t.d % 4 = ground (arith, bit_and_three t.d) in
          (
            (byte_down-IsCopiedDown t g (omega arith), unfold byte_down in omega arith),
            unfold byte_down in omega arith,
          )

-- However the two regions overlap, `memmove` gives each of the `n` cells from `dst` on the byte that
-- its source cell had before, and changes no other cell.
pub memmove-inside :
    (m : Ram) (dst src n : ℕ)
    → n < 2 ^ 32
    → IsBytes m
    → (a : ℕ) → memmove m dst src n a ≡ (if inside dst n a then m (src + (a - dst)) else m a)
unfolding memmove
memmove-inside m dst src n fits bytes a =
    if_both Good (dst == src || n == 0) (λ nothing. ground arith)
      λ some_bytes.
        if_both Good (ltb dst src)
          (λ below. memcpy-inside dst src n m fits bytes (inl (omega tests)) a)
          λ above.
            let le : src ≤ dst = omega tests in
            bytes_down-inside dst src n m fits bytes le _
              (if_both (IsCopiedDown dst src n m) (leb 8 n && is_coaligned (dst + n) (src + n))
                (λ long.
                  words_down-IsCopiedDown dst src n m fits bytes le _
                    (head_down-IsCopiedDown dst src n m fits bytes le c f (ground arith)))
                (λ _. f))
              a
  where
    Good : Ram → Type 0
    Good r = r a ≡ (if inside dst n a then m (src + (a - dst)) else m a)

    c : Copying
    c = record { d = dst + n; s = src + n; n = n; mem = m }

    f : IsCopiedDown dst src n m c
    f = record {
      paired = omega arith;
      left = refl;
      within = omega arith;
      cells = λ b. ground arith;
    }
