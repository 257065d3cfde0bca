-- ===== src/MemOps.antt =====
-- The memory routines of string.c: `memset`, `memcpy`, `memmove` and `mempcpy`.
-- A `size_t` and a pointer are numbers below 2 ^ 32. Each loop is a `while` on fuel that starts
-- above the count it runs down.
pub mod Fill
pub mod Copy
pub mod Move
pub mod Seek
pub mod Words
pub mod Sought
mod Examples
use yasos_libc.Base.{
  ℕ, zero, suc, ◌+◌, ◌-◌, ◌*◌, ◌/◌, ◌%◌, ◌^◌, bit_and, bit_xor, Bool, true, false, not, ◌&&◌, ◌||◌,
  Option, none, some, ltb, leb, ◌==◌, if◌then◌else◌,
}
use yasos_libc.Base.Loop.{while}
use yasos_libc.Memory.{Ram, store8, load32, store32}

-- `--num` on a `size_t`.
abbrev pub decrement : ℕ → ℕ
decrement num = (num + 2 ^ 32 - 1) % 2 ^ 32

abbrev pub is_misaligned : ℕ → Bool
is_misaligned p = not (bit_and p 3 == 0)

-- The variables of `memset`: `p`, `num` and the memory.
pub record Filling : Type 0 where
  pub p : ℕ
  pub num : ℕ
  pub mem : Ram

pub put_byte : ℕ → Filling → Filling
put_byte b s = record { p = s.p + 1; num = decrement s.num; mem = store8 s.mem s.p b }

-- `pw[0] = w; … pw[k - 1] = w;`
pub store_words : ℕ → ℕ → ℕ → Ram → Ram
store_words zero pw w m = m
store_words (suc k) pw w m = store_words k (pw + 4) w (store32 m pw w)

pub put_words : ℕ → ℕ → Filling → Filling
put_words k w s = record { p = s.p + 4 * k; num = s.num - 4 * k; mem = store_words k s.p w s.mem }

-- The loops over whole words: 32, 16, 4 and 1 of them at a time.
pub fill_words : ℕ → Filling → Filling
fill_words w s =
    let s1 = while (suc s.num) (λ t. leb 128 t.num) (put_words 32 w) s in
    let s2 = while (suc s1.num) (λ t. leb 64 t.num) (put_words 16 w) s1 in
    let s3 = while (suc s2.num) (λ t. leb 16 t.num) (put_words 4 w) s2 in
    while (suc s3.num) (λ t. leb 4 t.num) (put_words 1 w) s3

-- The trailing loop `for (; num; --num) *p++ = b`.
pub fill_bytes : ℕ → Filling → Filling
fill_bytes b s = while (suc s.num) (λ t. not (t.num == 0)) (put_byte b) s

-- The loop up to the first aligned address, which is at most three bytes away.
pub fill_head : ℕ → Filling → Filling
fill_head b s = while 4 (λ t. is_misaligned t.p) (put_byte b) s

pub memset : Ram → ℕ → ℕ → ℕ → Ram
memset m ptr value num =
    let b = value % 256 in
    let s : Filling = record { p = ptr; num = num; mem = m } in
    let wordwise = fill_words (0x01010101 * b % 2 ^ 32) (fill_head b s) in
    (fill_bytes b (if leb 8 num then wordwise else s)).mem

-- The variables of the copying routines: `d`, `s`, `n` and the memory.
pub record Copying : Type 0 where
  pub d : ℕ
  pub s : ℕ
  pub n : ℕ
  pub mem : Ram

-- `*d = *s` on words.
pub copy_word : ℕ → ℕ → Ram → Ram
copy_word d s m = store32 m d (load32 m s)

-- `*d++ = *s++; --n;`
pub byte_up : Copying → Copying
byte_up c = record {
  d = c.d + 1;
  s = c.s + 1;
  n = decrement c.n;
  mem = store8 c.mem c.d (c.mem c.s);
}

-- `*dw++ = *sw++`, with `n -= 4`.
pub word_up : Copying → Copying
word_up c = record { d = c.d + 4; s = c.s + 4; n = c.n - 4; mem = copy_word c.d c.s c.mem }

-- `dw[0] = sw[0]; … dw[3] = sw[3];`, with `n -= 16, dw += 4, sw += 4`.
pub block_up : Copying → Copying
block_up c = record {
  d = c.d + 16;
  s = c.s + 16;
  n = c.n - 16;
  mem =
      copy_word (c.d + 12) (c.s + 12)
        (copy_word (c.d + 8) (c.s + 8) (copy_word (c.d + 4) (c.s + 4) (copy_word c.d c.s c.mem)));
}

pub words_up : Copying → Copying
words_up c =
    let c' = while (suc c.n) (λ t. leb 16 t.n) block_up c in
    while (suc c'.n) (λ t. leb 4 t.n) word_up c'

-- The three byte copies for one to three bytes.
pub copy_few : ℕ → ℕ → ℕ → Ram → Ram
copy_few d s n m =
    let m1 = store8 m d (m s) in
    let m2 = if ltb 1 n then store8 m1 (d + (n - 2)) (m1 (s + (n - 2))) else m1 in
    store8 m2 (d + (n - 1)) (m2 (s + (n - 1)))

-- `0 == (((uintptr_t)d ^ (uintptr_t)s) & 3)`
abbrev pub is_coaligned : ℕ → ℕ → Bool
is_coaligned d s = bit_and (bit_xor d s) 3 == 0

-- The trailing loop `for (; n; --n) *d++ = *s++`.
pub bytes_up : Copying → Ram
bytes_up c = (while (suc c.n) (λ t. not (t.n == 0)) byte_up c).mem

-- The loop to an aligned `d`, where `n` is known to be at least 8.
pub head_up : Copying → Copying
head_up c = while 4 (λ t. is_misaligned t.d) byte_up c

-- The loop to an aligned `d` that also stops when nothing is left.
pub some_up : Copying → Copying
some_up c = while (suc c.n) (λ t. is_misaligned t.d && not (t.n == 0)) byte_up c

pub memcpy : Ram → ℕ → ℕ → ℕ → Ram
memcpy m dst src n =
    let c : Copying = record { d = dst; s = src; n = n; mem = m } in
    if leb 8 n && is_coaligned dst src
    then bytes_up (words_up (head_up c))
    else if leb 4 n
    then bytes_up (words_up (some_up c))
    else if not (n == 0)
    then copy_few dst src n m
    else bytes_up c

-- The memory, and the pointer past the last byte that was written.
pub mempcpy : Ram → ℕ → ℕ → ℕ → Ram × ℕ
mempcpy m dst src n = (memcpy m dst src n, dst + n)

-- `*--d = *--s; --n;`
pub byte_down : Copying → Copying
byte_down c = record {
  d = c.d - 1;
  s = c.s - 1;
  n = decrement c.n;
  mem = store8 c.mem (c.d - 1) (c.mem (c.s - 1));
}

pub word_down : Copying → Copying
word_down c = record {
  d = c.d - 4;
  s = c.s - 4;
  n = c.n - 4;
  mem = copy_word (c.d - 4) (c.s - 4) c.mem;
}

-- `dw -= 4; sw -= 4; dw[3] = sw[3]; … dw[0] = sw[0];`
pub block_down : Copying → Copying
block_down c =
    let dw = c.d - 16 in
    let sw = c.s - 16 in
    record {
      d = dw;
      s = sw;
      n = c.n - 16;
      mem = copy_word dw sw (
          copy_word (dw + 4) (sw + 4)
            (copy_word (dw + 8) (sw + 8) (copy_word (dw + 12) (sw + 12) c.mem)));
    }

pub words_down : Copying → Copying
words_down c =
    let c' = while (suc c.n) (λ t. leb 16 t.n) block_down c in
    while (suc c'.n) (λ t. leb 4 t.n) word_down c'

pub head_down : Copying → Copying
head_down c = while 4 (λ t. is_misaligned t.d) byte_down c

-- `while (n--) *--d = *--s`
pub bytes_down : Copying → Ram
bytes_down c = (while (suc c.n) (λ t. not (t.n == 0)) byte_down c).mem

pub memmove : Ram → ℕ → ℕ → ℕ → Ram
memmove m dst src n =
    let c : Copying = record { d = dst + n; s = src + n; n = n; mem = m } in
    let wordwise = words_down (head_down c) in
    if dst == src || n == 0
    then m
    else if ltb dst src
    then memcpy m dst src n
    else bytes_down (if leb 8 n && is_coaligned (dst + n) (src + n) then wordwise else c)
