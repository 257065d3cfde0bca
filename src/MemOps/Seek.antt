-- ===== src/MemOps/Seek.antt =====
-- The routines of string.c that look for a byte: `memchr`, by words of four bytes, and `memccpy`.
use yasos_libc.Base.{
  ℕ, zero, suc, ◌+◌, ◌-◌, ◌*◌, ◌%◌, ◌^◌, Bool, not, ◌&&◌, leb, ◌==◌, if◌then◌else◌, bit_and,
  bit_xor, Option, none, some,
}
use yasos_libc.Base.Loop.{while}
use yasos_libc.Memory.{Ram, load32, store8}
use yasos_libc.MemOps.{is_misaligned}

abbrev pub long01 : ℕ
long01 = 0x01010101

abbrev pub long80 : ℕ
long80 = 0x80808080

-- `HASZERO(x)`
unfoldable pub has_zero : ℕ → Bool
has_zero x = not (bit_and (bit_and ((x + 2 ^ 32 - long01) % 2 ^ 32) (2 ^ 32 - 1 - x)) long80 == 0)

-- The variables `s` and `n` of `memchr`.
pub record Seeking : Type 0 where
  pub s : ℕ
  pub n : ℕ

unfoldable pub skip : ℕ → Seeking → Seeking
skip k t = record { s = t.s + k; n = t.n - k }

-- `while (n && *s != c) s++, n--`
unfoldable pub seek_bytes : Ram → ℕ → Seeking → Seeking
seek_bytes m c t = while (suc t.n) (λ u. not (u.n == 0) && not (m u.s == c)) (skip 1) t

-- The same loop up to the first aligned address.
unfoldable pub seek_head : Ram → ℕ → Seeking → Seeking
seek_head m c t = while 4 (λ u. is_misaligned u.s && not (u.n == 0) && not (m u.s == c)) (skip 1) t

-- The loop over words; `k` has the byte four times.
unfoldable pub seek_words : Ram → ℕ → Seeking → Seeking
seek_words m k t =
    while (suc t.n) (λ u. leb 4 u.n && not (has_zero (bit_xor (load32 m u.s) k))) (skip 4) t

unfoldable pub memchr : Ram → ℕ → ℕ → ℕ → Option ℕ
memchr m src value n =
    let c = value % 256 in
    let head = seek_head m c (record { s = src; n = n }) in
    let words = seek_words m (long01 * c) head in
    let last = seek_bytes m c (if not (head.n == 0) && not (m head.s == c) then words else head) in
    if last.n == 0 then none else some last.s

-- `for (i = 0; i < n; ++i)` with `left` rounds to go.
pub memccpy_loop : Ram → ℕ → ℕ → ℕ → ℕ → ℕ → Option ℕ × Ram
memccpy_loop m d s uc zero i = (none, m)
memccpy_loop m d s uc (suc left) i =
    let m' = store8 m (d + i) (m (s + i)) in
    let rest = memccpy_loop m' d s uc left (i + 1) in
    if m' (s + i) == uc then (some (d + i + 1), m') else rest

pub memccpy : Ram → ℕ → ℕ → ℕ → ℕ → Option ℕ × Ram
memccpy m dst src c n = memccpy_loop m dst src (c % 256) n 0
