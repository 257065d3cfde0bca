-- ===== src/Byteswap.antt =====
-- byteswap.c: the bytes of a number in the other order.
pub mod Bytes
use yasos_libc.Base.{
  ℕ, zero, suc, ◌+◌, ◌-◌, ◌*◌, ◌/◌, ◌%◌, ◌^◌, ◌≤◌, ◌<◌, ◌≡◌, refl, sym, ap, ◌∙◌, arith, Bool, true,
  false, not, ◌&&◌, ◌||◌, ltb, leb, ◌==◌, if◌then◌else◌, bit_and, bit_or, bit_xor, leb→le, ltb→lt,
  lt→ltb, le→leb, ltb-false, leb-false, tests, ==_iff, Bool-cases, Option-cases, inl, inr, ◌⊎◌, ◌≢◌,
  ◌↔◌, if_both, Option, none, some, List, [], ◌∷◌, ◌++◌, map, length, get_or, length-append, take,
  drop,
}
use yasos_libc.Base.Loop.{while, while_inv}

pub bswap_16 : ℕ → ℕ
bswap_16 x = bit_or (x * 2 ^ 8) (x / 2 ^ 8) % 2 ^ 16

pub bswap_32 : ℕ → ℕ
bswap_32 x =
    bit_or
      (bit_or
        (bit_or (bit_and x 0x000000FF * 2 ^ 24 % 2 ^ 32) (bit_and x 0x0000FF00 * 2 ^ 8 % 2 ^ 32))
        (bit_and x 0x00FF0000 / 2 ^ 8))
      (bit_and x 0xFF000000 / 2 ^ 24)

abbrev left64 : ℕ → ℕ → ℕ
left64 x k = x * 2 ^ k % 2 ^ 64

pub bswap_64 : ℕ → ℕ
bswap_64 x =
    let high =
      bit_or
        (bit_or
          (bit_or (left64 (bit_and x 0x00000000000000FF) 56)
            (left64 (bit_and x 0x000000000000FF00) 40))
          (left64 (bit_and x 0x00000000FF000000) 24))
        (left64 (bit_and x 0x0000FF0000000000) 8) in
    let low =
      bit_or
        (bit_or (bit_or high (bit_and x 0x00FF000000000000 / 2 ^ 8))
          (bit_and x 0xFF00000000000000 / 2 ^ 24))
        (bit_and x 0x0000FF00000000FF / 2 ^ 40) in
    bit_or low (bit_and x 0xFFFFFFFFFFFFFFFF / 2 ^ 56)
