-- ===== src/Bitops.antt =====
-- bitops.c: the counting loops over the bits of a value, and the functions built on them. A value is a
-- number below 2 ^ 64; a signed argument is converted to its bit pattern.
pub mod Counts
use yasos_libc.Base.{
  ℕ, zero, suc, ◌+◌, ◌-◌, ◌*◌, ◌/◌, ◌%◌, ◌^◌, ◌≤◌, ◌<◌, ◌≡◌, refl, sym, ap, ◌∙◌, arith, Bool, true,
  false, not, ◌&&◌, ◌||◌, ltb, leb, ◌==◌, if◌then◌else◌, bit_and, bit_or, bit_xor, leb→le, ltb→lt,
  lt→ltb, le→leb, ltb-false, leb-false, tests, ==_iff, Bool-cases, Option-cases, inl, inr, ◌⊎◌, ◌≢◌,
  ◌↔◌, if_both, Option, none, some, List, [], ◌∷◌, ◌++◌, map, length, get_or, length-append,
}
use yasos_libc.Base.Loop.{while, while_inv}

-- `while (value != 0) { if (value & 1) return position; value >>= 1; position++; } return 0;`
pub first_set_loop : ℕ → ℕ → ℕ → ℕ
first_set_loop zero position value = 0
first_set_loop (suc fuel) position value =
    let rest = first_set_loop fuel (position + 1) (value / 2) in
    if value == 0 then 0 else if not (bit_and value 1 == 0) then position else rest

pub first_set_bit : ℕ → ℕ
first_set_bit value = first_set_loop 65 1 value

pub leading_loop : ℕ → ℕ → ℕ → ℕ → ℕ
leading_loop zero value count mask = count
leading_loop (suc fuel) value count mask =
    let rest = leading_loop fuel value (count + 1) (mask / 2) in
    if bit_and value mask == 0 then rest else count

pub leading_zero_bits : ℕ → ℕ → ℕ
leading_zero_bits value bit_count =
    if value == 0 then bit_count else leading_loop 64 value 0 (2 ^ (bit_count - 1))

pub trailing_loop : ℕ → ℕ → ℕ → ℕ
trailing_loop zero value count = count
trailing_loop (suc fuel) value count =
    let rest = trailing_loop fuel (value / 2) (count + 1) in
    if bit_and value 1 == 0 then rest else count

pub trailing_zero_bits : ℕ → ℕ → ℕ
trailing_zero_bits value bit_count = if value == 0 then bit_count else trailing_loop 64 value 0

pub popcount_loop : ℕ → ℕ → ℕ → ℕ
popcount_loop zero value count = count
popcount_loop (suc fuel) value count =
    let rest = popcount_loop fuel (value / 2) (count + bit_and value 1) in
    if value == 0 then count else rest

pub popcount_bits : ℕ → ℕ
popcount_bits value = popcount_loop 65 value 0

-- A 32-bit argument (`int`, `long`, `unsigned`) is a bit pattern.
pub ffs : ℕ → ℕ
ffs value = first_set_bit (value % 2 ^ 32)

pub ffsl : ℕ → ℕ
ffsl value = first_set_bit (value % 2 ^ 32)

pub ffsll : ℕ → ℕ
ffsll value = first_set_bit (value % 2 ^ 64)

pub clzsi2 : ℕ → ℕ
clzsi2 value = leading_zero_bits value 32

pub ctzsi2 : ℕ → ℕ
ctzsi2 value = trailing_zero_bits value 32

pub paritysi2 : ℕ → ℕ
paritysi2 value = bit_and (popcount_bits value) 1

pub popcountsi2 : ℕ → ℕ
popcountsi2 value = popcount_bits value

pub clzdi2 : ℕ → ℕ
clzdi2 value = leading_zero_bits value 64

pub ctzdi2 : ℕ → ℕ
ctzdi2 value = trailing_zero_bits value 64

pub popcountdi2 : ℕ → ℕ
popcountdi2 value = popcount_bits value

pub paritydi2 : ℕ → ℕ
paritydi2 value = bit_and (popcount_bits value) 1
