-- ===== src/Byteswap/Bytes.antt =====
-- The order of the bytes.
use yasos_libc.Base.{
  ℕ, zero, suc, ◌+◌, ◌*◌, ◌/◌, ◌%◌, ◌^◌, ◌<◌, ◌≡◌, sym, ap, ◌∙◌, arith, bit_and, bit_or,
}
use yasos_libc.Base.Bits.{bit_and_step, bit_or_step, bit_and_mask, bit_or-zero}
use native.Mathlib.Nat.{pow-suc, mul_assoc, div-div-eq-div-mul}
use yasos_libc.Byteswap.{bswap_16, bswap_32}

double_and : (x m : ℕ) → bit_and x (2 * m) ≡ 2 * bit_and (x / 2) m
double_and x m =
    let half : 2 * m / 2 ≡ m = omega arith in bit_and_step x (2 * m) ∙ rw (half) (omega arith)

double_pow : (k a : ℕ) → 2 ^ suc k * a ≡ 2 * (2 ^ k * a)
double_pow k a =
    let twice : 2 ^ suc k ≡ 2 * 2 ^ k = omega (arith, pow-suc 2 k) in
    ap (λ e. e * a) twice ∙ mul_assoc 2 (2 ^ k) a

shifted_mask : (k x m : ℕ) → bit_and x (2 ^ k * m) ≡ 2 ^ k * bit_and (x / 2 ^ k) m
shifted_mask zero x m =
    let one : (1 * m ≡ m) × (x / 1 ≡ x) = (omega arith, omega arith) in
    rw (one.0, one.1) (omega arith)
shifted_mask (suc k) x m =
    let twice : 2 * 2 ^ k ≡ 2 ^ suc k = omega (arith, pow-suc 2 k) in
    let shift : x / 2 / 2 ^ k ≡ x / 2 ^ suc k =
      div-div-eq-div-mul x 2 (2 ^ k) ∙ ap (λ e. x / e) twice in
    ap (bit_and x) (double_pow k m)
    ∙ double_and x (2 ^ k * m)
    ∙ ap (λ e. 2 * e) (shifted_mask k (x / 2) m ∙ ap (λ e. 2 ^ k * bit_and e m) shift)
    ∙ sym (double_pow k _)

double_or : (a b : ℕ) → bit_or (2 * a) b ≡ 2 * bit_or a (b / 2) + b % 2
double_or a b =
    let half : 2 * a / 2 ≡ a = omega arith in
    let even : 2 * a % 2 ≡ 0 = omega arith in bit_or_step (2 * a) b ∙ rw (half, even) (omega arith)

disjoint : (k a b : ℕ) → b < 2 ^ k → bit_or (2 ^ k * a) b ≡ 2 ^ k * a + b
disjoint zero a b lt =
    let none_left : b ≡ 0 = omega arith in rw (none_left) (omega (arith, bit_or-zero (2 ^ 0 * a)))
disjoint (suc k) a b lt =
    let below : b / 2 < 2 ^ k = omega (arith, pow-suc 2 k) in
    rw (double_pow k a) (omega (arith, double_or (2 ^ k * a) b, disjoint k a (b / 2) below))

-- `bswap_16` exchanges the two bytes of a number.
pub bswap_16-bytes :
    (high low : ℕ) → high < 256 → low < 256 → bswap_16 (high * 256 + low) ≡ low * 256 + high
unfolding bswap_16
bswap_16-bytes high low lh ll =
    let x = high * 256 + low in
    let d = disjoint 8 x (x / 2 ^ 8) (omega arith) in
    let order : x * 2 ^ 8 ≡ 2 ^ 8 * x = omega arith in rw (order, d) (omega arith)

-- `bswap_32` reverses the four bytes of a number.
pub bswap_32-bytes :
    (b3 b2 b1 b0 : ℕ)
    → b3 < 256
    → b2 < 256
    → b1 < 256
    → b0 < 256
    → bswap_32 (b3 * 2 ^ 24 + b2 * 2 ^ 16 + b1 * 2 ^ 8 + b0)
      ≡ b0 * 2 ^ 24 + b1 * 2 ^ 16 + b2 * 2 ^ 8 + b3
unfolding bswap_32
bswap_32-bytes b3 b2 b1 b0 l3 l2 l1 l0 =
    let x = b3 * 2 ^ 24 + b2 * 2 ^ 16 + b1 * 2 ^ 8 + b0 in
    let m0 : bit_and x 0xFF * 2 ^ 24 % 2 ^ 32 ≡ 2 ^ 24 * b0 = omega (arith, bit_and_mask 8 x) in
    let m1 : bit_and x 0xFF00 * 2 ^ 8 % 2 ^ 32 ≡ 2 ^ 16 * b1 =
      omega (arith, shifted_mask 8 x 0xFF, bit_and_mask 8 (x / 2 ^ 8)) in
    let m2 : bit_and x 0xFF0000 / 2 ^ 8 ≡ 2 ^ 8 * b2 =
      omega (arith, shifted_mask 16 x 0xFF, bit_and_mask 8 (x / 2 ^ 16)) in
    let m3 : bit_and x 0xFF000000 / 2 ^ 24 ≡ b3 =
      omega (arith, shifted_mask 24 x 0xFF, bit_and_mask 8 (x / 2 ^ 24)) in
    let two : bit_or (2 ^ 24 * b0) (2 ^ 16 * b1) ≡ 2 ^ 16 * (2 ^ 8 * b0 + b1) =
      omega (arith, disjoint 24 b0 (2 ^ 16 * b1) (omega arith)) in
    let three : bit_or (2 ^ 16 * (2 ^ 8 * b0 + b1)) (2 ^ 8 * b2)
        ≡ 2 ^ 8 * (2 ^ 16 * b0 + 2 ^ 8 * b1 + b2) =
      omega (arith, disjoint 16 (2 ^ 8 * b0 + b1) (2 ^ 8 * b2) (omega arith)) in
    rw (m0, m1, m2, m3, two, three)
      (omega (arith, disjoint 8 (2 ^ 16 * b0 + 2 ^ 8 * b1 + b2) b3 (omega arith)))
