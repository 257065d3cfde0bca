-- ===== src/Base/Bits.antt =====
-- `&` and `|` with a single bit or a low mask, as arithmetic.
use Prim.Native.Nat.{
  ℕ, zero, suc, ◌+◌, ◌-◌, ◌*◌, ◌/◌, ◌%◌, ◌^◌, ◌≤◌, ◌<◌, ◌-◌, min, max, bit_and, bit_or, bit_xor,
  digits, bitwise, bit_and-bitwise, bit_or-bitwise, bit_xor-bitwise, differ,
}
use mathlib.Core.Path.{◌≡◌, refl, ap, sym, ◌∙◌}
use native.Mathlib.Nat.{
  mod-lt, mod-eq_of_lt, div-add-mod', one-le-pow, mul-add-mod_self_right, le_refl, pow-suc,
  two-pow-succ, div-div-eq-div-mul,
}
use native.Mathlib.Numerals.{add-one}
use native.Mathlib.Omega.{arith}

-- The native operations go by `digits`, a recursion with fuel: any fuel from the number on will do.
module _ (rest : ℕ → ℕ) (op : ℕ → ℕ → ℕ) where
  digits-enough :
      (x y fuel more : ℕ) → x ≤ fuel → x ≤ more → digits rest op fuel x y ≡ digits rest op more x y
  digits-enough zero y zero zero l r = refl
  digits-enough zero y zero (suc more) l r = refl
  digits-enough zero y (suc fuel) zero l r = refl
  digits-enough zero y (suc fuel) (suc more) l r = refl
  digits-enough (suc x) y zero more l r = absurd (omega arith)
  digits-enough (suc x) y (suc fuel) zero l r = absurd (omega arith)
  digits-enough (suc x) y (suc fuel) (suc more) l r =
      let half = digits-enough (suc x / 2) (y / 2) fuel more (omega arith) (omega arith) in
      rw (half)

  halved :
      (x y : ℕ)
      → bitwise rest op (suc x) y ≡ bitwise rest op (suc x / 2) (y / 2) * 2 + op (suc x % 2) (y % 2)
  halved x y =
      let half = suc x / 2 in
      let same = digits-enough half (y / 2) x half (omega arith) (le_refl half) in
      omega (arith, same)

pub bit_and_step : (x y : ℕ) → bit_and x y ≡ bit_and (x / 2) (y / 2) * 2 + min (x % 2) (y % 2)
bit_and_step zero y = simp bit_and-bitwise (omega arith)
bit_and_step (suc x) y = let split = halved (λ b. 0) min x y in simp bit_and-bitwise split

pub bit_or_step : (x y : ℕ) → bit_or x y ≡ bit_or (x / 2) (y / 2) * 2 + max (x % 2) (y % 2)
bit_or_step zero y = simp bit_or-bitwise (omega arith)
bit_or_step (suc x) y = let split = halved (λ b. b) max x y in simp bit_or-bitwise split

differ_bit : (a b : ℕ) → a < 2 → b < 2 → differ a b ≡ (a + b) % 2
differ_bit zero b la lb = omega arith
differ_bit (suc zero) zero la lb = refl
differ_bit (suc zero) (suc zero) la lb = refl
differ_bit (suc zero) (suc (suc b)) la lb = absurd (omega arith)
differ_bit (suc (suc a)) b la lb = absurd (omega arith)

pub bit_xor_step : (x y : ℕ) → bit_xor x y ≡ bit_xor (x / 2) (y / 2) * 2 + (x + y) % 2
bit_xor_step zero y = simp bit_xor-bitwise (omega arith)
bit_xor_step (suc x) y =
    let split = halved (λ b. b) differ x y in
    let bit = differ_bit (suc x % 2) (y % 2) (omega arith) (omega arith) in
    simp bit_xor-bitwise (omega (arith, split, bit))

and_zero_below : (n a : ℕ) → a ≤ n → bit_and a 0 ≡ 0
and_zero_below n zero h = refl
and_zero_below zero (suc a) h = absurd (omega arith)
and_zero_below (suc n) (suc a) h =
    omega (arith, bit_and_step (suc a) 0, and_zero_below n (suc a / 2) (omega arith))

pub bit_and-zero : (a : ℕ) → bit_and a 0 ≡ 0
bit_and-zero a = and_zero_below a a (le_refl a)

or_zero_below : (n a : ℕ) → a ≤ n → bit_or a 0 ≡ a
or_zero_below n zero h = refl
or_zero_below zero (suc a) h = absurd (omega arith)
or_zero_below (suc n) (suc a) h =
    omega (arith, bit_or_step (suc a) 0, or_zero_below n (suc a / 2) (omega arith))

pub bit_or-zero : (a : ℕ) → bit_or a 0 ≡ a
bit_or-zero a = or_zero_below a a (le_refl a)

pub bit_and-one : (a : ℕ) → bit_and a 1 ≡ a % 2
bit_and-one a = omega (arith, bit_and_step a 1, bit_and-zero (a / 2))

pub bit_and_three : (a : ℕ) → bit_and a 3 ≡ a % 4
bit_and_three a = omega (arith, bit_and_step a 3, bit_and-one (a / 2))

-- A mask of one bit picks that binary digit.
pub bit_and-pow : (k a : ℕ) → bit_and a (2 ^ k) ≡ a / 2 ^ k % 2 * 2 ^ k
bit_and-pow zero a = omega (arith, bit_and-one a)
bit_and-pow (suc k) a = grind (
  arith,
  bit_and_step a (2 ^ suc k),
  bit_and-pow k (a / 2),
  two-pow-succ k,
  pow-suc 2 k,
  div-div-eq-div-mul a 2 (2 ^ k),
)

-- A mask of one bit sets that binary digit.
pub bit_or-pow : (k c : ℕ) → bit_or c (2 ^ k) ≡ c + (1 - c / 2 ^ k % 2) * 2 ^ k
bit_or-pow zero c = omega (arith, bit_or_step c 1, bit_or-zero (c / 2))
bit_or-pow (suc k) c = grind (
  arith,
  bit_or_step c (2 ^ suc k),
  bit_or-pow k (c / 2),
  two-pow-succ k,
  pow-suc 2 k,
  div-div-eq-div-mul c 2 (2 ^ k),
)

-- `c | 0x20` sets the bit that tells the letters of one case from those of the other.
pub bit_or-case : (c : ℕ) → bit_or c 0x20 ≡ c + (1 - c / 32 % 2) * 32
bit_or-case c = bit_or-pow 5 c

pub bit_and_seven : (a : ℕ) → bit_and a 7 ≡ a % 8
bit_and_seven a = omega (arith, bit_and_step a 7, bit_and_three (a / 2))

mask_step : (a m : ℕ) → bit_and a (2 * m + 1) ≡ 2 * bit_and (a / 2) m + a % 2
mask_step a m =
    let half : (2 * m + 1) / 2 ≡ m = omega arith in
    omega (arith, bit_and_step a (2 * m + 1), ap (bit_and (a / 2)) half)

pub mod_step : (a p : ℕ) → 0 < p → a % (2 * p) ≡ 2 * (a / 2 % p) + a % 2
mod_step a p pos =
    let low : 2 * (a / 2 % p) + a % 2 < 2 * p = omega (arith, mod-lt (a / 2) {m = p} pos) in
    let whole : a ≡ a / 2 / p * (2 * p) + (2 * (a / 2 % p) + a % 2) =
      grind (arith, div-add-mod' (a / 2) p) in
    ap (λ (t : ℕ). t % (2 * p)) whole
    ∙ mul-add-mod_self_right (a / 2 / p) (2 * p) (2 * (a / 2 % p) + a % 2)
    ∙ mod-eq_of_lt low

-- A mask of the `k` low bits is the remainder by `2 ^ k`.
pub bit_and_mask : (k a : ℕ) → bit_and a (2 ^ k - 1) ≡ a % 2 ^ k
bit_and_mask zero a = omega (arith, bit_and-zero a)
bit_and_mask (suc k) a =
    let pos : 0 < 2 ^ k = one-le-pow k 2 (omega arith) in
    let twice : 2 ^ suc k ≡ 2 * 2 ^ k = omega (arith, pow-suc 2 k) in
    let mask : 2 ^ suc k - 1 ≡ 2 * (2 ^ k - 1) + 1 = omega arith in
    ap (bit_and a) mask
    ∙ mask_step a (2 ^ k - 1)
    ∙ ap (λ (t : ℕ). 2 * t + a % 2) (bit_and_mask k (a / 2))
    ∙ sym (mod_step a (2 ^ k) pos)
    ∙ ap (λ (t : ℕ). a % t) (sym twice)

pub pow-add-one : (k : ℕ) → 2 ^ (k + 1) ≡ 2 * 2 ^ k
pow-add-one k = rw add-one (omega (arith, pow-suc 2 k))
