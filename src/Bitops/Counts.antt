-- ===== src/Bitops/Counts.antt =====
-- What the counts of bitops.c say of the binary digits of a value.
use yasos_libc.Base.{
  ℕ, zero, suc, ◌+◌, ◌-◌, ◌*◌, ◌/◌, ◌%◌, ◌^◌, ◌≤◌, ◌<◌, ◌≡◌, refl, ap, ◌∙◌, arith, true, false,
  ◌==◌, bit_and, Bool-cases, inl, inr, ◌≢◌,
}
use native.Mathlib.Decide.{dec_lt}
use native.Mathlib.Nat.{
  zero-div, div-lt_iff_lt-mul, le-div_iff_mul-le, div-eq_of_lt, div-div-eq-div-mul, pow-suc,
  one-le-pow, pow-suc, two-pow-succ, one-le-pow, div-div-eq-div-mul, div-lt_iff_lt-mul,
  le-div_iff_mul-le, div-eq_of_lt,
}
use yasos_libc.Base.Bits.{bit_and-one, bit_and-pow, pow-add-one}
use yasos_libc.Bitops.{
  clzsi2, ctzsi2, ffs, popcountsi2, paritysi2, popcount_bits, leading_loop, leading_zero_bits,
  popcount_loop, popcount_bits, clzsi2, ctzsi2, ffs, first_set_loop, first_set_bit, leading_loop,
  leading_zero_bits, trailing_loop, trailing_zero_bits, popcount_loop, popcount_bits, ffs, clzsi2,
  ctzsi2, popcountsi2, paritysi2,
}

-- `c` is the number of the lowest digit 1 of `v`.
abbrev pub IsLowest : ℕ → ℕ → Type 0
IsLowest v c = (q : ℕ) × (v ≡ (2 * q + 1) * 2 ^ c)

trailing_loop-digits :
    (fuel v count : ℕ)
    → v ≢ 0
    → v < 2 ^ fuel
    → (q : ℕ) × (v * 2 ^ count ≡ (2 * q + 1) * 2 ^ trailing_loop fuel v count)
unfolding trailing_loop
trailing_loop-digits zero v count ne h = absurd (ne (omega arith))
trailing_loop-digits (suc fuel) v count ne h = elim (Bool-cases (bit_and v 1 == 0)) [
  | inl even ↦
      let two : v ≡ 2 * (v / 2) = ground (arith, bit_and-one v) in
      let (q, e) =
        trailing_loop-digits fuel (v / 2) (count + 1) (λ z. ne (omega arith))
          (omega (arith, two-pow-succ fuel)) in
      let shifted : v * 2 ^ count ≡ v / 2 * 2 ^ (count + 1) =
        omega (
          arith,
          ap (λ (t : ℕ). v / 2 * t) (pow-add-one count),
          ap (λ (t : ℕ). t * 2 ^ count) two,
        ) in
      rw even (q, shifted ∙ e)
  | inr odd ↦
      let one_more : v ≡ 2 * (v / 2) + 1 = ground (arith, bit_and-one v) in
      rw odd (v / 2, ap (λ (t : ℕ). t * 2 ^ count) one_more)
]

first_set_loop-trailing :
    (fuel v count : ℕ)
    → v ≢ 0
    → v < 2 ^ fuel
    → first_set_loop (suc fuel) (count + 1) v ≡ trailing_loop fuel v count + 1
unfolding first_set_loop trailing_loop
first_set_loop-trailing zero v count ne h = absurd (ne (omega arith))
first_set_loop-trailing (suc fuel) v count ne h =
    ground
      (arith, first_set_loop-trailing fuel (v / 2) (count + 1), bit_and-one v, two-pow-succ fuel)

-- The trailing zero bits count the factors 2 of a value, and `ffs` counts one more.
pub trailing_zero_bits-IsLowest :
    (v bits : ℕ)
    → v ≢ 0
    → v < 2 ^ 64
    → IsLowest v (trailing_zero_bits v bits) × (first_set_bit v ≡ trailing_zero_bits v bits + 1)
unfolding trailing_zero_bits first_set_bit
trailing_zero_bits-IsLowest v bits ne h =
    let some_bit : (v == 0) ≡ false = ground arith in
    let (q, e) = trailing_loop-digits 64 v 0 ne h in
    rw some_bit ((q, omega (arith, e)), first_set_loop-trailing 64 v 0 ne h)

-- `k` is the number of the highest digit 1 of `v`.
abbrev pub IsHighest : ℕ → ℕ → Type 0
IsHighest v k = (2 ^ k ≤ v) × (v < 2 ^ suc k)

-- The test of the mask tells the two halves of the range apart.
high_bit :
    (m v : ℕ)
    → v < 2 ^ suc m
    → ((bit_and v (2 ^ m) == 0) ≡ true → v < 2 ^ m) × ((bit_and v (2 ^ m) == 0) ≡ false → 2 ^ m ≤ v)
high_bit m v h =
    let pos : 0 < 2 ^ m = one-le-pow m 2 (omega arith) in
    let few : v / 2 ^ m < 2 = (div-lt_iff_lt-mul pos).1 (omega (arith, pow-suc 2 m)) in
    elim (dec_lt v (2 ^ m)) [
      | yes low ↦
          let z : bit_and v (2 ^ m) ≡ 0 = rw (bit_and-pow m v, div-eq_of_lt low) (omega arith) in
          (λ _. low, λ b. absurd (ground (arith, z)))
      | no high ↦
          let one_bit : v / 2 ^ m ≡ 1 =
            omega (arith, (le-div_iff_mul-le {k = 2 ^ m} {x = 1} {y = v} pos).1 (omega arith)) in
          let z : bit_and v (2 ^ m) ≡ 2 ^ m = rw (bit_and-pow m v, one_bit) (omega arith) in
          (λ b. absurd (ground (arith, z)), λ _. omega arith)
    ]

leading_loop-IsHighest :
    (fuel m v count : ℕ)
    → m < fuel
    → v ≢ 0
    → v < 2 ^ suc m
    → (k : ℕ) × (leading_loop fuel v count (2 ^ m) + k ≡ count + m) × IsHighest v k
unfolding leading_loop
leading_loop-IsHighest zero m v count lt ne h = absurd (omega arith)
leading_loop-IsHighest (suc fuel) zero v count lt ne h =
    elim (Bool-cases (bit_and v (2 ^ zero) == 0)) [
      | inl clear ↦ absurd (ne (omega (arith, (high_bit 0 v h).0 clear)))
      | inr isset ↦ rw isset (0, refl, (omega arith, h))
    ]
leading_loop-IsHighest (suc fuel) (suc m) v count lt ne h =
    elim (Bool-cases (bit_and v (2 ^ suc m) == 0)) [
      | inl clear ↦
          let half : 2 ^ suc m / 2 ≡ 2 ^ m = omega (arith, pow-suc 2 m) in
          let (k, e, w) =
            leading_loop-IsHighest fuel m v (count + 1) (omega arith) ne
              ((high_bit (suc m) v h).0 clear) in
          rw (clear, half) (k, omega (arith, e), w)
      | inr isset ↦ rw isset (suc m, omega arith, ((high_bit (suc m) v h).1 isset, h))
    ]

-- The leading zero bits of a value that fits `suc m` bits count the digits above its highest 1.
pub leading_zero_bits-IsHighest :
    (m v : ℕ)
    → m < 64
    → v ≢ 0
    → v < 2 ^ suc m
    → (k : ℕ) × (leading_zero_bits v (suc m) + k ≡ m) × IsHighest v k
unfolding leading_zero_bits
leading_zero_bits-IsHighest m v lt ne h =
    let some_bit : (v == 0) ≡ false = ground arith in
    let e : suc m - 1 ≡ m = omega arith in
    let (k, total, highest) = leading_loop-IsHighest 64 m v 0 lt ne h in
    rw (some_bit, e) (k, omega (arith, total), highest)

-- The sum of the digits below `2 ^ k`, from the top.
unfoldable pub ones : ℕ → ℕ → ℕ
ones zero v = 0
ones (suc k) v = v / 2 ^ k % 2 + ones k v

ones-half : (k v : ℕ) → ones (suc k) v ≡ ones k (v / 2) + v % 2
unfolding ones
ones-half zero v = omega arith
ones-half (suc k) v = omega (
  arith,
  ones-half k v,
  ap (λ (t : ℕ). t % 2) (div-div-eq-div-mul v 2 (2 ^ k)),
  ap (λ (t : ℕ). v / t % 2) (two_first k),
)
  where
    two_first : (k : ℕ) → 2 ^ suc k ≡ 2 * 2 ^ k
    two_first k = omega (arith, pow-suc 2 k)

ones-zero : (k : ℕ) → ones k 0 ≡ 0
unfolding ones
ones-zero zero = refl
ones-zero (suc k) = omega (arith, ones-zero k, zero-div (2 ^ k))

popcount_loop-ones :
    (fuel v count : ℕ) → v < 2 ^ fuel → popcount_loop (suc fuel) v count ≡ count + ones fuel v
unfolding popcount_loop
popcount_loop-ones zero v count h = ground (arith, ones-zero 0)
popcount_loop-ones (suc fuel) v count h = ground (
  arith,
  popcount_loop-ones fuel (v / 2) (count + bit_and v 1),
  bit_and-one v,
  two-pow-succ fuel,
  ones-half fuel v,
  ones-zero (suc fuel),
)

-- The population count is the number of digits 1.
pub popcount_bits-ones : (v : ℕ) → v < 2 ^ 64 → popcount_bits v ≡ ones 64 v
unfolding popcount_bits
popcount_bits-ones v h = omega (arith, popcount_loop-ones 64 v 0 h)

-- The compiler's entry points for a 32-bit value other than 0: `__clzsi2` and `__ctzsi2` are the
-- numbers of zero digits above its highest and below its lowest 1, `ffs` is one more than the latter,
-- `__popcountsi2` counts its ones and `__paritysi2` is the parity of that count.
pub entry_points :
    (v : ℕ)
    → v < 2 ^ 32
    → v ≢ 0
    → ((k : ℕ) × (clzsi2 v + k ≡ 31) × IsHighest v k)
      × IsLowest v (ctzsi2 v)
      × (ffs v ≡ ctzsi2 v + 1)
      × (popcountsi2 v ≡ ones 64 v)
      × (paritysi2 v ≡ ones 64 v % 2)
unfolding clzsi2 ctzsi2 ffs popcountsi2 paritysi2
entry_points v h ne =
    let same : v % 2 ^ 32 ≡ v = omega arith in
    let count = popcount_bits-ones v (omega arith) in
    let lowest = trailing_zero_bits-IsLowest v 32 ne (omega arith) in
    (
      leading_zero_bits-IsHighest 31 v (omega arith) ne h,
      lowest.0,
      rw same (lowest.1),
      count,
      bit_and-one (popcount_bits v) ∙ ap (λ (t : ℕ). t % 2) count,
    )
