-- ===== src/MemOps/Words.antt =====
-- The test for a zero byte in a word, which `memchr` uses.
use yasos_libc.Base.{
  ℕ, zero, suc, ◌+◌, ◌-◌, ◌*◌, ◌/◌, ◌%◌, ◌^◌, ◌<◌, ◌≡◌, refl, sym, ap, ◌∙◌, arith, true, false,
  ◌==◌, bit_and, bit_xor, ==_iff, Bool-cases, inl, inr, ◌⊎◌,
}
use yasos_libc.Base.Bits.{bit_and_step, bit_xor_step, mod_step}
use native.Mathlib.Nat.{one-le-pow, pow-suc, div-div-eq-div-mul}
use yasos_libc.MemOps.Seek.{long01, long80, has_zero}

half_pow : (k a : ℕ) → a / 2 / 2 ^ k ≡ a / 2 ^ suc k
half_pow k a =
    let twice : 2 * 2 ^ k ≡ 2 ^ suc k = omega (arith, pow-suc 2 k) in
    div-div-eq-div-mul a 2 (2 ^ k) ∙ ap (λ e. a / e) twice

-- A bit that is set in both numbers is set in their conjunction.
both_set : (k a b : ℕ) → a / 2 ^ k % 2 ≡ 1 → b / 2 ^ k % 2 ≡ 1 → bit_and a b / 2 ^ k % 2 ≡ 1
both_set zero a b ha hb =
    let one : (a / 1 ≡ a) × (b / 1 ≡ b) = (omega arith, omega arith) in
    omega (arith, bit_and_step a b)
both_set (suc k) a b ha hb =
    let half : bit_and a b / 2 ≡ bit_and (a / 2) (b / 2) = omega (arith, bit_and_step a b) in
    ap (λ e. e % 2) (sym (half_pow k (bit_and a b)) ∙ ap (λ e. e / 2 ^ k) half)
    ∙ both_set k (a / 2) (b / 2) (ap (λ e. e % 2) (half_pow k a) ∙ ha)
        (ap (λ e. e % 2) (half_pow k b) ∙ hb)

nonzero_bit : (k y : ℕ) → y / 2 ^ k % 2 ≡ 1 → (y == 0) ≡ false
nonzero_bit zero y set = let one : y / 1 ≡ y = omega arith in ground arith
nonzero_bit (suc k) y set =
    let half = nonzero_bit k (y / 2) (ap (λ e. e % 2) (half_pow k y) ∙ set) in ground arith

-- A bit that is set in the three numbers of the test.
found_at :
    (k x : ℕ)
    → (x + 2 ^ 32 - long01) % 2 ^ 32 / 2 ^ k % 2 ≡ 1
    → (2 ^ 32 - 1 - x) / 2 ^ k % 2 ≡ 1
    → long80 / 2 ^ k % 2 ≡ 1
    → has_zero x ≡ true
unfolding has_zero
found_at k x h1 h2 h3 =
    let clear = nonzero_bit k _ (both_set k _ _ (both_set k _ _ h1 h2) h3) in rw (clear) refl

-- The test finds every zero byte.
pub has_zero-byte :
    (b3 b2 b1 b0 : ℕ)
    → b3 < 256
    → b2 < 256
    → b1 < 256
    → b0 < 256
    → (b0 ≡ 0) ⊎ (b1 ≡ 0) ⊎ (b2 ≡ 0) ⊎ (b3 ≡ 0)
    → has_zero (b0 + 256 * b1 + 65536 * b2 + 16777216 * b3) ≡ true
has_zero-byte b3 b2 b1 b0 l3 l2 l1 l0 some_zero =
    let x = b0 + 256 * b1 + 65536 * b2 + 16777216 * b3 in
    elim (Bool-cases (b0 == 0)) [
      | inl e ↦
          found_at 7 x (omega (arith, (==_iff b0 0).0 e)) (omega (arith, (==_iff b0 0).0 e)) refl
      | inr n0 ↦ elim (Bool-cases (b1 == 0)) [
        | inl e ↦ found_at 15 x (ground arith) (ground arith) refl
        | inr n1 ↦ elim (Bool-cases (b2 == 0)) [
          | inl e ↦ found_at 23 x (ground arith) (ground arith) refl
          | inr n2 ↦ found_at 31 x (ground arith) (ground arith) refl
        ]
      ]
    ]

xor_shift : (k x y : ℕ) → bit_xor x y / 2 ^ k ≡ bit_xor (x / 2 ^ k) (y / 2 ^ k)
xor_shift zero x y =
    let one : (x / 1 ≡ x) × (y / 1 ≡ y) = (omega arith, omega arith) in
    rw (one.0, one.1) (omega arith)
xor_shift (suc k) x y =
    let half : bit_xor x y / 2 ≡ bit_xor (x / 2) (y / 2) = omega (arith, bit_xor_step x y) in
    sym (half_pow k (bit_xor x y))
    ∙ ap (λ e. e / 2 ^ k) half
    ∙ xor_shift k (x / 2) (y / 2)
    ∙ ap (λ e. bit_xor e (y / 2 / 2 ^ k)) (half_pow k x)
    ∙ ap (bit_xor (x / 2 ^ suc k)) (half_pow k y)

xor_same : (n x y : ℕ) → x % 2 ^ n ≡ y % 2 ^ n → bit_xor x y % 2 ^ n ≡ 0
xor_same zero x y same = omega arith
xor_same (suc n) x y same =
    let pos : 0 < 2 ^ n = one-le-pow n 2 (omega arith) in
    let twice : 2 ^ suc n ≡ 2 * 2 ^ n = omega (arith, pow-suc 2 n) in
    let parts : (a : ℕ) → a % 2 ^ suc n ≡ 2 * (a / 2 % 2 ^ n) + a % 2 =
      λ a. ap (λ e. a % e) twice ∙ mod_step a (2 ^ n) pos in
    let halves = xor_same n (x / 2) (y / 2) (omega (arith, parts x, parts y, same)) in
    let half : bit_xor x y / 2 ≡ bit_xor (x / 2) (y / 2) = omega (arith, bit_xor_step x y) in
    let low : bit_xor x y / 2 % 2 ^ n ≡ 0 = ap (λ e. e % 2 ^ n) half ∙ halves in
    omega (arith, parts (bit_xor x y), low, bit_xor_step x y, parts x, parts y, same)

xor_below : (n x y : ℕ) → x < 2 ^ n → y < 2 ^ n → bit_xor x y < 2 ^ n
xor_below zero x y lx ly =
    let none_left : (x ≡ 0) × (y ≡ 0) = (omega arith, omega arith) in
    rw (none_left.0, none_left.1) (omega arith)
xor_below (suc n) x y lx ly =
    let twice : 2 ^ suc n ≡ 2 * 2 ^ n = omega (arith, pow-suc 2 n) in
    let rest = xor_below n (x / 2) (y / 2) (omega arith) (omega arith) in
    omega (arith, rest, bit_xor_step x y, twice)

-- Where the numbers have the same byte, that of the exclusive or is zero.
same_byte : (k x y : ℕ) → x / 2 ^ k % 256 ≡ y / 2 ^ k % 256 → bit_xor x y / 2 ^ k % 256 ≡ 0
same_byte k x y same = ap (λ e. e % 256) (xor_shift k x y) ∙ xor_same 8 (x / 2 ^ k) (y / 2 ^ k) same

-- The test finds a byte in a word, when the other operand has it in every place.
pub has_zero-xor :
    (b3 b2 b1 b0 c : ℕ)
    → b3 < 256
    → b2 < 256
    → b1 < 256
    → b0 < 256
    → c < 256
    → (b0 ≡ c) ⊎ (b1 ≡ c) ⊎ (b2 ≡ c) ⊎ (b3 ≡ c)
    → has_zero (bit_xor (b0 + 256 * b1 + 65536 * b2 + 16777216 * b3) (long01 * c)) ≡ true
has_zero-xor b3 b2 b1 b0 c l3 l2 l1 l0 lc some_byte =
    let w = b0 + 256 * b1 + 65536 * b2 + 16777216 * b3 in
    let x = bit_xor w (long01 * c) in
    let below = xor_below 32 w (long01 * c) (omega arith) (omega arith) in
    let zeros : (x % 256 ≡ 0)
        ⊎ (x / 256 % 256 ≡ 0)
        ⊎ (x / 65536 % 256 ≡ 0)
        ⊎ (x / 16777216 % 256 ≡ 0) =
      elim some_byte [
        | inl e ↦ inl (xor_same 8 w (long01 * c) (omega arith))
        | inr (inl e) ↦ inr (inl (same_byte 8 w (long01 * c) (omega arith)))
        | inr (inr (inl e)) ↦ inr (inr (inl (same_byte 16 w (long01 * c) (omega arith))))
        | inr (inr (inr e)) ↦ inr (inr (inr (same_byte 24 w (long01 * c) (omega arith))))
      ] in
    let found =
      has_zero-byte (x / 16777216 % 256) (x / 65536 % 256) (x / 256 % 256) (x % 256) (omega arith)
        (omega arith) (omega arith) (omega arith) zeros in
    let whole : x % 256
          + 256 * (x / 256 % 256)
          + 65536 * (x / 65536 % 256)
          + 16777216 * (x / 16777216 % 256)
        ≡ x =
      omega arith in
    sym (ap has_zero whole) ∙ found
