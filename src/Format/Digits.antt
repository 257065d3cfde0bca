-- ===== src/Format/Digits.antt =====
-- The numbers that `strftime` writes, against what atoi.c reads.
use yasos_libc.Base.{
  ℕ, zero, suc, ◌+◌, ◌-◌, ◌*◌, ◌/◌, ◌%◌, ◌^◌, ◌≤◌, ◌<◌, ◌≡◌, refl, sym, ap, ◌∙◌, arith, Bool, true,
  not, ◌&&◌, ltb, ◌==◌, if◌then◌else◌, List, [], ◌∷◌, length,
}
use mathlib.Core.Path.{subst}
use native.Mathlib.Nat.{
  mod-lt, div-add-mod', mul-add-mod_self_right, mod-eq_of_lt, one-le-pow, pow-suc,
}
use yasos_libc.Strto.Digits.{digit_char, digits_of, value_from}
use yasos_libc.Strto.Decimal.{IsText, atoi-digits}
use yasos_libc.Strto.{atoi}
use yasos_libc.Format.{puti_loop, puti}

length-puti_loop :
    (i n wid : ℕ) (zpad : Bool) (written : List ℕ)
    → length (puti_loop i n wid zpad written) ≡ i + length written
unfolding puti_loop
length-puti_loop zero n wid zpad written = omega arith
length-puti_loop (suc i) n wid zpad written = omega (arith, length-puti_loop i (n / 10) wid zpad)

pub length-puti : (n wid : ℕ) (zpad : Bool) → length (puti n wid zpad) ≡ wid
unfolding puti
length-puti n wid zpad = omega (arith, length-puti_loop wid n wid zpad [])

pub mod_ten : (n p : ℕ) → 0 < p → n % (10 * p) ≡ n / 10 % p * 10 + n % 10
mod_ten n p some_p =
    let low : n / 10 % p * 10 + n % 10 < 10 * p = omega (arith, mod-lt (n / 10) {m = p} some_p) in
    let whole : n ≡ n / 10 / p * (10 * p) + (n / 10 % p * 10 + n % 10) =
      grind (arith, div-add-mod' (n / 10) p) in
    ap (λ (t : ℕ). t % (10 * p)) whole
    ∙ mul-add-mod_self_right (n / 10 / p) (10 * p) (n / 10 % p * 10 + n % 10)
    ∙ mod-eq_of_lt low

-- The character of a place.
place :
    (n i wid : ℕ)
    → (if n == 0 then if not true && ltb i (wid - 1) then b' ' else b'0' else b'0' + n % 10)
      ≡ b'0' + n % 10
place n i wid = ground arith

pub value_from-cons :
    (v d : ℕ) (s : List ℕ)
    → d < 10
    → value_from 10 v (digits_of 10 ((b'0' + d) ∷ s)) ≡ value_from 10 (v * 10 + d) (digits_of 10 s)
unfolding digits_of value_from
value_from-cons v d s lt = rw (digits_of, digit_char d lt) refl

value_from-puti_loop :
    (i n wid : ℕ) (written : List ℕ)
    → value_from 10 0 (digits_of 10 (puti_loop i n wid true written))
      ≡ value_from 10 (n % 10 ^ i) (digits_of 10 written)
unfolding puti_loop digits_of value_from
value_from-puti_loop zero n wid written = let none : n % 1 ≡ 0 = omega arith in rw (none) refl
value_from-puti_loop (suc i) n wid written =
    let power : 10 ^ suc i ≡ 10 * 10 ^ i = omega (arith, pow-suc 10 i) in
    let ih = value_from-puti_loop i (n / 10) wid ((b'0' + n % 10) ∷ written) in
    let ten = mod_ten n (10 ^ i) (one-le-pow i 10 (omega arith)) in
    rw (place n i wid, power, ten)
      (ih ∙ value_from-cons (n / 10 % 10 ^ i) (n % 10) written (mod-lt n {m = 10} (omega arith)))

-- What is written begins with a digit, and consists of bytes.
abbrev pub IsNumber : List ℕ → Type 0
IsNumber s = (c : ℕ) × (r : List ℕ) × (s ≡ c ∷ r) × (b'0' ≤ c) × (c ≤ b'9') × IsText (c ∷ r)

puti_loop-IsNumber :
    (i n wid : ℕ) (written : List ℕ) → IsNumber written → IsNumber (puti_loop i n wid true written)
unfolding puti_loop IsText
puti_loop-IsNumber zero n wid written h = h
puti_loop-IsNumber (suc i) n wid written (c, r, whole, low, high, text) = rw (place n i wid) (
    puti_loop-IsNumber i (n / 10) wid ((b'0' + n % 10) ∷ written) (
      b'0' + n % 10,
      written,
      refl,
      omega arith,
      omega arith,
      (omega arith, subst IsText (sym whole) text),
    ))

puti-IsNumber : (n w : ℕ) → IsNumber (puti n (suc w) true)
unfolding puti puti_loop IsText
puti-IsNumber n w = rw (place n w (suc w)) (
    puti_loop-IsNumber w (n / 10) (suc w) ((b'0' + n % 10) ∷ [])
      (b'0' + n % 10, [], refl, omega arith, omega arith, (omega arith, tt)))

value_from-puti : (n wid : ℕ) → value_from 10 0 (digits_of 10 (puti n wid true)) ≡ n % 10 ^ wid
unfolding puti digits_of value_from
value_from-puti n wid = value_from-puti_loop wid n wid []

-- `atoi` reads the last `wid` decimal digits of the number that `strftime` wrote in `wid` places with
-- zeros in front.
pub atoi-puti : (n wid : ℕ) → 0 < wid → atoi (puti n wid true) ≡ n % 10 ^ wid % 2 ^ 32
atoi-puti n zero h = absurd (omega arith)
atoi-puti n (suc w) h =
    let (c, r, whole, low, high, text) = puti-IsNumber n w in
    ap atoi whole
    ∙ atoi-digits c r low high text
    ∙ ap (λ s. value_from 10 0 (digits_of 10 s) % 2 ^ 32) (sym whole)
    ∙ ap (λ v. v % 2 ^ 32) (value_from-puti n (suc w))
