-- ===== src/Stdio/Decimal.antt =====
-- `%d` of stdio.c against what atoi.c reads.
use yasos_libc.Base.{
  ℕ, zero, suc, ◌+◌, ◌-◌, ◌*◌, ◌/◌, ◌%◌, ◌^◌, ◌≤◌, ◌<◌, ◌≡◌, refl, sym, ap, ◌∙◌, arith, true, false,
  ltb, leb, ◌==◌, if◌then◌else◌, lt→ltb, Bool-cases, inl, inr, some, List, [], ◌∷◌, ◌++◌, length,
  get_or, take,
}
use mathlib.Core.Path.{subst}
use native.Mathlib.Nat.{mod-lt, mod-eq_of_lt, pow-suc, one-le-pow}
use yasos_libc.Fnmatch.{has_flag}
use yasos_libc.Strings.{strlen}
use yasos_libc.Strings.Copy.{strlen-length}
use yasos_libc.Strto.Digits.{digits_of, value_from}
use yasos_libc.Strto.Decimal.{IsText, atoi-digits, atoi-minus}
use yasos_libc.Strto.{atoi}
use yasos_libc.Format.Digits.{mod_ten, value_from-cons, IsNumber}
use yasos_libc.Stdio.Integer.{
  digits_loop, digits, digs, digit_text, ostr, oint, fmt_signed, sign_char, is_below_zero, mask_to,
  digits_of_int, prefix_of_int, pad, int_max, or_null,
}

-- The number of digits is large enough, and no larger than the rounds of the loop.
digits_loop-fits :
    (fuel n i : ℕ)
    → n < 10 ^ fuel
    → (d : ℕ) × (digits_loop fuel n 10 i ≡ i + d) × (n < 10 ^ d) × (d ≤ fuel)
unfolding digits_loop
digits_loop-fits zero n i lt = (0, omega arith, omega (arith, lt), omega arith)
digits_loop-fits (suc fuel) n i lt = elim (Bool-cases (n == 0)) [
  | inl e ↦ rw (digits_loop, e) (0, omega arith, ground arith, omega arith)
  | inr ne ↦
      let below : n / 10 < 10 ^ fuel = omega (arith, lt, pow-suc 10 fuel) in
      let (d, count, lt', le) = digits_loop-fits fuel (n / 10) (i + 1) below in
      rw (digits_loop, ne)
        (suc d, count ∙ omega arith, omega (arith, lt', pow-suc 10 d), omega arith)
]

-- The character of a decimal digit.
digit_of : (d : ℕ) → d < 10 → get_or digs d 0 ≡ b'0' + d
digit_of zero lt = refl
digit_of (suc zero) lt = refl
digit_of (suc (suc zero)) lt = refl
digit_of (suc (suc (suc zero))) lt = refl
digit_of (suc (suc (suc (suc zero)))) lt = refl
digit_of (suc (suc (suc (suc (suc zero))))) lt = refl
digit_of (suc (suc (suc (suc (suc (suc zero)))))) lt = refl
digit_of (suc (suc (suc (suc (suc (suc (suc zero))))))) lt = refl
digit_of (suc (suc (suc (suc (suc (suc (suc (suc zero)))))))) lt = refl
digit_of (suc (suc (suc (suc (suc (suc (suc (suc (suc zero))))))))) lt = refl
digit_of (suc (suc (suc (suc (suc (suc (suc (suc (suc (suc d)))))))))) lt =
    absurd (omega (arith, lt))

value_from-digit_text :
    (d n : ℕ) (written : List ℕ)
    → value_from 10 0 (digits_of 10 (digit_text d digs 10 n written))
      ≡ value_from 10 (n % 10 ^ d) (digits_of 10 written)
unfolding digit_text
value_from-digit_text zero n written = let none : n % 1 ≡ 0 = omega arith in rw (none) refl
value_from-digit_text (suc d) n written =
    let power : 10 ^ suc d ≡ 10 * 10 ^ d = omega (arith, pow-suc 10 d) in
    let ten = mod_ten n (10 ^ d) (one-le-pow d 10 (omega arith)) in
    let low : n % 10 < 10 = mod-lt n {m = 10} (omega arith) in
    let ih = value_from-digit_text d (n / 10) (get_or digs (n % 10) 0 ∷ written) in
    rw (power, ten)
      (ih
        ∙ ap (λ c. value_from 10 (n / 10 % 10 ^ d) (digits_of 10 (c ∷ written)))
            (digit_of (n % 10) low)
        ∙ value_from-cons (n / 10 % 10 ^ d) (n % 10) written low)

length-digit_text :
    (d n : ℕ) (written : List ℕ) → length (digit_text d digs 10 n written) ≡ d + length written
unfolding digit_text
length-digit_text zero n written = omega arith
length-digit_text (suc d) n written =
    omega (arith, length-digit_text d (n / 10) (get_or digs (n % 10) 0 ∷ written))

digit_text-IsNumber :
    (d n : ℕ) (written : List ℕ) → IsNumber written → IsNumber (digit_text d digs 10 n written)
unfolding digit_text IsText
digit_text-IsNumber zero n written h = h
digit_text-IsNumber (suc d) n written (c, r, whole, low, high, rest) =
    let is_digit = digit_of (n % 10) (mod-lt n {m = 10} (omega arith)) in
    digit_text-IsNumber d (n / 10) (get_or digs (n % 10) 0 ∷ written) (
      b'0' + n % 10,
      written,
      ap (λ x. x ∷ written) is_digit,
      omega arith,
      omega arith,
      (omega arith, subst IsText (sym whole) rest),
    )

-- The digits of a number of 32 bits.
record IsDecimal (m : ℕ) (t : List ℕ) : Type 0 where
  number : IsNumber t
  value : value_from 10 0 (digits_of 10 t) ≡ m
  short : length t ≤ 65

text-IsDecimal :
    (d m : ℕ) → m < 10 ^ suc d → suc d ≤ 65 → IsDecimal m (digit_text (suc d) digs 10 m [])
unfolding digit_text digits_of value_from IsText
text-IsDecimal d m lt le = record {
  number = digit_text-IsNumber d (m / 10) (get_or digs (m % 10) 0 ∷ []) (
    b'0' + m % 10,
    [],
    ap (λ x. x ∷ []) (digit_of (m % 10) (mod-lt m {m = 10} (omega arith))),
    omega arith,
    omega arith,
    (omega arith, tt),
  );
  value = value_from-digit_text (suc d) m [] ∙ mod-eq_of_lt lt;
  short = omega (arith, le, length-digit_text (suc d) m []);
}

digits-suc :
    (m : ℕ) → m < 2 ^ 32 → (d : ℕ) × (digits m 10 ≡ suc d) × (m < 10 ^ suc d) × (suc d ≤ 65)
unfolding digits
digits-suc m lt = of (digits_loop-fits 65 m 0 (omega (arith, lt)))
  where
    of :
        (d : ℕ) × (digits_loop 65 m 10 0 ≡ 0 + d) × (m < 10 ^ d) × (d ≤ 65)
        → (d : ℕ) × ((if digits_loop 65 m 10 0 == 0 then 1 else digits_loop 65 m 10 0) ≡ suc d)
          × (m < 10 ^ suc d)
          × (suc d ≤ 65)
    of (zero, count, below, le) = (0, ground (arith, count), omega (arith, below), omega arith)
    of (suc d, count, below, le) = (d, ground (arith, count), below, le)

digits-IsDecimal : (m : ℕ) → m < 2 ^ 32 → IsDecimal m (digit_text (digits m 10) digs 10 m [])
digits-IsDecimal m lt =
    let (d, count, below, le) = digits-suc m lt in
    subst (λ j. IsDecimal m (digit_text j digs 10 m [])) (sym count) (text-IsDecimal d m below le)

take-whole : (n : ℕ) (t : List ℕ) → length t ≤ n → take n t ≡ t
take-whole zero [] le = refl
take-whole zero (x ∷ t) le = absurd (omega (arith, le))
take-whole (suc n) [] le = refl
take-whole (suc n) (x ∷ t) le = ap (λ l. x ∷ l) (take-whole n t (omega (arith, le)))

ostr-whole : (t : List ℕ) (c : ℕ) → length t ≤ 65 → ostr (some t) 0 false int_max c ≡ t
unfolding ostr or_null pad
ostr-whole t c short =
    let (len, below) : (strlen t ≡ length t) × (ltb (length t) int_max ≡ true) =
      (strlen-length t, lt→ltb _ _ (omega (arith, short))) in
    let fill : 0 - length t ≡ 0 = omega arith in
    rw (len, below, fill) (take-whole int_max t (omega (arith, short)))

room : (s : ℕ) → (if ltb int_max (int_max - s) then int_max + s else int_max) ≡ int_max
room s = ground arith

-- `%d`: a sign if there is one, and the digits.
oint-plain :
    (n : ℕ)
    → length (digits_of_int n 10 4 fmt_signed) ≤ 65
    → oint n 10 0 4 fmt_signed int_max
      ≡ prefix_of_int n 10 4 fmt_signed ++ digits_of_int n 10 4 fmt_signed
unfolding oint pad has_flag
oint-plain n short =
    let (t, prefix) : List ℕ × List ℕ =
      (digits_of_int n 10 4 fmt_signed, prefix_of_int n 10 4 fmt_signed) in
    let none_left : 0 - (length t + length prefix) ≡ 0 = omega arith in
    let most = room (if sign_char n 4 fmt_signed == 0 then 0 else 1) in
    rw (most, none_left, ostr-whole t b'0' short) refl

-- The prefix and the digits of `%d`, below zero and from zero on.
below_zero :
    (n : ℕ)
    → leb (2 ^ 31) (n % 2 ^ 32) ≡ true
    → (prefix_of_int n 10 4 fmt_signed ≡ b'-' ∷ [])
      × (digits_of_int n 10 4 fmt_signed
          ≡ digit_text
              (digits ((2 ^ 64 - n) % 2 ^ 64 % 2 ^ 32) 10)
              digs
              10
              ((2 ^ 64 - n) % 2 ^ 64 % 2 ^ 32)
              [])
unfolding digits_of_int prefix_of_int sign_char is_below_zero mask_to has_flag
below_zero n negative = rw (negative) (refl, refl)

from_zero :
    (n : ℕ)
    → leb (2 ^ 31) (n % 2 ^ 32) ≡ false
    → (prefix_of_int n 10 4 fmt_signed ≡ [])
      × (digits_of_int n 10 4 fmt_signed
          ≡ digit_text (digits (n % 2 ^ 32) 10) digs 10 (n % 2 ^ 32) [])
unfolding digits_of_int prefix_of_int sign_char is_below_zero mask_to has_flag
from_zero n positive = rw (positive) (refl, refl)

atoi-IsDecimal : (m : ℕ) (t : List ℕ) → m < 2 ^ 32 → IsDecimal m t → atoi t ≡ m
atoi-IsDecimal m t lt decimal =
    let (c, r, whole, low, high, chars) = decimal.number in
    ap atoi whole
    ∙ atoi-digits c r low high chars
    ∙ ap (λ s. value_from 10 0 (digits_of 10 s) % 2 ^ 32) (sym whole)
    ∙ ap (λ v. v % 2 ^ 32) decimal.value
    ∙ omega (arith, lt)

atoi-negated :
    (m : ℕ) (t : List ℕ) → IsDecimal m t → atoi (b'-' ∷ t) ≡ (2 ^ 32 - m % 2 ^ 32) % 2 ^ 32
atoi-negated m t decimal =
    let (c, r, whole, low, high, chars) = decimal.number in
    atoi-minus t (subst IsText (sym whole) chars)
    ∙ ap (λ v. (2 ^ 32 - v % 2 ^ 32) % 2 ^ 32) decimal.value

-- What `%d` writes for an argument of 64 bits is read by `atoi` as the low 32 bits of the argument.
pub atoi-oint : (n : ℕ) → n < 2 ^ 64 → atoi (oint n 10 0 4 fmt_signed int_max) ≡ n % 2 ^ 32
atoi-oint n lt = elim (Bool-cases (leb (2 ^ 31) (n % 2 ^ 32))) [
  | inl negative ↦
      let m = (2 ^ 64 - n) % 2 ^ 64 % 2 ^ 32 in
      let (prefix, text) = below_zero n negative in
      let decimal = digits-IsDecimal m (omega arith) in
      let short = subst (λ t. length t ≤ 65) (sym text) decimal.short in
      rw (oint-plain n short, prefix, text) (atoi-negated m _ decimal ∙ omega (arith, lt))
  | inr positive ↦
      let m = n % 2 ^ 32 in
      let (prefix, text) = from_zero n positive in
      let decimal = digits-IsDecimal m (omega arith) in
      let short = subst (λ t. length t ≤ 65) (sym text) decimal.short in
      rw (oint-plain n short, prefix, text) (atoi-IsDecimal m _ (omega arith) decimal)
]
