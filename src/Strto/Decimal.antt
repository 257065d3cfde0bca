-- ===== src/Strto/Decimal.antt =====
-- `atoi` and `atol`: the loop of 32-bit arithmetic against the value of the decimal digits.
use yasos_libc.Base.{
  ℕ, ◌+◌, ◌-◌, ◌*◌, ◌%◌, ◌^◌, ◌≤◌, ◌<◌, ◌≡◌, refl, sym, ap, ◌∙◌, arith, Bool, true, false, ◌||◌,
  leb, ◌==◌, if◌then◌else◌, inl, inr, if_both, none, some, List, [], ◌∷◌,
}
use native.Mathlib.Nat.{mod-mod}
use yasos_libc.Ctype.Classes.{class_ranges}
use yasos_libc.Strto.{read_sign, skip_space, next, digit, decimal_loop, atoi, atol}
use yasos_libc.Strto.Digits.{digits_of, value_from, digit_cases}
use yasos_libc.Strto.Ranges.{is_minus}
use yasos_libc.Ctype.{isspace}

-- The characters of a string are bytes.
unfoldable pub IsText : List ℕ → Type 0
IsText [] = Unit
IsText (c ∷ s) = (c < 256) × IsText s

decimal-none : (c : ℕ) → c < 256 → digit c 10 ≡ none → leb ((c + 2 ^ 32 - b'0') % 2 ^ 32) 9 ≡ false
unfolding digit
decimal-none c byte gone = ground arith

decimal-some :
    (c d : ℕ)
    → c < 256
    → digit c 10 ≡ some d
    → (leb ((c + 2 ^ 32 - b'0') % 2 ^ 32) 9 ≡ true) × (c ≡ b'0' + d)
unfolding digit
decimal-some c d byte here = ground arith

step-mod : (v d : ℕ) → (v % 2 ^ 32 * 10 + d) % 2 ^ 32 ≡ (v * 10 + d) % 2 ^ 32
step-mod v d = omega arith

value_from-mod :
    (v : ℕ) (ds : List ℕ) → value_from 10 (v % 2 ^ 32) ds % 2 ^ 32 ≡ value_from 10 v ds % 2 ^ 32
unfolding value_from
value_from-mod v [] = mod-mod v (2 ^ 32)
value_from-mod v (d ∷ ds) =
    sym (value_from-mod (v % 2 ^ 32 * 10 + d) ds)
    ∙ ap (λ x. value_from 10 x ds % 2 ^ 32) (step-mod v d)
    ∙ value_from-mod (v * 10 + d) ds

round-mod :
    (num c d : ℕ) → c ≡ b'0' + d → (num * 10 + c + 2 ^ 32 - b'0') % 2 ^ 32 ≡ (num * 10 + d) % 2 ^ 32
round-mod num c d is = omega arith

decimal_loop_lem :
    (s : List ℕ) (num : ℕ)
    → IsText s
    → num < 2 ^ 32
    → decimal_loop s num ≡ value_from 10 num (digits_of 10 s) % 2 ^ 32
unfolding decimal_loop digits_of value_from IsText
decimal_loop_lem [] num text lt = omega arith
decimal_loop_lem (c ∷ s) num (byte, text) lt = elim (digit_cases c 10) [
  | inl stop ↦
      let out = decimal-none c byte stop in rw (decimal_loop, digits_of, stop, out) omega arith
  | inr (d, here, small) ↦
      let (on, is) = decimal-some c d byte here in
      let later = decimal_loop_lem s ((num * 10 + c + 2 ^ 32 - b'0') % 2 ^ 32) text (omega arith) in
      rw (decimal_loop, digits_of, here, on)
        (later
          ∙ ap (λ x. value_from 10 x (digits_of 10 s) % 2 ^ 32) (round-mod num c d is)
          ∙ value_from-mod (num * 10 + d) (digits_of 10 s))
]

IsText-skip : (s : List ℕ) → IsText s → IsText (skip_space s)
unfolding IsText skip_space
IsText-skip [] text = text
IsText-skip (c ∷ s) (byte, text) =
    let all : IsText (c ∷ s) = (byte, text) in
    if_both IsText (isspace c) (λ t. IsText-skip s text) (λ f. all)

IsText-next : (s : List ℕ) → IsText s → IsText (next s)
unfolding IsText
IsText-next [] text = text
IsText-next (c ∷ s) (byte, text) = text

-- What follows the blanks and the sign.
unfoldable pub unsigned_part : List ℕ → List ℕ
unsigned_part start = let (neg, s) = read_sign start in s

IsText-unsigned : (start : List ℕ) → IsText start → IsText (unsigned_part start)
unfolding unsigned_part read_sign
IsText-unsigned start text =
    if_both (λ (p : Bool × List ℕ). IsText p.1) _ (λ t. IsText-next _ (IsText-skip start text))
      (λ f. IsText-skip start text)

-- The 32-bit pattern of a number with a sign.
unfoldable pub signed32 : Bool → ℕ → ℕ
signed32 neg n = if neg then (2 ^ 32 - n % 2 ^ 32) % 2 ^ 32 else n % 2 ^ 32

-- For a string of bytes, `atoi` and `atol` give the number that the decimal digits behind the blanks and
-- the sign stand for, negated behind a `-`, on 32 bits.
pub atoi_lem :
    (start : List ℕ)
    → IsText start
    → (atoi start
        ≡ signed32 (is_minus start) (value_from 10 0 (digits_of 10 (unsigned_part start))))
      × (atol start
          ≡ signed32 (is_minus start) (value_from 10 0 (digits_of 10 (unsigned_part start))))
unfolding atoi atol signed32 is_minus unsigned_part
atoi_lem start text =
    let value =
      decimal_loop_lem (unsigned_part start) 0 (IsText-unsigned start text) (omega arith) in
    let both = ap (λ n. if is_minus start then (2 ^ 32 - n) % 2 ^ 32 else n) value in (both, both)

-- A digit is no blank and no sign.
skip_digit : (c : ℕ) (s : List ℕ) → b'0' ≤ c → c ≤ b'9' → skip_space (c ∷ s) ≡ c ∷ s
unfolding skip_space
skip_digit c s low high =
    let char : isspace c ≡ false = (class_ranges c (omega arith)).2 ∙ ground arith in
    rw (skip_space, char) refl

sign_digit : (c : ℕ) (s : List ℕ) → b'0' ≤ c → c ≤ b'9' → read_sign (c ∷ s) ≡ (false, c ∷ s)
unfolding read_sign
sign_digit c s low high =
    let sign : (c == b'-' || c == b'+') ≡ false = ground arith in
    rw (read_sign, skip_digit c s low high, sign) refl

digit_front :
    (c : ℕ) (s : List ℕ)
    → b'0' ≤ c
    → c ≤ b'9'
    → (is_minus (c ∷ s) ≡ false) × (unsigned_part (c ∷ s) ≡ c ∷ s)
unfolding is_minus unsigned_part
digit_front c s low high =
    let e = sign_digit c s low high in
    (ap (λ (p : Bool × List ℕ). p.0) e, ap (λ (p : Bool × List ℕ). p.1) e)

pub atoi-digits :
    (c : ℕ) (s : List ℕ)
    → b'0' ≤ c
    → c ≤ b'9'
    → IsText (c ∷ s)
    → atoi (c ∷ s) ≡ value_from 10 0 (digits_of 10 (c ∷ s)) % 2 ^ 32
unfolding signed32
atoi-digits c s low high text =
    let front = digit_front c s low high in (atoi_lem (c ∷ s) text).0 ∙ (rw (front.0, front.1) refl)

-- A `-` is no blank.
sign_minus : (s : List ℕ) → read_sign (b'-' ∷ s) ≡ (true, s)
unfolding read_sign skip_space
sign_minus s =
    let char : isspace b'-' ≡ false = (class_ranges b'-' (omega arith)).2 ∙ refl in
    let kept : skip_space (b'-' ∷ s) ≡ b'-' ∷ s = rw (skip_space, char) refl in
    rw (read_sign, kept) refl

minus_front : (s : List ℕ) → (is_minus (b'-' ∷ s) ≡ true) × (unsigned_part (b'-' ∷ s) ≡ s)
unfolding is_minus unsigned_part
minus_front s =
    let e = sign_minus s in (ap (λ (p : Bool × List ℕ). p.0) e, ap (λ (p : Bool × List ℕ). p.1) e)

pub atoi-minus :
    (s : List ℕ)
    → IsText s
    → atoi (b'-' ∷ s) ≡ (2 ^ 32 - value_from 10 0 (digits_of 10 s) % 2 ^ 32) % 2 ^ 32
unfolding signed32 IsText
atoi-minus s text =
    let front = minus_front s in
    (atoi_lem (b'-' ∷ s) (omega arith, text)).0 ∙ (rw (front.0, front.1) refl)
