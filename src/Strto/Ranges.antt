-- ===== src/Strto/Ranges.antt =====
-- `strtoull` and `strtoll` against the value of the digits in ℕ.
use yasos_libc.Base.{
  ℕ, ◌+◌, ◌/◌, ◌%◌, ◌^◌, ◌<◌, ◌≡◌, refl, ap, ◌∙◌, arith, Bool, false, leb, ◌==◌, if◌then◌else◌,
  le→leb, inl, inr, if_both, Option, none, some, List,
}
use yasos_libc.Strto.{
  Reading, Prefix, strto_base, read_sign, is_x, is_b, cur, end_of, read_digits, next, strtoull,
  strtoll, Conversion, ullong_max, llong_max, erange, negate64,
}
use yasos_libc.Strto.Digits.{
  digits_of, after_digits, has_digit, value_from, digit_loop-rest, digit_loop-any,
}
use yasos_libc.Strto.Loop.{Counted, read_digits-Counted}

-- Whether a `-` stands in front of the number.
unfoldable pub is_minus : List ℕ → Bool
is_minus start = let (neg, s) = read_sign start in neg

-- The base and the place where the digits begin.
unfoldable pub prefix_of : List ℕ → ℕ → Prefix
prefix_of start base = let (neg, s) = read_sign start in strto_base s base

-- The number that the digits stand for, whatever its size.
unfoldable pub magnitude : List ℕ → ℕ → ℕ
magnitude start base = let p = prefix_of start base in value_from p.base 0 (digits_of p.base p.s)

-- Where the text of the number ends, the start when there is no number.
unfoldable pub number_end : List ℕ → ℕ → List ℕ
number_end start base =
    let p = prefix_of start base in
    if has_digit p.base p.s
    then after_digits p.base p.s
    else elim p.after_zero [ none ↦ start | some t ↦ t ]

known-pos :
    (base : ℕ) (zero_first x b : Bool)
    → 0 < (
        if base == 0 then if zero_first then if x then 16 else if b then 2 else 8 else 10 else base)
known-pos base zero_first x b = ground arith

strto_base-pos : (s : List ℕ) (base : ℕ) → 0 < (strto_base s base).base
unfolding strto_base
strto_base-pos s base =
    let known = known-pos base (cur s == b'0') (is_x (cur (next s))) (is_b (cur (next s))) in
    if_both (λ (r : Prefix). 0 < r.base) _ (λ t. known) (λ f. known)

read_digits-end :
    (base limit : ℕ) (s start : List ℕ) (z : Option (List ℕ))
    → end_of start z (read_digits base limit s)
      ≡ (if has_digit base s then after_digits base s else elim z [ none ↦ start | some t ↦ t ])
unfolding end_of read_digits
read_digits-end base limit s start z =
    let any =
      digit_loop-any base (limit / base) (limit % base) s
        (record { s = s; num = 0; overflow = false; any = false }) in
    let rest =
      digit_loop-rest base (limit / base) (limit % base) s
        (record { s = s; num = 0; overflow = false; any = false }) refl in
    rw (any, rest) refl

-- What a conversion with the given range returns for a number.
unfoldable pub within : ℕ → ℕ → (ℕ → ℕ) → ℕ → List ℕ → ℕ → Conversion
within limit beyond value n end errno =
    if leb n limit
    then record { value = value n; end = end; errno = errno }
    else record { value = beyond; end = end; errno = erange }

within-Counted :
    (limit beyond : ℕ) (value : ℕ → ℕ) (n : ℕ) (end : List ℕ) (errno : ℕ) (r : Reading)
    → Counted limit n r
    → Path Conversion
        (if r.overflow
          then record { value = beyond; end = end; errno = erange }
          else record { value = value r.num; end = end; errno = errno })
        (within limit beyond value n end errno)
unfolding within
within-Counted limit beyond value n end errno r (inl (clear, same, le)) =
    rw (clear, same, le→leb n limit le) refl
within-Counted limit beyond value n end errno r (inr (set, more)) =
    let above : leb n limit ≡ false = ground arith in rw (set, above) refl

pub strtoull_lem :
    (start : List ℕ) (base errno : ℕ)
    → strtoull start base errno
      ≡ within ullong_max ullong_max
          (λ n. if is_minus start then negate64 n else n)
          (magnitude start base)
          (number_end start base)
          errno
unfolding strtoull is_minus magnitude number_end prefix_of
strtoull_lem start base errno =
    let (neg, s) = read_sign start in
    let p = strto_base s base in
    ap
      (λ e.
        if (read_digits p.base ullong_max p.s).overflow
        then record { value = ullong_max; end = e; errno = erange }
        else record {
          value =
              if neg
              then negate64 (read_digits p.base ullong_max p.s).num
              else (read_digits p.base ullong_max p.s).num;
          end = e;
          errno = errno;
        })
      (read_digits-end p.base ullong_max p.s start p.after_zero)
    ∙ within-Counted ullong_max ullong_max (λ n. if neg then negate64 n else n)
        (magnitude start base) (number_end start base) errno (read_digits p.base ullong_max p.s)
        (read_digits-Counted p.base ullong_max p.s (strto_base-pos s base) (omega arith))

-- The largest magnitude a `long long` of this sign has.
abbrev pub llong_limit : Bool → ℕ
llong_limit neg = if neg then llong_max + 1 else llong_max

pub strtoll_lem :
    (start : List ℕ) (base errno : ℕ)
    → strtoll start base errno
      ≡ within
          (llong_limit (is_minus start))
          (if is_minus start then 2 ^ 63 else llong_max)
          (λ n. if is_minus start then negate64 n else n)
          (magnitude start base)
          (number_end start base)
          errno
unfolding strtoll is_minus magnitude number_end prefix_of
strtoll_lem start base errno =
    let (neg, s) = read_sign start in
    let p = strto_base s base in
    let small : llong_limit neg < 2 ^ 64 = ground arith in
    ap
      (λ e.
        if (read_digits p.base (llong_limit neg) p.s).overflow
        then record { value = if neg then 2 ^ 63 else llong_max; end = e; errno = erange }
        else record {
          value =
              if neg
              then negate64 (read_digits p.base (llong_limit neg) p.s).num
              else (read_digits p.base (llong_limit neg) p.s).num;
          end = e;
          errno = errno;
        })
      (read_digits-end p.base (llong_limit neg) p.s start p.after_zero)
    ∙ within-Counted (llong_limit neg) (if neg then 2 ^ 63 else llong_max)
        (λ n. if neg then negate64 n else n) (magnitude start base) (number_end start base) errno
        (read_digits p.base (llong_limit neg) p.s)
        (read_digits-Counted p.base (llong_limit neg) p.s (strto_base-pos s base) small)
