-- ===== src/Strto.antt =====
-- atoi.c: `strtoull`, `strtoll`, `strtoul`, `strtol`, `atoi` and `atol`. A pointer into a string is the
-- list of the characters from there to the terminator, so `*s` is 0 at its end. A character is a
-- number below 256, an integer of 64 or 32 bits its bit pattern, `base` a number that is not negative.
-- `long` has 32 bits, as on the target.
pub mod Digits
pub mod Loop
pub mod Ranges
pub mod Decimal
pub mod Narrow
mod Examples
use yasos_libc.Base.{
  ℕ, zero, suc, ◌+◌, ◌-◌, ◌*◌, ◌/◌, ◌%◌, ◌^◌, ◌≤◌, ◌<◌, ◌≡◌, refl, sym, ap, ◌∙◌, arith, Bool, true,
  false, not, ◌&&◌, ◌||◌, ltb, leb, ◌==◌, if◌then◌else◌, bit_and, bit_or, bit_xor, leb→le, ltb→lt,
  lt→ltb, le→leb, ltb-false, leb-false, tests, ==_iff, Bool-cases, Option-cases, inl, inr, ◌⊎◌, ◌≢◌,
  ◌↔◌, if_both, Option, none, some, List, [], ◌∷◌, ◌++◌, map, length, get_or, length-append,
}
use yasos_libc.Base.Loop.{while, while_inv}
use yasos_libc.Ctype.{isspace}

abbrev pub erange : ℕ
erange = 34

abbrev pub ullong_max : ℕ
ullong_max = 2 ^ 64 - 1

abbrev pub llong_max : ℕ
llong_max = 2 ^ 63 - 1

abbrev pub ulong_max : ℕ
ulong_max = 2 ^ 32 - 1

abbrev pub long_max : ℕ
long_max = 2 ^ 31 - 1

-- `*s`
abbrev pub cur : List ℕ → ℕ
cur [] = 0
cur (c ∷ s) = c

-- `s + 1`
abbrev pub next : List ℕ → List ℕ
next [] = []
next (c ∷ s) = s

unfoldable pub skip_space : List ℕ → List ℕ
skip_space [] = []
skip_space (c ∷ s) = if isspace c then skip_space s else c ∷ s

-- `none` is the result -1.
pub digit : ℕ → ℕ → Option ℕ
digit c base =
    let within = λ (d : ℕ). if ltb d base then some d else none in
    if leb b'0' c && leb c b'9'
    then within (c - b'0')
    else if leb b'A' c && leb c b'Z'
    then within (10 + c - b'A')
    else if leb b'a' c && leb c b'z'
    then within (10 + c - b'a')
    else none

pub record Prefix : Type 0 where
  pub s : List ℕ
  pub base : ℕ
  pub after_zero : Option (List ℕ)

abbrev pub is_x : ℕ → Bool
is_x c = c == b'x' || c == b'X'

abbrev pub is_b : ℕ → Bool
is_b c = c == b'b' || c == b'B'

pub strto_base : List ℕ → ℕ → Prefix
strto_base p base =
    let known =
      if base == 0
      then if cur p == b'0'
        then if is_x (cur (next p)) then 16 else if is_b (cur (next p)) then 2 else 8
        else 10
      else base in
    if cur p == b'0' && (known == 16 && is_x (cur (next p)) || known == 2 && is_b (cur (next p)))
    then record { s = next (next p); base = known; after_zero = some (next p) }
    else record { s = p; base = known; after_zero = none }

-- The variables of the digit loop.
pub record Reading : Type 0 where
  pub s : List ℕ
  pub num : ℕ
  pub overflow : Bool
  pub any : Bool

-- One round: `num = num * base + dig` on 64 bits, with the test against the cutoff before it.
pub take_digit : ℕ → ℕ → ℕ → ℕ → Reading → Reading
take_digit base cutoff cutlim dig r = record {
  s = next r.s;
  num = (r.num * base + dig) % 2 ^ 64;
  overflow = if ltb cutoff r.num || r.num == cutoff && ltb cutlim dig then true else r.overflow;
  any = true;
}

-- `for (; (dig = digit(*s, base)) >= 0; s++)`, with the characters that are left to drive it.
pub digit_loop : ℕ → ℕ → ℕ → List ℕ → Reading → Reading
digit_loop base cutoff cutlim [] r = r
digit_loop base cutoff cutlim (c ∷ rest) r = elim (digit c base) [
  | none ↦ r
  | some dig ↦ digit_loop base cutoff cutlim rest (take_digit base cutoff cutlim dig r)
]

-- The digits of a magnitude up to `limit`.
pub read_digits : ℕ → ℕ → List ℕ → Reading
read_digits base limit s =
    digit_loop base (limit / base) (limit % base) s
      (record { s = s; num = 0; overflow = false; any = false })

-- What `*endptr` is set to, when a digit or at least the `0` of a prefix was read, and when not.
pub end_of : List ℕ → Option (List ℕ) → Reading → List ℕ
end_of start after_zero r = if r.any then r.s else elim after_zero [ none ↦ start | some t ↦ t ]

-- The blanks and the sign in front of a number: whether it is negative, and the rest.
pub read_sign : List ℕ → Bool × List ℕ
read_sign start =
    let s = skip_space start in
    if cur s == b'-' || cur s == b'+' then (cur s == b'-', next s) else (false, s)

-- The value, the pointer that is stored, and `errno`.
pub record Conversion : Type 0 where
  pub value : ℕ
  pub end : List ℕ
  pub errno : ℕ

-- `-num` on 64 bits.
abbrev pub negate64 : ℕ → ℕ
negate64 num = (2 ^ 64 - num) % 2 ^ 64

pub strtoull : List ℕ → ℕ → ℕ → Conversion
strtoull start base errno =
    let (neg, s) = read_sign start in
    let p = strto_base s base in
    let r = read_digits p.base ullong_max p.s in
    let end = end_of start p.after_zero r in
    if r.overflow
    then record { value = ullong_max; end = end; errno = erange }
    else record { value = if neg then negate64 r.num else r.num; end = end; errno = errno }

-- The value is the bit pattern of a `long long`.
pub strtoll : List ℕ → ℕ → ℕ → Conversion
strtoll start base errno =
    let (neg, s) = read_sign start in
    let p = strto_base s base in
    let r = read_digits p.base (if neg then llong_max + 1 else llong_max) p.s in
    let end = end_of start p.after_zero r in
    if r.overflow
    then record { value = if neg then 2 ^ 63 else llong_max; end = end; errno = erange }
    else record { value = if neg then negate64 r.num else r.num; end = end; errno = errno }

-- The bit pattern of a negative `long long`.
abbrev pub is_negative : ℕ → Bool
is_negative v = leb (2 ^ 63) v

-- What `strtol` does with the result of `strtoll`. The value is the bit pattern of a `long`.
pub narrow : Conversion → Conversion
narrow c =
    if not (is_negative c.value) && ltb long_max c.value
    then record c { value = long_max; errno = erange }
    else if is_negative c.value && ltb c.value (2 ^ 64 - 2 ^ 31)
    then record c { value = 2 ^ 31; errno = erange }
    else record c { value = c.value % 2 ^ 32 }

pub strtol : List ℕ → ℕ → ℕ → Conversion
strtol s base errno = narrow (strtoll s base errno)

-- What `strtoul` does with the result of `strtoull`, which ran with `errno` at 0.
pub narrow_unsigned : Bool → ℕ → Conversion → Conversion
narrow_unsigned neg saved c =
    let v = if neg then negate64 c.value else c.value in
    if c.errno == erange
    then record c { value = ulong_max }
    else if ltb ulong_max v
    then record c { value = ulong_max; errno = erange }
    else record c { value = if neg then (2 ^ 32 - v % 2 ^ 32) % 2 ^ 32 else v; errno = saved }

pub strtoul : List ℕ → ℕ → ℕ → Conversion
strtoul s base errno = narrow_unsigned (cur (skip_space s) == b'-') errno (strtoull s base 0)

-- The loop of `atoi` and `atol` over decimal digits, on 32 bits.
pub decimal_loop : List ℕ → ℕ → ℕ
decimal_loop [] num = num
decimal_loop (c ∷ s) num =
    let rest = decimal_loop s ((num * 10 + c + 2 ^ 32 - b'0') % 2 ^ 32) in
    if leb ((c + 2 ^ 32 - b'0') % 2 ^ 32) 9 then rest else num

pub atoi : List ℕ → ℕ
atoi start =
    let (neg, s) = read_sign start in
    let num = decimal_loop s 0 in if neg then (2 ^ 32 - num) % 2 ^ 32 else num

pub atol : List ℕ → ℕ
atol start =
    let (neg, s) = read_sign start in
    let num = decimal_loop s 0 in if neg then (2 ^ 32 - num) % 2 ^ 32 else num
