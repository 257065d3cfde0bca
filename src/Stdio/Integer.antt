-- ===== src/Stdio/Integer.antt =====
-- The texts of the conversions in stdio.c: `ostr` and `oint` call `fputc` for each character of the list here,
-- in order, and return how many they are. An `unsigned long long` is a number below 2 ^ 64.
use yasos_libc.Base.{
  ℕ, zero, suc, ◌+◌, ◌-◌, ◌/◌, ◌%◌, ◌^◌, Bool, true, false, not, ◌&&◌, ◌||◌, ltb, leb, ◌==◌,
  if◌then◌else◌, Option, none, some, List, [], ◌∷◌, ◌++◌, length, get_or, take,
}
use yasos_libc.Base.Text.{codes}
use yasos_libc.Fnmatch.{has_flag}
use yasos_libc.Strings.{strlen}

abbrev pub int_max : ℕ
int_max = 2 ^ 31 - 1

abbrev pub fmt_left : ℕ
fmt_left = 1

abbrev pub fmt_plus : ℕ
fmt_plus = 2

abbrev pub fmt_blank : ℕ
fmt_blank = 4

abbrev pub fmt_alt : ℕ
fmt_alt = 8

abbrev pub fmt_zero : ℕ
fmt_zero = 16

abbrev pub fmt_signed : ℕ
fmt_signed = 32

abbrev pub fmt_ucase : ℕ
fmt_ucase = 64

-- `while (n < fill) { fputc(c, fp); ++n; }`, from 0 on.
unfoldable pub pad : ℕ → ℕ → List ℕ
pad zero c = []
pad (suc n) c = c ∷ pad n c

-- `if (s == NULL) s = "(null)"`
unfoldable pub or_null : Option (List ℕ) → List ℕ
or_null none = codes "(null)"
or_null (some s) = s

-- `fill_character` stands in front of the text, or behind it if `left`.
unfoldable pub ostr : Option (List ℕ) → ℕ → Bool → ℕ → ℕ → List ℕ
ostr given wid left max_len fill_character =
    let s = or_null given in
    let str_len = if ltb (strlen s) max_len then strlen s else max_len in
    let fill = wid - str_len in
    let max = if ltb max_len (int_max - fill) then max_len + fill else max_len in
    if left
    then take max s ++ pad fill fill_character
    else pad fill fill_character ++ take (max - fill) s

-- `for (i = 0; n; i++) n /= base`, with `i` behind it.
unfoldable pub digits_loop : ℕ → ℕ → ℕ → ℕ → ℕ
digits_loop zero n base i = i
digits_loop (suc fuel) n base i = elim (n == 0) [
  | true ↦ i
  | false ↦ digits_loop fuel (n / base) base (i + 1)
]

unfoldable pub digits : ℕ → ℕ → ℕ
digits n base = let i = digits_loop 65 n base 0 in if i == 0 then 1 else i

abbrev pub digs : List ℕ
digs = codes "0123456789abcdef"

abbrev pub digs_uc : List ℕ
digs_uc = codes "0123456789ABCDEF"

-- `for (i = 0; i < d; i++)`, with `left` rounds to go, in front of what was written.
unfoldable pub digit_text : ℕ → List ℕ → ℕ → ℕ → List ℕ → List ℕ
digit_text zero table base n written = written
digit_text (suc left) table base n written =
    digit_text left table base (n / base) (get_or table (n % base) 0 ∷ written)

-- The test of the sign bit of `n`, as a number of so many bytes.
unfoldable pub is_below_zero : ℕ → ℕ → Bool
is_below_zero bytes n =
    (bytes == 4 && leb (2 ^ 31) (n % 2 ^ 32))
    || (bytes == 8 && leb (2 ^ 63) n)
    || (bytes == 2 && leb (2 ^ 15) (n % 2 ^ 16))
    || (bytes == 1 && leb (2 ^ 7) (n % 2 ^ 8))

-- The character of the sign; 0 stands for none.
unfoldable pub sign_char : ℕ → ℕ → ℕ → ℕ
sign_char n bytes flags =
    if has_flag flags fmt_signed
    then (if is_below_zero bytes n
        then b'-'
        else if has_flag flags fmt_plus
        then b'+'
        else if has_flag flags fmt_blank
        then b' '
        else 0)
    else 0

-- `n &= …`
unfoldable pub mask_to : ℕ → ℕ → ℕ
mask_to bytes n =
    if bytes == 1
    then n % 2 ^ 8
    else if bytes == 2
    then n % 2 ^ 16
    else if bytes == 4
    then n % 2 ^ 32
    else n

-- The digits of `n`, negated behind a `-`.
unfoldable pub digits_of_int : ℕ → ℕ → ℕ → ℕ → List ℕ
digits_of_int n base bytes flags =
    let positive =
      if has_flag flags fmt_signed && is_below_zero bytes n then (2 ^ 64 - n) % 2 ^ 64 else n in
    let m = mask_to bytes positive in
    digit_text (digits m base) (if has_flag flags fmt_ucase then digs_uc else digs) base m []

-- The sign, or the prefix of the base.
unfoldable pub prefix_of_int : ℕ → ℕ → ℕ → ℕ → List ℕ
prefix_of_int n base bytes flags =
    let sign = sign_char n bytes flags in
    if not (sign == 0)
    then sign ∷ []
    else if has_flag flags fmt_signed || n == 0 || not (has_flag flags fmt_alt)
    then []
    else if base == 16
    then b'0' ∷ (if has_flag flags fmt_ucase then b'X' else b'x') ∷ []
    else b'0' ∷ []

unfoldable pub oint : ℕ → ℕ → ℕ → ℕ → ℕ → ℕ → List ℕ
oint n base wid bytes flags max_len =
    let sign : ℕ = if sign_char n bytes flags == 0 then 0 else 1 in
    let left = has_flag flags fmt_left in
    let zero_fill = has_flag flags fmt_zero in
    let text = digits_of_int n base bytes flags in
    let prefix = prefix_of_int n base bytes flags in
    let i = length text + length prefix in
    let max = if ltb max_len (int_max - sign) then max_len + sign else max_len in
    let width = if max == int_max then wid else max in
    let body = ostr (some text) 0 false max b'0' in
    if left
    then prefix ++ (body ++ pad (width - i) b' ')
    else if zero_fill
    then prefix ++ (pad (width - i) b'0' ++ body)
    else pad (width - i) b' ' ++ (prefix ++ body)
