-- ===== src/Stdio/Directive.antt =====
-- The directives of a format of `vfprintf` in stdio.c, and the arguments they take.
use yasos_libc.Base.{
  ℕ, ◌+◌, ◌-◌, ◌*◌, ◌%◌, ◌^◌, Bool, true, false, not, leb, ◌==◌, if◌then◌else◌, bit_or, Option,
  none, List, [], ◌∷◌,
}
use yasos_libc.Fnmatch.{has_flag}
use yasos_libc.Ctype.{isdigit}
use yasos_libc.Strto.{cur, next}
use yasos_libc.Stdio.Integer.{int_max, fmt_left, fmt_plus, fmt_blank, fmt_alt, fmt_zero}

-- An argument: the 64 bits of a number or pointer, or a string, `none` for NULL.
pub data Arg : Type 0 where
  number : ℕ → Arg
  text : Option (List ℕ) → Arg

-- `va_arg` of an integer; the code may not ask for one that is not there.
abbrev pub number_of : List Arg → ℕ
number_of [] = 0
number_of (number n ∷ args) = n
number_of (text s ∷ args) = 0

abbrev pub text_of : List Arg → Option (List ℕ)
text_of [] = none
text_of (number n ∷ args) = none
text_of (text s ∷ args) = s

abbrev pub others : List Arg → List Arg
others [] = []
others (a ∷ args) = args

-- `flags |= flag`
unfoldable pub set_flag : ℕ → ℕ → ℕ
set_flag flags flag = bit_or flags flag

-- `f - fmt_flags` as a bit; 0 stands for NULL.
unfoldable pub flag_of : ℕ → ℕ
flag_of c =
    if c == b'-'
    then fmt_left
    else if c == b'+'
    then fmt_plus
    else if c == b' '
    then fmt_blank
    else if c == b'#'
    then fmt_alt
    else if c == b'0'
    then fmt_zero
    else 0

-- `while ((f = strchr(fmt_flags, *s)))`, as long as characters are left. At the terminator, which `strchr` finds
-- too, the code reads on behind the format: `runs_off` says that the loop comes there, and the callers then
-- give no result.
unfoldable pub read_flags : List ℕ → ℕ → ℕ × List ℕ
read_flags [] flags = (flags, [])
read_flags (c ∷ s) flags =
    let rest = read_flags s (set_flag flags (flag_of c)) in
    if flag_of c == 0 then (flags, c ∷ s) else rest

-- The flags behind a `%` go on to the terminator.
unfoldable pub runs_off : List ℕ → Bool
runs_off [] = true
runs_off (c ∷ s) = let rest = runs_off s in if flag_of c == 0 then false else rest

-- `while (isdigit(*s)) …`
unfoldable pub read_number : List ℕ → ℕ → ℕ × List ℕ
read_number [] wid = (wid, [])
read_number (c ∷ s) wid =
    let rest = read_number s (wid * 10 + (c - b'0')) in if isdigit c then rest else (wid, c ∷ s)

-- The directive as far as it was read, with the flag `0` as it was given, and the arguments that are left.
pub record Spec : Type 0 where
  pub s : List ℕ
  pub args : List Arg
  pub flags : ℕ
  pub zero_flag : Bool
  pub wid : ℕ
  pub max_len : ℕ
  pub bytes : ℕ

abbrev pub int_of : List Arg → ℕ
int_of args = number_of args % 2 ^ 32

-- The width, and a `-` for a negative argument.
unfoldable pub read_width : Spec → Spec
read_width d =
    let given = int_of d.args in
    let (wid, s) = read_number d.s 0 in
    if cur d.s == b'*'
    then (if leb (2 ^ 31) given
        then record d {
          s = next d.s;
          args = others d.args;
          flags = set_flag d.flags fmt_left;
          wid = 2 ^ 32 - given;
        }
        else record d { s = next d.s; args = others d.args; wid = given })
    else record d { s = s; wid = wid }

-- The precision, which sets the flag `0`.
unfoldable pub read_precision : Spec → Spec
read_precision d =
    let given = int_of (d.args) in
    let (max_len, s) = read_number (next d.s) 0 in
    let flags = set_flag d.flags fmt_zero in
    if not (cur d.s == b'.')
    then d
    else if cur (next d.s) == b'*'
    then record d {
      s = next (next d.s);
      args = others d.args;
      flags = flags;
      max_len = if leb (2 ^ 31) given then int_max else given;
    }
    else if isdigit (cur (next d.s))
    then record d { s = s; flags = flags; max_len = max_len }
    else record d { s = next d.s; flags = flags }

-- How many there are of a character, and what follows.
unfoldable pub read_run : ℕ → List ℕ → ℕ → ℕ × List ℕ
read_run c [] n = (n, [])
read_run c (x ∷ s) n = let rest = read_run c s (n + 1) in if x == c then rest else (n, x ∷ s)

-- `l`, `h` and `L`.
unfoldable pub read_length : Spec → Spec
read_length d =
    let (ls, s1) = read_run b'l' d.s 0 in
    let bytes : ℕ = if leb 2 ls then 8 else 4 in
    let (hs, s2) = read_run b'h' s1 0 in
    let size : ℕ = if hs == 0 then bytes else if hs == 1 then 2 else 1 in
    record d { s = if cur s2 == b'L' then next s2 else s2; bytes = size }

unfoldable pub read_spec : List ℕ → List Arg → Spec
read_spec fmt args =
    let (flags, s) = read_flags fmt 0 in
    read_length (
      read_precision (
        read_width (record {
          s = s;
          args = args;
          flags = flags;
          zero_flag = has_flag flags fmt_zero;
          wid = 0;
          max_len = int_max;
          bytes = 4;
        })))
