-- ===== src/Stdio/Printf.antt =====
-- `vfprintf` and `vsnprintf` of stdio.c. The format is the list of its characters. What `ofloat` writes for a
-- floating-point argument is a parameter.
use yasos_libc.Stdio.Directive.{
  Arg, number_of, text_of, others, set_flag, runs_off, Spec, int_of, read_spec,
}
use yasos_libc.Memory.{Ram, store8, store32}
use yasos_libc.Stdio.{Kernel, File, caller, fputc}
use yasos_libc.Base.{
  ℕ, zero, suc, ◌+◌, ◌-◌, ◌%◌, ◌^◌, Bool, true, false, not, ◌&&◌, ◌||◌, ltb, leb, ◌==◌,
  if◌then◌else◌, Option, none, some, List, [], ◌∷◌, ◌++◌, length,
}
use yasos_libc.Fnmatch.{has_flag}
use yasos_libc.Stdio.Integer.{fmt_left, fmt_alt, fmt_signed, fmt_ucase, pad, ostr, oint}

-- `va_arg(ap, long)` as an `unsigned long long`, and `va_arg(ap, unsigned long)`.
abbrev pub long_of : ℕ → ℕ
long_of n = let low = n % 2 ^ 32 in if leb (2 ^ 31) low then low + (2 ^ 64 - 2 ^ 32) else low

unfoldable pub signed_arg : Spec → ℕ
signed_arg d = if leb 8 d.bytes then number_of d.args % 2 ^ 64 else long_of (number_of d.args)

unfoldable pub unsigned_arg : Spec → ℕ
unsigned_arg d = number_of d.args % (if leb 8 d.bytes then 2 ^ 64 else 2 ^ 32)

-- The text of `%c`.
unfoldable pub char_text : ℕ → Bool → ℕ → List ℕ
char_text wid left c = if left then c ∷ pad (wid - 1) b' ' else pad (wid - 1) b' ' ++ (c ∷ [])

-- What a conversion does: it writes characters, or it stores the count at an address.
pub data Action : Type 0 where
  writes : List ℕ → Action
  counts : ℕ → Action

-- The value of `vfprintf`, and the stream.
pub record Printed (W : Type 0) : Type 0 where
  pub returned : ℕ
  pub fp : File W

-- The `FILE` that `vsnprintf` writes to. `osize` is an `int`: a size above 2^31 makes it negative, and then
-- nothing is stored, just as for 0, which stands for it here.
unfoldable pub string_sink : {W : Type 0} → Ram → W → ℕ → ℕ → File W
string_sink ram world dst sz = record {
  fd = none;
  back = none;
  ibuf = 0;
  obuf = dst;
  isize = 0;
  osize = if sz == 0 || ltb (2 ^ 31) sz then 0 else sz - 1;
  ilen = 0;
  olen = 0;
  oown = caller;
  icur = 0;
  ostat = 0;
  eof = false;
  err = false;
  is_stderr = false;
  ram = ram;
  world = world;
}

module _ {W : Type 0} (k : Kernel W) where
  -- The calls of `fputc` for a text, whose results are not looked at.
  unfoldable pub put_all : List ℕ → File W → File W
  put_all [] fp = fp
  put_all (c ∷ s) fp = put_all s (fputc k c fp).1

-- `*va_arg(ap, int *) = fp->ostat - beg`
unfoldable pub store_ostat : {W : Type 0} → ℕ → ℕ → File W → File W
store_ostat at beg fp = record fp { ram = store32 fp.ram at ((fp.ostat - beg) % 2 ^ 32) }

module _ (ofloat : ℕ → ℕ → ℕ → ℕ → Bool → Bool → Bool → List ℕ) where
  -- The `switch` at the character `c`. It keeps what is left of the format, and drops an argument if it
  -- takes one.
  unfoldable pub convert : ℕ → Spec → Action × List Arg
  convert c d =
      let left = has_flag d.flags fmt_left in
      let zero_flag = d.zero_flag in
      let unsigned =
        λ (base flags : ℕ). writes (oint (unsigned_arg d) base d.wid d.bytes flags d.max_len) in
      if c == b'd' || c == b'i'
      then (
        writes (oint (signed_arg d) 10 d.wid d.bytes (set_flag d.flags fmt_signed) d.max_len),
        others d.args,
      )
      else if c == b'u'
      then (
        unsigned 10 (d.flags - (if has_flag d.flags fmt_alt then fmt_alt else 0)),
        others d.args,
      )
      else if c == b'o'
      then (unsigned 8 d.flags, others d.args)
      else if c == b'p'
      then (unsigned 16 (set_flag d.flags fmt_alt), others d.args)
      else if c == b'x'
      then (unsigned 16 d.flags, others d.args)
      else if c == b'X'
      then (unsigned 16 (set_flag d.flags fmt_ucase), others d.args)
      else if c == b'c'
      then (writes (char_text d.wid left (int_of d.args)), others d.args)
      else if c == b's'
      then (writes (ostr (text_of d.args) d.wid left d.max_len b' '), others d.args)
      else if c == b'f' || c == b'F'
      then (
        writes (ofloat (number_of d.args) d.wid d.flags d.max_len zero_flag (c == b'F') false),
        others d.args,
      )
      else if c == b'g' || c == b'G'
      then (
        writes (ofloat (number_of d.args) d.wid d.flags d.max_len zero_flag (c == b'G') true),
        others d.args,
      )
      else if c == b'n'
      then (counts (number_of d.args), others d.args)
      else (writes (c ∷ []), d.args)

  module _ {W : Type 0} (k : Kernel W) where
    -- `while (*s)`, with `ostat` as it was at the start. `none` is no result, for want of fuel or because the
    -- code reads on behind the format. `%n` stores an `int` in the memory.
    unfoldable pub vfprintf_loop : ℕ → ℕ → List ℕ → List Arg → Printed W → Option (Printed W)
    vfprintf_loop beg zero s args p = none
    vfprintf_loop beg (suc fuel) [] args p = some p
    vfprintf_loop beg (suc fuel) (c ∷ s) args p = elim (c == b'%') [
      | false ↦
          vfprintf_loop beg fuel s args
            (record p { returned = p.returned + 1; fp = (fputc k c p.fp).1 })
      | true ↦ elim (runs_off s) [
        | true ↦ none
        | false ↦ elim (read_spec s args).s [
          | [] ↦ some p
          | x ∷ rest ↦
              let (action, args') = convert x (read_spec s args) in
              elim action [
                | writes t ↦
                    vfprintf_loop beg fuel rest args'
                      (record p { returned = p.returned + length t; fp = put_all k t p.fp })
                | counts at ↦
                    vfprintf_loop beg fuel rest args' (record p { fp = store_ostat at beg p.fp })
              ]
        ]
      ]
    ]

    unfoldable pub vfprintf : File W → List ℕ → List Arg → Option (Printed W)
    vfprintf fp fmt args =
        vfprintf_loop fp.ostat (suc (length fmt)) fmt args (record { returned = 0; fp = fp })

    -- The value and the memory.
    unfoldable pub vsnprintf : Ram → W → ℕ → ℕ → List ℕ → List Arg → Option (ℕ × Ram)
    vsnprintf ram world dst sz fmt args = elim (vfprintf (string_sink ram world dst sz) fmt args) [
      | none ↦ none
      | some p ↦ some (
        p.returned,
        if not (dst == 0) && not (sz == 0) then store8 p.fp.ram (dst + p.fp.olen) 0 else p.fp.ram,
      )
    ]

    -- `vsprintf`
    unfoldable pub vsprintf : Ram → W → ℕ → List ℕ → List Arg → Option (ℕ × Ram)
    vsprintf ram world dst fmt args = vsnprintf ram world dst (2 ^ 20) fmt args
