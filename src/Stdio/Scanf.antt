-- ===== src/Stdio/Scanf.antt =====
-- `vfscanf` of scanf.c. The arguments are the addresses that it stores at; what is stored is taken not to
-- lie in the buffers of the stream.
use yasos_libc.Base.{
  ℕ, zero, suc, ◌+◌, ◌^◌, Bool, true, false, not, ◌&&◌, ◌||◌, ltb, ◌==◌, if◌then◌else◌, Option,
  none, some, List, [], ◌∷◌, length,
}
use yasos_libc.Memory.{Ram, store8}
use yasos_libc.Ctype.{isspace}
use yasos_libc.Strto.{cur, next, skip_space}
use yasos_libc.Stdio.{Kernel, File, caller, is_none}
use yasos_libc.Stdio.ScanFormat.{Conversion, read_conversion, read_set}
use yasos_libc.Stdio.Scan.{Scan, or_eof, store_int, sget, sunget, skip_input_space, scan_int}

-- The variables of `vfscanf`.
pub record Reading (W : Type 0) : Type 0 where
  pub s : Scan W
  pub args : List ℕ
  pub ret : ℕ
  pub converted_any : Bool

-- `va_arg` of an address; the code may not ask for one that is not there.
abbrev pub address_of : List ℕ → ℕ
address_of [] = 0
address_of (p ∷ args) = p

abbrev pub other_addresses : List ℕ → List ℕ
other_addresses [] = []
other_addresses (p ∷ args) = args

abbrev pub with_ram : {W : Type 0} → Scan W → Ram → Scan W
with_ram s m = record s { fp = record s.fp { ram = m } }

-- `if (d) d[i] = v`
unfoldable pub store_if : {W : Type 0} → Bool → ℕ → ℕ → Scan W → Scan W
store_if d at v s = if d then with_ram s (store8 s.fp.ram at v) else s

-- The address for a conversion is taken from the arguments unless it is skipped.
unfoldable pub used : {W : Type 0} → Bool → Reading W → Reading W
used skip r = if skip then r else record r { args = other_addresses r.args; ret = r.ret + 1 }

-- `wid ? wid : 1 << 30`
abbrev pub most : ℕ → ℕ
most wid = if wid == 0 then 2 ^ 30 else wid

abbrev pub is_int : ℕ → Bool
is_int conv =
    conv == b'd'
    || conv == b'u'
    || conv == b'i'
    || conv == b'x'
    || conv == b'X'
    || conv == b'o'
    || conv == b'p'

module _ {W : Type 0} (k : Kernel W) where
  -- `while (got < n && (c = sget(s)) != EOF && …)`, with `left` rounds to go: how many characters were
  -- taken, the one that was not, and the scanner.
  unfoldable pub take_run : ℕ → (ℕ → Bool) → Bool → ℕ → ℕ → Scan W → ℕ × Option ℕ × Scan W
  take_run zero ok d at got s = (got, none, s)
  take_run (suc left) ok d at got s =
      let (c, s1) = sget k s in
      elim c [
        | none ↦ (got, none, s1)
        | some x ↦ elim (ok x) [
          | false ↦ (got, some x, s1)
          | true ↦ take_run left ok d (at + 1) (got + 1) (store_if d at x s1)
        ]
      ]

  -- `%c`; false stands for `return ret`.
  unfoldable pub convert_char : Conversion → Reading W → Bool × Reading W
  convert_char v r =
      let n = if v.wid == 0 then 1 else v.wid in
      let (got, c, s1) = take_run n (λ x. true) (not v.skip) (address_of r.args) 0 r.s in
      if ltb got n then (false, record r { s = s1 }) else (true, used v.skip (record r { s = s1 }))

  -- The end of `%s` and `%[`: the character that does not belong to it, and the terminator.
  unfoldable pub end_run : Bool → ℕ → ℕ → ℕ → Option ℕ → Scan W → Scan W
  end_run d n at got c s = store_if d (at + got) 0 (if ltb got n then sunget k c s else s)

  unfoldable pub convert_string : Conversion → Reading W → Bool × Reading W
  convert_string v r =
      let at = address_of r.args in
      let n = most v.wid in
      let (got, c, s1) = take_run n (λ x. not (isspace x)) (not v.skip) at 0 r.s in
      (true, used v.skip (record r { s = end_run (not v.skip) n at got c s1 }))

  unfoldable pub convert_set : Bool → (ℕ → Bool) → Conversion → Reading W → Bool × Reading W
  convert_set negate set v r =
      let at = address_of r.args in
      let n = most v.wid in
      let (got, c, s1) =
        take_run n (λ x. if negate then not (set x) else set x) (not v.skip) at 0 r.s in
      let stopped = if ltb got n then sunget k c s1 else s1 in
      if got == 0
      then (false, record r { s = stopped })
      else (true, used v.skip (record r { s = end_run (not v.skip) n at got c s1 }))

  -- The integers; `value` is `none` if no digits could be read.
  unfoldable pub convert_int : ℕ → Conversion → Reading W → Bool × Reading W
  convert_int conv v r =
      let base =
        if conv == b'i'
        then 0
        else if conv == b'x' || conv == b'X' || conv == b'p'
        then 16
        else if conv == b'o'
        then 8
        else 10 in
      let size = if conv == b'p' then 4 else v.size in
      let (value, s1) = scan_int k base (most v.wid) r.s in
      elim value [
        | none ↦ (false, record r { s = s1 })
        | some n ↦ (
          true,
          used v.skip (record r {
            s = if v.skip then s1 else with_ram s1 (store_int s1.fp.ram (address_of r.args) size n);
          }),
        )
      ]

  -- The `switch`, with what is left of the format.
  unfoldable pub scan_conversion : ℕ → List ℕ → Conversion → Reading W → Bool × List ℕ × Reading W
  scan_conversion conv fmt v r =
      let (negate, set, behind) = read_set fmt in
      if conv == b'c'
      then (let (on, r1) = convert_char v r in (on, fmt, r1))
      else if conv == b's'
      then (let (on, r1) = convert_string v r in (on, fmt, r1))
      else if conv == b'['
      then (if cur behind == b']'
          then (let (on, r1) = convert_set negate set v r in (on, next behind, r1))
          else (false, behind, r))
      else if is_int conv
      then (let (on, r1) = convert_int conv v r in (on, fmt, r1))
      else (false, fmt, r)

  -- `%n`
  unfoldable pub store_count : Conversion → Reading W → Reading W
  store_count v r = if v.skip then r else record r {
    s = with_ram r.s (store_int r.s.fp.ram (address_of r.args) v.size r.s.count);
    args = other_addresses r.args;
  }

  -- A character of the format that must be the next one: false stands for the return.
  unfoldable pub match_char : ℕ → Reading W → Bool × Option ℕ × Scan W
  match_char want r =
      let (c, s1) = sget k r.s in
      if or_eof c == want
      then (true, some r.ret, s1)
      else (false, if is_none c && not r.converted_any then none else some r.ret, sunget k c s1)

  -- The blanks in front of every conversion but `%c` and `%[`.
  unfoldable pub skip_before : ℕ → ℕ → Scan W → Option (Scan W)
  skip_before spaces conv s =
      let skipped = skip_input_space k spaces s in
      if conv == b'c' || conv == b'[' then some s else skipped

  -- `while (*fmt)`: the result, EOF where it is `none`, and the stream; `none` as a whole stands for no result
  -- for want of fuel. A run over blanks has `spaces` rounds at most.
  unfoldable pub vfscanf_loop : ℕ → ℕ → List ℕ → Reading W → Option (Option ℕ × File W)
  vfscanf_loop spaces zero fmt r = none
  vfscanf_loop spaces (suc fuel) [] r = some (some r.ret, r.s.fp)
  vfscanf_loop spaces (suc fuel) (f ∷ fmt) r = elim (isspace f) [
    | true ↦ elim (skip_input_space k spaces r.s) [
      | none ↦ none
      | some s1 ↦ vfscanf_loop spaces fuel (skip_space fmt) (record r { s = s1 })
    ]
    | false ↦ elim (not (f == b'%') || cur fmt == b'%') [
      | true ↦ elim (if f == b'%' then skip_input_space k spaces r.s else some r.s) [
        | none ↦ none
        | some s1 ↦
            let (same, value, s2) = match_char f (record r { s = s1 }) in
            elim same [
              | false ↦ some (value, s2.fp)
              | true ↦
                  vfscanf_loop spaces fuel (if f == b'%' then next fmt else fmt)
                    (record r { s = s2 })
            ]
      ]
      | false ↦ elim (read_conversion fmt).fmt [
        | [] ↦ some (some r.ret, r.s.fp)
        | conv ∷ after ↦ elim (conv == b'n') [
          | true ↦ vfscanf_loop spaces fuel after (store_count (read_conversion fmt) r)
          | false ↦ elim (skip_before spaces conv r.s) [
            | none ↦ none
            | some s1 ↦
                let (c, s2) = sget k s1 in
                let ready = record r { s = sunget k c s2; converted_any = true } in
                let (on, fmt', r') = scan_conversion conv after (read_conversion fmt) ready in
                elim c [
                  | none ↦
                      some (if not r.converted_any && r.ret == 0 then none else some r.ret, s2.fp)
                  | some x ↦ elim on [
                    | false ↦ some (some r'.ret, r'.s.fp)
                    | true ↦ vfscanf_loop spaces fuel fmt' r'
                  ]
                ]
          ]
        ]
      ]
    ]
  ]

  unfoldable pub vfscanf : ℕ → File W → List ℕ → List ℕ → Option (Option ℕ × File W)
  vfscanf spaces fp fmt args =
      vfscanf_loop spaces (suc (length fmt)) fmt
        (record { s = record { fp = fp; count = 0 }; args = args; ret = 0; converted_any = false })

  -- `ibuf` is `s`, the address of a string of `n` characters.
  unfoldable pub vsscanf : Ram → W → ℕ → ℕ → List ℕ → List ℕ → Option (Option ℕ × File W)
  vsscanf ram world s n fmt args =
      let source : File W = record {
        fd = none;
        back = none;
        ibuf = s;
        obuf = 0;
        isize = 0;
        osize = 0;
        ilen = n;
        olen = 0;
        oown = caller;
        icur = 0;
        ostat = 0;
        eof = false;
        err = false;
        is_stderr = false;
        ram = ram;
        world = world;
      } in
      vfscanf (suc n) source fmt args
