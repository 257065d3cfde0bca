-- ===== src/Stdio/Scan.antt =====
-- The reading of characters and numbers for `vfscanf` in scanf.c. A stream that is out of characters gives
-- `none`, and a loop over blanks that is out of fuel gives `none` too.
use yasos_libc.Base.{
  ℕ, zero, suc, ◌+◌, ◌-◌, ◌*◌, ◌/◌, ◌%◌, ◌^◌, Bool, true, false, not, ◌&&◌, ◌||◌, ◌==◌,
  if◌then◌else◌, Option, none, some, List, [], ◌∷◌, take,
}
use yasos_libc.Memory.{Ram, store8}
use yasos_libc.Ctype.{isspace, tolower}
use yasos_libc.Stdio.{Kernel, File}
use yasos_libc.Stdio.Read.{ic, ungetc}
use yasos_libc.Stdio.Integer.{digs}

-- `struct scan`
pub record Scan (W : Type 0) : Type 0 where
  pub fp : File W
  pub count : ℕ

-- Where a character stands in a list.
unfoldable pub index_of : ℕ → List ℕ → Option ℕ
index_of c [] = none
index_of c (x ∷ l) =
    if c == x then some 0 else elim (index_of c l) [ none ↦ none | some i ↦ some (suc i) ]

unfoldable pub idig : ℕ → ℕ → Option ℕ
idig c base = index_of (if base == 16 then tolower c else c) (take base digs)

-- `store_int`
unfoldable pub store_int : Ram → ℕ → ℕ → ℕ → Ram
store_int m dst zero v = m
store_int m dst (suc size) v = store_int (store8 m dst (v % 256)) (dst + 1) size (v / 256)

-- `neg ? -n : n`
unfoldable pub negate_if : Bool → ℕ → ℕ
negate_if neg n = if neg then (2 ^ 64 - n) % 2 ^ 64 else n

-- The variables of `scan_int`.
pub record Number (W : Type 0) : Type 0 where
  pub s : Scan W
  pub c : Option ℕ
  pub base : ℕ
  pub wid : ℕ
  pub neg : Bool
  pub digits : ℕ

-- A character as an `int`, on 32 bits; EOF is -1.
abbrev pub or_eof : Option ℕ → ℕ
or_eof none = 2 ^ 32 - 1
or_eof (some c) = c

module _ {W : Type 0} (k : Kernel W) where
  unfoldable pub sget : Scan W → Option ℕ × Scan W
  sget s =
      let (c, fp) = ic k s.fp in
      (c, record s { fp = fp; count = elim c [ none ↦ s.count | some _ ↦ s.count + 1 ] })

  unfoldable pub sunget : Option ℕ → Scan W → Scan W
  sunget none s = s
  sunget (some c) s = record { fp = (ungetc k (some c) s.fp).1; count = s.count - 1 }

  unfoldable pub skip_input_space : ℕ → Scan W → Option (Scan W)
  skip_input_space zero s = none
  skip_input_space (suc fuel) s =
      let (c, s1) = sget s in
      elim (isspace (or_eof c)) [ true ↦ skip_input_space fuel s1 | false ↦ some (sunget c s1) ]

  -- The sign.
  unfoldable pub scan_sign : ℕ → ℕ → Scan W → Number W
  scan_sign base wid s =
      let (c, s1) = sget s in
      let (c1, s2) = sget s1 in
      if (or_eof c == b'-' || or_eof c == b'+') && not (wid == 0)
      then record { s = s2; c = c1; base = base; wid = wid - 1; neg = or_eof c == b'-'; digits = 0 }
      else record { s = s1; c = c; base = base; wid = wid; neg = false; digits = 0 }

  -- The rest of the prefix behind a 0; `none` as the digit if `0x` has no digit behind it.
  unfoldable pub scan_hex : Number W → Bool × Number W
  scan_hex p =
      let (c, s1) = sget p.s in
      let (c2, s2) = sget s1 in
      let wid = p.wid - 1 in
      if not (wid == 0) && (or_eof c == b'x' || or_eof c == b'X')
      then elim (idig (or_eof c2) 16) [
        | none ↦ (false, record p { s = sunget c2 s2 })
        | some d ↦ (true, record p { s = s2; c = c2; base = 16; wid = wid - 1 })
      ]
      else (
        true,
        record p { s = s1; c = c; wid = wid; base = if p.base == 0 then 8 else p.base; digits = 1 },
      )

  unfoldable pub scan_prefix : Number W → Bool × Number W
  scan_prefix p =
      let hex = scan_hex p in
      if not (p.wid == 0) && or_eof p.c == b'0' && (p.base == 0 || p.base == 16)
      then hex
      else (true, p)

  -- `while (wid > 0 && c != EOF && idig(c, base) >= 0)`: the number, how many digits, the character that
  -- is not part of it and the scanner.
  unfoldable pub scan_digits : ℕ → ℕ → ℕ → ℕ → Option ℕ → Scan W → ℕ × ℕ × Option ℕ × Scan W
  scan_digits zero base n digits c s = (n, digits, c, s)
  scan_digits (suc wid) base n digits none s = (n, digits, none, s)
  scan_digits (suc wid) base n digits (some c) s = elim (idig c base) [
    | none ↦ (n, digits, some c, s)
    | some d ↦
        let (c1, s1) = sget s in scan_digits wid base ((n * base + d) % 2 ^ 64) (digits + 1) c1 s1
  ]

  -- The number, if there is one.
  unfoldable pub scan_int : ℕ → ℕ → Scan W → Option ℕ × Scan W
  scan_int base wid s =
      let (valid, p) = scan_prefix (scan_sign base wid s) in
      let radix = if p.base == 0 then 10 else p.base in
      let (n, digits, c, s1) = scan_digits p.wid radix 0 p.digits p.c p.s in
      let s2 = sunget c s1 in
      if not valid
      then (none, p.s)
      else if digits == 0
      then (none, s2)
      else (some (negate_if p.neg n), s2)
