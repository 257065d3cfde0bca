-- ===== src/Stdio/Read.antt =====
-- The routines of stdio.c and scanf.c that read from a stream or move in it.
use yasos_libc.Base.{
  ℕ, zero, suc, ◌+◌, ◌-◌, ◌%◌, Bool, true, false, not, ltb, ◌==◌, if◌then◌else◌, Option, none, some,
  List, [], ◌∷◌, length,
}
use yasos_libc.Memory.{Ram, store8}
use yasos_libc.Stdio.{Kernel, File, bufsiz, is_none}

-- The bytes that a `read` stored.
unfoldable pub store_list : Ram → ℕ → List ℕ → Ram
store_list m p [] = m
store_list m p (x ∷ l) = store_list (store8 m p x) (p + 1) l

module _ {W : Type 0} (k : Kernel W) where
  abbrev pub at_eof : File W → File W
  at_eof fp = record fp { eof = true }

  abbrev pub at_error : File W → File W
  at_error fp = record fp { err = true }

  -- `return (unsigned char)fp->ibuf[fp->icur++]`
  abbrev pub next_char : File W → Option ℕ × File W
  next_char fp = (some (fp.ram (fp.ibuf + fp.icur)), record fp { icur = fp.icur + 1 })

  -- `if (fp->ibuf == NULL) …`: false if there is no buffer to be had.
  unfoldable pub input_buffer : File W → Bool × File W
  input_buffer fp =
      let (got, world) = k.malloc bufsiz fp.world in
      let fp1 = record fp { world = world } in
      let fresh : Bool × File W = elim got [
        | none ↦ (false, at_error fp1)
        | some buf ↦ (true, record fp1 { ibuf = buf; isize = bufsiz })
      ] in
      if fp.ibuf == 0 then fresh else (true, fp)

  -- `nr = read(fp->fd, fp->ibuf, fp->isize)`: true if it gave a byte.
  unfoldable pub refill : ℕ → File W → Bool × File W
  refill fd fp =
      let (got, world) = k.read fd fp.isize fp.world in
      let fp1 = record fp { world = world } in
      elim got [
        | none ↦ (false, at_error fp1)
        | some [] ↦ (false, at_eof fp1)
        | some (x ∷ l) ↦ (
          true,
          record fp1 { ram = store_list fp.ram fp.ibuf (x ∷ l); ilen = length (x ∷ l); icur = 0 },
        )
      ]

  -- The loop of `ic`, with an empty buffer. It has one round at most: a byte that was read ends it.
  unfoldable pub ic_empty : ℕ → File W → Option ℕ × File W
  ic_empty fd fp =
      let (ready, fp1) = input_buffer fp in
      let (filled, fp2) = refill fd fp1 in
      if not ready then (none, fp1) else if filled then next_char fp2 else (none, fp2)

  -- The rest of `ic` on a file.
  unfoldable pub ic_file : ℕ → File W → Option ℕ × File W
  ic_file fd fp =
      if fp.icur == fp.ilen
      then ic_empty fd fp
      else if ltb fp.icur fp.ilen
      then next_char fp
      else (none, fp)

  -- The rest of `ic` on a string.
  unfoldable pub ic_string : File W → Option ℕ × File W
  ic_string fp =
      if fp.ibuf == fp.obuf
      then (if ltb fp.icur fp.olen then next_char fp else (none, at_eof fp))
      else if ltb fp.icur fp.ilen
      then next_char fp
      else (none, at_eof fp)

  unfoldable pub ic_fresh : File W → Option ℕ × File W
  ic_fresh fp = elim fp.fd [ none ↦ ic_string fp | some fd ↦ ic_file fd fp ]

  unfoldable pub ic : File W → Option ℕ × File W
  ic fp = elim fp.back [ some i ↦ (some i, record fp { back = none }) | none ↦ ic_fresh fp ]

  unfoldable pub fgetc : File W → Option ℕ × File W
  fgetc fp = ic fp

  -- `c` is EOF where it is `none`.
  unfoldable pub ungetc : Option ℕ → File W → Option ℕ × File W
  ungetc none fp = (none, fp)
  ungetc (some c) fp =
      if is_none fp.back
      then (some (c % 256), record fp { back = some (c % 256); eof = false })
      else (none, fp)

  -- `while (i + 1 < sz && (c = ic(fp)) != EOF)` with `left` rounds to go; `i` behind it.
  unfoldable pub fgets_loop : ℕ → ℕ → ℕ → File W → ℕ × File W
  fgets_loop zero s i fp = (i, fp)
  fgets_loop (suc left) s i fp =
      let (c, fp1) = ic fp in
      elim c [
        | none ↦ (i, fp1)
        | some c ↦
            let fp2 = record fp1 { ram = store8 fp1.ram (s + i) c } in
            elim (c == 10) [ true ↦ (i + 1, fp2) | false ↦ fgets_loop left s (i + 1) fp2 ]
      ]

  -- `s`, or NULL.
  unfoldable pub fgets : ℕ → ℕ → File W → Option ℕ × File W
  fgets s sz fp =
      let (i, fp1) = fgets_loop (sz - 1) s 0 fp in
      (if i == 0 then none else some s, record fp1 { ram = store8 fp1.ram (s + i) 0 })

  unfoldable pub feof : File W → Bool
  feof fp = fp.eof

  unfoldable pub ferror : File W → Bool
  ferror fp = fp.err

  unfoldable pub clearerr : File W → File W
  clearerr fp = record fp { eof = false; err = false }
