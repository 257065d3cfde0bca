-- ===== src/Stdio.antt =====
-- stdio.c and scanf.c: a stream, and the routines that write characters to it. The kernel and the allocator are
-- parameters. A stream is a `FILE` with the memory and the rest of the machine, in which its buffers stand.
-- A negative `fd` and EOF in `back` are `none`; a buffer is an address, and 0 is NULL. The results EOF and -1
-- are `none`, or `false` where a routine returns 0 otherwise.
pub mod Cells
pub mod Output
pub mod Full
pub mod Bulk
pub mod Read
pub mod Source
pub mod Input
pub mod Pushback
pub mod Integer
pub mod Directive
pub mod Printf
pub mod Decimal
pub mod Sink
pub mod Parsed
pub mod Truncated
pub mod Lines
pub mod Getdelim
pub mod Seek
pub mod Moved
pub mod Scan
pub mod Scanned
pub mod Numbers
pub mod ScanFormat
pub mod Scanf
mod Examples
use yasos_libc.Base.{
  ℕ, zero, suc, ◌+◌, ◌-◌, ◌*◌, ◌/◌, ◌%◌, ◌^◌, ◌≤◌, ◌<◌, ◌≡◌, refl, sym, ap, ◌∙◌, arith, Bool, true,
  false, not, ◌&&◌, ◌||◌, ltb, leb, ◌==◌, if◌then◌else◌, bit_and, bit_or, bit_xor, leb→le, ltb→lt,
  lt→ltb, le→leb, ltb-false, leb-false, tests, ==_iff, Bool-cases, Option-cases, inl, inr, ◌⊎◌, ◌≢◌,
  ◌↔◌, if_both, Option, none, some, List, [], ◌∷◌, ◌++◌, map, length, get_or, length-append, take,
  drop,
}
use yasos_libc.Base.Loop.{while, while_inv}
use yasos_libc.Memory.{Ram, store8}
use yasos_libc.MemOps.{memcpy}

-- The calls that are not part of the files: a `read` that fails is `none` and one at the end gives no byte;
-- a `write` gives the number of bytes that it took.
pub record Kernel (W : Type 0) : Type 0 where
  pub read : ℕ → ℕ → W → Option (List ℕ) × W
  pub write : ℕ → List ℕ → W → Option ℕ × W
  pub malloc : ℕ → W → Option ℕ × W

-- `oown`: 0, 1 and STDIO_OBUF_LAZY.
pub data Owner : Type 0 where
  caller : Owner
  stream : Owner
  lazy : Owner

-- `eof` and `err` are the flags in `istat`, and `is_stderr` says whether the stream is `_stderr`.
pub record File (W : Type 0) : Type 0 where
  pub fd : Option ℕ
  pub back : Option ℕ
  pub ibuf : ℕ
  pub obuf : ℕ
  pub isize : ℕ
  pub osize : ℕ
  pub ilen : ℕ
  pub olen : ℕ
  pub oown : Owner
  pub icur : ℕ
  pub ostat : ℕ
  pub eof : Bool
  pub err : Bool
  pub is_stderr : Bool
  pub ram : Ram
  pub world : W

abbrev pub bufsiz : ℕ
bufsiz = 256

abbrev pub stderr_bufsiz : ℕ
stderr_bufsiz = 128

-- The `n` bytes from an address on.
unfoldable pub cells : Ram → ℕ → ℕ → List ℕ
cells m p zero = []
cells m p (suc n) = m p ∷ cells m (p + 1) n

abbrev pub is_lazy : Owner → Bool
is_lazy caller = false
is_lazy stream = false
is_lazy lazy = true

abbrev pub took : Option ℕ → ℕ → Bool
took none n = false
took (some k) n = k == n

abbrev pub is_none : Option ℕ → Bool
is_none none = true
is_none (some n) = false

module _ {W : Type 0} (k : Kernel W) where
  unfoldable pub stdio_lazy_obuf : File W → Bool × File W
  stdio_lazy_obuf fp =
      let size = if fp.is_stderr then stderr_bufsiz else bufsiz in
      let (got, world) = k.malloc size fp.world in
      let fp' = record fp { oown = caller; world = world } in
      if is_lazy fp.oown
      then elim got [
        | none ↦ (false, fp')
        | some buf ↦ (true, record fp' { obuf = buf; osize = size; oown = stream })
      ]
      else (false, fp)

  unfoldable pub flush_to : ℕ → File W → Bool × File W
  flush_to fd fp =
      let (taken, world) = k.write fd (cells fp.ram fp.obuf fp.olen) fp.world in
      if fp.olen == 0
      then (true, fp)
      else if took taken fp.olen
      then (true, record fp { world = world; olen = 0 })
      else (false, record fp { world = world; err = true })

  unfoldable pub fflush : File W → Bool × File W
  fflush fp = elim fp.fd [ none ↦ (true, fp) | some fd ↦ flush_to fd fp ]

  -- `if (write(fp->fd, &c, 1) != 1) …`
  unfoldable pub put_byte_to : ℕ → ℕ → File W → Option ℕ × File W
  put_byte_to fd c fp =
      let (taken, world) = k.write fd (c % 256 ∷ []) fp.world in
      if took taken 1
      then (some c, record fp { world = world })
      else (none, record fp { world = world; err = true })

  -- A string without room only counts.
  unfoldable pub put_unbuffered : ℕ → File W → Option ℕ × File W
  put_unbuffered c fp = elim fp.fd [ none ↦ (some c, fp) | some fd ↦ put_byte_to fd c fp ]

  -- `if (fp->olen < fp->osize) { fp->obuf[fp->olen++] = c; fp->ostat++; }`
  unfoldable pub store_char : ℕ → File W → File W
  store_char c fp =
      if ltb fp.olen fp.osize
      then record fp {
        ram = store8 fp.ram (fp.obuf + fp.olen) (c % 256);
        olen = fp.olen + 1;
        ostat = fp.ostat + 1;
      }
      else fp

  unfoldable pub put_buffered : ℕ → File W → Option ℕ × File W
  put_buffered c fp =
      let fp1 = store_char c fp in
      let (flushed, fp2) = fflush fp1 in
      if c == 10 || fp1.olen == fp1.osize
      then (if flushed then some c else none, fp2)
      else (some c, fp1)

  unfoldable pub fputc : ℕ → File W → Option ℕ × File W
  fputc c fp =
      let (got, fp1) = stdio_lazy_obuf fp in
      if fp.osize == 0
      then (if got then put_buffered c fp1 else put_unbuffered c fp1)
      else put_buffered c fp

  -- The number of characters, if no `fputc` failed.
  unfoldable pub fputs_loop : List ℕ → ℕ → File W → Option ℕ × File W
  fputs_loop [] n fp = (some n, fp)
  fputs_loop (c ∷ s) n fp =
      let (put, fp1) = fputc c fp in
      elim put [ none ↦ (none, fp1) | some _ ↦ fputs_loop s (n + 1) fp1 ]

  unfoldable pub fputs : List ℕ → File W → Option ℕ × File W
  fputs s fp = fputs_loop s 0 fp

  -- `fp` is `stdout`.
  unfoldable pub puts : List ℕ → File W → Option ℕ × File W
  puts s fp =
      let (ret, fp1) = fputs s fp in
      elim ret [
        | none ↦ (none, fp1)
        | some n ↦
            let (put, fp2) = fputc 10 fp1 in
            elim put [ none ↦ (none, fp2) | some _ ↦ (some (n + 1), fp2) ]
      ]

  -- The loop of `fwrite` that hands each byte to `fputc`: the bytes that are left.
  unfoldable pub fwrite_bytes : ℕ → ℕ → File W → ℕ × File W
  fwrite_bytes zero s fp = (0, fp)
  fwrite_bytes (suc left) s fp =
      let (put, fp1) = fputc (fp.ram s) fp in
      elim put [ none ↦ (suc left, fp1) | some _ ↦ fwrite_bytes left (s + 1) fp1 ]

  -- `w = write(fp->fd, s, left)`: the bytes written, or none on an error.
  unfoldable pub write_to : ℕ → ℕ → ℕ → File W → Option ℕ × File W
  write_to fd s left fp =
      let (taken, world) = k.write fd (cells fp.ram s left) fp.world in
      let failed = record fp { world = world; err = true } in
      elim taken [
        | none ↦ (none, failed)
        | some zero ↦ (none, failed)
        | some (suc w) ↦ (some (suc w), record fp { world = world; ostat = fp.ostat + suc w })
      ]

  unfoldable pub write_through : ℕ → ℕ → File W → Option ℕ × File W
  write_through s left fp = elim fp.fd [ none ↦ (none, fp) | some fd ↦ write_to fd s left fp ]

  -- What fits into the buffer, and a flush if that fills it.
  unfoldable pub write_part : ℕ → ℕ → File W → Bool × File W
  write_part s room fp =
      let fp1 = record fp {
        ram = memcpy fp.ram (fp.obuf + fp.olen) s room;
        olen = fp.olen + room;
        ostat = fp.ostat + room;
      } in
      if fp1.olen == fp1.osize then fflush fp1 else (true, fp1)

  -- `while (left > 0)`, with the bytes that are left behind it. Each round takes at least one byte.
  unfoldable pub fwrite_loop : ℕ → ℕ → ℕ → File W → ℕ × File W
  fwrite_loop zero s left fp = (left, fp)
  fwrite_loop (suc fuel) s left fp =
      let room = if ltb left (fp.osize - fp.olen) then left else fp.osize - fp.olen in
      let (written, fp1) = write_through s left fp in
      let through : ℕ × File W = elim written [
        | none ↦ (left, fp1)
        | some w ↦ fwrite_loop fuel (s + w) (left - w) fp1
      ] in
      let (kept, fp2) = write_part s room fp in
      let part : ℕ × File W = elim kept [
        | false ↦ (left - room, fp2)
        | true ↦ fwrite_loop fuel (s + room) (left - room) fp2
      ] in
      if left == 0 then (0, fp) else if fp.olen == 0 && leb fp.osize left then through else part

  unfoldable pub fwrite : ℕ → ℕ → ℕ → File W → ℕ × File W
  fwrite v sz n fp =
      let total = n * sz in
      let (got, fp1) = stdio_lazy_obuf fp in
      let fp2 = if not (is_none fp.fd) && fp.osize == 0 then fp1 else fp in
      let direct = is_none fp.fd || (fp.osize == 0 && not got) || fp2.obuf == 0 in
      let (left, fp3) =
        if direct then fwrite_bytes total v fp2 else fwrite_loop total v total fp2 in
      if total == 0 then (0, fp) else ((total - left) / sz, fp3)
