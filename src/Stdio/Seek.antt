-- ===== src/Stdio/Seek.antt =====
-- The routines of stdio.c that move in a file, and `setvbuf`. An offset is a `long`, on 32 bits; `lseek` is a
-- parameter that gives the new position, or `none` if it fails.
use yasos_libc.Base.{
  ℕ, ◌+◌, ◌-◌, ◌%◌, ◌^◌, Bool, true, false, ◌&&◌, leb, ◌==◌, if◌then◌else◌, Option, none, some,
}
use yasos_libc.Stdio.{Kernel, File, caller, stream, fflush}
use yasos_libc.Stdio.Read.{clearerr}

abbrev pub seek_set : ℕ
seek_set = 0

abbrev pub seek_cur : ℕ
seek_cur = 1

module _ {W : Type 0} (k : Kernel W) (lseek : ℕ → ℕ → ℕ → W → Option ℕ × W) where
  -- `fseek` on a file, behind the flush.
  unfoldable pub seek_to : ℕ → ℕ → ℕ → File W → Bool × File W
  seek_to fd offset whence fp =
      let (at, world) = lseek fd offset whence fp.world in
      let fp1 = record fp { world = world } in
      elim at [
        | none ↦ (false, fp1)
        | some p ↦ (true, record fp1 { ilen = 0; olen = 0; icur = 0; back = none; eof = false })
      ]

  -- The result of the flush is not looked at.
  unfoldable pub fseek : File W → ℕ → ℕ → Bool × File W
  fseek fp offset whence = elim fp.fd [
    | none ↦ (true, fp)
    | some fd ↦ seek_to fd offset whence (fflush k fp).1
  ]

  -- `lseek(fp->fd, 0, SEEK_CUR) - fp->ilen + fp->icur`, on 32 bits.
  unfoldable pub tell_at : ℕ → File W → ℕ × File W
  tell_at fd fp =
      let (at, world) = lseek fd 0 seek_cur fp.world in
      let p : ℕ = elim at [ none ↦ 2 ^ 32 - 1 | some p ↦ p ] in
      ((p + (2 ^ 32 - fp.ilen) + fp.icur) % 2 ^ 32, record fp { world = world })

  unfoldable pub ftell : File W → ℕ × File W
  ftell fp = elim fp.fd [ none ↦ (2 ^ 32 - 1, fp) | some fd ↦ tell_at fd (fflush k fp).1 ]

  unfoldable pub rewind : File W → File W
  rewind fp = clearerr k (fseek fp 0 seek_set).1

  -- The position, if there is one.
  unfoldable pub fgetpos : File W → Option ℕ × File W
  fgetpos fp = let (off, fp1) = ftell fp in (if leb (2 ^ 31) off then none else some off, fp1)

  unfoldable pub fsetpos : File W → ℕ → Bool × File W
  fsetpos fp pos = fseek fp pos seek_set

  -- `buf` is an address, and 0 is NULL.
  unfoldable pub setvbuf : File W → ℕ → ℕ → Bool × File W
  setvbuf fp buf size =
      let (got, world) = k.malloc size fp.world in
      let made : ℕ = elim got [ none ↦ 0 | some p ↦ p ] in
      let fp1 =
        if buf == 0 && size == 0
        then record fp { obuf = 0; oown = caller }
        else if buf == 0
        then record fp { obuf = made; oown = stream; world = world }
        else record fp { obuf = buf; oown = caller } in
      elim fp.fd [ none ↦ (false, fp) | some fd ↦ (true, record fp1 { osize = size; olen = 0 }) ]
