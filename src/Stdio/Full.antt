-- ===== src/Stdio/Full.antt =====
-- `fputc` of stdio.c on a buffer that a flush could not empty.
use yasos_libc.Base.{
  ℕ, ◌<◌, ◌≡◌, refl, ◌∙◌, arith, Bool, true, false, ◌||◌, ◌==◌, if◌then◌else◌, Option, none, some,
  List,
}
use yasos_libc.Stdio.{Kernel, File, fputc, fflush, put_buffered}
use yasos_libc.Stdio.Output.{IsFaithful, emitted, emitted-empty, Flushed, fflush-Flushed}
use yasos_libc.Stdio.Sink.{store_char-full}

module _ {W : Type 0} (k : Kernel W) (log : ℕ → W → List ℕ) (faithful : IsFaithful k log)
    (fd : ℕ) where
  -- A failure with its flag, or a success that did not give the character to the stream.
  abbrev pub Dropped : ℕ → File W → Option ℕ × File W → Type 0
  Dropped c fp (none, fp') = fp'.err ≡ true
  Dropped c fp (some d, fp') = (d ≡ c) × (emitted k log fd fp' ≡ emitted k log fd fp)

  fputc_full-Dropped :
      (c : ℕ) (fp : File W) (r : Bool × File W)
      → Flushed k log faithful fd fp r
      → Dropped c fp (if r.0 then some c else none, r.1)
  fputc_full-Dropped c fp (false, fp') flag = flag
  fputc_full-Dropped c fp (true, fp') (empty, given, same_fd, same_size) =
      (refl, emitted-empty k log faithful fd fp' empty ∙ given)

  -- `fputc` on an open stream whose buffer is full, as a flush that fails leaves it, fails with the error
  -- flag set, or reports the character although the stream was not given it.
  pub fputc-Dropped :
      (c : ℕ) (fp : File W)
      → fp.fd ≡ some fd
      → 0 < fp.osize
      → fp.olen ≡ fp.osize
      → Dropped c fp (fputc k c fp)
  unfolding fputc put_buffered
  fputc-Dropped c fp is_open some_room full =
      let room : (fp.osize == 0) ≡ false = ground arith in
      let reached : (c == 10 || fp.olen == fp.osize) ≡ true = ground arith in
      rw (room, store_char-full k c fp (omega arith), reached)
        (fputc_full-Dropped c fp (fflush k fp) (fflush-Flushed k log faithful fd fp is_open))
