-- ===== src/Stdio/Moved.antt =====
-- `fseek` of stdio.c: what is left in the buffers, and what becomes of the characters that were in them.
use yasos_libc.Base.{
  ℕ, ◌≡◌, refl, sym, ap, ◌∙◌, Bool, true, false, ◌==◌, inl, inr, ◌⊎◌, if_both, Option, none, some,
  List,
}
use mathlib.Core.Path.{subst}
use mathlib.Core.List.{append-nil}
use yasos_libc.Stdio.{took, flush_to, Kernel, File, fflush, cells}
use yasos_libc.Stdio.Output.{IsFaithful, emitted, Flushed, fflush-Flushed}
use yasos_libc.Stdio.Source.{remaining, ahead}
use yasos_libc.Stdio.Seek.{seek_to, fseek}

module _ {W : Type 0} (k : Kernel W) (lseek : ℕ → ℕ → ℕ → W → Option ℕ × W) (log : ℕ → W → List ℕ)
    (rest : ℕ → W → List ℕ) (faithful : IsFaithful k log)
    (seeks : (fd offset whence : ℕ) (w : W) → log fd (lseek fd offset whence w).1 ≡ log fd w)
    (fd : ℕ) where
  -- The stream reads on from where the kernel stands, and what it was given is written, but for an error.
  abbrev pub Moved : File W → Bool × File W → Type 0
  Moved fp (false, fp') = (log fd fp'.world ≡ emitted k log fd fp) ⊎ (fp'.err ≡ true)
  Moved fp (true, fp') =
      (remaining k rest fp' ≡ rest fd fp'.world)
      × (emitted k log fd fp' ≡ log fd fp'.world)
      × (fp'.eof ≡ false)
      × ((log fd fp'.world ≡ emitted k log fd fp) ⊎ (fp'.err ≡ true))

  -- What the flush in front leaves.
  abbrev Settled : File W → File W → Type 0
  Settled fp fp1 = (log fd fp1.world ≡ emitted k log fd fp) ⊎ (fp1.err ≡ true)

  fflush-Settled : (fp : File W) → fp.fd ≡ some fd → Settled fp (fflush k fp).1
  fflush-Settled fp file = of (fflush k fp) (fflush-Flushed k log faithful fd fp file)
    where
      of : (r : Bool × File W) → Flushed k log faithful fd fp r → Settled fp r.1
      of (false, fp1) flag = inr flag
      of (true, fp1) (empty, given, same_fd, same_size) = inl given

  fd-flush_to : (d : ℕ) (fp : File W) → (flush_to k d fp).1.fd ≡ fp.fd
  unfolding flush_to
  fd-flush_to d fp =
      if_both (λ (r : Bool × File W). r.1.fd ≡ fp.fd) (fp.olen == 0) (λ _. refl)
        (λ _.
          if_both (λ (r : Bool × File W). r.1.fd ≡ fp.fd)
            (took (k.write d (cells fp.ram fp.obuf fp.olen) fp.world).0 fp.olen) (λ _. refl)
            (λ _. refl))

  fd-fflush : (fp : File W) → fp.fd ≡ some fd → (fflush k fp).1.fd ≡ some fd
  unfolding fflush
  fd-fflush fp file =
      ap
        (λ o.
          (elim o as (λ x. Bool × File W) [ none ↦ (true, fp) | some d ↦ flush_to k d fp ]).1.fd)
        file
      ∙ fd-flush_to fd fp
      ∙ file

  seek_to-Moved :
      (fp fp1 : File W) (offset whence : ℕ)
      → fp1.fd ≡ some fd
      → Settled fp fp1
      → Moved fp (seek_to k lseek fd offset whence fp1)
  unfolding seek_to cells
  seek_to-Moved fp fp1 offset whence file settled =
      of (lseek fd offset whence fp1.world) (seeks fd offset whence fp1.world)
    where
      kept :
          (w : W)
          → log fd w ≡ log fd fp1.world
          → (log fd w ≡ emitted k log fd fp) ⊎ (fp1.err ≡ true)
      kept w same = still settled
        where
          still : Settled fp fp1 → (log fd w ≡ emitted k log fd fp) ⊎ (fp1.err ≡ true)
          still (inl given) = inl (same ∙ given)
          still (inr flag) = inr flag

      of :
          (r : Option ℕ × W)
          → log fd r.1 ≡ log fd fp1.world
          → Moved fp (elim r.0 [
            | none ↦ (false, record fp1 { world = r.1 })
            | some p ↦ (
              true,
              record fp1 { world = r.1; ilen = 0; olen = 0; icur = 0; back = none; eof = false },
            )
          ])
      of (none, w) same = kept w same
      of (some p, w) same =
          (ap (λ o. ahead k rest o w) file, append-nil (log fd w), refl, kept w same)

  -- On an open file, `fseek` empties the buffers in both directions, so that the stream reads on from where
  -- the kernel stands. What the stream was given before is in the file, or the error flag is set, whether
  -- the call succeeds or not.
  pub fseek-Moved :
      (fp : File W) (offset whence : ℕ)
      → fp.fd ≡ some fd
      → Moved fp (fseek k lseek fp offset whence)
  unfolding fseek
  fseek-Moved fp offset whence file =
      subst (Moved fp)
        (sym (
          ap
            (λ o. elim o as (λ x. Bool × File W) [
              | none ↦ (true, fp)
              | some d ↦ seek_to k lseek d offset whence (fflush k fp).1
            ])
            file))
        (seek_to-Moved fp (fflush k fp).1 offset whence (fd-fflush fp file)
          (fflush-Settled fp file))
