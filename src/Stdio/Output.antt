-- ===== src/Stdio/Output.antt =====
-- What the routines that write to a stream do to the characters that it was given.
use yasos_libc.Base.{
  ℕ, ◌+◌, ◌%◌, ◌≤◌, ◌<◌, ◌≡◌, refl, sym, ap, ◌∙◌, arith, Bool, true, false, ◌||◌, ltb, ◌==◌,
  if◌then◌else◌, inl, inr, ◌⊎◌, if_both, Option, none, some, List, [], ◌∷◌, ◌++◌, length, take,
}
use yasos_libc.Stdio.{
  Kernel, File, caller, stream, cells, is_lazy, took, bufsiz, stderr_bufsiz, stdio_lazy_obuf,
  flush_to, fflush, put_byte_to, put_unbuffered, store_char, put_buffered, fputc,
}
use yasos_libc.Stdio.Cells.{length-cells, cells-store8, take-length}
use mathlib.Core.Path.{subst}
use mathlib.Core.List.{append_assoc, append-nil}

module _ {W : Type 0} (k : Kernel W) (log : ℕ → W → List ℕ) where
  -- What a write leaves in the log of its descriptor.
  abbrev pub Logged : ℕ → List ℕ → W → Option ℕ × W → Type 0
  Logged fd bytes before (none, after) = log fd after ≡ log fd before
  Logged fd bytes before (some n, after) =
      (n ≤ length bytes) × (log fd after ≡ log fd before ++ take n bytes)

  -- The log of a descriptor has what the kernel took of the writes to it, and nothing else.
  pub record IsFaithful : Type 0 where
    pub writes : (fd : ℕ) (bytes : List ℕ) (w : W) → Logged fd bytes w (k.write fd bytes w)
    pub keeps : (fd n : ℕ) (w : W) → log fd (k.malloc n w).1 ≡ log fd w

  -- The characters that a stream on `fd` was given: those that were written and those in the buffer.
  abbrev pub emitted : ℕ → File W → List ℕ
  emitted fd fp = log fd fp.world ++ cells fp.ram fp.obuf fp.olen

  -- The buffer has room, or there is none.
  pub record IsReady (fd : ℕ) (fp : File W) : Type 0 where
    pub is_open : fp.fd ≡ some fd
    pub room : (fp.olen < fp.osize) ⊎ ((fp.osize ≡ 0) × (fp.olen ≡ 0))

  module _ (faithful : IsFaithful) (fd : ℕ) where
    -- A write that took everything.
    write-all :
        (bytes : List ℕ) (w : W)
        → took (k.write fd bytes w).0 (length bytes) ≡ true
        → log fd (k.write fd bytes w).1 ≡ log fd w ++ bytes
    write-all bytes w all = whole (k.write fd bytes w) (faithful.writes fd bytes w) all
      where
        whole :
            (r : Option ℕ × W)
            → Logged fd bytes w r
            → took r.0 (length bytes) ≡ true
            → log fd r.1 ≡ log fd w ++ bytes
        whole (none, after) logged all = absurd (ground arith)
        whole (some n, after) logged all =
            let e : n ≡ length bytes = ground arith in
            logged.1
            ∙ ap (λ j. log fd w ++ take j bytes) e
            ∙ ap (λ l. log fd w ++ l) (take-length bytes)

    -- After a flush that succeeds, everything was written; after one that fails, the error flag is set.
    abbrev pub Flushed : File W → Bool × File W → Type 0
    Flushed fp (false, fp') = fp'.err ≡ true
    Flushed fp (true, fp') =
        (fp'.olen ≡ 0)
        × (log fd fp'.world ≡ emitted fd fp)
        × (fp'.fd ≡ fp.fd)
        × (fp'.osize ≡ fp.osize)

    pub emitted-empty : (fp : File W) → fp.olen ≡ 0 → emitted fd fp ≡ log fd fp.world
    unfolding cells
    emitted-empty fp empty =
        ap (λ n. log fd fp.world ++ cells fp.ram fp.obuf n) empty ∙ append-nil _

    flush_to-Flushed : (fp : File W) → Flushed fp (flush_to k fd fp)
    unfolding flush_to
    flush_to-Flushed fp =
        let bytes = cells fp.ram fp.obuf fp.olen in
        if_both (Flushed fp) (fp.olen == 0)
          (λ e.
            let empty : fp.olen ≡ 0 = ground arith in
            (empty, sym (emitted-empty fp empty), refl, refl))
          (λ _.
            if_both (Flushed fp) (took (k.write fd bytes fp.world).0 fp.olen)
              (λ all. (
                refl,
                write-all bytes fp.world (rw (length-cells fp.ram fp.obuf fp.olen) all),
                refl,
                refl,
              ))
              (λ _. refl))

    pub fflush-Flushed : (fp : File W) → fp.fd ≡ some fd → Flushed fp (fflush k fp)
    unfolding fflush
    fflush-Flushed fp is_open =
        subst (Flushed fp)
          (sym (ap (λ o. elim o [ none ↦ (true, fp) | some d ↦ flush_to k d fp ]) is_open))
          (flush_to-Flushed fp)

    -- What `fputc` of a character does: it has been given to the stream, or the error flag is set.
    abbrev pub Put : ℕ → File W → Option ℕ × File W → Type 0
    Put c fp (none, fp') = fp'.err ≡ true
    Put c fp (some d, fp') =
        (d ≡ c) × (emitted fd fp' ≡ emitted fd fp ++ (c % 256 ∷ [])) × IsReady fd fp'

    -- What storing a character in a buffer with room does.
    record Stored (c : ℕ) (fp fp' : File W) : Type 0 where
      given : emitted fd fp' ≡ emitted fd fp ++ (c % 256 ∷ [])
      more : fp'.olen ≡ fp.olen + 1
      same_fd : fp'.fd ≡ fp.fd
      same_size : fp'.osize ≡ fp.osize

    store_char-Stored : (c : ℕ) (fp : File W) → fp.olen < fp.osize → Stored c fp (store_char k c fp)
    unfolding store_char
    store_char-Stored c fp room =
        if_both (Stored c fp) (ltb fp.olen fp.osize)
          (λ _. record {
            given =
                ap (λ l. log fd fp.world ++ l) (cells-store8 fp.ram fp.obuf fp.olen (c % 256))
                ∙ sym (append_assoc (log fd fp.world) _ _);
            more = refl;
            same_fd = refl;
            same_size = refl;
          })
          (λ full. absurd (ground arith))

    reported-Put :
        (c : ℕ) (fp fp1 : File W) (r : Bool × File W)
        → Stored c fp fp1
        → fp.olen < fp.osize
        → fp.fd ≡ some fd
        → Flushed fp1 r
        → Put c fp (if r.0 then some c else none, r.1)
    reported-Put c fp fp1 (false, fp2) stored room is_open failed = failed
    reported-Put c fp fp1 (true, fp2) stored room is_open (empty, written, same_fd, same_size) = (
      refl,
      emitted-empty fp2 empty ∙ written ∙ stored.given,
      record {
        is_open = same_fd ∙ stored.same_fd ∙ is_open;
        room = inl (omega (arith, same_size, stored.same_size));
      },
    )

    put_buffered-Put :
        (c : ℕ) (fp : File W)
        → fp.fd ≡ some fd
        → fp.olen < fp.osize
        → Put c fp (put_buffered k c fp)
    unfolding put_buffered
    put_buffered-Put c fp is_open room =
        let fp1 = store_char k c fp in
        let stored : Stored c fp fp1 = store_char-Stored c fp room in
        if_both (Put c fp) (c == 10 || fp1.olen == fp1.osize)
          (λ _.
            reported-Put c fp fp1 (fflush k fp1) stored room is_open
              (fflush-Flushed fp1 (stored.same_fd ∙ is_open)))
          (λ more_room. (
            refl,
            stored.given,
            record {
              is_open = stored.same_fd ∙ is_open;
              room = inl (ground (arith, stored.more, stored.same_size));
            },
          ))

    put_unbuffered-Put :
        (c : ℕ) (fp : File W)
        → fp.fd ≡ some fd
        → (fp.osize ≡ 0) × (fp.olen ≡ 0)
        → Put c fp (put_unbuffered k c fp)
    unfolding put_unbuffered put_byte_to
    put_unbuffered-Put c fp is_open none_there =
        subst (Put c fp)
          (sym (ap (λ o. elim o [ none ↦ (some c, fp) | some d ↦ put_byte_to k d c fp ]) is_open))
          (if_both (Put c fp) (took (k.write fd (c % 256 ∷ []) fp.world).0 1)
            (λ all. (
              refl,
              emitted-empty (record fp { world = (k.write fd (c % 256 ∷ []) fp.world).1 })
                    none_there.1
                  ∙ write-all (c % 256 ∷ []) fp.world all
                  ∙ ap (λ l. l ++ (c % 256 ∷ [])) (sym (emitted-empty fp none_there.1)),
              record { is_open = is_open; room = inr none_there },
            ))
            (λ _. refl))

    Put-same :
        (c : ℕ) (fp fp1 : File W) (r : Option ℕ × File W)
        → emitted fd fp1 ≡ emitted fd fp
        → Put c fp1 r
        → Put c fp r
    Put-same c fp fp1 (none, fp') same put = put
    Put-same c fp fp1 (some d, fp') same (e, given, ready) =
        (e, given ∙ ap (λ l. l ++ (c % 256 ∷ [])) same, ready)

    abbrev HasRoom : Bool → File W → Type 0
    HasRoom true fp = fp.olen < fp.osize
    HasRoom false fp = (fp.osize ≡ 0) × (fp.olen ≡ 0)

    -- The state behind the attempt to get a buffer.
    abbrev LazyReady : File W → Bool × File W → Type 0
    LazyReady fp (got, fp') = (emitted fd fp' ≡ emitted fd fp) × (fp'.fd ≡ fp.fd) × HasRoom got fp'

    lazy-Ready :
        (fp : File W) → (fp.osize ≡ 0) × (fp.olen ≡ 0) → LazyReady fp (stdio_lazy_obuf k fp)
    unfolding stdio_lazy_obuf
    lazy-Ready fp (no_room, empty) =
        let size : ℕ = if fp.is_stderr then stderr_bufsiz else bufsiz in
        let positive : 0 < size =
          if_both (λ n. 0 < n) fp.is_stderr {x = stderr_bufsiz} {y = bufsiz} (λ _. omega arith)
            (λ _. omega arith) in
        if_both (LazyReady fp) (is_lazy fp.oown)
          (λ _. allocated size (k.malloc size fp.world) (faithful.keeps fd size fp.world) positive)
          (λ _. (refl, refl, (no_room, empty)))
      where
        allocated :
            (size : ℕ) (r : Option ℕ × W)
            → log fd r.1 ≡ log fd fp.world
            → 0 < size
            → LazyReady fp (elim r.0 [
              | none ↦ (false, record fp { oown = caller; world = r.1 })
              | some buf ↦
                  (true, record fp { oown = stream; world = r.1; obuf = buf; osize = size })
            ])
        allocated size (none, after) same pos =
            (ap (λ l. l ++ cells fp.ram fp.obuf fp.olen) same, refl, (no_room, empty))
        allocated size (some buf, after) same pos = (
          emitted-empty (record fp { world = after; obuf = buf; osize = size }) empty
              ∙ same
              ∙ sym (emitted-empty fp empty),
          refl,
          omega (arith, empty),
        )

    lazy-Put :
        (c : ℕ) (fp : File W) (r : Bool × File W)
        → fp.fd ≡ some fd
        → LazyReady fp r
        → Put c fp (if r.0 then put_buffered k c r.1 else put_unbuffered k c r.1)
    lazy-Put c fp (true, fp1) is_open (same, same_fd, room) =
        Put-same c fp fp1 (put_buffered k c fp1) same
          (put_buffered-Put c fp1 (same_fd ∙ is_open) room)
    lazy-Put c fp (false, fp1) is_open (same, same_fd, room) =
        Put-same c fp fp1 (put_unbuffered k c fp1) same
          (put_unbuffered-Put c fp1 (same_fd ∙ is_open) room)

    -- `fputc` on a stream that is open and has room either gives the character to the stream, behind all
    -- that it was given before, and keeps room for the next one, or fails with the error flag set.
    pub fputc-Put : (c : ℕ) (fp : File W) → IsReady fd fp → Put c fp (fputc k c fp)
    unfolding fputc
    fputc-Put c fp ready = elim ready.room [
      | inl room ↦
          let some_room : (fp.osize == 0) ≡ false = ground arith in
          rw (some_room) (put_buffered-Put c fp ready.is_open room)
      | inr none_there ↦
          let no_room : (fp.osize == 0) ≡ true = ground arith in
          rw (no_room)
            (lazy-Put c fp (stdio_lazy_obuf k fp) ready.is_open (lazy-Ready fp none_there))
    ]
