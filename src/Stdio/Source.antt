-- ===== src/Stdio/Source.antt =====
-- A stream as the source of the characters that are still to be read.
use yasos_libc.Base.{
  ℕ, ◌+◌, ◌-◌, ◌≤◌, ◌<◌, ◌≡◌, sym, ap, ◌∙◌, arith, true, false, ◌||◌, ltb, ◌==◌, ◌⊎◌, Option, none,
  some, List, [], ◌∷◌, ◌++◌,
}
use yasos_libc.Stdio.{Kernel, File, cells, is_none}
use yasos_libc.Stdio.Cells.{cells-next, cells-none}
use yasos_libc.Stdio.Read.{next_char}

module _ {W : Type 0} (k : Kernel W) (rest : ℕ → W → List ℕ) where
  -- What a read of `n` bytes, not 0 of them, gives: the next bytes of the file, and none only at its end.
  abbrev pub Delivered : ℕ → W → Option (List ℕ) × W → Type 0
  Delivered fd before (none, after) = rest fd after ≡ rest fd before
  Delivered fd before (some [], after) = (rest fd before ≡ []) × (rest fd after ≡ [])
  Delivered fd before (some (x ∷ l), after) = rest fd before ≡ (x ∷ l) ++ rest fd after

  pub record IsFaithful : Type 0 where
    pub reads : (fd n : ℕ) (w : W) → 0 < n → Delivered fd w (k.read fd n w)
    pub keeps : (fd n : ℕ) (w : W) → rest fd (k.malloc n w).1 ≡ rest fd w

  -- What the kernel still has for the stream.
  abbrev pub ahead : Option ℕ → W → List ℕ
  ahead none w = []
  ahead (some fd) w = rest fd w

  abbrev pub pushed : Option ℕ → List ℕ → List ℕ
  pushed none l = l
  pushed (some c) l = c ∷ l

  -- The characters that are still to be read, but for the one that was pushed back.
  abbrev pub unread : File W → List ℕ
  unread fp = cells fp.ram (fp.ibuf + fp.icur) (fp.ilen - fp.icur) ++ ahead fp.fd fp.world

  abbrev pub remaining : File W → List ℕ
  remaining fp = pushed fp.back (unread fp)

  -- A file whose buffer, once it has one, has room, or a string that has its own buffer.
  pub record IsSource (fp : File W) : Type 0 where
    pub inside : fp.icur ≤ fp.ilen
    pub own : is_none fp.fd ≡ true → (fp.ibuf == fp.obuf) ≡ false
    pub sized : (is_none fp.fd || fp.ibuf == 0 || ltb 0 fp.isize) ≡ true

  -- A source on which none is pushed back.
  abbrev pub IsFresh : File W → Type 0
  IsFresh fp = (fp.back ≡ none) × IsSource fp

  -- The first of the characters, or an end with its flag.
  abbrev pub Got : List ℕ → Option ℕ × File W → Type 0
  Got chars (none, fp') =
      (((chars ≡ []) × (fp'.eof ≡ true)) ⊎ (fp'.err ≡ true)) × (remaining fp' ≡ chars) × IsFresh fp'
  Got chars (some c, fp') = (chars ≡ c ∷ remaining fp') × IsFresh fp'

  pub remaining-unread : (fp : File W) → fp.back ≡ none → remaining fp ≡ unread fp
  remaining-unread fp fresh = ap (λ b. pushed b (unread fp)) fresh

  -- What an attempt leaves that gives no character.
  abbrev pub Stays : File W → File W → Type 0
  Stays fp fp' = (unread fp' ≡ unread fp) × (fp'.back ≡ fp.back) × (IsSource fp → IsSource fp')

  pub unread-world :
      (fd : ℕ) (fp : File W) (w : W)
      → fp.fd ≡ some fd
      → rest fd w ≡ rest fd fp.world
      → unread (record fp { world = w }) ≡ unread fp
  unread-world fd fp w file same =
      ap (λ l. cells fp.ram (fp.ibuf + fp.icur) (fp.ilen - fp.icur) ++ l)
        (ap (λ o. ahead o w) file ∙ same ∙ sym (ap (λ o. ahead o fp.world) file))

  pub unread-used :
      (fd : ℕ) (fp : File W) → fp.fd ≡ some fd → fp.ilen ≤ fp.icur → unread fp ≡ rest fd fp.world
  unread-used fd fp file used =
      ap (λ l. l ++ ahead fp.fd fp.world)
        (cells-none fp.ram (fp.ibuf + fp.icur) fp.icur fp.ilen used)
      ∙ ap (λ o. ahead o fp.world) file

  pub next_char-Got :
      (fp : File W)
      → fp.back ≡ none
      → fp.icur < fp.ilen
      → IsSource fp
      → Got (unread fp) (next_char k fp)
  next_char-Got fp fresh lt source = (
    ap (λ l. l ++ ahead fp.fd fp.world) (cells-next fp.ram fp.ibuf fp.icur fp.ilen lt)
        ∙ ap
            (λ b. fp.ram (fp.ibuf + fp.icur) ∷ pushed b (unread (record fp { icur = fp.icur + 1 })))
            (sym fresh),
    (fresh, record { inside = omega arith; own = source.own; sized = source.sized }),
  )
