-- ===== src/Stdio/Getdelim.antt =====
-- `getdelim` of stdio.c against the line that is next in the stream.
use yasos_libc.Base.{
  ℕ, zero, suc, ◌+◌, ◌*◌, ◌≤◌, ◌<◌, ◌≡◌, refl, sym, ap, ◌∙◌, arith, Bool, true, false, not, ◌||◌,
  ltb, ◌==◌, if◌then◌else◌, ltb-false, inl, inr, ◌⊎◌, if_both, Option, none, some, List, [], ◌∷◌,
  ◌++◌, length, length-append,
}
use mathlib.Core.Path.{subst}
use mathlib.Core.List.{append_assoc, append-nil}
use yasos_libc.Stdio.{Kernel, File}
use yasos_libc.Stdio.Read.{ic, fgetc}
use yasos_libc.Stdio.Source.{IsFaithful, remaining, IsSource, Got}
use yasos_libc.Stdio.Input.{ic-Got}
use yasos_libc.Stdio.Lines.{Line, Result, first_block, grow, getdelim_loop, line_result, getdelim}

-- The characters up to the delimiter, with it.
unfoldable pub line_of : ℕ → List ℕ → List ℕ
line_of delimiter [] = []
line_of delimiter (c ∷ s) = c ∷ (if c == delimiter then [] else line_of delimiter s)

-- The terminator fits behind the characters.
abbrev pub Fits : Line → Type 0
Fits l = length l.chars < l.size

line_of-other :
    (delimiter x : ℕ) (s : List ℕ)
    → (x == delimiter) ≡ false
    → line_of delimiter (x ∷ s) ≡ x ∷ line_of delimiter s
unfolding line_of
line_of-other delimiter x s other = rw (line_of, other) refl

line_of-delimiter :
    (delimiter x : ℕ) (s : List ℕ) → (x == delimiter) ≡ true → line_of delimiter (x ∷ s) ≡ x ∷ []
unfolding line_of
line_of-delimiter delimiter x s same = rw (line_of, same) refl

module _ (grants : ℕ → Bool) where
  -- What a request for room gives.
  abbrev Grown : Line → Option Line → Type 0
  Grown l none = Unit
  Grown l (some l1) = (l1.chars ≡ l.chars) × (length l.chars + 2 ≤ l1.size)

  grow-Grown : (l : Line) → Fits l → Grown l (grow grants l)
  unfolding grow
  grow-Grown l fits =
      if_both (Grown l) (ltb l.size (length l.chars + 2))
        (λ small.
          if_both (Grown l) (grants (l.size * 2)) (λ _. (refl, omega (arith, fits))) (λ _. tt))
        (λ enough. (refl, ltb-false _ _ enough))

  -- What the first request gives.
  abbrev First : Option Line → Type 0
  First none = Unit
  First (some l1) = Fits l1 × (l1.chars ≡ [])

  first_block-First : (l : Line) → First (first_block grants l)
  unfolding first_block
  first_block-First l =
      if_both First (not l.held || ltb l.size 2)
        (λ small. if_both First (grants 128) (λ _. (omega arith, refl)) (λ _. tt))
        (λ enough. (ground arith, refl))

  module _ {W : Type 0} (k : Kernel W) (rest : ℕ → W → List ℕ) (faithful : IsFaithful k rest) where
    -- The line was taken from the stream, behind what the buffer held, or the reading failed; in any case
    -- the terminator fits.
    abbrev Taken : ℕ → List ℕ → File W → Option (Bool × Line × File W) → Type 0
    Taken delimiter before fp none = ⊥
    Taken delimiter before fp (some (false, l, fp')) = Fits l
    Taken delimiter before fp (some (true, l, fp')) =
        Fits l
        × ((t : List ℕ) × (l.chars ≡ before ++ t)
            × (remaining k rest fp ≡ t ++ remaining k rest fp')
            × ((t ≡ line_of delimiter (remaining k rest fp)) ⊎ (fp'.err ≡ true)))

    Taken-behind :
        (delimiter x : ℕ) (l l1 : Line) (fp fp1 : File W) (r : Option (Bool × Line × File W))
        → (x == delimiter) ≡ false
        → l1.chars ≡ l.chars
        → remaining k rest fp ≡ x ∷ remaining k rest fp1
        → Taken delimiter (l1.chars ++ (x ∷ [])) fp1 r
        → Taken delimiter l.chars fp r
    unfolding line_of
    Taken-behind delimiter x l l1 fp fp1 none other same given absent = absent
    Taken-behind delimiter x l l1 fp fp1 (some (false, l', fp')) other same given fits = fits
    Taken-behind delimiter x l l1 fp fp1 (some (true, l', fp')) other same given
          (fits, (t, is, took, why)) =
        (
          fits,
          (
            x ∷ t,
            is ∙ append_assoc l1.chars (x ∷ []) t ∙ ap (λ q. q ++ (x ∷ t)) same,
            given ∙ ap (λ q. x ∷ q) took,
            line why,
          ),
        )
      where
        line :
            (t ≡ line_of delimiter (remaining k rest fp1)) ⊎ (fp'.err ≡ true)
            → (x ∷ t ≡ line_of delimiter (remaining k rest fp)) ⊎ (fp'.err ≡ true)
        line (inl e) = inl (
            ap (λ q. x ∷ q) e
            ∙ sym (line_of-other delimiter x (remaining k rest fp1) other)
            ∙ ap (line_of delimiter) (sym given))
        line (inr flag) = inr flag

    -- A character, once it has room.
    store_char-Taken :
        (delimiter x : ℕ) (b : Bool) (l l1 : Line) (fp fp1 : File W)
        (later : Option (Bool × Line × File W))
        → (x == delimiter) ≡ b
        → Grown l (some l1)
        → remaining k rest fp ≡ x ∷ remaining k rest fp1
        → (Fits (record l1 { chars = l1.chars ++ (x ∷ []) })
            → Taken delimiter (l1.chars ++ (x ∷ [])) fp1 later)
        → Taken delimiter l.chars fp (elim b [
          | true ↦ some (true, record l1 { chars = l1.chars ++ (x ∷ []) }, fp1)
          | false ↦ later
        ])
    store_char-Taken delimiter x true l l1 fp fp1 later is (same, room) given next = (
      rw (length-append l1.chars (x ∷ [])) (omega (arith, room, ap length same)),
      (
        x ∷ [],
        ap (λ q. q ++ (x ∷ [])) same,
        given,
        inl (
            sym (line_of-delimiter delimiter x (remaining k rest fp1) is)
            ∙ ap (line_of delimiter) (sym given)),
      ),
    )
    store_char-Taken delimiter x false l l1 fp fp1 later is (same, room) given next =
        Taken-behind delimiter x l l1 fp fp1 later is same given
          (next (rw (length-append l1.chars (x ∷ [])) (omega (arith, room, ap length same))))

    getdelim_loop-Taken :
        (fuel delimiter : ℕ) (l : Line) (fp : File W)
        → length (remaining k rest fp) < fuel
        → IsSource k rest fp
        → Fits l
        → Taken delimiter l.chars fp (getdelim_loop grants k fuel delimiter l fp)
    unfolding getdelim_loop fgetc line_of
    getdelim_loop-Taken zero delimiter l fp lt source fits = absurd (omega (arith, lt))
    getdelim_loop-Taken (suc fuel) delimiter l fp lt source fits =
        read (ic k fp) (ic-Got k rest faithful fp source) (grow grants l) (grow-Grown l fits)
          (λ l2 fp1 lt1 source1 fits2. getdelim_loop-Taken fuel delimiter l2 fp1 lt1 source1 fits2)
      where
        read :
            (r : Option ℕ × File W)
            → Got k rest (remaining k rest fp) r
            → (g : Option Line) → Grown l g
            → ((l2 : Line) (fp1 : File W)
                → length (remaining k rest fp1) < fuel
                → IsSource k rest fp1
                → Fits l2
                → Taken delimiter l2.chars fp1 (getdelim_loop grants k fuel delimiter l2 fp1))
            → Taken delimiter l.chars fp (elim r.0 [
              | none ↦ some (true, l, r.1)
              | some x ↦ elim g [
                | none ↦ some (false, l, r.1)
                | some l1 ↦ elim (x == delimiter) [
                  | true ↦ some (true, record l1 { chars = l1.chars ++ (x ∷ []) }, r.1)
                  | false ↦
                      getdelim_loop grants k fuel delimiter
                        (record l1 { chars = l1.chars ++ (x ∷ []) })
                        r.1
                ]
              ]
            ])
        read (none, fp1) (inl (nothing, flag), same, fresh) g grown next = (
          fits,
          ([], sym (append-nil l.chars), sym same, inl (sym (ap (line_of delimiter) nothing))),
        )
        read (none, fp1) (inr flag, same, fresh) g grown next =
            (fits, ([], sym (append-nil l.chars), sym same, inr flag))
        read (some x, fp1) (given, fresh) none grown next = fits
        read (some x, fp1) (given, (fresh, source1)) (some l1) grown next =
            store_char-Taken delimiter x (x == delimiter) l l1 fp fp1 _ refl grown given
              (next _ fp1 (omega (arith, lt, ap length given)) source1)

    -- What `getdelim` leaves: the line that is next in the stream with room for its terminator, and its
    -- length or -1 for none, unless the reading or the memory failed.
    abbrev pub IsLine : ℕ → File W → Option (Result W) → Type 0
    IsLine delimiter fp none = ⊥
    IsLine delimiter fp (some r) =
        (r.no_memory ≡ true)
        ⊎ (Fits r.line
            × (r.ret ≡ (if length r.line.chars == 0 then none else some (length r.line.chars)))
            × (remaining k rest fp ≡ r.line.chars ++ remaining k rest r.fp)
            × ((r.line.chars ≡ line_of delimiter (remaining k rest fp)) ⊎ (r.fp.err ≡ true)))

    -- On a source of fewer characters than there are rounds `getdelim` returns. Unless there was no
    -- memory, it has taken the characters up to the delimiter, with it, or to the end of the stream, but
    -- for an error, it lost none, it returns how many they are, and their terminator fits in the buffer.
    pub getdelim-IsLine :
        (fuel delimiter : ℕ) (l : Line) (fp : File W)
        → length (remaining k rest fp) < fuel
        → IsSource k rest fp
        → IsLine delimiter fp (getdelim grants k fuel delimiter l fp)
    unfolding getdelim
    getdelim-IsLine fuel delimiter l fp lt source =
        blocks (first_block grants l) (first_block-First l)
      where
        ended :
            (l1 : Line) (r : Option (Bool × Line × File W))
            → l1.chars ≡ []
            → Taken delimiter l1.chars fp r
            → IsLine delimiter fp (elim r [ none ↦ none | some q ↦ some (line_result grants k q) ])
        ended l1 none empty absent = absent
        ended l1 (some (false, l2, fp2)) empty fits = inl refl
        ended l1 (some (true, l2, fp2)) empty (fits, (t, is, took, why)) =
            let whole : t ≡ l2.chars = sym (is ∙ ap (λ q. q ++ t) empty) in
            inr (
              fits,
              refl,
              took ∙ ap (λ q. q ++ remaining k rest fp2) whole,
              subst (λ q. (q ≡ line_of delimiter (remaining k rest fp)) ⊎ (fp2.err ≡ true)) whole
                  why,
            )

        blocks :
            (g : Option Line)
            → First g
            → IsLine delimiter fp (elim g [
              | none ↦ some (record { ret = none; no_memory = true; line = l; fp = fp })
              | some l1 ↦ elim (getdelim_loop grants k fuel delimiter l1 fp) [
                | none ↦ none
                | some r ↦ some (line_result grants k r)
              ]
            ])
        blocks none first = inl refl
        blocks (some l1) (fits, empty) =
            ended l1 (getdelim_loop grants k fuel delimiter l1 fp) empty
              (getdelim_loop-Taken fuel delimiter l1 fp lt source fits)
