-- ===== src/Stdio/Scanned.antt =====
-- What the scanner of `vfscanf` consumes, and what it counts.
use yasos_libc.Base.{
  ℕ, zero, suc, ◌+◌, ◌-◌, ◌%◌, ◌^◌, ◌<◌, ◌≡◌, refl, sym, ap, ◌∙◌, arith, Bool, true, false, inl,
  inr, ◌⊎◌, Option, none, some, List, [], ◌∷◌, ◌++◌, length, length-append,
}
use mathlib.Core.Path.{subst}
use mathlib.Core.List.{append_assoc}
use yasos_libc.Ctype.{isspace}
use yasos_libc.Ctype.Classes.{class_ranges}
use yasos_libc.Strto.{skip_space}
use yasos_libc.Strto.Decimal.{IsText}
use yasos_libc.Stdio.{Kernel, File, is_none}
use yasos_libc.Stdio.Read.{ic, ungetc}
use yasos_libc.Stdio.Source.{IsFaithful, pushed, unread, remaining, IsSource, Got}
use yasos_libc.Stdio.Input.{ic-Got}
use yasos_libc.Stdio.Scan.{Scan, or_eof, sget, sunget, skip_input_space}

pub IsText-behind : (t s : List ℕ) → IsText (t ++ s) → IsText s
unfolding IsText
IsText-behind [] s text = text
IsText-behind (c ∷ t) s (byte, text) = IsText-behind t s text

skip_space-blank : (c : ℕ) (s : List ℕ) → isspace c ≡ true → skip_space (c ∷ s) ≡ skip_space s
unfolding skip_space
skip_space-blank c s blank = rw (skip_space, blank) refl

skip_space-stop : (c : ℕ) (s : List ℕ) → isspace c ≡ false → skip_space (c ∷ s) ≡ c ∷ s
unfolding skip_space
skip_space-stop c s char = rw (skip_space, char) refl

eof_char : isspace (2 ^ 32 - 1) ≡ false
eof_char = (class_ranges (2 ^ 32 - 1) (omega arith)).2 ∙ refl

module _ {W : Type 0} (k : Kernel W) (rest : ℕ → W → List ℕ) where
  -- The scanner has taken just the characters of a text, and counted them.
  pub record Consumes (t : List ℕ) (s s' : Scan W) : Type 0 where
    pub taken : remaining k rest s.fp ≡ t ++ remaining k rest s'.fp
    pub counted : s'.count ≡ s.count + length t
    pub source : IsSource k rest s'.fp

  pub Consumes-append :
      (t u : List ℕ) (s s1 s2 : Scan W)
      → Consumes t s s1
      → Consumes u s1 s2
      → Consumes (t ++ u) s s2
  Consumes-append t u s s1 s2 first second = record {
    taken =
        first.taken
        ∙ ap (λ l. t ++ l) second.taken
        ∙ sym (append_assoc t u (remaining k rest s2.fp));
    counted = second.counted ∙ rw (length-append t u) (omega (arith, first.counted));
    source = second.source;
  }

  -- One character, or none at the end or after an error; none is pushed back.
  abbrev pub Sgot : Scan W → Option ℕ × Scan W → Type 0
  Sgot s (none, s') =
      (((remaining k rest s.fp ≡ []) × (s'.fp.eof ≡ true)) ⊎ (s'.fp.err ≡ true))
      × Consumes [] s s'
      × (s'.fp.back ≡ none)
  Sgot s (some c, s') = Consumes (c ∷ []) s s' × (s'.fp.back ≡ none)

  module _ (faithful : IsFaithful k rest) where
    pub sget-Sgot : (s : Scan W) → IsSource k rest s.fp → Sgot s (sget k s)
    unfolding sget
    sget-Sgot s source = counted (ic k s.fp) (ic-Got k rest faithful s.fp source)
      where
        counted :
            (r : Option ℕ × File W)
            → Got k rest (remaining k rest s.fp) r
            → Sgot s (
              r.0,
              record s { fp = r.1; count = elim r.0 [ none ↦ s.count | some _ ↦ s.count + 1 ] },
            )
        counted (none, fp) (why, same, (fresh, source1)) =
            (why, record { taken = sym same; counted = omega arith; source = source1 }, fresh)
        counted (some c, fp) (given, (fresh, source1)) =
            (record { taken = given; counted = omega arith; source = source1 }, fresh)

    -- The character that was read last is put back, and is not counted.
    pub sunget-Consumes :
        (s s1 : Scan W) (c : Option ℕ)
        → IsText (remaining k rest s.fp)
        → Sgot s (c, s1)
        → Consumes [] s (sunget k c s1)
    unfolding sunget ungetc IsText
    sunget-Consumes s s1 none text (why, same, fresh) = same
    sunget-Consumes s s1 (some c) text (given, fresh) =
        let free : is_none s1.fp.back ≡ true = ap is_none fresh in
        let chars : IsText (c ∷ remaining k rest s1.fp) = subst IsText given.taken text in
        let byte : c % 256 ≡ c = omega (arith, chars.0) in
        rw (free) (record {
          taken =
              given.taken
              ∙ ap (λ b. c ∷ pushed k rest b (unread k rest s1.fp)) fresh
              ∙ ap (λ x. x ∷ unread k rest s1.fp) (sym byte);
          counted = omega (arith, given.counted);
          source = record {
            inside = given.source.inside;
            own = given.source.own;
            sized = given.source.sized;
          };
        })

    -- The blanks in front of the rest, but for an error.
    abbrev pub Skips : Scan W → Option (Scan W) → Type 0
    Skips s none = ⊥
    Skips s (some s') =
        (t : List ℕ) × Consumes t s s'
        × ((remaining k rest s'.fp ≡ skip_space (remaining k rest s.fp)) ⊎ (s'.fp.err ≡ true))

    -- Behind a blank.
    skip_behind :
        (c : ℕ) (s s1 : Scan W) (r : Option (Scan W))
        → isspace c ≡ true
        → Consumes (c ∷ []) s s1
        → Skips s1 r
        → Skips s r
    skip_behind c s s1 none blank first absent = absent
    skip_behind c s s1 (some s2) blank first (t, second, why) =
        (c ∷ t, Consumes-append (c ∷ []) t s s1 s2 first second, end why)
      where
        end :
            (remaining k rest s2.fp ≡ skip_space (remaining k rest s1.fp)) ⊎ (s2.fp.err ≡ true)
            → (remaining k rest s2.fp ≡ skip_space (remaining k rest s.fp)) ⊎ (s2.fp.err ≡ true)
        end (inl done) =
            inl (done ∙ sym (skip_space-blank c _ blank) ∙ ap skip_space (sym first.taken))
        end (inr flag) = inr flag

    -- At a character that is no blank, or at the end.
    skip_end :
        (s s1 : Scan W) (c : Option ℕ)
        → IsText (remaining k rest s.fp)
        → isspace (or_eof c) ≡ false
        → Sgot s (c, s1)
        → Skips s (some (sunget k c s1))
    unfolding sunget skip_space
    skip_end s s1 none text no_blank (inl (nothing, flag), same, fresh) =
        ([], same, inl (sym same.taken ∙ nothing ∙ sym (ap skip_space nothing)))
    skip_end s s1 none text no_blank (inr flag, same, fresh) = ([], same, inr flag)
    skip_end s s1 (some c) text no_blank (given, fresh) =
        let back = sunget-Consumes s s1 (some c) text (given, fresh) in
        (
          [],
          back,
          inl (
              sym back.taken
              ∙ given.taken
              ∙ sym (skip_space-stop c _ no_blank)
              ∙ ap skip_space (sym given.taken)),
        )

    either-Skips :
        (b : Bool) (s : Scan W) (r r' : Option (Scan W))
        → (b ≡ false → Skips s r)
        → (b ≡ true → Skips s r')
        → Skips s (elim b [ false ↦ r | true ↦ r' ])
    either-Skips false s r r' stop more = stop refl
    either-Skips true s r r' stop more = more refl

    -- `skip_space` on a source of fewer characters than there are rounds ends, with a count of just the
    -- characters it took, and leaves what is left behind the blanks, or has set the error flag.
    pub skip_input_space-Skips :
        (fuel : ℕ) (s : Scan W)
        → length (remaining k rest s.fp) < fuel
        → IsSource k rest s.fp
        → IsText (remaining k rest s.fp)
        → Skips s (skip_input_space k fuel s)
    unfolding skip_input_space
    skip_input_space-Skips zero s lt source text = absurd (omega (arith, lt))
    skip_input_space-Skips (suc fuel) s lt source text =
        either-Skips (isspace (or_eof (sget k s).0)) s _ _
          (λ stop. skip_end s (sget k s).1 (sget k s).0 text stop (sget-Sgot s source))
          (λ blank.
            skip_more (sget k s) blank (sget-Sgot s source)
              (λ s1 lt1 source1 text1. skip_input_space-Skips fuel s1 lt1 source1 text1))
      where
        skip_more :
            (r : Option ℕ × Scan W)
            → isspace (or_eof r.0) ≡ true
            → Sgot s r
            → ((s1 : Scan W)
                → length (remaining k rest s1.fp) < fuel
                → IsSource k rest s1.fp
                → IsText (remaining k rest s1.fp)
                → Skips s1 (skip_input_space k fuel s1))
            → Skips s (skip_input_space k fuel r.1)
        skip_more (none, s1) blank got later = absurd (ground (arith, blank, eof_char))
        skip_more (some c, s1) blank (given, fresh) later =
            let fewer = ap length given.taken in
            skip_behind c s s1 _ blank given (
              later s1 (omega (arith, lt, fewer)) given.source
                (IsText-behind (c ∷ []) _ (subst IsText given.taken text)))
