-- ===== src/Stdio/Pushback.antt =====
-- `ungetc` of scanf.c against `ic`.
use yasos_libc.Base.{
  ℕ, ◌%◌, ◌≡◌, refl, sym, ap, arith, true, false, if_both, Option, none, some, List, ◌∷◌,
}
use yasos_libc.Stdio.{Kernel, File, is_none}
use yasos_libc.Stdio.Read.{ic, ungetc}
use yasos_libc.Stdio.Source.{pushed, unread, remaining}

module _ {W : Type 0} (k : Kernel W) (rest : ℕ → W → List ℕ) where
  -- What holds of the stream after a character was pushed back.
  abbrev pub Pushed : ℕ → ℕ → File W → Option ℕ × File W → Type 0
  Pushed c d fp (pushed_char, fp1) =
      (pushed_char ≡ some c)
      × (remaining k rest fp1 ≡ c ∷ remaining k rest fp)
      × (ic k fp1 ≡ (some c, record fp { eof = false }))
      × (ungetc k (some d) fp1 ≡ (none, fp1))

  -- Where none is waiting, a character that is pushed back is the next one that is read, and the reading
  -- takes the stream back to what it was, but for the flag of the end; a second one is refused.
  pub ungetc-Pushed :
      (c d : ℕ) (fp : File W) → fp.back ≡ none → Pushed (c % 256) d fp (ungetc k (some c) fp)
  unfolding ungetc ic
  ungetc-Pushed c d fp fresh =
      if_both (Pushed (c % 256) d fp) (is_none fp.back)
        (λ _. (
          refl,
          ap (λ b. c % 256 ∷ pushed k rest b (unread k rest fp)) (sym fresh),
          ap (λ b. (some (c % 256), record fp { back = b; eof = false })) (sym fresh),
          refl,
        ))
        (λ waiting. let free : is_none fp.back ≡ true = ap is_none fresh in absurd (ground arith))
