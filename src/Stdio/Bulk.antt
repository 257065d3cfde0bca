-- ===== src/Stdio/Bulk.antt =====
-- Strings and blocks of bytes that are written to a stream.
use yasos_libc.Base.{
  ℕ, suc, ◌+◌, ◌%◌, ◌≡◌, sym, ap, ◌∙◌, arith, true, Option, none, some, List, [], ◌∷◌, ◌++◌, map,
  length,
}
use yasos_libc.Stdio.{Kernel, File, fputc, fputs_loop, fputs, puts}
use yasos_libc.Stdio.Output.{IsFaithful, emitted, IsReady, Put, fputc-Put}
use mathlib.Core.Path.{subst}
use mathlib.Core.List.{append_assoc, append-nil}

-- The characters of a text, as `unsigned char`.
abbrev pub octets : List ℕ → List ℕ
octets s = map (λ c. c % 256) s

module _ {W : Type 0} (k : Kernel W) (log : ℕ → W → List ℕ) (faithful : IsFaithful k log)
    (fd : ℕ) where
  -- The bytes were given to the stream and the result is `n`, or the error flag is set.
  abbrev pub Written : List ℕ → ℕ → File W → Option ℕ × File W → Type 0
  Written bytes n fp (none, fp') = fp'.err ≡ true
  Written bytes n fp (some m, fp') =
      (m ≡ n) × (emitted k log fd fp' ≡ emitted k log fd fp ++ bytes) × IsReady k log fd fp'

  Written-behind :
      (a b : List ℕ) (n : ℕ) (fp fp1 : File W) (r : Option ℕ × File W)
      → emitted k log fd fp1 ≡ emitted k log fd fp ++ a
      → Written b n fp1 r
      → Written (a ++ b) n fp r
  Written-behind a b n fp fp1 (none, fp2) given put = put
  Written-behind a b n fp fp1 (some m, fp2) given (e, more, ready) =
      (e, more ∙ ap (λ l. l ++ b) given ∙ append_assoc (emitted k log fd fp) a b, ready)

  -- A character, and then the rest of the work.
  after_char :
      (c n : ℕ) (bytes : List ℕ) (fp : File W) (r : Option ℕ × File W)
      (next : File W → Option ℕ × File W)
      → Put k log faithful fd c fp r
      → ((fp1 : File W) → IsReady k log fd fp1 → Written bytes n fp1 (next fp1))
      → Written (c % 256 ∷ bytes) n fp (elim r.0 [ none ↦ (none, r.1) | some _ ↦ next r.1 ])
  after_char c n bytes fp (none, fp1) next put rest = put
  after_char c n bytes fp (some d, fp1) next (e, given, ready) rest =
      Written-behind (c % 256 ∷ []) bytes n fp fp1 (next fp1) given (rest fp1 ready)

  fputs_loop-Written :
      (s : List ℕ) (n : ℕ) (fp : File W)
      → IsReady k log fd fp
      → Written (octets s) (n + length s) fp (fputs_loop k s n fp)
  unfolding fputs_loop
  fputs_loop-Written [] n fp ready = (omega arith, sym (append-nil _), ready)
  fputs_loop-Written (c ∷ s) n fp ready =
      let count : n + 1 + length s ≡ n + suc (length s) = omega arith in
      after_char c (n + suc (length s)) (octets s) fp (fputc k c fp)
        (λ fp1. fputs_loop k s (n + 1) fp1) (fputc-Put k log faithful fd c fp ready)
        (λ fp1 ready1.
          subst (λ j. Written (octets s) j fp1 (fputs_loop k s (n + 1) fp1)) count
            (fputs_loop-Written s (n + 1) fp1 ready1))

  -- `puts` on a stream that is open and has room gives it the characters of the text and a line feed, and
  -- returns how many these are, or fails with the error flag set.
  pub puts-Written :
      (s : List ℕ) (fp : File W)
      → IsReady k log fd fp
      → Written (octets s ++ (10 ∷ [])) (length s + 1) fp (puts k s fp)
  unfolding puts fputs
  puts-Written s fp ready = ended (fputs_loop k s 0 fp) (fputs_loop-Written s 0 fp ready)
    where
      ended :
          (r : Option ℕ × File W)
          → Written (octets s) (0 + length s) fp r
          → Written (octets s ++ (10 ∷ [])) (length s + 1) fp (elim r.0 [
            | none ↦ (none, r.1)
            | some n ↦
                let (put, fp2) = fputc k 10 r.1 in
                elim put [ none ↦ (none, fp2) | some _ ↦ (some (n + 1), fp2) ]
          ])
      ended (none, fp1) put = put
      ended (some n, fp1) (e, given, ready1) =
          Written-behind (octets s) (10 ∷ []) (length s + 1) fp fp1 _ given (
            after_char 10 (length s + 1) [] fp1 (fputc k 10 fp1) (λ fp2. (some (n + 1), fp2))
              (fputc-Put k log faithful fd 10 fp1 ready1)
              (λ fp2 ready2. (omega (arith, e), sym (append-nil _), ready2)))
