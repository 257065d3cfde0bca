-- ===== src/Fnmatch/Total.antt =====
-- The number of rounds of the loop of fnmatch.c.
use yasos_libc.Base.{
  ℕ, zero, suc, ◌+◌, ◌*◌, ◌≤◌, ◌<◌, ◌≡◌, refl, ap, arith, Bool, true, ◌&&◌, ◌==◌, if_both, Option,
  none, some, List, [], ◌∷◌, length,
}
use yasos_libc.Strto.{cur, next}
use native.Mathlib.Nat.{mul-le-mul_right}
use yasos_libc.Fnmatch.{
  fnm_period, has_flag, is_end, skip_stars, Round, done, go, match_one, at_star, retry, step,
  fnmatch_loop, fnmatch,
}
use yasos_libc.Fnmatch.Rounds.{is_slash, step_cases, loop_cases}
use yasos_libc.Fnmatch.Behind.{match_one-shorter, length-next}

length-skip_stars : (p : List ℕ) → length (skip_stars p) ≤ length p
unfolding skip_stars
length-skip_stars [] = omega arith
length-skip_stars (c ∷ p) =
    if_both (λ (q : List ℕ). length q ≤ suc (length p)) (c == b'*') {x = skip_stars p} {y = c ∷ p}
      (λ _. omega (arith, length-skip_stars p)) (λ _. omega arith)

length-skip_stars_one : (p : List ℕ) → (cur p == b'*') ≡ true → length (skip_stars p) < length p
unfolding skip_stars
length-skip_stars_one [] e = absurd (ground arith)
length-skip_stars_one (c ∷ p) e = rw (e) (omega (arith, length-skip_stars p))

module _ (flags width : ℕ) where
  -- `left` bounds the characters from the last star on, and `width` the pattern.
  abbrev KeptFits : ℕ → Option (List ℕ × List ℕ) → Type 0
  KeptFits left none = Unit
  KeptFits left (some (star_p, star_s)) = (length star_p ≤ width) × (length star_s ≡ left)

  -- There are fewer than `fuel` rounds to go.
  record Fits (fuel : ℕ) (p s : List ℕ) (star : Option (List ℕ × List ℕ)) : Type 0 where
    left : ℕ
    pattern_fits : length p ≤ width
    string_fits : length s ≤ left
    kept_fits : KeptFits left star
    enough : left * (width + 1) + length p < fuel

  abbrev RoundFits : ℕ → Round → Type 0
  RoundFits fuel (done r) = Unit
  RoundFits fuel (go p s star leading) = Fits fuel p s star

  at_star-Fits :
      (fuel : ℕ) (p s : List ℕ) (star : Option (List ℕ × List ℕ))
      → (cur p == b'*') ≡ true
      → Fits (suc fuel) p s star
      → RoundFits fuel (at_star flags p s)
  unfolding at_star
  at_star-Fits fuel p s star e fits =
      if_both (RoundFits fuel) (is_end (skip_stars p)) (λ _. tt)
        (λ _.
          let shorter = length-skip_stars_one p e in
          let product = mul-le-mul_right (width + 1) fits.string_fits in
          record {
            left = length s;
            pattern_fits = omega (arith, shorter, fits.pattern_fits);
            string_fits = omega arith;
            kept_fits = (omega (arith, shorter, fits.pattern_fits), refl);
            enough = omega (arith, shorter, product, fits.enough);
          })

  retry-Fits :
      (fuel : ℕ) (p : List ℕ) (c : ℕ) (s : List ℕ) (star : Option (List ℕ × List ℕ))
      (leading : Bool)
      → Fits (suc fuel) p (c ∷ s) star
      → RoundFits fuel (retry flags star leading)
  unfolding retry
  retry-Fits fuel p c s none leading fits = tt
  retry-Fits fuel p c s (some (star_p, star_s)) leading fits =
      if_both (RoundFits fuel) (is_slash flags (cur star_s)) (λ _. tt)
        (λ _.
          if_both (RoundFits fuel) (has_flag flags fnm_period && leading && cur star_s == b'.')
            (λ _. tt)
            (λ _.
              let kept = fits.kept_fits in
              let one_less : length (next star_s) + 1 ≡ fits.left =
                omega (arith, length-next star_s, kept.1, fits.string_fits) in
              let product : (length (next star_s) + 1) * (width + 1) ≡ fits.left * (width + 1) =
                ap (λ k. k * (width + 1)) one_less in
              record {
                left = length (next star_s);
                pattern_fits = kept.0;
                string_fits = omega arith;
                kept_fits = (kept.0, refl);
                enough = omega (arith, product, fits.enough, kept.0);
              }))

  hit-Fits :
      (fuel : ℕ) (p : List ℕ) (c : ℕ) (s : List ℕ) (star : Option (List ℕ × List ℕ))
      (after : List ℕ)
      → match_one flags p c ≡ some after
      → Fits (suc fuel) p (c ∷ s) star
      → Fits fuel after s star
  hit-Fits fuel p c s star after e fits =
      let shorter : length after < length p = match_one-shorter flags p c after e in
      record {
        left = fits.left;
        pattern_fits = omega (arith, shorter, fits.pattern_fits);
        string_fits = omega (arith, fits.string_fits);
        kept_fits = fits.kept_fits;
        enough = omega (arith, shorter, fits.enough);
      }

  step-Fits :
      (fuel : ℕ) (p : List ℕ) (c : ℕ) (s : List ℕ) (star : Option (List ℕ × List ℕ))
      (leading : Bool)
      → Fits (suc fuel) p (c ∷ s) star
      → RoundFits fuel (step flags p c s star leading)
  step-Fits fuel p c s star leading fits =
      step_cases flags (RoundFits fuel) p c s star leading (λ _. tt) (λ _. tt)
        (λ e. at_star-Fits fuel p (c ∷ s) star e fits)
        (λ _ after e. hit-Fits fuel p c s star after e fits)
        (λ _ _. retry-Fits fuel p c s star leading fits)

  loop-returns :
      (fuel : ℕ) (p s : List ℕ) (star : Option (List ℕ × List ℕ)) (leading : Bool)
      → Fits fuel p s star
      → (r : ℕ) × (fnmatch_loop flags fuel p s star leading ≡ some r)
  unfolding fnmatch_loop
  loop-returns zero p s star leading fits = absurd (omega (arith, fits.enough))
  loop-returns (suc fuel) p [] star leading fits = (_, refl)
  loop-returns (suc fuel) p (c ∷ s) star leading fits =
      loop_cases flags (λ v. (r : ℕ) × (v ≡ some r)) (RoundFits fuel) fuel p c s star leading
        (step-Fits fuel p c s star leading fits) (λ r _. (r, refl))
        (λ p' s' star' leading' h. loop-returns fuel p' s' star' leading' h)

-- Whatever the flags, the loop comes to its end in at most as many rounds as the product of the two
-- lengths, each with its terminator, so that `fnmatch` returns.
pub fnmatch-returns :
    (flags : ℕ) (pattern string : List ℕ) → (r : ℕ) × (fnmatch flags pattern string ≡ some r)
unfolding fnmatch
fnmatch-returns flags pattern string =
    loop-returns flags (length pattern) _ pattern string none true (record {
      left = length string;
      pattern_fits = omega arith;
      string_fits = omega arith;
      kept_fits = tt;
      enough = omega arith;
    })
