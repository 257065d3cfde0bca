-- ===== src/Fnmatch/Complete.antt =====
-- Without the flags that treat slashes and leading dots in a special way, `fnmatch` decides whether a pattern
-- matches.
use yasos_libc.Base.{
  ℕ, zero, suc, ◌≡◌, refl, ap, ◌∙◌, arith, Bool, true, false, ◌&&◌, ◌==◌, inl, inr, ◌⊎◌, ◌↔◌,
  if_both, Option, none, some, List, [], ◌∷◌,
}
use yasos_libc.Strto.{cur, next}
use mathlib.Core.Path.{subst}
use mathlib.Core.Option.{some-injective, none-ne-some}
use yasos_libc.Fnmatch.{
  fnm_pathname, fnm_period, fnm_leading_dir, has_flag, is_end, skip_stars, Round, done, go,
  match_one, trailing, at_star, retry, step, at_end, fnmatch_loop, fnmatch,
}
use yasos_libc.Fnmatch.Rounds.{is_slash, step_cases, loop_cases, Steps, Starred}
use yasos_libc.Fnmatch.Sound.{fnmatch-Steps}
use yasos_libc.Fnmatch.Total.{fnmatch-returns}
use yasos_libc.Fnmatch.Suffixes.{
  whole, Later, Starred-Later, Starred-cases, advance, stuck, at_end-stars, advance-Later,
  from_suffix, Steps-Starred,
}

module _ (flags : ℕ) (no_pathname : has_flag flags fnm_pathname ≡ false)
    (no_period : has_flag flags fnm_period ≡ false) (Whole : Type 0) where
  -- A match of the whole is one that the loop can still reach.
  abbrev Held : List ℕ → List ℕ → Option (List ℕ × List ℕ) → Type 0
  Held p s none = Whole → Steps flags p s
  Held p s (some (star_p, star_s)) =
      (Whole → Starred flags star_p star_s)
      × (Steps flags star_p star_s → Steps flags p s)
      × (Later flags star_p star_s → Later flags p s)

  Held-Later :
      (p s : List ℕ) (star : Option (List ℕ × List ℕ)) → Held p s star → Whole → Later flags p s
  Held-Later p s none held w = (s, whole, held w)
  Held-Later p s (some (star_p, star_s)) (reach, here, onward) w =
      onward (Starred-Later flags star_p star_s (reach w))

  -- The result 1 is only given where the whole does not match.
  abbrev Refuses : ℕ → Type 0
  Refuses r = (r ≡ 0) ⊎ ¬ Whole

  abbrev RoundHeld : Round → Type 0
  RoundHeld (done r) = Refuses r
  RoundHeld (go p s star leading) = Held p s star

  trailing-zero : (s : List ℕ) → trailing flags s ≡ 0
  unfolding trailing
  trailing-zero s = rw (no_pathname) refl

  at_star-Held :
      (p s : List ℕ) (star : Option (List ℕ × List ℕ))
      → Held p s star
      → RoundHeld (at_star flags p s)
  unfolding at_star
  at_star-Held p s star held =
      if_both RoundHeld (is_end (skip_stars p)) (λ _. inl (trailing-zero s))
        (λ _.
          let reach : Whole → Starred flags (skip_stars p) s = λ w.
            let (t, suffix, found) = Held-Later p s star held w in
            from_suffix flags no_pathname suffix (Steps-Starred flags no_pathname p t found) in
          (reach, λ m. m, λ m. m))

  retry-Held :
      (p : List ℕ) (c : ℕ) (s : List ℕ) (star : Option (List ℕ × List ℕ)) (leading : Bool)
      → ¬ Steps flags p (c ∷ s)
      → Held p (c ∷ s) star
      → RoundHeld (retry flags star leading)
  unfolding retry
  retry-Held p c s none leading stopped held = inr (λ w. stopped (held w))
  retry-Held p c s (some (star_p, star_s)) leading stopped (reach, here, onward) =
      if_both RoundHeld (is_slash flags (cur star_s)) (λ e. absurd (ground arith))
        (λ _.
          if_both RoundHeld (has_flag flags fnm_period && leading && cur star_s == b'.')
            (λ e. absurd (ground arith))
            (λ _.
              let further : Whole → Starred flags star_p (next star_s) = λ w.
                elim (Starred-cases flags star_p star_s (reach w)) [
                  | inl m ↦ absurd (stopped (here m))
                  | inr m ↦ m
                ] in
              (further, λ m. m, λ m. m)))

  hit-Held :
      (p : List ℕ) (c : ℕ) (s : List ℕ) (star : Option (List ℕ × List ℕ)) (after : List ℕ)
      → (cur p == b'*') ≡ false
      → match_one flags p c ≡ some after
      → Held p (c ∷ s) star
      → Held after s star
  hit-Held p c s none after other e held = λ w. advance flags p c c s after other e (held w)
  hit-Held p c s (some (star_p, star_s)) after other e (reach, here, onward) = (
    reach,
    λ m. advance flags p c c s after other e (here m),
    λ m. advance-Later flags p c s after other e (onward m),
  )

  step-Held :
      (p : List ℕ) (c : ℕ) (s : List ℕ) (star : Option (List ℕ × List ℕ)) (leading : Bool)
      → Held p (c ∷ s) star
      → RoundHeld (step flags p c s star leading)
  step-Held p c s star leading held =
      step_cases flags RoundHeld p c s star leading (λ _. inl refl) (λ e. absurd (ground arith))
        (λ _. at_star-Held p (c ∷ s) star held)
        (λ other after e. hit-Held p c s star after other e held)
        (λ other e. retry-Held p c s star leading (stuck flags p c s other e) held)

  at_end-Held :
      (p : List ℕ) (star : Option (List ℕ × List ℕ)) → Held p [] star → Refuses (at_end flags p)
  unfolding at_end
  at_end-Held p star held =
      if_both Refuses (is_end (skip_stars p)) (λ _. inl refl)
        (λ e. inr (λ w.
          let stars = at_end-stars flags p (Held-Later p [] star held w) in absurd (ground arith)))

  loop-Held :
      (fuel : ℕ) (p s : List ℕ) (star : Option (List ℕ × List ℕ)) (leading : Bool)
      → Held p s star
      → (r : ℕ) → fnmatch_loop flags fuel p s star leading ≡ some r
      → Refuses r
  unfolding fnmatch_loop
  loop-Held zero p s star leading held r e = absurd (none-ne-some _ e)
  loop-Held (suc fuel) p [] star leading held r e =
      subst Refuses (some-injective _ _ e) (at_end-Held p star held)
  loop-Held (suc fuel) p (c ∷ s) star leading held r e =
      loop_cases flags (λ v. v ≡ some r → Refuses r) RoundHeld fuel p c s star leading
        (step-Held p c s star leading held) (λ v h same. subst Refuses (some-injective _ _ same) h)
        (λ p' s' star' leading' h. loop-Held fuel p' s' star' leading' h r) e

-- Without FNM_PATHNAME, FNM_PERIOD and FNM_LEADING_DIR, `fnmatch` returns, and it returns 0 just where
-- the pattern matches the string.
pub fnmatch_lem :
    (flags : ℕ) (pattern string : List ℕ)
    → has_flag flags fnm_pathname ≡ false
    → has_flag flags fnm_period ≡ false
    → has_flag flags fnm_leading_dir ≡ false
    → (r : ℕ) × (fnmatch flags pattern string ≡ some r) × ((r ≡ 0) ↔ Steps flags pattern string)
unfolding fnmatch
fnmatch_lem flags pattern string no_pathname no_period no_subdir =
    let (r, e) = fnmatch-returns flags pattern string in
    let refuses =
      loop-Held flags no_pathname no_period (Steps flags pattern string) _ pattern string none true
        (λ m. m) r e in
    (
      r,
      e,
      (
        λ zero_result. fnmatch-Steps flags no_subdir pattern string (e ∙ ap some zero_result),
        λ m. elim refuses [ inl z ↦ z | inr no_match ↦ absurd (no_match m) ],
      ),
    )
