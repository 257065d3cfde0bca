-- ===== src/Fnmatch/Sound.antt =====
-- What `fnmatch` takes for a match is one.
use yasos_libc.Base.{
  ℕ, zero, suc, ◌≡◌, refl, sym, arith, Bool, true, false, ◌&&◌, ◌==◌, Bool-cases, inl, inr, if_both,
  Option, none, some, List, [], ◌∷◌,
}
use yasos_libc.Strto.{cur, next}
use mathlib.Core.Path.{subst}
use mathlib.Core.Option.{some-injective, none-ne-some}
use yasos_libc.Fnmatch.{
  fnm_pathname, fnm_leading_dir, has_flag, is_end, skip_stars, to_slash, Round, done, go, trailing,
  at_star, retry, step, at_end, fnmatch_loop, fnmatch, fnm_period,
}
use yasos_libc.Fnmatch.Rounds.{
  is_slash, step_cases, loop_cases, Steps, finished, star_none, star_more, one, Starred,
  skip_stars-Steps, skip_stars-Starred,
}

module _ (flags : ℕ) (no_subdir : has_flag flags fnm_leading_dir ≡ false) where
  end-nil : (p : List ℕ) → is_end p ≡ true → p ≡ []
  unfolding is_end
  end-nil [] e = refl
  end-nil (c ∷ p) e = absurd (ground arith)

  at_end-Steps : (p : List ℕ) → at_end flags p ≡ 0 → Steps flags p []
  unfolding at_end
  at_end-Steps p =
      if_both (λ v. v ≡ 0 → Steps flags p []) (is_end (skip_stars p))
        (λ e _.
          skip_stars-Steps flags p [] (subst (λ q. Steps flags q []) (sym (end-nil _ e)) finished))
        (λ _ e. absurd (omega arith))

  -- A last star matches what has no slash.
  swallow_any : (s : List ℕ) → has_flag flags fnm_pathname ≡ false → Starred flags [] s
  swallow_any [] free = star_none refl finished
  swallow_any (c ∷ s) free = star_more refl (ground arith) (swallow_any s free)

  swallow : (s : List ℕ) → is_end (to_slash s) ≡ true → Starred flags [] s
  unfolding to_slash is_end
  swallow [] e = star_none refl finished
  swallow (c ∷ s) h =
      if_both (λ t. is_end t ≡ true → Starred flags [] (c ∷ s)) (c == b'/')
        (λ _ e. absurd (ground arith)) (λ other e. star_more refl (ground arith) (swallow s e)) h

  trailing-Steps : (s : List ℕ) → trailing flags s ≡ 0 → Starred flags [] s
  unfolding trailing
  trailing-Steps s = elim (Bool-cases (has_flag flags fnm_pathname)) [
    | inl e ↦
        rw (e, no_subdir)
          (if_both (λ v. v ≡ 0 → Starred flags [] s) (is_end (to_slash s)) (λ t _. swallow s t)
            (λ _ no. absurd (omega arith)))
    | inr e ↦ λ _. swallow_any s e
  ]

  -- What the loop has set aside leads to a match of the whole.
  abbrev Kept : Type 0 → Option (List ℕ × List ℕ) → Type 0
  Kept Whole none = Unit
  Kept Whole (some (star_p, star_s)) = Starred flags star_p star_s → Whole

  abbrev Sound : Type 0 → Round → Type 0
  Sound Whole (done r) = r ≡ 0 → Whole
  Sound Whole (go p s star leading) = (Steps flags p s → Whole) × Kept Whole star

  at_star-Sound :
      (Whole : Type 0) (p s : List ℕ)
      → (cur p == b'*') ≡ true
      → (Steps flags p s → Whole)
      → Sound Whole (at_star flags p s)
  unfolding at_star
  at_star-Sound Whole p s star whole =
      if_both (Sound Whole) (is_end (skip_stars p))
        (λ e zero_result. whole (
          skip_stars-Starred flags p s star
            (subst (λ q. Starred flags q s) (sym (end-nil _ e)) (trailing-Steps s zero_result))))
        (λ _. (
          λ m. whole (skip_stars-Steps flags p s m),
          λ m. whole (skip_stars-Starred flags p s star m),
        ))

  one_more :
      (p s : List ℕ) → is_slash flags (cur s) ≡ false → Starred flags p (next s) → Starred flags p s
  one_more p [] e m = m
  one_more p (c ∷ s) e m = star_more refl e m

  retry-Sound :
      (Whole : Type 0) (star : Option (List ℕ × List ℕ)) (leading : Bool)
      → Kept Whole star
      → Sound Whole (retry flags star leading)
  unfolding retry
  retry-Sound Whole none leading kept = λ no. absurd (omega arith)
  retry-Sound Whole (some (star_p, star_s)) leading kept =
      if_both (Sound Whole) (is_slash flags (cur star_s)) (λ _ no. absurd (omega arith))
        (λ free.
          if_both (Sound Whole) (has_flag flags fnm_period && leading && cur star_s == b'.')
            (λ _ no. absurd (omega arith))
            (λ _.
              let onward : Starred flags star_p (next star_s) → Whole =
                λ m. kept (one_more star_p star_s free m) in
              (λ m. onward (star_none refl m), onward)))

  step-Sound :
      (Whole : Type 0) (p : List ℕ) (c : ℕ) (s : List ℕ) (star : Option (List ℕ × List ℕ))
      (leading : Bool)
      → (Steps flags p (c ∷ s) → Whole)
      → Kept Whole star
      → Sound Whole (step flags p c s star leading)
  step-Sound Whole p c s star leading whole kept =
      step_cases flags (Sound Whole) p c s star leading (λ e. absurd (ground arith))
        (λ _ no. absurd (omega arith)) (λ e. at_star-Sound Whole p (c ∷ s) e whole)
        (λ other after e. (λ m. whole (one other e m), kept))
        (λ _ _. retry-Sound Whole star leading kept)

  loop-Sound :
      (Whole : Type 0) (fuel : ℕ) (p s : List ℕ) (star : Option (List ℕ × List ℕ)) (leading : Bool)
      → (Steps flags p s → Whole)
      → Kept Whole star
      → fnmatch_loop flags fuel p s star leading ≡ some 0
      → Whole
  unfolding fnmatch_loop
  loop-Sound Whole zero p s star leading whole kept = λ e. absurd (none-ne-some _ e)
  loop-Sound Whole (suc fuel) p [] star leading whole kept =
      λ e. whole (at_end-Steps p (some-injective _ _ e))
  loop-Sound Whole (suc fuel) p (c ∷ s) star leading whole kept =
      loop_cases flags (λ v. v ≡ some 0 → Whole) (Sound Whole) fuel p c s star leading
        (step-Sound Whole p c s star leading whole kept) (λ r h e. h (some-injective _ _ e))
        (λ p' s' star' leading' h. loop-Sound Whole fuel p' s' star' leading' h.0 h.1)

  -- Without FNM_LEADING_DIR, a pattern and a string for which `fnmatch` returns 0 match, whatever the other
  -- flags; under FNM_PATHNAME no star of it stands for a slash.
  pub fnmatch-Steps :
      (pattern string : List ℕ) → fnmatch flags pattern string ≡ some 0 → Steps flags pattern string
  unfolding fnmatch
  fnmatch-Steps pattern string e =
      loop-Sound (Steps flags pattern string) _ pattern string none true (λ m. m) tt e
