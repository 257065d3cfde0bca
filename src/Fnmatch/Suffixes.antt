-- ===== src/Fnmatch/Suffixes.antt =====
-- What a star leaves of a string, where slashes are ordinary characters.
use yasos_libc.Base.{
  ℕ, ◌≡◌, refl, sym, ◌∙◌, arith, true, false, ◌==◌, inl, inr, ◌⊎◌, if_both, none, some, List, [],
  ◌∷◌,
}
use yasos_libc.Strto.{cur, next}
use mathlib.Core.Path.{subst}
use mathlib.Core.Option.{none-ne-some}
use yasos_libc.Fnmatch.{fnm_pathname, has_flag, is_end, skip_stars, match_one}
use yasos_libc.Fnmatch.Rounds.{Steps, finished, star_none, star_more, one, Starred}
use yasos_libc.Fnmatch.Behind.{match_one-behind}

pub data Suffix (t : List ℕ) : List ℕ → Type 0 where
  whole : Suffix t t
  later : {c : ℕ} {s : List ℕ} → Suffix t s → Suffix t (c ∷ s)

suffix_tail : {t s : List ℕ} → Suffix t s → Suffix (next t) s
suffix_tail {s = []} whole = whole
suffix_tail {s = c ∷ s} whole = later whole
suffix_tail (later h) = later (suffix_tail h)

suffix_next : {t : List ℕ} {c : ℕ} {s : List ℕ} → Suffix t (c ∷ s) → Suffix (next t) s
suffix_next whole = whole
suffix_next (later h) = suffix_tail h

suffix_nil : {t : List ℕ} → Suffix t [] → t ≡ []
suffix_nil whole = refl

module _ (flags : ℕ) where
  -- A suffix of the string matches.
  abbrev pub Later : List ℕ → List ℕ → Type 0
  Later p s = (t : List ℕ) × Suffix t s × Steps flags p t

  behind_star : {d : ℕ} {p s : List ℕ} → (d == b'*') ≡ true → Steps flags (d ∷ p) s → Later p s
  behind_star e (star_none _ m) = (_, whole, m)
  behind_star e (star_more _ _ m) =
      let (t, suffix, found) = behind_star e m in (t, later suffix, found)
  behind_star e (one other _ _) = absurd (ground arith)

  pub Starred-Later : (p s : List ℕ) → Starred flags p s → Later p s
  Starred-Later p s m = behind_star refl m

  star_cases :
      {d : ℕ} {p s : List ℕ}
      → (d == b'*') ≡ true
      → Steps flags (d ∷ p) s
      → Steps flags p s ⊎ Steps flags (d ∷ p) (next s)
  star_cases e (star_none _ m) = inl m
  star_cases e (star_more _ _ m) = inr m
  star_cases e (one other _ _) = absurd (ground arith)

  pub Starred-cases :
      (p s : List ℕ) → Starred flags p s → Steps flags p s ⊎ Starred flags p (next s)
  Starred-cases p s m = star_cases refl m

  element :
      {p : List ℕ} {c : ℕ} {s : List ℕ}
      → (cur p == b'*') ≡ false
      → Steps flags p (c ∷ s)
      → (after : List ℕ) × (match_one flags p c ≡ some after) × Steps flags after s
  element other (star_none e _) = absurd (ground arith)
  element other (star_more e _ _) = absurd (ground arith)
  element other (one _ e m) = (_, e, m)

  pub advance :
      (p : List ℕ) (c d : ℕ) (s after : List ℕ)
      → (cur p == b'*') ≡ false
      → match_one flags p c ≡ some after
      → Steps flags p (d ∷ s)
      → Steps flags after s
  advance p c d s after other e m =
      let (rest, found, more) = element other m in
      let alike : rest ≡ after =
        match_one-behind flags p d rest found ∙ sym (match_one-behind flags p c after e) in
      subst (λ q. Steps flags q s) alike more

  pub stuck :
      (p : List ℕ) (c : ℕ) (s : List ℕ)
      → (cur p == b'*') ≡ false
      → match_one flags p c ≡ none
      → ¬ Steps flags p (c ∷ s)
  stuck p c s other e m =
      let (rest, found, more) = element other m in none-ne-some rest (sym e ∙ found)

  all_stars : {p : List ℕ} → Steps flags p [] → is_end (skip_stars p) ≡ true
  unfolding skip_stars is_end
  all_stars finished = refl
  all_stars (star_none e m) = rw (e) (all_stars m)

  pub at_end-stars : (p : List ℕ) → Later p [] → is_end (skip_stars p) ≡ true
  at_end-stars p (t, suffix, m) = all_stars (subst (λ q. Steps flags p q) (suffix_nil suffix) m)

  not_nil :
      {p : List ℕ} (c : ℕ) {after : List ℕ}
      → (cur p == b'*') ≡ false
      → match_one flags p c ≡ some after
      → ¬ Steps flags p []
  unfolding match_one
  not_nil c other e finished = none-ne-some _ e
  not_nil c other e (star_none star _) = absurd (ground arith)

  pub advance-Later :
      (p : List ℕ) (c : ℕ) (s after : List ℕ)
      → (cur p == b'*') ≡ false
      → match_one flags p c ≡ some after
      → Later p (c ∷ s)
      → Later after s
  advance-Later p c s after other e ([], suffix, m) = absurd (not_nil c other e m)
  advance-Later p c s after other e (x ∷ t, suffix, m) =
      (t, suffix_next suffix, advance p c x t after other e m)

  module _ (free : has_flag flags fnm_pathname ≡ false) where
    pub from_suffix : {p t s : List ℕ} → Suffix t s → Starred flags p t → Starred flags p s
    from_suffix whole m = m
    from_suffix (later h) m = star_more refl (ground arith) (from_suffix h m)

    -- A pattern matches no more than with a star for the stars in front.
    pub Steps-Starred : (p s : List ℕ) → Steps flags p s → Starred flags (skip_stars p) s
    unfolding skip_stars
    Steps-Starred [] s m = star_none refl m
    Steps-Starred (c ∷ p) s m =
        if_both (λ q. Starred flags q s) (c == b'*')
          (λ e.
            let (t, suffix, found) = behind_star e m in
            from_suffix suffix (Steps-Starred p t found))
          (λ _. star_none refl m)
