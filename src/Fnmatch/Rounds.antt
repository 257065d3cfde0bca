-- ===== src/Fnmatch/Rounds.antt =====
-- The cases of a round of fnmatch.c, and when a pattern matches a string.
use yasos_libc.Base.{
  ℕ, suc, ◌≡◌, refl, ap, ◌∙◌, arith, Bool, true, false, not, ◌&&◌, ◌==◌, Option-cases, inl, inr,
  if_both, Option, none, some, List, [], ◌∷◌,
}
use yasos_libc.Strto.{cur}
use mathlib.Core.Path.{subst}
use yasos_libc.Fnmatch.{
  fnm_pathname, fnm_period, fnm_leading_dir, fnm_nomatch, has_flag, is_end, skip_stars, Round, done,
  go, match_one, at_star, retry, step, fnmatch_loop,
}

module _ (flags : ℕ) where
  abbrev pub is_slash : ℕ → Bool
  is_slash c = has_flag flags fnm_pathname && c == b'/'

  pub step_cases {ℓ} :
      (C : Round → Type ℓ) (p : List ℕ) (c : ℕ) (s : List ℕ) (star : Option (List ℕ × List ℕ))
      (leading : Bool)
      → (has_flag flags fnm_leading_dir ≡ true → C (done 0))
      → (has_flag flags fnm_period ≡ true → C (done fnm_nomatch))
      → ((cur p == b'*') ≡ true → C (at_star flags p (c ∷ s)))
      → ((cur p == b'*') ≡ false
          → (after : List ℕ) → match_one flags p c ≡ some after
          → C (go after s star (is_slash c)))
      → ((cur p == b'*') ≡ false → match_one flags p c ≡ none → C (retry flags star leading))
      → C (step flags p c s star leading)
  unfolding step
  step_cases C p c s star leading subdir hidden starred hit miss =
      if_both C (is_end p && has_flag flags fnm_leading_dir && c == b'/')
        (λ e. subdir (ground arith))
        (λ _.
          if_both C (has_flag flags fnm_period && leading && c == b'.' && not (cur p == b'.'))
            (λ e. hidden (ground arith))
            (λ _. if_both C (cur p == b'*') starred (λ other.
              elim (Option-cases (match_one flags p c)) [
                | inl e ↦ rw (e) (miss other e)
                | inr (after, e) ↦ rw (e) (hit other after e)
              ])))

  -- The string matches the pattern: a star matches any characters, but for a slash under
  -- FNM_PATHNAME, and another element the character that `match_one` lets it match.
  pub data Steps : List ℕ → List ℕ → Type 0 where
    finished : Steps [] []
    star_none : {d : ℕ} {p s : List ℕ} → (d == b'*') ≡ true → Steps p s → Steps (d ∷ p) s
    star_more :
        {d c : ℕ} {p s : List ℕ}
        → (d == b'*') ≡ true
        → is_slash c ≡ false
        → Steps (d ∷ p) s
        → Steps (d ∷ p) (c ∷ s)
    one :
        {c : ℕ} {p after s : List ℕ}
        → (cur p == b'*') ≡ false
        → match_one flags p c ≡ some after
        → Steps after s
        → Steps p (c ∷ s)

  -- A star in front of the pattern.
  abbrev pub Starred : List ℕ → List ℕ → Type 0
  Starred p s = Steps (b'*' ∷ p) s

  pub skip_stars-Steps : (p s : List ℕ) → Steps (skip_stars p) s → Steps p s
  unfolding skip_stars
  skip_stars-Steps [] s m = m
  skip_stars-Steps (d ∷ p) s m' =
      if_both (λ q. Steps q s → Steps (d ∷ p) s) (d == b'*')
        (λ e m. star_none e (skip_stars-Steps p s m)) (λ _ m. m) m'

  in_front :
      (d : ℕ) (p s : List ℕ) → (d == b'*') ≡ true → Steps (d ∷ skip_stars p) s → Steps (d ∷ p) s
  unfolding skip_stars
  in_front d [] s e m = m
  in_front d (c ∷ p) s e m' =
      if_both (λ q. Steps (d ∷ q) s → Steps (d ∷ c ∷ p) s) (c == b'*')
        (λ star m.
          let alike : d ≡ c = ground arith in
          star_none e (subst (λ x. Steps (x ∷ p) s) alike (in_front d p s e m)))
        (λ _ m. m) m'

  pub skip_stars-Starred :
      (p s : List ℕ) → (cur p == b'*') ≡ true → Starred (skip_stars p) s → Steps p s
  unfolding skip_stars
  skip_stars-Starred [] s e m = absurd (ground arith)
  skip_stars-Starred (d ∷ p) s e m =
      let alike : b'*' ≡ d = ground arith in
      let behind : skip_stars (d ∷ p) ≡ skip_stars p = rw (e) refl in
      in_front d p s e
        (subst (λ q. Steps q s) (ap (λ x. x ∷ skip_stars (d ∷ p)) alike ∙ ap (λ q. d ∷ q) behind) m)

  -- A property of what the loop gives, from one of the round.
  pub loop_cases {ℓ κ} :
      (C : Option ℕ → Type ℓ) (P : Round → Type κ) (fuel : ℕ) (p : List ℕ) (c : ℕ) (s : List ℕ)
      (star : Option (List ℕ × List ℕ)) (leading : Bool)
      → P (step flags p c s star leading)
      → ((r : ℕ) → P (done r) → C (some r))
      → ((p' s' : List ℕ) (star' : Option (List ℕ × List ℕ)) (leading' : Bool)
          → P (go p' s' star' leading')
          → C (fnmatch_loop flags fuel p' s' star' leading'))
      → C (fnmatch_loop flags (suc fuel) p (c ∷ s) star leading)
  unfolding fnmatch_loop
  loop_cases C P fuel p c s star leading h returned onward = each (step flags p c s star leading) h
    where
      each :
          (r : Round)
          → P r
          → C (elim r [
            | done v ↦ some v
            | go p' s' star' leading' ↦ fnmatch_loop flags fuel p' s' star' leading'
          ])
      each (done v) h = returned v h
      each (go p' s' star' leading') h = onward p' s' star' leading' h
