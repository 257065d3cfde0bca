-- ===== src/Fnmatch/Patterns.antt =====
-- When a pattern matches a string, element by element, and the results of fnmatch.c.
use yasos_libc.Base.{
  ℕ, zero, suc, ◌≡◌, refl, sym, ◌∙◌, arith, Bool, true, false, ◌&&◌, ◌==◌, if◌then◌else◌,
  Bool-cases, inl, inr, ◌↔◌, none, some, List, [], ◌∷◌,
}
use mathlib.Core.Path.{subst}
use yasos_libc.Strto.{cur}
use yasos_libc.Fnmatch.{
  fnm_pathname, fnm_period, fnm_leading_dir, fnm_nomatch, has_flag, is_end, match_one, step,
  fnmatch_loop, fnmatch, done,
}
use yasos_libc.Fnmatch.Elements.{accepts, element_of}
use yasos_libc.Fnmatch.Accepts.{match_one-element_of}
use yasos_libc.Fnmatch.Rounds.{Steps, finished, star_none, star_more, one}
use yasos_libc.Fnmatch.Sound.{fnmatch-Steps}
use yasos_libc.Fnmatch.Complete.{fnmatch_lem}
use mathlib.Core.Option.{some-injective, none-ne-some}

module _ (flags : ℕ) where
  -- The string matches the pattern: a star matches any characters, but for a slash under FNM_PATHNAME,
  -- and another element one character that it accepts.
  pub data Matches : List ℕ → List ℕ → Type 0 where
    at_end : Matches [] []
    no_more : {d : ℕ} {p s : List ℕ} → (d == b'*') ≡ true → Matches p s → Matches (d ∷ p) s
    more :
        {d c : ℕ} {p s : List ℕ}
        → (d == b'*') ≡ true
        → (has_flag flags fnm_pathname && c == b'/') ≡ false
        → Matches (d ∷ p) s
        → Matches (d ∷ p) (c ∷ s)
    element :
        {d c : ℕ} {p s : List ℕ}
        → (d == b'*') ≡ false
        → accepts flags (element_of flags (d ∷ p)).0 c ≡ true
        → Matches (element_of flags (d ∷ p)).1 s
        → Matches (d ∷ p) (c ∷ s)

  -- What the first element lets match.
  taken_by :
      (d c : ℕ) (p after : List ℕ)
      → match_one flags (d ∷ p) c ≡ some after
      → (accepts flags (element_of flags (d ∷ p)).0 c ≡ true)
        × (after ≡ (element_of flags (d ∷ p)).1)
  taken_by d c p after e =
      found (accepts flags (element_of flags (d ∷ p)).0 c) (element_of flags (d ∷ p)).1
        (sym (match_one-element_of flags d p c) ∙ e)
    where
      found :
          (b : Bool) (q : List ℕ)
          → (if b then some q else none) ≡ some after
          → (b ≡ true) × (after ≡ q)
      found true q same = (refl, sym (some-injective q after same))
      found false q none_there = absurd (ground (arith, none_there))

  element-Matches :
      (p after : List ℕ) (c : ℕ) (s : List ℕ)
      → (cur p == b'*') ≡ false
      → match_one flags p c ≡ some after
      → Matches after s
      → Matches p (c ∷ s)
  unfolding match_one
  element-Matches [] after c s other e m = absurd (none-ne-some _ e)
  element-Matches (d ∷ p) after c s other e m =
      let (accepted, behind) = taken_by d c p after e in
      element other accepted (subst (λ q. Matches q s) behind m)

  Steps-Matches : {p s : List ℕ} → Steps flags p s → Matches p s
  Steps-Matches finished = at_end
  Steps-Matches (star_none e m) = no_more e (Steps-Matches m)
  Steps-Matches (star_more e plain m) = more e plain (Steps-Matches m)
  Steps-Matches (one other e m) = element-Matches _ _ _ _ other e (Steps-Matches m)

  Matches-Steps : {p s : List ℕ} → Matches p s → Steps flags p s
  Matches-Steps at_end = finished
  Matches-Steps (no_more e m) = star_none e (Matches-Steps m)
  Matches-Steps (more e plain m) = star_more e plain (Matches-Steps m)
  Matches-Steps (element {d = d} {c = c} {p = p} other accepted m) =
      let taken : match_one flags (d ∷ p) c ≡ some (element_of flags (d ∷ p)).1 =
        match_one-element_of flags d p c ∙ rw (accepted) refl in
      one other taken (Matches-Steps m)

  -- A dot in front of the string is matched by a dot only.
  first_dot :
      (fuel : ℕ) (p : List ℕ) (c : ℕ) (s : List ℕ)
      → has_flag flags fnm_period ≡ true
      → (c == b'.') ≡ true
      → fnmatch_loop flags fuel p (c ∷ s) none true ≡ some 0
      → (cur p == b'.') ≡ true
  unfolding fnmatch_loop step
  first_dot zero p c s period dot zero_result = absurd (none-ne-some _ zero_result)
  first_dot (suc fuel) p c s period dot zero_result = elim (Bool-cases (cur p == b'.')) [
    | inl there ↦ there
    | inr other ↦
        let slash : (is_end p && has_flag flags fnm_leading_dir && c == b'/') ≡ false =
          ground arith in
        let hidden : step flags p c s none true ≡ done fnm_nomatch =
          rw (step, slash, period, dot, other) refl in
        let refused : fnmatch_loop flags (suc fuel) p (c ∷ s) none true ≡ some 1 =
          rw (fnmatch_loop, hidden) refl in
        let contrary : 1 ≡ 0 = some-injective 1 0 (sym refused ∙ zero_result) in
        absurd (omega (arith, contrary))
  ]

  -- Without FNM_LEADING_DIR, a pattern and a string for which `fnmatch` returns 0 match element by element,
  -- whatever the other flags; under FNM_PATHNAME neither a star nor a question mark nor a set of the pattern
  -- stands for a slash, and under FNM_PERIOD a dot in front of the string has one in front of the pattern.
  pub fnmatch-Matches :
      has_flag flags fnm_leading_dir ≡ false
      → (pattern string : List ℕ) → fnmatch flags pattern string ≡ some 0
      → Matches pattern string
        × (has_flag flags fnm_period ≡ true
            → (cur string == b'.') ≡ true
            → (cur pattern == b'.') ≡ true)
  unfolding fnmatch
  fnmatch-Matches no_subdir pattern [] e = (
    Steps-Matches (fnmatch-Steps flags no_subdir pattern [] e),
    λ period dot. absurd (ground (arith, dot)),
  )
  fnmatch-Matches no_subdir pattern (c ∷ s) e = (
    Steps-Matches (fnmatch-Steps flags no_subdir pattern (c ∷ s) e),
    λ period dot. first_dot _ pattern c s period dot e,
  )

  -- Without FNM_PATHNAME, FNM_PERIOD and FNM_LEADING_DIR, `fnmatch` returns, and it returns 0 just where
  -- the elements of the pattern match the string.
  pub fnmatch-decides :
      (pattern string : List ℕ)
      → has_flag flags fnm_pathname ≡ false
      → has_flag flags fnm_period ≡ false
      → has_flag flags fnm_leading_dir ≡ false
      → (r : ℕ) × (fnmatch flags pattern string ≡ some r) × ((r ≡ 0) ↔ Matches pattern string)
  fnmatch-decides pattern string no_pathname no_period no_subdir =
      let (r, e, (to, from)) = fnmatch_lem flags pattern string no_pathname no_period no_subdir in
      (r, e, (λ z. Steps-Matches (to z), λ m. from (Matches-Steps m)))
