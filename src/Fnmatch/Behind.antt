-- ===== src/Fnmatch/Behind.antt =====
-- The pattern behind an element of it does not depend on the character that it matches.
use yasos_libc.Base.{
  ℕ, zero, suc, ◌-◌, ◌≤◌, ◌<◌, ◌≡◌, refl, sym, ap, arith, Bool, true, false, ◌&&◌, ◌||◌, ◌==◌,
  if◌then◌else◌, Bool-cases, inl, inr, if_both, Option, none, some, List, [], ◌∷◌, length,
}
use yasos_libc.Strto.{cur, next}
use native.Mathlib.Nat.{le_refl}
use mathlib.Core.Option.{some-injective, none-ne-some}
use yasos_libc.Fnmatch.{
  fnm_pathname, has_flag, is_end, same, escapes, unescape, is_range, bracket_loop, bracket,
  match_one,
}

pub length-next : (p : List ℕ) → length (next p) ≡ length p - 1
length-next [] = refl
length-next (c ∷ p) = omega arith

length-shorter : (p : List ℕ) → length p < suc (length p)
length-shorter p = omega arith

length-next_shorter : (p : List ℕ) → length (next p) < suc (length p)
length-next_shorter p = omega (arith, length-next p)

length-step_if : (test : Bool) (p : List ℕ) → length (if test then next p else p) ≤ length p
length-step_if true p = omega (arith, length-next p)
length-step_if false p = le_refl (length p)

of_test {ℓ} :
    {A : Type ℓ} (test : Bool) (a b : A) → (if test then some a else none) ≡ some b → b ≡ a
of_test true a b e = sym (some-injective _ _ e)
of_test false a b e = absurd (none-ne-some _ e)

of_bracket :
    (after : Option (List ℕ)) (hit alike : Bool) (p q : List ℕ)
    → (elim after [ some a ↦ if hit then some a else none | none ↦ if alike then some p else none ])
      ≡ some q
    → q ≡ (elim after [ some a ↦ a | none ↦ p ])
of_bracket (some a) hit alike p q e = of_test hit a q e
of_bracket none hit alike p q e = of_test alike p q e

module _ (flags : ℕ) where
  length-unescape : (p : List ℕ) → length (unescape flags p) ≤ length p
  unfolding unescape
  length-unescape p = length-step_if (escapes flags p) p

  length-stop :
      (p : List ℕ)
      → length (
          if is_range (unescape flags p)
          then unescape flags (next (next (unescape flags p)))
          else unescape flags p)
        ≤ length p
  length-stop p =
      let q = unescape flags p in
      let r = length-unescape (next (next q)) in
      if_both (λ t. length t ≤ length p) (is_range q)
        (λ _. omega (arith, length-unescape p, length-next (next q), length-next q, r))
        (λ _. length-unescape p)

  length-bracket_loop :
      (fuel : ℕ) (p : List ℕ) (c : ℕ) (matched : Bool)
      → length (bracket_loop flags fuel p c matched).0 ≤ length p
  unfolding bracket_loop
  length-bracket_loop zero p c matched = omega arith
  length-bracket_loop (suc fuel) p c matched =
      if_both (λ (r : List ℕ × Bool). length r.0 ≤ length p) (is_end p || cur p == b']')
        (λ _. omega arith)
        (λ _. omega (arith, length-bracket_loop fuel _ c _, length-next _, length-stop p))

  bracket_loop-same :
      (fuel : ℕ) (p : List ℕ) (c c' : ℕ) (matched matched' : Bool)
      → (bracket_loop flags fuel p c matched).0 ≡ (bracket_loop flags fuel p c' matched').0
  unfolding bracket_loop
  bracket_loop-same zero p c c' matched matched' = refl
  bracket_loop-same (suc fuel) p c c' matched matched' =
      elim (Bool-cases (is_end p || cur p == b']')) [
        | inl e ↦ rw (e) refl
        | inr e ↦ rw (e) (bracket_loop-same fuel _ c c' _ _)
      ]

  unfoldable pub is_closed : List ℕ → Bool
  is_closed p = is_end p || cur p == b']'

  -- The loop over a bracket ends at a `]` or at the end of the pattern.
  bracket_loop-ends :
      (fuel : ℕ) (p : List ℕ) (c : ℕ) (matched : Bool)
      → length p ≤ fuel
      → is_closed (bracket_loop flags fuel p c matched).0 ≡ true
  unfolding bracket_loop is_closed is_end
  bracket_loop-ends zero [] c matched h = refl
  bracket_loop-ends zero (d ∷ p) c matched h = absurd (omega arith)
  bracket_loop-ends (suc fuel) p c matched h =
      if_both (λ (r : List ℕ × Bool). is_closed r.0 ≡ true) (is_end p || cur p == b']') (λ e. e)
        (λ _. bracket_loop-ends fuel _ c _ (omega (arith, length-next _, length-stop p)))

  -- The pattern behind its first element.
  unfoldable pub behind : List ℕ → List ℕ
  behind [] = []
  behind (d ∷ p) =
      if d == b'['
      then elim (bracket flags (d ∷ p) 0).1 [ some after ↦ after | none ↦ p ]
      else if d == b'?'
      then p
      else if escapes flags (d ∷ p)
      then next p
      else p

  bracket-same : (p : List ℕ) (c c' : ℕ) → (bracket flags p c).1 ≡ (bracket flags p c').1
  unfolding bracket
  bracket-same p c c' =
      ap (λ q. if cur q == b']' then some (next q) else none) (bracket_loop-same _ _ c c' _ _)

  pub match_one-behind :
      (p : List ℕ) (c : ℕ) (after : List ℕ) → match_one flags p c ≡ some after → after ≡ behind p
  unfolding match_one behind
  match_one-behind [] c after = λ e. absurd (none-ne-some _ e)
  match_one-behind (d ∷ p) c after = elim (Bool-cases (d == b'[')) [
    | inl e ↦
        rw (e, bracket-same (d ∷ p) 0 c)
          (of_bracket (bracket flags (d ∷ p) c).1 (bracket flags (d ∷ p) c).0 (same flags b'[' c) p
            after)
    | inr plain ↦ elim (Bool-cases (d == b'?')) [
      | inl e ↦
          rw (plain, e)
            (if_both (λ v. v ≡ some after → after ≡ p) (has_flag flags fnm_pathname && c == b'/')
              (λ _ no_match. absurd (none-ne-some _ no_match)) (λ _ m. sym (some-injective _ _ m)))
      | inr other ↦ elim (Bool-cases (escapes flags (d ∷ p))) [
        | inl e ↦ rw (plain, other, e) (of_test (same flags (cur p) c) (next p) after)
        | inr e ↦ rw (plain, other, e) (of_test (same flags d c) p after)
      ]
    ]
  ]

  bracket-shorter :
      (d : ℕ) (p : List ℕ)
      → length (elim (bracket flags (d ∷ p) 0).1 [ some after ↦ after | none ↦ p ]) < suc (length p)
  unfolding bracket
  bracket-shorter d p =
      let negated = cur p == b'!' || cur p == b'^' in
      let p1 = if negated then next p else p in
      let first = cur p1 == b']' in
      let p2 = if first then next p1 else p1 in
      let p3 = (bracket_loop flags (length p2) p2 0 (first && same flags b']' 0)).0 in
      if_both (λ o. length (elim o [ some after ↦ after | none ↦ p ]) < suc (length p))
        (cur p3 == b']') {x = some (next p3)} {y = none}
        (λ _. omega (
          arith,
          length-next p3,
          length-bracket_loop (length p2) p2 0 (first && same flags b']' 0),
          length-step_if first p1,
          length-step_if negated p,
        ))
        (λ _. length-shorter p)

  -- What is left of the pattern behind an element is shorter.
  pub length-behind : (p : List ℕ) → is_end p ≡ false → length (behind p) < length p
  unfolding behind is_end
  length-behind [] e = absurd (ground arith)
  length-behind (d ∷ p) e =
      if_both (λ (q : List ℕ). length q < suc (length p)) (d == b'[') (λ _. bracket-shorter d p)
        (λ _.
          if_both (λ (q : List ℕ). length q < suc (length p)) (d == b'?') (λ _. length-shorter p)
            (λ _.
              if_both (λ (q : List ℕ). length q < suc (length p)) (escapes flags (d ∷ p))
                (λ _. length-next_shorter p) (λ _. length-shorter p)))

  pub match_one-shorter :
      (p : List ℕ) (c : ℕ) (after : List ℕ)
      → match_one flags p c ≡ some after
      → length after < length p
  unfolding match_one is_end
  match_one-shorter [] c after e = absurd (none-ne-some _ e)
  match_one-shorter (d ∷ p) c after e =
      omega (arith, ap length (match_one-behind (d ∷ p) c after e), length-behind (d ∷ p) refl)
