-- ===== src/Fnmatch/Accepts.antt =====
-- What fnmatch.c lets one character of the string match, against the first element of the pattern.
use yasos_libc.Base.{
  ℕ, ◌≡◌, refl, ap, ◌∙◌, Bool, true, false, not, ◌&&◌, ◌||◌, ◌==◌, if◌then◌else◌, Bool-cases, inl,
  inr, Option, none, some, List, [], ◌∷◌, length,
}
use yasos_libc.Strto.{cur, next}
use yasos_libc.Fnmatch.{
  fnm_pathname, fnm_noescape, has_flag, same, escapes, is_end, bracket, match_one,
}
use yasos_libc.Fnmatch.Elements.{
  Element, Member, literal, single, accepts, is_member, is_member_of, char_of, members, set_of,
  element_of, same-fold, fold, and_false, and_true, bracket_loop-members,
}

and_assoc : (a b c : Bool) → ((a && b) && c) ≡ (a && (b && c))
and_assoc false b c = refl
and_assoc true b c = refl

module _ (flags : ℕ) where
  -- What a bracket gives, from the set that was read and the text behind its members.
  abbrev bracketed : ℕ → Element × List ℕ → Bool × Option (List ℕ)
  bracketed c (e, rest) =
      (cur rest == b']' && accepts flags e c, if cur rest == b']' then some (next rest) else none)

  first_member :
      (first : Bool) (c : ℕ) (l : List Member)
      → ((first && same flags b']' c) || is_member_of flags c l)
        ≡ is_member_of flags c (if first then single b']' ∷ l else l)
  unfolding is_member_of is_member
  first_member false c l = refl
  first_member true c l = ap (λ b. b || is_member_of flags c l) (same-fold flags b']' c)

  bracket-set_of :
      (d : ℕ) (p : List ℕ) (c : ℕ) → bracket flags (d ∷ p) c ≡ bracketed c (set_of flags p)
  unfolding bracket set_of accepts
  bracket-set_of d p c =
      let negated = cur p == b'!' || cur p == b'^' in
      let p1 = if negated then next p else p in
      let first = cur p1 == b']' in
      let p2 = if first then next p1 else p1 in
      let (l, rest) = members flags (length p2) p2 in
      let closed = cur rest == b']' in
      let hit = is_member_of flags c (if first then single b']' ∷ l else l) in
      rw
        (
          bracket_loop-members flags (length p2) p2 c (first && same flags b']' c),
          first_member first c l,
        )
        (ap (λ b. (b, if closed then some (next rest) else none))
          (and_assoc closed (not (has_flag flags fnm_pathname && c == b'/'))
            (if negated then not hit else hit)))

  bracket_element :
      (closed : Bool) (e : Element) (rest p : List ℕ) (c : ℕ)
      → (elim (if closed then some rest else none) as (λ x. Option (List ℕ)) [
        | some after ↦ if closed && accepts flags e c then some after else none
        | none ↦ if same flags b'[' c then some p else none
      ])
        ≡ (let t : Element × List ℕ = if closed then (e, rest) else (literal b'[', p) in
            if accepts flags t.0 c then some t.1 else none)
  unfolding accepts
  bracket_element true e rest p c = refl
  bracket_element false e rest p c = ap (λ b. if b then some p else none) (same-fold flags b'[' c)

  any_element :
      (b : Bool) (p : List ℕ) → (if b then none else some p) ≡ (if not b then some p else none)
  any_element true p = refl
  any_element false p = refl

  -- A character, with a backslash in front of it or without.
  char_element :
      (d : ℕ) (p : List ℕ) (c : ℕ)
      → (if escapes flags (d ∷ p)
          then (if same flags (cur p) c then some (next p) else none)
          else if same flags d c
          then some p
          else none)
        ≡ (if fold flags (char_of flags (d ∷ p)).0 == fold flags c
            then some (char_of flags (d ∷ p)).1
            else none)
  unfolding escapes char_of is_end
  char_element d [] c =
      rw (and_false (d == b'\\' && not (has_flag flags fnm_noescape)))
        (ap (λ b. if b then some [] else none) (same-fold flags d c))
  char_element d (x ∷ p) c = elim (Bool-cases (d == b'\\' && not (has_flag flags fnm_noescape))) [
    | inl e ↦
        rw (and_true (d == b'\\' && not (has_flag flags fnm_noescape)), e)
          (ap (λ b. if b then some p else none) (same-fold flags x c))
    | inr e ↦
        rw (and_true (d == b'\\' && not (has_flag flags fnm_noescape)), e)
          (ap (λ b. if b then some (x ∷ p) else none) (same-fold flags d c))
  ]

  pub match_one-element_of :
      (d : ℕ) (p : List ℕ) (c : ℕ)
      → match_one flags (d ∷ p) c ≡ (
          if accepts flags (element_of flags (d ∷ p)).0 c
          then some (element_of flags (d ∷ p)).1
          else none)
  unfolding match_one element_of accepts
  match_one-element_of d p c = elim (Bool-cases (d == b'[')) [
    | inl e ↦ rw (e) (
        ap
          (λ (r : Bool × Option (List ℕ)). elim r.1 as (λ x. Option (List ℕ)) [
            | some after ↦ if r.0 then some after else none
            | none ↦ if same flags b'[' c then some p else none
          ])
          (bracket-set_of d p c)
        ∙ bracket_element (cur (set_of flags p).1 == b']') (set_of flags p).0
            (next (set_of flags p).1) p c)
    | inr e ↦ elim (Bool-cases (d == b'?')) [
      | inl q ↦ rw (e, q) (any_element (has_flag flags fnm_pathname && c == b'/') p)
      | inr q ↦ rw (e, q) (char_element d p c)
    ]
  ]
