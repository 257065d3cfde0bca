-- ===== src/Fnmatch/Elements.antt =====
-- The elements of a pattern, apart from how fnmatch.c reads them: a question mark, a set of characters and
-- ranges, or a character. What `match_one` takes is what the first element accepts.
use yasos_libc.Base.{
  ℕ, zero, suc, ◌≡◌, refl, sym, ap, ◌∙◌, arith, Bool, true, false, not, ◌&&◌, ◌||◌, leb, ◌==◌,
  if◌then◌else◌, Bool-cases, inl, inr, if_both, Option, none, some, List, [], ◌∷◌, length,
}
use mathlib.Core.Path.{subst}
use yasos_libc.Ctype.{tolower}
use yasos_libc.Strto.{cur, next}
use yasos_libc.Fnmatch.{
  fnm_pathname, fnm_noescape, fnm_casefold, has_flag, is_end, same, escapes, unescape, in_range,
  bracket_loop, is_range,
}

-- A member of a set.
pub data Member : Type 0 where
  single : ℕ → Member
  range : ℕ → ℕ → Member

-- An element but for a star; a set says whether it is negated.
pub data Element : Type 0 where
  any : Element
  literal : ℕ → Element
  set : Bool → List Member → Element

-- `-` and a character that can end a range: the text from that character on.
unfoldable pub range_end : List ℕ → Option (List ℕ)
range_end [] = none
range_end (d ∷ []) = none
range_end (d ∷ x ∷ s) = if d == b'-' && not (x == b']') then some (x ∷ s) else none

or_comm : (a b : Bool) → (a || b) ≡ (b || a)
or_comm false false = refl
or_comm false true = refl
or_comm true false = refl
or_comm true true = refl

or_idem : (a : Bool) → (a || a) ≡ a
or_idem false = refl
or_idem true = refl

or_assoc : (a b c : Bool) → ((a || b) || c) ≡ (a || (b || c))
or_assoc false b c = refl
or_assoc true b c = refl

pub and_false : (a : Bool) → (a && false) ≡ false
and_false false = refl
and_false true = refl

pub and_true : (a : Bool) → (a && true) ≡ a
and_true false = refl
and_true true = refl

-- The test of the code for a range against the text behind its dash.
abbrev RangeEnd : List ℕ → Option (List ℕ) → Type 0
RangeEnd s none = (cur s == b'-' && not (is_end (next s)) && not (cur (next s) == b']')) ≡ false
RangeEnd s (some t) =
    ((cur s == b'-' && not (is_end (next s)) && not (cur (next s) == b']')) ≡ true)
    × (next s ≡ t)
    × ((x : ℕ) × (r : List ℕ) × (t ≡ x ∷ r))

range_end-RangeEnd : (s : List ℕ) → RangeEnd s (range_end s)
unfolding range_end is_end
range_end-RangeEnd [] = refl
range_end-RangeEnd (d ∷ []) = ground arith
range_end-RangeEnd (d ∷ x ∷ s) =
    if_both (RangeEnd (d ∷ x ∷ s)) (d == b'-' && not (x == b']'))
      (λ e. (ground arith, refl, (x, s, refl))) (λ e. ground arith)

module _ (flags : ℕ) where
  -- Upper and lower case are one under FNM_CASEFOLD.
  unfoldable pub fold : ℕ → ℕ
  fold c = if has_flag flags fnm_casefold then tolower c else c

  unfoldable pub is_member : ℕ → Member → Bool
  is_member c (single x) = fold x == fold c
  is_member c (range lo hi) =
      (leb lo c && leb c hi) || (leb (fold lo) (fold c) && leb (fold c) (fold hi))

  unfoldable pub is_member_of : ℕ → List Member → Bool
  is_member_of c [] = false
  is_member_of c (x ∷ l) = is_member c x || is_member_of c l

  -- No element but a slash itself stands for a slash under FNM_PATHNAME.
  unfoldable pub accepts : Element → ℕ → Bool
  accepts any c = not (has_flag flags fnm_pathname && c == b'/')
  accepts (literal x) c = fold x == fold c
  accepts (set negated l) c =
      not (has_flag flags fnm_pathname && c == b'/')
      && (if negated then not (is_member_of c l) else is_member_of c l)

  -- The next character, a backslash in front of it taken off, and what follows.
  unfoldable pub char_of : List ℕ → ℕ × List ℕ
  char_of [] = (0, [])
  char_of (c ∷ []) = (c, [])
  char_of (c ∷ d ∷ s) =
      if c == b'\\' && not (has_flag flags fnm_noescape) then (d, s) else (c, d ∷ s)

  -- The members up to the end of the set, and the text from there on. The text has at most `fuel` characters.
  unfoldable pub members : ℕ → List ℕ → List Member × List ℕ
  members zero s = ([], s)
  members (suc fuel) [] = ([], [])
  members (suc fuel) (c ∷ s) =
      let (lo, s1) = char_of (c ∷ s) in
      let (l, rest) = members fuel s1 in
      elim (c == b']') [
        | true ↦ ([], c ∷ s)
        | false ↦ elim (range_end s1) [
          | none ↦ (single lo ∷ l, rest)
          | some s2 ↦
              let (hi, s3) = char_of s2 in
              let (l3, rest3) = members fuel s3 in (range lo hi ∷ l3, rest3)
        ]
      ]

  -- The text of a set behind its `[`: a `!` or `^`, and a `]` that is a member where it stands first.
  unfoldable pub set_of : List ℕ → Element × List ℕ
  set_of s =
      let negated = cur s == b'!' || cur s == b'^' in
      let s1 = if negated then next s else s in
      let first = cur s1 == b']' in
      let s2 = if first then next s1 else s1 in
      let (l, rest) = members (length s2) s2 in
      (set negated (if first then single b']' ∷ l else l), rest)

  -- The first element of a pattern and what follows. A `[` without its `]` is a character.
  unfoldable pub element_of : List ℕ → Element × List ℕ
  element_of p =
      let (s, rest) = set_of (next p) in
      let (x, after) = char_of p in
      if cur p == b'['
      then (if cur rest == b']' then (s, next rest) else (literal b'[', next p))
      else if cur p == b'?'
      then (any, next p)
      else (literal x, after)

  pub same-fold : (a b : ℕ) → same flags a b ≡ (fold a == fold b)
  unfolding same fold
  same-fold a b = elim (Bool-cases (has_flag flags fnm_casefold)) [
    | inl e ↦ rw (e) refl
    | inr e ↦ rw (e) refl
  ]

  in_range-member : (lo hi c : ℕ) → in_range flags lo hi c ≡ is_member c (range lo hi)
  unfolding in_range fold is_member
  in_range-member lo hi c = elim (Bool-cases (has_flag flags fnm_casefold)) [
    | inl e ↦ rw (e) (
        or_comm (leb (tolower lo) (tolower c) && leb (tolower c) (tolower hi))
          (leb lo c && leb c hi))
    | inr e ↦ rw (e) (sym (or_idem (leb lo c && leb c hi)))
  ]

  abbrev Split : List ℕ → ℕ × List ℕ → Type 0
  Split q r = (cur q ≡ r.0) × (next q ≡ r.1)

  unescape-char_of : (c : ℕ) (s : List ℕ) → Split (unescape flags (c ∷ s)) (char_of (c ∷ s))
  unfolding unescape escapes char_of is_end
  unescape-char_of c [] = elim (Bool-cases (c == b'\\' && not (has_flag flags fnm_noescape))) [
    | inl e ↦ rw (and_false _) (refl, refl)
    | inr e ↦ rw (and_false _) (refl, refl)
  ]
  unescape-char_of c (d ∷ s) = elim (Bool-cases (c == b'\\' && not (has_flag flags fnm_noescape))) [
    | inl e ↦ rw (and_true _, e) (refl, refl)
    | inr e ↦ rw (and_true _, e) (refl, refl)
  ]

  -- A round of the loop of the code, in front of what `range_end` finds.
  abbrev Behind : ℕ → ℕ → List ℕ → ℕ → Bool → Option (List ℕ) → Type 0
  Behind fuel d p c m none =
      (bracket_loop flags (suc fuel) (d ∷ p) c m
        ≡ bracket_loop flags fuel (char_of (d ∷ p)).1 c
            (m || is_member c (single (char_of (d ∷ p)).0)))
      × (members (suc fuel) (d ∷ p) ≡ (
        single (char_of (d ∷ p)).0 ∷ (members fuel (char_of (d ∷ p)).1).0,
        (members fuel (char_of (d ∷ p)).1).1,
      ))
  Behind fuel d p c m (some t) =
      (bracket_loop flags (suc fuel) (d ∷ p) c m
        ≡ bracket_loop flags fuel (char_of t).1 c
            (m || is_member c (range (char_of (d ∷ p)).0 (char_of t).0)))
      × (members (suc fuel) (d ∷ p) ≡ (
        range (char_of (d ∷ p)).0 (char_of t).0 ∷ (members fuel (char_of t).1).0,
        (members fuel (char_of t).1).1,
      ))

  Behind-single :
      (fuel d : ℕ) (p : List ℕ) (c : ℕ) (m : Bool)
      → (d == b']') ≡ false
      → range_end (char_of (d ∷ p)).1 ≡ none
      → RangeEnd (char_of (d ∷ p)).1 none
      → Behind fuel d p c m none
  unfolding bracket_loop members is_range is_end is_member
  Behind-single fuel d p c m inner found e =
      let (lo, behind) = unescape-char_of d p in
      (
        rw (lo, behind, e, inner, same-fold (char_of (d ∷ p)).0 c, behind) refl,
        rw (members, inner, found) refl,
      )

  Behind-range :
      (fuel d : ℕ) (p : List ℕ) (c : ℕ) (m : Bool) (t : List ℕ)
      → (d == b']') ≡ false
      → range_end (char_of (d ∷ p)).1 ≡ some t
      → RangeEnd (char_of (d ∷ p)).1 (some t)
      → Behind fuel d p c m (some t)
  unfolding bracket_loop members is_range is_end
  Behind-range fuel d p c m t inner found (e, behind_dash, (x, r, is)) =
      let (lo, behind) = unescape-char_of d p in
      let (hi, behind_hi) =
        subst (λ q. Split (unescape flags q) (char_of q)) (sym is) (unescape-char_of x r) in
      (
        rw
            (
              lo,
              behind,
              e,
              inner,
              behind_dash,
              hi,
              behind_hi,
              in_range-member (char_of (d ∷ p)).0 (char_of t).0 c,
            )
            refl,
        rw (members, inner, found) refl,
      )

  pub bracket_loop-members :
      (fuel : ℕ) (p : List ℕ) (c : ℕ) (m : Bool)
      → bracket_loop flags fuel p c m ≡ ((members fuel p).1, m || is_member_of c (members fuel p).0)
  unfolding bracket_loop members is_member_of is_end
  bracket_loop-members zero p c m = ap (λ b. (p, b)) (or_comm false m)
  bracket_loop-members (suc fuel) [] c m = ap (λ b. ([], b)) (or_comm false m)
  bracket_loop-members (suc fuel) (d ∷ p) c m = elim (Bool-cases (d == b']')) [
    | inl e ↦ rw (bracket_loop, members, e) (ap (λ b. (d ∷ p, b)) (or_comm false m))
    | inr e ↦
        from (range_end (char_of (d ∷ p)).1) refl (range_end-RangeEnd (char_of (d ∷ p)).1) e
          (λ q b. bracket_loop-members fuel q c b)
  ]
    where
      later :
          (x : Member) (q : List ℕ) (r : List ℕ × Bool) (l : List Member × List ℕ)
          → r ≡ bracket_loop flags fuel q c (m || is_member c x)
          → l ≡ (x ∷ (members fuel q).0, (members fuel q).1)
          → ((b : Bool)
              → bracket_loop flags fuel q c b
                ≡ ((members fuel q).1, b || is_member_of c (members fuel q).0))
          → r ≡ (l.1, m || is_member_of c l.0)
      later x q r l run read ih =
          run
          ∙ ih (m || is_member c x)
          ∙ ap (λ b. ((members fuel q).1, b))
              (or_assoc m (is_member c x) (is_member_of c (members fuel q).0))
          ∙ ap (λ (t : List Member × List ℕ). (t.1, m || is_member_of c t.0)) (sym read)

      from :
          (o : Option (List ℕ))
          → range_end (char_of (d ∷ p)).1 ≡ o
          → RangeEnd (char_of (d ∷ p)).1 o
          → (d == b']') ≡ false
          → ((q : List ℕ) (b : Bool)
              → bracket_loop flags fuel q c b
                ≡ ((members fuel q).1, b || is_member_of c (members fuel q).0))
          → bracket_loop flags (suc fuel) (d ∷ p) c m
            ≡ ((members (suc fuel) (d ∷ p)).1, m || is_member_of c (members (suc fuel) (d ∷ p)).0)
      from none found test e ih =
          let (run, read) = Behind-single fuel d p c m e found test in later _ _ _ _ run read (ih _)
      from (some t) found test e ih =
          let (run, read) = Behind-range fuel d p c m t e found test in
          later _ _ _ _ run read (ih _)
