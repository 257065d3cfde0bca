-- ===== src/Fnmatch.antt =====
-- fnmatch.c: shell wildcards against a string. A pointer into the pattern or the string is the list of the
-- characters from there to the terminator. A `char` is a number below 256.
pub mod Rounds
pub mod Elements
pub mod Accepts
pub mod Sound
pub mod Behind
pub mod Total
pub mod Suffixes
pub mod Complete
pub mod Patterns
mod Examples
use yasos_libc.Base.{
  ℕ, zero, suc, ◌+◌, ◌*◌, Bool, true, false, not, ◌&&◌, ◌||◌, leb, ◌==◌, if◌then◌else◌, bit_and,
  Option, none, some, List, [], ◌∷◌, length,
}
use yasos_libc.Ctype.{tolower}
use yasos_libc.Strto.{cur, next}

abbrev pub fnm_pathname : ℕ
fnm_pathname = 1

abbrev pub fnm_noescape : ℕ
fnm_noescape = 2

abbrev pub fnm_period : ℕ
fnm_period = 4

abbrev pub fnm_leading_dir : ℕ
fnm_leading_dir = 8

abbrev pub fnm_casefold : ℕ
fnm_casefold = 16

abbrev pub fnm_nomatch : ℕ
fnm_nomatch = 1

-- `flags & flag`
unfoldable pub has_flag : ℕ → ℕ → Bool
has_flag flags flag = not (bit_and flags flag == 0)

-- `!*p`
unfoldable pub is_end : List ℕ → Bool
is_end [] = true
is_end (c ∷ p) = false

-- `while (*p == '*') p++`
unfoldable pub skip_stars : List ℕ → List ℕ
skip_stars [] = []
skip_stars (c ∷ p) = if c == b'*' then skip_stars p else c ∷ p

-- `while (*s && *s != '/') s++`
pub to_slash : List ℕ → List ℕ
to_slash [] = []
to_slash (c ∷ s) = if c == b'/' then c ∷ s else to_slash s

-- `p[1] == '-' && p[2] && p[2] != ']'`
pub is_range : List ℕ → Bool
is_range p =
    cur (next p) == b'-' && not (is_end (next (next p))) && not (cur (next (next p)) == b']')

-- What a round of the loop does: it returns, or goes on with `p`, `s`, `star_p` and `star_s`, which are
-- both NULL or neither, and `leading`.
pub data Round : Type 0 where
  done : ℕ → Round
  go : List ℕ → List ℕ → Option (List ℕ × List ℕ) → Bool → Round

module _ (flags : ℕ) where
  pub same : ℕ → ℕ → Bool
  same a b = if has_flag flags fnm_casefold then tolower a == tolower b else a == b

  -- The test for a backslash that takes the meaning off the next character.
  pub escapes : List ℕ → Bool
  escapes p = cur p == b'\\' && not (has_flag flags fnm_noescape) && not (is_end (next p))

  -- `if (lo == '\\' && …) lo = *++p`
  pub unescape : List ℕ → List ℕ
  unescape p = if escapes p then next p else p

  -- The tests for a range from `lo` to `hi`.
  pub in_range : ℕ → ℕ → ℕ → Bool
  in_range lo hi c =
      (has_flag flags fnm_casefold
        && (leb (tolower lo) (tolower c) && leb (tolower c) (tolower hi)))
      || (leb lo c && leb c hi)

  -- `for (; *p && *p != ']'; p++)`, with `p` and `matched` behind it.
  pub bracket_loop : ℕ → List ℕ → ℕ → Bool → List ℕ × Bool
  bracket_loop zero p c matched = (p, matched)
  bracket_loop (suc fuel) p c matched =
      let q = unescape p in
      let lo = cur q in
      let r = unescape (next (next q)) in
      let hi = cur r in
      let stop = if is_range q then r else q in
      let hit = if is_range q then in_range lo hi c else same lo c in
      let rest = bracket_loop fuel (next stop) c (matched || hit) in
      if is_end p || cur p == b']' then (p, matched) else rest

  -- The result, and what `*after` points at if it was set.
  pub bracket : List ℕ → ℕ → Bool × Option (List ℕ)
  bracket pattern c =
      let p0 = next pattern in
      let negated = cur p0 == b'!' || cur p0 == b'^' in
      let p1 = if negated then next p0 else p0 in
      let first = cur p1 == b']' in
      let p2 = if first then next p1 else p1 in
      let (p3, matched) = bracket_loop (length p2) p2 c (first && same b']' c) in
      let closed = cur p3 == b']' in
      let hit = if negated then not matched else matched in
      (
        closed && not (has_flag flags fnm_pathname && c == b'/') && hit,
        if closed then some (next p3) else none,
      )

  -- `if (*p) { … }`: the pattern behind the element that matches the character.
  pub match_one : List ℕ → ℕ → Option (List ℕ)
  match_one [] c = none
  match_one (d ∷ p) c =
      if d == b'['
      then elim (bracket (d ∷ p) c).1 [
        | some after ↦ if (bracket (d ∷ p) c).0 then some after else none
        | none ↦ if same b'[' c then some p else none
      ]
      else if d == b'?'
      then (if has_flag flags fnm_pathname && c == b'/' then none else some p)
      else if escapes (d ∷ p)
      then (if same (cur p) c then some (next p) else none)
      else if same d c
      then some p
      else none

  -- A trailing `*` takes the rest.
  pub trailing : List ℕ → ℕ
  trailing s =
      if has_flag flags fnm_pathname
      then (if is_end (to_slash s)
          then 0
          else if has_flag flags fnm_leading_dir
          then 0
          else fnm_nomatch)
      else 0

  -- `if (*p == '*') { … }`
  pub at_star : List ℕ → List ℕ → Round
  at_star p s =
      let q = skip_stars p in if is_end q then done (trailing s) else go q s (some (q, s)) false

  -- No match: the last `*` takes one more character.
  pub retry : Option (List ℕ × List ℕ) → Bool → Round
  retry none leading = done fnm_nomatch
  retry (some (star_p, star_s)) leading =
      if has_flag flags fnm_pathname && cur star_s == b'/'
      then done fnm_nomatch
      else if has_flag flags fnm_period && leading && cur star_s == b'.'
      then done fnm_nomatch
      else go star_p (next star_s) (some (star_p, next star_s)) leading

  -- The body of `while (*s)`, at the character `c` with `s` behind it.
  pub step : List ℕ → ℕ → List ℕ → Option (List ℕ × List ℕ) → Bool → Round
  step p c s star leading =
      if is_end p && has_flag flags fnm_leading_dir && c == b'/'
      then done 0
      else if has_flag flags fnm_period && leading && c == b'.' && not (cur p == b'.')
      then done fnm_nomatch
      else if cur p == b'*'
      then at_star p (c ∷ s)
      else elim (match_one p c) [
        | some after ↦ go after s star (has_flag flags fnm_pathname && c == b'/')
        | none ↦ retry star leading
      ]

  -- `while (*p == '*') p++; return *p ? FNM_NOMATCH : 0`
  pub at_end : List ℕ → ℕ
  at_end p = if is_end (skip_stars p) then 0 else fnm_nomatch

  -- `while (*s)`. `none` is no result for want of fuel.
  pub fnmatch_loop : ℕ → List ℕ → List ℕ → Option (List ℕ × List ℕ) → Bool → Option ℕ
  fnmatch_loop zero p s star leading = none
  fnmatch_loop (suc fuel) p [] star leading = some (at_end p)
  fnmatch_loop (suc fuel) p (c ∷ s) star leading = elim (step p c s star leading) [
    | done r ↦ some r
    | go p' s' star' leading' ↦ fnmatch_loop fuel p' s' star' leading'
  ]

  pub fnmatch : List ℕ → List ℕ → Option ℕ
  fnmatch pattern string =
      fnmatch_loop ((length string + 1) * (length pattern + 1)) pattern string none true
