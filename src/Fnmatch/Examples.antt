-- ===== src/Fnmatch/Examples.antt =====
-- The theorems on fnmatch.c applied to short patterns.
use yasos_libc.Base.{ℕ, ◌≡◌, ◌==◌, true, refl, ◌↔◌, some, List}
use yasos_libc.Base.Text.{codes}
use yasos_libc.Strto.{cur}
use yasos_libc.Fnmatch.{
  fnm_period, has_flag, is_end, skip_stars, to_slash, same, escapes, unescape, in_range, is_range,
  bracket_loop, bracket, match_one, trailing, at_star, retry, step, at_end, fnmatch_loop, fnmatch,
}
use yasos_libc.Fnmatch.Patterns.{Matches, fnmatch-Matches, fnmatch-decides}
use yasos_libc.Fnmatch.Total.{fnmatch-returns}

abbrev sources : List ℕ
sources = codes "*.[ch]"

abbrev file : List ℕ
file = codes "a.c.h"

finds : fnmatch 1 sources file ≡ some 0
unfolding has_flag is_end skip_stars to_slash same escapes unescape in_range is_range bracket_loop
    bracket match_one trailing at_star retry step at_end fnmatch_loop fnmatch
finds = refl

crosses_no_slash : fnmatch 1 sources (codes "d/a.c") ≡ some 1
unfolding has_flag is_end skip_stars to_slash same escapes unescape in_range is_range bracket_loop
    bracket match_one trailing at_star retry step at_end fnmatch_loop fnmatch
crosses_no_slash = refl

fnmatch-Matches_example :
    Matches 1 sources file
    × (has_flag 1 fnm_period ≡ true → (cur file == b'.') ≡ true → (cur sources == b'.') ≡ true)
unfolding has_flag
fnmatch-Matches_example = fnmatch-Matches 1 refl sources file finds

fnmatch-returns_example : (r : ℕ) × (fnmatch 1 sources file ≡ some r)
fnmatch-returns_example = fnmatch-returns 1 sources file

fnmatch-decides_example :
    (r : ℕ) × (fnmatch 0 sources file ≡ some r) × ((r ≡ 0) ↔ Matches 0 sources file)
unfolding has_flag
fnmatch-decides_example = fnmatch-decides 0 sources file refl refl refl
