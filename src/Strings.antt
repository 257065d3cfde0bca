-- ===== src/Strings.antt =====
-- The routines of string.c, strings.c and stringc.c that read strings. A `char` is a number
-- below 256. A pointer to a string is the list of the characters from there to the terminator, so
-- `*s` is 0 at its end; a pointer that may be NULL is an option.
pub mod Order
pub mod Search
pub mod Tokens
pub mod Find
pub mod Copy
pub mod Bounded
pub mod Errors
mod Examples
use yasos_libc.Base.{
  ℕ, zero, suc, ◌+◌, ◌-◌, ◌%◌, Bool, true, false, ◌&&◌, leb, ◌==◌, if◌then◌else◌, Option, none,
  some, List, [], ◌∷◌, length, get_or, take, drop,
}
use yasos_libc.Base.Int.{ℤ, pos, sub_ℕ, is_zero}
use yasos_libc.Strto.{cur, next}

-- `for (i = 0; i < n; ++i)` with `left` rounds to go. A pointer to bytes is a function of the index.
pub memcmp_loop : ℕ → ℕ → (ℕ → ℕ) → (ℕ → ℕ) → ℤ
memcmp_loop zero i p1 p2 = pos 0
memcmp_loop (suc left) i p1 p2 =
    if p1 i == p2 i then memcmp_loop left (i + 1) p1 p2 else sub_ℕ (p1 i) (p2 i)

pub memcmp : (ℕ → ℕ) → (ℕ → ℕ) → ℕ → ℤ
memcmp s1 s2 n = memcmp_loop n 0 s1 s2

unfoldable pub strlen : List ℕ → ℕ
strlen [] = 0
strlen (c ∷ str) = suc (strlen str)

unfoldable pub strnlen : List ℕ → ℕ → ℕ
strnlen str zero = 0
strnlen [] (suc n) = 0
strnlen (c ∷ str) (suc n) = suc (strnlen str n)

pub strchr : List ℕ → ℕ → Option (List ℕ)
strchr [] c = if 0 == c % 256 then some [] else none
strchr (x ∷ s) c = if x == c % 256 then some (x ∷ s) else strchr s c

pub strncmp : List ℕ → List ℕ → ℕ → ℤ
strncmp str1 str2 zero = pos 0
strncmp [] str2 (suc num) = sub_ℕ 0 (cur str2)
strncmp (x ∷ str1) [] (suc num) = sub_ℕ x 0
strncmp (x ∷ str1) (y ∷ str2) (suc num) = if x == y then strncmp str1 str2 num else sub_ℕ x y

pub strcmp : List ℕ → List ℕ → ℤ
strcmp [] str2 = sub_ℕ 0 (cur str2)
strcmp (x ∷ str1) [] = sub_ℕ x 0
strcmp (x ∷ str1) (y ∷ str2) = if x == y then strcmp str1 str2 else sub_ℕ x y

abbrev pub is_some : Option (List ℕ) → Bool
is_some none = false
is_some (some p) = true

pub strspn : List ℕ → List ℕ → ℕ
strspn [] set = 0
strspn (x ∷ s) set = if is_some (strchr set x) then suc (strspn s set) else 0

pub strcspn : List ℕ → List ℕ → ℕ
strcspn [] set = 0
strcspn (x ∷ s) set = if is_some (strchr set x) then 0 else suc (strcspn s set)

-- `strtok_r` on a string: the token, which ends where the delimiter was overwritten, and `*saveptr`.
pub tokenize : List ℕ → List ℕ → Option (List ℕ) × Option (List ℕ)
tokenize str delimiters =
    let s = drop (strspn str delimiters) str in
    let i = strcspn s delimiters in
    if cur s == 0 then (none, none) else (some (take i s), some (next (drop i s)))

pub strtok_r : Option (List ℕ) → List ℕ → Option (List ℕ) → Option (List ℕ) × Option (List ℕ)
strtok_r (some str) delimiters saved = tokenize str delimiters
strtok_r none delimiters none = (none, none)
strtok_r none delimiters (some saved) = tokenize saved delimiters

-- `last` is the static variable, before and behind the call.
pub strtok : Option (List ℕ) → List ℕ → Option (List ℕ) → Option (List ℕ) × Option (List ℕ)
strtok str delimiters last = strtok_r str delimiters last

pub strpbrk : List ℕ → List ℕ → Option (List ℕ)
strpbrk [] set = none
strpbrk (x ∷ s) set = if is_some (strchr set x) then some (x ∷ s) else strpbrk s set

pub strrchr_loop : List ℕ → ℕ → Option (List ℕ) → Option (List ℕ)
strrchr_loop [] c last = last
strrchr_loop (x ∷ str) c last = strrchr_loop str c (if x == c % 256 then some (x ∷ str) else last)

pub strrchr : List ℕ → ℕ → Option (List ℕ)
strrchr str c = strrchr_loop str c none

-- The bytes from a pointer on. What lies behind the terminator is not looked at.
abbrev pub bytes : List ℕ → ℕ → ℕ
bytes s i = get_or s i 0

-- `while (s)`, which moves `s` up. The result is a pointer or NULL; outside, `none` is no result, for want of
-- fuel or where `s + 1` is behind the terminator, since the code then reads on behind the string.
pub strstr_loop : ℕ → List ℕ → List ℕ → Option (Option (List ℕ))
strstr_loop zero s r = none
strstr_loop (suc fuel) s r =
    let onward : Option (Option (List ℕ)) = elim s [
      | [] ↦ none
      | c ∷ t ↦ elim (strchr t (cur r)) [ none ↦ some none | some u ↦ strstr_loop fuel u r ]
    ] in
    if is_zero (memcmp (bytes s) (bytes r) (strlen r)) then some (some s) else onward

pub strstr : List ℕ → List ℕ → Option (Option (List ℕ))
strstr s r = if strlen r == 0 then some (some s) else strstr_loop (suc (length s)) s r

-- `if (c >= 'A' && c <= 'Z') c += 'a' - 'A'`
pub lower : ℕ → ℕ
lower c = if leb b'A' c && leb c b'Z' then c + (b'a' - b'A') else c

pub strcasecmp : List ℕ → List ℕ → ℤ
strcasecmp [] s2 = sub_ℕ 0 (cur s2)
strcasecmp (x ∷ s1) [] = sub_ℕ x 0
strcasecmp (x ∷ s1) (y ∷ s2) =
    if lower x == lower y then strcasecmp s1 s2 else sub_ℕ (lower x) (lower y)

pub strncasecmp : List ℕ → List ℕ → ℕ → ℤ
strncasecmp s1 s2 zero = pos 0
strncasecmp [] s2 (suc n) = pos 0
strncasecmp (x ∷ s1) [] (suc n) = pos 0
strncasecmp (x ∷ s1) (y ∷ s2) (suc n) =
    if lower x == lower y then strncasecmp s1 s2 n else sub_ℕ (lower x) (lower y)

-- The locale is ignored.
pub strncasecmp_l {ℓ} : {Locale : Type ℓ} → List ℕ → List ℕ → ℕ → Locale → ℤ
strncasecmp_l s1 s2 n locale = strncasecmp s1 s2 n
