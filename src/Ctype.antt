-- ===== src/Ctype.antt =====
-- ctype.c, and the inline versions of ctype.h. An `int` is its bit pattern, below 2 ^ 32; a result is
-- true where the C function's is not 0.
pub mod Inline
pub mod Classes
use yasos_libc.Base.{
  ℕ, zero, suc, ◌+◌, ◌-◌, ◌*◌, ◌/◌, ◌%◌, ◌^◌, ◌≤◌, ◌<◌, ◌≡◌, refl, sym, ap, ◌∙◌, arith, Bool, true,
  false, not, ◌&&◌, ◌||◌, ltb, leb, ◌==◌, if◌then◌else◌, bit_and, bit_or, bit_xor, leb→le, ltb→lt,
  lt→ltb, le→leb, ltb-false, leb-false, tests, ==_iff, Bool-cases, Option-cases, inl, inr, ◌⊎◌, ◌≢◌,
  ◌↔◌, if_both, Option, none, some, List, [], ◌∷◌, ◌++◌, map, length, get_or, length-append,
}
use yasos_libc.Base.Loop.{while, while_inv}

-- `(unsigned)(c - k)`
unfoldable pub less : ℕ → ℕ → ℕ
less c k = (c + 2 ^ 32 - k) % 2 ^ 32

pub isascii : ℕ → Bool
isascii c = ltb c 128

pub isblank : ℕ → Bool
isblank c = c == b' ' || c == 9

pub isalpha : ℕ → Bool
unfolding less
isalpha c = ltb (less (bit_or c 0x20) b'a') 26

unfoldable pub isdigit : ℕ → Bool
unfolding less
isdigit c = ltb (less c b'0') 10

pub isalnum : ℕ → Bool
unfolding less
isalnum c = ltb (less (bit_or c 0x20) b'a') 26 || ltb (less c b'0') 10

pub isspace : ℕ → Bool
unfolding less
isspace c = ltb (less c 9) 5 || c == b' '

pub isupper : ℕ → Bool
unfolding less
isupper c = ltb (less c b'A') 26

pub islower : ℕ → Bool
unfolding less
islower c = ltb (less c b'a') 26

pub tolower : ℕ → ℕ
unfolding less
tolower c = if ltb (less c b'A') 26 then (c + (b'a' - b'A')) % 2 ^ 32 else c

-- `c + ('A' - 'a')` adds -32.
pub toupper : ℕ → ℕ
unfolding less
toupper c = if ltb (less c b'a') 26 then (c + 2 ^ 32 - 32) % 2 ^ 32 else c

pub isprint : ℕ → Bool
unfolding less
isprint c = ltb (less c 32) 95

pub isgraph : ℕ → Bool
unfolding less
isgraph c = ltb (less c 33) 94

pub ispunct : ℕ → Bool
unfolding isprint isalnum isspace
ispunct c = isprint c && not (isalnum c) && not (isspace c)

pub isxdigit : ℕ → Bool
unfolding less
isxdigit c = ltb (less (bit_or c 0x20) b'a') 6 || ltb (less c b'0') 10

pub iscntrl : ℕ → Bool
iscntrl c = ltb c 32 || c == 127
