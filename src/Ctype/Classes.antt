-- ===== src/Ctype/Classes.antt =====
-- The classes of the C locale, for every `int`.
use yasos_libc.Base.{
  ℕ, ◌^◌, ◌<◌, ◌≡◌, refl, arith, Bool, false, ◌&&◌, ◌||◌, leb, ◌==◌, if◌then◌else◌,
}
use yasos_libc.Base.Bits.{bit_or-case}
use yasos_libc.Ctype.{
  isascii, isalpha, isdigit, isalnum, isspace, isupper, islower, tolower, toupper, isprint, isgraph,
  ispunct, isxdigit, iscntrl,
}
use yasos_libc.Ctype.Inline.{yas_isalnum, yas_isxdigit, yas_ispunct, yas_tolower, yas_toupper}

-- `c` lies between `lo` and `hi`.
abbrev pub between : ℕ → ℕ → ℕ → Bool
between lo hi c = leb lo c && leb c hi

-- Each test by one unsigned comparison is the range of the C locale, for every `int`, negative ones
-- included.
pub class_ranges :
    (c : ℕ)
    → c < 2 ^ 32
    → (isalpha c ≡ (between b'A' b'Z' c || between b'a' b'z' c))
      × (isdigit c ≡ between b'0' b'9' c)
      × (isspace c ≡ (between 9 13 c || c == b' '))
      × (isupper c ≡ between b'A' b'Z' c)
      × (islower c ≡ between b'a' b'z' c)
      × (isprint c ≡ between 32 126 c)
      × (isgraph c ≡ between 33 126 c)
      × (isxdigit c ≡ (between b'0' b'9' c || between b'A' b'F' c || between b'a' b'f' c))
unfolding isalpha isdigit isspace isupper islower isprint isgraph isxdigit
class_ranges c h = (
  ground (arith, bit_or-case c),
  ground arith,
  ground arith,
  ground arith,
  ground arith,
  ground arith,
  ground arith,
  ground (arith, bit_or-case c),
)

-- Every ASCII character is printable or a control character and never both; a printable one is a space
-- or has a glyph; and one with a glyph is alphanumeric or punctuation and never both.
pub class_partition :
    (c : ℕ)
    → c < 2 ^ 32
    → (isascii c ≡ (isprint c || iscntrl c))
      × ((isprint c && iscntrl c) ≡ false)
      × (isprint c ≡ (isgraph c || c == b' '))
      × (isgraph c ≡ (isalnum c || ispunct c))
      × ((isalnum c && ispunct c) ≡ false)
      × (isalnum c ≡ (isalpha c || isdigit c))
      × (isalpha c ≡ (isupper c || islower c))
unfolding isascii isprint iscntrl isgraph isalnum isspace ispunct isalpha isdigit isupper islower
class_partition c h = (
  ground arith,
  ground arith,
  ground arith,
  ground (arith, bit_or-case c),
  ground arith,
  ground arith,
  ground (arith, bit_or-case c),
)

-- `tolower` gives no capital letter, and the lower-case letter of each letter; `toupper` takes that back
-- for a capital letter, and `tolower` keeps what is none; and the same with the cases exchanged.
pub case_maps :
    (c : ℕ)
    → c < 2 ^ 32
    → (isupper (tolower c) ≡ false)
      × (islower (tolower c) ≡ isalpha c)
      × ((if isupper c then toupper (tolower c) else tolower c) ≡ c)
      × (islower (toupper c) ≡ false)
      × (isupper (toupper c) ≡ isalpha c)
      × ((if islower c then tolower (toupper c) else toupper c) ≡ c)
unfolding isupper islower tolower toupper isalpha
case_maps c h = (
  ground arith,
  ground (arith, bit_or-case c),
  ground arith,
  ground arith,
  ground (arith, bit_or-case c),
  ground arith,
)

-- The inline versions of the header that are written in another way than the functions of ctype.c
-- agree with them on every `int`.
pub inline-eq :
    (c : ℕ)
    → c < 2 ^ 32
    → (yas_isalnum c ≡ isalnum c)
      × (yas_isxdigit c ≡ isxdigit c)
      × (yas_ispunct c ≡ ispunct c)
      × (yas_tolower c ≡ tolower c)
      × (yas_toupper c ≡ toupper c)
unfolding yas_isalnum isalnum yas_isxdigit isxdigit yas_ispunct ispunct yas_tolower tolower
    yas_toupper toupper
inline-eq c h = (refl, ground arith, ground (arith, bit_or-case c), refl, ground arith)
