-- ===== src/Ctype/Inline.antt =====
-- The inline versions of ctype.h, which a program gets where it includes that header.
use yasos_libc.Base.{ℕ, ◌+◌, ◌-◌, ◌%◌, ◌^◌, Bool, not, ◌&&◌, ◌||◌, ltb, if◌then◌else◌, bit_or}
use yasos_libc.Ctype.{less}

unfoldable pub yas_isdigit : ℕ → Bool
unfolding less
yas_isdigit c = ltb (less c b'0') 10

unfoldable pub yas_isalpha : ℕ → Bool
unfolding less
yas_isalpha c = ltb (less (bit_or c 0x20) b'a') 26

unfoldable pub yas_isalnum : ℕ → Bool
unfolding yas_isalpha yas_isdigit
yas_isalnum c = yas_isalpha c || yas_isdigit c

unfoldable pub yas_isupper : ℕ → Bool
unfolding less
yas_isupper c = ltb (less c b'A') 26

unfoldable pub yas_islower : ℕ → Bool
unfolding less
yas_islower c = ltb (less c b'a') 26

unfoldable pub yas_isxdigit : ℕ → Bool
unfolding yas_isdigit
yas_isxdigit c = yas_isdigit c || ltb (less (bit_or c 0x20) b'a') 6

unfoldable pub yas_isgraph : ℕ → Bool
unfolding less
yas_isgraph c = ltb (less c 33) 94

unfoldable pub yas_ispunct : ℕ → Bool
unfolding yas_isgraph yas_isalnum
yas_ispunct c = yas_isgraph c && not (yas_isalnum c)

unfoldable pub yas_tolower : ℕ → ℕ
unfolding yas_isupper
yas_tolower c = if yas_isupper c then (c + (b'a' - b'A')) % 2 ^ 32 else c

unfoldable pub yas_toupper : ℕ → ℕ
unfolding yas_islower
yas_toupper c = if yas_islower c then less c (b'a' - b'A') else c
