-- ===== src/Strings/Copy.antt =====
-- The routines of string.c and stringc.c that write strings. The destination is an address in the
-- memory; where the code reads a string there first, the string is given beside its address.
use yasos_libc.Base.{
  ℕ, zero, suc, ◌+◌, ◌-◌, ◌^◌, ◌≤◌, ◌<◌, ◌≡◌, refl, sym, ap, ◌∙◌, arith, false, ◌||◌, ltb, leb,
  if◌then◌else◌, ltb→lt, Bool-cases, inl, inr, if_both, Option, none, some, List, [], ◌∷◌, ◌++◌,
  length, get_or, length-append, take,
}
use yasos_libc.Memory.{Ram, store8, inside}
use yasos_libc.MemOps.{memcpy, memset}
use yasos_libc.Strings.{strlen, strnlen}

-- `while ((*d++ = *src++) != 0)`
unfoldable pub strcpy : Ram → ℕ → List ℕ → Ram
strcpy m d [] = store8 m d 0
strcpy m d (c ∷ src) = strcpy (store8 m d c) (d + 1) src

-- `at` is the string at `d`.
unfoldable pub strcat : Ram → ℕ → List ℕ → List ℕ → Ram
strcat m d at s = strcpy m (d + strlen at) s

-- `text` is the string at `s`, shorter than 2 ^ 31, as `len` is an `int`. The count is a `long`: from 2 ^ 31 on it
-- is negative, so below every length, and nothing is left of it to fill with zeros.
unfoldable pub strncpy : Ram → ℕ → ℕ → List ℕ → ℕ → Ram
strncpy m d s text n =
    let len = if leb (2 ^ 31) n || ltb n (strlen text) then n else strlen text in
    memset (memcpy m d s len) (d + len) 0 (n - len)

unfoldable pub strncat : Ram → ℕ → List ℕ → ℕ → List ℕ → ℕ → Ram
strncat m d at s text n =
    let end = d + strlen at in let len = strnlen text n in store8 (memcpy m end s len) (end + len) 0

-- `got` is what `malloc(len + 1)` returned.
unfoldable pub strndup : Ram → ℕ → List ℕ → ℕ → Option ℕ → Option ℕ × Ram
strndup m s text n none = (none, m)
strndup m s text n (some dup) =
    let len = strnlen text n in (some dup, store8 (memcpy m dup s len) (dup + len) 0)

-- `got` is what `malloc(strlen(s) + 1)` returned.
unfoldable pub strdup : Ram → ℕ → List ℕ → Option ℕ → Option ℕ × Ram
strdup m s text none = (none, m)
strdup m s text (some res) = (some res, memcpy m res s (strlen text + 1))

-- The string at `p`, with its terminator.
unfoldable pub Holds : Ram → ℕ → List ℕ → Type 0
Holds m p [] = m p ≡ 0
Holds m p (c ∷ s) = (m p ≡ c) × Holds m (p + 1) s

pub strlen-length : (s : List ℕ) → strlen s ≡ length s
unfolding strlen
strlen-length [] = refl
strlen-length (c ∷ s) = ap suc (strlen-length s)

pub strnlen-length : (s : List ℕ) (n : ℕ) → strnlen s n ≡ length (take n s)
unfolding strnlen
strnlen-length s zero = ground arith
strnlen-length [] (suc n) = refl
strnlen-length (c ∷ s) (suc n) = ap suc (strnlen-length s n)

-- `strcpy` changes only the cells of the string and its terminator.
strcpy-outside :
    (m : Ram) (d : ℕ) (s : List ℕ) (a : ℕ)
    → inside d (suc (length s)) a ≡ false
    → strcpy m d s a ≡ m a
unfolding strcpy store8
strcpy-outside m d [] a out = ground arith
strcpy-outside m d (c ∷ s) a out = ground (arith, strcpy-outside (store8 m d c) (d + 1) s a)

strcpy-Holds : (m : Ram) (d : ℕ) (s : List ℕ) → Holds (strcpy m d s) d s
unfolding strcpy Holds store8
strcpy-Holds m d [] = ground arith
strcpy-Holds m d (c ∷ s) = (
  strcpy-outside (store8 m d c) (d + 1) s d (ground arith) ∙ ground arith,
  strcpy-Holds (store8 m d c) (d + 1) s,
)

-- Where the memory holds the string, its cells are the characters and the terminator.
pub Holds-get :
    (m : Ram) (p : ℕ) (s : List ℕ) (i : ℕ) → Holds m p s → i ≤ length s → m (p + i) ≡ get_or s i 0
unfolding Holds
Holds-get m p [] zero h le = let e : p + 0 ≡ p = omega arith in ap m e ∙ h
Holds-get m p [] (suc i) h le = absurd (omega arith)
Holds-get m p (c ∷ s) zero (here, h) le = let e : p + 0 ≡ p = omega arith in ap m e ∙ here
Holds-get m p (c ∷ s) (suc i) (here, h) le =
    let e : p + suc i ≡ p + 1 + i = omega arith in ap m e ∙ Holds-get m (p + 1) s i h (omega arith)

-- What the cells of a string say, together.
pub Holds-cells :
    (m : Ram) (p : ℕ) (s : List ℕ)
    → ((i : ℕ) → i ≤ length s → m (p + i) ≡ get_or s i 0)
    → Holds m p s
unfolding Holds
Holds-cells m p [] h = let e : p + 0 ≡ p = omega arith in sym (ap m e) ∙ h 0 (omega arith)
Holds-cells m p (c ∷ s) h =
    let e : p + 0 ≡ p = omega arith in
    (
      sym (ap m e) ∙ h 0 (omega arith),
      Holds-cells m (p + 1) s (λ i le.
          let f : p + suc i ≡ p + 1 + i = omega arith in sym (ap m f) ∙ h (suc i) (omega arith)),
    )

get_or-append :
    (t s : List ℕ) (i : ℕ)
    → get_or (t ++ s) i 0 ≡ (if ltb i (length t) then get_or t i 0 else get_or s (i - length t) 0)
get_or-append [] s zero = ground arith
get_or-append [] s (suc i) = ground arith
get_or-append (x ∷ t) s zero = ground arith
get_or-append (x ∷ t) s (suc i) = ground (arith, get_or-append t s i)

pub get_or-take :
    (n : ℕ) (s : List ℕ) (i : ℕ) → i < length (take n s) → get_or (take n s) i 0 ≡ get_or s i 0
get_or-take zero s i lt = absurd (omega arith)
get_or-take (suc n) [] i lt = refl
get_or-take (suc n) (x ∷ s) zero lt = refl
get_or-take (suc n) (x ∷ s) (suc i) lt = get_or-take n s i (omega arith)

pub length-take : (n : ℕ) (s : List ℕ) → length (take n s) ≤ length s
length-take zero s = omega arith
length-take (suc n) [] = omega arith
length-take (suc n) (x ∷ s) = omega (arith, length-take n s)

pub get_or-length : (s : List ℕ) → get_or s (length s) 0 ≡ 0
get_or-length [] = refl
get_or-length (x ∷ s) = get_or-length s

-- A memory with `t` at `p` and the cells of `s` behind it holds `t ++ s`.
pub Holds-append :
    (m : Ram) (p : ℕ) (t s : List ℕ)
    → ((i : ℕ) → i < length t → m (p + i) ≡ get_or t i 0)
    → Holds m (p + length t) s
    → Holds m p (t ++ s)
Holds-append m p t s front back = Holds-cells m p (t ++ s) (λ i le.
    if_both (λ (v : ℕ). m (p + i) ≡ v) (ltb i (length t)) (λ lt. front i (ltb→lt i (length t) lt))
      (λ ge.
        let e : p + i ≡ p + length t + (i - length t) = ground arith in
        ap m e
        ∙ Holds-get m (p + length t) s (i - length t) back (omega (arith, length-append t s)))
    ∙ sym (get_or-append t s i))

-- `strcpy` copies the string with its terminator, and changes no other cell.
pub strcpy_lem :
    (m : Ram) (d : ℕ) (s : List ℕ) (a : ℕ)
    → Holds (strcpy m d s) d s
      × (strcpy m d s a ≡ (if inside d (suc (length s)) a then get_or s (a - d) 0 else m a))
strcpy_lem m d s a = (
  strcpy-Holds m d s,
  elim (Bool-cases (inside d (suc (length s)) a)) [
    | inl at ↦
        let e : d + (a - d) ≡ a = ground arith in
        rw (at) (
          sym (ap (strcpy m d s) e)
          ∙ Holds-get (strcpy m d s) d s (a - d) (strcpy-Holds m d s) (ground arith))
    | inr out ↦ rw (out) (strcpy-outside m d s a out)
  ],
)

-- Where the string `at` stands at the destination, `strcat` leaves it followed by the source.
pub strcat-Holds :
    (m : Ram) (d : ℕ) (at s : List ℕ) → Holds m d at → Holds (strcat m d at s) d (at ++ s)
unfolding strcat
strcat-Holds m d at s h = rw (strlen-length at) (
    Holds-append (strcpy m (d + length at) s) d at s
      (λ i lt.
        strcpy-outside m (d + length at) s (d + i) (ground arith)
        ∙ Holds-get m d at i h (omega arith))
      (strcpy-Holds m (d + length at) s))
