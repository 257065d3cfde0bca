-- ===== src/Strings/Bounded.antt =====
-- `strncpy`, `strncat`, `strndup` and `strdup`, which copy with `memcpy`.
use yasos_libc.Base.{
  ℕ, zero, suc, ◌+◌, ◌-◌, ◌^◌, ◌≤◌, ◌<◌, ◌≡◌, refl, sym, ap, ◌∙◌, arith, true, false, ltb, leb,
  ◌==◌, if◌then◌else◌, Bool-cases, inl, inr, ◌⊎◌, none, some, List, [], ◌∷◌, ◌++◌, length, get_or,
  take,
}
use yasos_libc.Memory.{Ram, IsBytes, store8, inside}
use yasos_libc.MemOps.{memcpy}
use yasos_libc.MemOps.Fill.{memset-inside}
use yasos_libc.MemOps.Copy.{memcpy-inside, IsAscending}
use yasos_libc.Strings.Copy.{
  Holds, Holds-get, Holds-cells, Holds-append, get_or-take, length-take, get_or-length,
  strlen-length, strnlen-length, strncpy, strncat, strndup, strdup,
}

-- `memcpy` of the front of a string, and a terminator behind it.
module _ (m : Ram) (p s : ℕ) (text : List ℕ) (n : ℕ) (bytes : IsBytes m) (h : Holds m s text)
    (small : length text < 2 ^ 32 - 1) (apart : IsAscending p s (length text)) where
  -- The number of characters that are copied.
  abbrev count : ℕ
  count = length (take n text)

  copied_cell : (a : ℕ) → memcpy m p s count a ≡ (if inside p count a then m (s + (a - p)) else m a)
  copied_cell a =
      memcpy-inside p s count m (omega (arith, length-take n text)) bytes
        (ground (arith, length-take n text)) a

  abbrev result : Ram
  result = store8 (memcpy m p s count) (p + count) 0

  result-get : (i : ℕ) → i ≤ count → result (p + i) ≡ get_or (take n text) i 0
  unfolding store8
  result-get i le = elim (Bool-cases (p + i == p + count)) [
    | inl end ↦
        let same : i ≡ count = ground arith in
        rw (end) (sym (ap (λ (j : ℕ). get_or (take n text) j 0) same ∙ get_or-length (take n text)))
    | inr before ↦
        let lt : i < count = ground arith in
        let here : inside p count (p + i) ≡ true = ground arith in
        let e : s + (p + i - p) ≡ s + i = omega arith in
        rw (before) (
          copied_cell (p + i)
          ∙ (rw (here) (
              ap m e
              ∙ Holds-get m s text i h (omega (arith, length-take n text))
              ∙ sym (get_or-take n text i lt))))
  ]

  pub result-outside : (a : ℕ) → inside p (suc count) a ≡ false → result a ≡ m a
  unfolding store8
  result-outside a out = ground (arith, copied_cell a)

  pub result-Holds : Holds result p (take n text)
  result-Holds = Holds-cells result p (take n text) result-get

-- `strncat` leaves the string at the destination followed by at most `n` characters of the source.
pub strncat-Holds :
    (m : Ram) (d : ℕ) (at : List ℕ) (s : ℕ) (text : List ℕ) (n : ℕ)
    → IsBytes m
    → Holds m d at
    → Holds m s text
    → length text < 2 ^ 32 - 1
    → (d + length at ≤ s) ⊎ (s + length text ≤ d + length at)
    → Holds (strncat m d at s text n) d (at ++ take n text)
unfolding strncat
strncat-Holds m d at s text n bytes h k small apart =
    rw (strlen-length at, strnlen-length text n)
      (Holds-append _ d at (take n text)
        (λ i lt.
          result-outside m (d + length at) s text n bytes k small apart (d + i) (ground arith)
          ∙ Holds-get m d at i h (omega arith))
        (result-Holds m (d + length at) s text n bytes k small apart))

-- `strndup` fails with `malloc`, and else writes at most `n` characters of the string, terminated, to
-- the block it got.
pub strndup-Holds :
    (m : Ram) (s : ℕ) (text : List ℕ) (n dup : ℕ)
    → IsBytes m
    → Holds m s text
    → length text < 2 ^ 32 - 1
    → IsAscending dup s (length text)
    → (strndup m s text n none ≡ (none, m))
      × ((strndup m s text n (some dup)).0 ≡ some dup)
      × Holds (strndup m s text n (some dup)).1 dup (take n text)
unfolding strndup
strndup-Holds m s text n dup bytes h small apart =
    (refl, refl, rw (strnlen-length text n) (result-Holds m dup s text n bytes h small apart))

length-take_min :
    (n : ℕ) (s : List ℕ) → (if ltb n (length s) then n else length s) ≡ length (take n s)
length-take_min zero s = ground arith
length-take_min (suc n) [] = ground arith
length-take_min (suc n) (x ∷ s) = ground (arith, length-take_min n s)

get_or-beyond : (s : List ℕ) (i : ℕ) → length s ≤ i → get_or s i 0 ≡ 0
get_or-beyond [] i le = refl
get_or-beyond (x ∷ s) zero le = absurd (omega arith)
get_or-beyond (x ∷ s) (suc i) le = get_or-beyond s i (omega arith)

-- For a string shorter than 2 ^ 31 and a count below 2 ^ 31, which is not negative, `strncpy` writes `n` bytes,
-- the characters of the string as far as they go and then zeros, and changes no other cell.
pub strncpy-inside :
    (m : Ram) (d s : ℕ) (text : List ℕ) (n : ℕ)
    → IsBytes m
    → Holds m s text
    → length text < 2 ^ 31
    → n < 2 ^ 31
    → IsAscending d s n
    → (a : ℕ)
    → strncpy m d s text n a ≡ (if inside d n a then get_or (take n text) (a - d) 0 else m a)
unfolding strncpy
strncpy-inside m d s text n bytes h short small apart a =
    let k = length (take n text) in
    let few : (k ≤ n) × (k ≤ length text) = ground (arith, length-take_min n text) in
    let zeros = memset-inside (memcpy m d s k) (d + k) 0 (n - k) (omega arith) a in
    let chars = memcpy-inside d s k m (omega arith) bytes (ground arith) a in
    let count : leb (2 ^ 31) n ≡ false = ground (arith, small) in
    rw (strlen-length text, count, length-take_min n text)
      (zeros ∙ (elim (Bool-cases (inside d k a)) [
        | inl front ↦
            let char = Holds-get m s text (a - d) h (ground arith) in
            let same = get_or-take n text (a - d) (ground arith) in
            ground (arith, chars, char, same)
        | inr behind ↦
            let end : inside d n a ≡ true → get_or (take n text) (a - d) 0 ≡ 0 =
              λ t. get_or-beyond (take n text) (a - d) (ground arith) in
            ground (arith, chars, end)
      ]))

-- `strdup` fails with `malloc`, and else writes the string with its terminator to the block it got.
pub strdup-Holds :
    (m : Ram) (s : ℕ) (text : List ℕ) (res : ℕ)
    → IsBytes m
    → Holds m s text
    → length text < 2 ^ 32 - 1
    → IsAscending res s (length text + 1)
    → (strdup m s text none ≡ (none, m))
      × ((strdup m s text (some res)).0 ≡ some res)
      × Holds (strdup m s text (some res)).1 res text
unfolding strdup
strdup-Holds m s text res bytes h small apart =
    let k = length text + 1 in
    (
      refl,
      refl,
      rw (strlen-length text) (
          Holds-cells (memcpy m res s k) res text (λ i le.
            let chars = memcpy-inside res s k m (omega arith) bytes apart (res + i) in
            let here : inside res k (res + i) ≡ true = ground arith in
            let e : s + (res + i - res) ≡ s + i = omega arith in
            chars ∙ (rw (here) (ap m e ∙ Holds-get m s text i h le)))),
    )
