-- ===== src/Strto/Narrow.antt =====
-- `strtol` and `strtoul`, which narrow the 64-bit conversions to a `long` of 32 bits.
use yasos_libc.Base.{
  ℕ, zero, suc, ◌+◌, ◌-◌, ◌%◌, ◌^◌, ◌≤◌, ◌<◌, ◌≡◌, refl, sym, ap, ◌∙◌, arith, Bool, true, false,
  not, ◌&&◌, ◌||◌, ltb, leb, ◌==◌, if◌then◌else◌, le→leb, inl, inr, ◌⊎◌, List,
}
use yasos_libc.Strto.{
  cur, skip_space, read_sign, narrow, narrow_unsigned, strtol, strtoul, strtoull, ullong_max,
  llong_max, ulong_max, long_max, erange, negate64,
}
use yasos_libc.Strto.Ranges.{
  is_minus, magnitude, number_end, within, strtoull_lem, strtoll_lem, llong_limit,
}

-- The largest magnitude a `long` of this sign has.
abbrev pub long_limit : Bool → ℕ
long_limit neg = if neg then long_max + 1 else long_max

abbrev pub negate32 : ℕ → ℕ
negate32 n = (2 ^ 32 - n) % 2 ^ 32

three_ranges : (a b n : ℕ) → (n ≤ a) ⊎ ((a < n) × (n ≤ b)) ⊎ (b < n)
three_ranges a b n = ground arith

small_mod : (v : ℕ) → v ≤ long_max → v % 2 ^ 32 ≡ v
small_mod v le = omega arith

-- The four ranges of a `long long`, by their bit patterns.
narrow-positive :
    (v : ℕ) (end : List ℕ) (errno : ℕ)
    → v ≤ long_max
    → narrow (record { value = v; end = end; errno = errno })
      ≡ record { value = v; end = end; errno = errno }
unfolding narrow
narrow-positive v end errno le =
    let a : (not (leb (2 ^ 63) v) && ltb long_max v) ≡ false = ground arith in
    let b : (leb (2 ^ 63) v && ltb v (2 ^ 64 - 2 ^ 31)) ≡ false = ground arith in
    rw (a, b) (ap (λ (n : ℕ). record { value = n; end = end; errno = errno }) (small_mod v le))

narrow-above :
    (v : ℕ) (end : List ℕ) (errno : ℕ)
    → long_max < v
    → v < 2 ^ 63
    → narrow (record { value = v; end = end; errno = errno })
      ≡ record { value = long_max; end = end; errno = erange }
unfolding narrow
narrow-above v end errno lt top =
    let a : (not (leb (2 ^ 63) v) && ltb long_max v) ≡ true = ground arith in rw (a) refl

narrow-below :
    (v : ℕ) (end : List ℕ) (errno : ℕ)
    → 2 ^ 63 ≤ v
    → v < 2 ^ 64 - 2 ^ 31
    → narrow (record { value = v; end = end; errno = errno })
      ≡ record { value = 2 ^ 31; end = end; errno = erange }
unfolding narrow
narrow-below v end errno le top =
    let a : (not (leb (2 ^ 63) v) && ltb long_max v) ≡ false = ground arith in
    let b : (leb (2 ^ 63) v && ltb v (2 ^ 64 - 2 ^ 31)) ≡ true = ground arith in rw (a, b) refl

narrow-negative :
    (v : ℕ) (end : List ℕ) (errno : ℕ)
    → 2 ^ 64 - 2 ^ 31 ≤ v
    → narrow (record { value = v; end = end; errno = errno })
      ≡ record { value = v % 2 ^ 32; end = end; errno = errno }
unfolding narrow
narrow-negative v end errno le =
    let a : (not (leb (2 ^ 63) v) && ltb long_max v) ≡ false = ground arith in
    let b : (leb (2 ^ 63) v && ltb v (2 ^ 64 - 2 ^ 31)) ≡ false = ground arith in rw (a, b) refl

within-le :
    (limit beyond : ℕ) (value : ℕ → ℕ) (n : ℕ) (end : List ℕ) (errno : ℕ)
    → n ≤ limit
    → within limit beyond value n end errno ≡ record { value = value n; end = end; errno = errno }
unfolding within
within-le limit beyond value n end errno le = rw (le→leb n limit le) refl

within-lt :
    (limit beyond : ℕ) (value : ℕ → ℕ) (n : ℕ) (end : List ℕ) (errno : ℕ)
    → limit < n
    → within limit beyond value n end errno ≡ record { value = beyond; end = end; errno = erange }
unfolding within
within-lt limit beyond value n end errno lt =
    let above : leb n limit ≡ false = ground arith in rw (above) refl

narrow-within :
    (neg : Bool) (n : ℕ) (end : List ℕ) (errno : ℕ)
    → narrow (
        within
          (llong_limit neg)
          (if neg then 2 ^ 63 else llong_max)
          (λ n. if neg then negate64 n else n)
          n
          end
          errno)
      ≡ within
          (long_limit neg)
          (if neg then 2 ^ 31 else long_max)
          (λ n. if neg then negate32 n else n)
          n
          end
          errno
narrow-within false n end errno = elim (three_ranges long_max llong_max n) [
  | inl a ↦
      ap narrow (within-le llong_max llong_max (λ x. x) n end errno (omega arith))
      ∙ narrow-positive n end errno a
      ∙ sym (within-le long_max long_max (λ x. x) n end errno a)
  | inr (inl (b, c)) ↦
      ap narrow (within-le llong_max llong_max (λ x. x) n end errno c)
      ∙ narrow-above n end errno b (omega arith)
      ∙ sym (within-lt long_max long_max (λ x. x) n end errno b)
  | inr (inr c) ↦
      ap narrow (within-lt llong_max llong_max (λ x. x) n end errno c)
      ∙ narrow-above llong_max end erange (omega arith) (omega arith)
      ∙ sym (within-lt long_max long_max (λ x. x) n end errno (omega arith))
]
narrow-within true zero end errno =
    ap narrow (within-le (2 ^ 63) (2 ^ 63) negate64 0 end errno (omega arith))
    ∙ narrow-positive 0 end errno (omega arith)
    ∙ sym (within-le (2 ^ 31) (2 ^ 31) negate32 0 end errno (omega arith))
narrow-within true (suc k) end errno = elim (three_ranges (2 ^ 31) (2 ^ 63) (suc k)) [
  | inl a ↦
      let bits : negate64 (suc k) % 2 ^ 32 ≡ negate32 (suc k) = omega arith in
      ap narrow (within-le (2 ^ 63) (2 ^ 63) negate64 (suc k) end errno (omega arith))
      ∙ narrow-negative (negate64 (suc k)) end errno (omega arith)
      ∙ ap (λ (m : ℕ). record { value = m; end = end; errno = errno }) bits
      ∙ sym (within-le (2 ^ 31) (2 ^ 31) negate32 (suc k) end errno a)
  | inr (inl (b, c)) ↦
      ap narrow (within-le (2 ^ 63) (2 ^ 63) negate64 (suc k) end errno c)
      ∙ narrow-below (negate64 (suc k)) end errno (omega arith) (omega arith)
      ∙ sym (within-lt (2 ^ 31) (2 ^ 31) negate32 (suc k) end errno b)
  | inr (inr c) ↦
      ap narrow (within-lt (2 ^ 63) (2 ^ 63) negate64 (suc k) end errno c)
      ∙ narrow-below (2 ^ 63) end erange (omega arith) (omega arith)
      ∙ sym (within-lt (2 ^ 31) (2 ^ 31) negate32 (suc k) end errno (omega arith))
]

-- `strtol` gives the number that the digits stand for, with its sign, as a `long` of 32 bits and with
-- `errno` kept if it is in range, and else LONG_MAX or LONG_MIN with ERANGE, also for a number outside
-- the range of a `long long`; the end pointer is that of `strtoll`.
pub strtol_lem :
    (start : List ℕ) (base errno : ℕ)
    → strtol start base errno
      ≡ within
          (long_limit (is_minus start))
          (if is_minus start then 2 ^ 31 else long_max)
          (λ n. if is_minus start then negate32 n else n)
          (magnitude start base)
          (number_end start base)
          errno
unfolding strtol
strtol_lem start base errno =
    ap narrow (strtoll_lem start base errno)
    ∙ narrow-within (is_minus start) (magnitude start base) (number_end start base) errno

sign_test :
    (a b : Bool) (s u : List ℕ)
    → Path Bool a (if◌then◌else◌ {A = Bool × List ℕ} (a || b) (a, s) (false, u)).0
sign_test true b s u = refl
sign_test false true s u = refl
sign_test false false s u = refl

-- The sign that `strtoul` reads for itself is the one `strtoull` reads.
minus-eq : (start : List ℕ) → (cur (skip_space start) == b'-') ≡ is_minus start
unfolding read_sign is_minus
minus-eq start = sign_test (cur (skip_space start) == b'-') (cur (skip_space start) == b'+') _ _

narrow_unsigned-within :
    (neg : Bool) (n : ℕ) (end : List ℕ) (errno : ℕ)
    → narrow_unsigned neg errno
        (within ullong_max ullong_max (λ x. if neg then negate64 x else x) n end 0)
      ≡ within ulong_max ulong_max (λ x. if neg then negate32 x else x) n end errno
unfolding narrow_unsigned within
narrow_unsigned-within neg n end errno = elim (three_ranges ulong_max ullong_max n) [
  | inl a ↦
      let back : (if neg
            then negate64 (if neg then negate64 n else n)
            else (if neg then negate64 n else n))
          ≡ n =
        ground arith in
      let small : ltb ulong_max n ≡ false = ground arith in
      let bits : (if neg then (2 ^ 32 - n % 2 ^ 32) % 2 ^ 32 else n)
          ≡ (if neg then negate32 n else n) =
        ground arith in
      let one : leb n ullong_max ≡ true = ground arith in
      let two : leb n ulong_max ≡ true = ground arith in rw (one, two, back, small, bits) refl
  | inr (inl (b, c)) ↦
      let back : (if neg
            then negate64 (if neg then negate64 n else n)
            else (if neg then negate64 n else n))
          ≡ n =
        ground arith in
      let big : ltb ulong_max n ≡ true = ground arith in
      let one : leb n ullong_max ≡ true = ground arith in
      let two : leb n ulong_max ≡ false = ground arith in rw (one, two, back, big) refl
  | inr (inr c) ↦
      let one : leb n ullong_max ≡ false = ground arith in
      let two : leb n ulong_max ≡ false = ground arith in rw (one, two) refl
]

-- `strtoul` gives the number that the digits stand for, negated on 32 bits behind a `-`, with `errno` as
-- it was, if the magnitude is at most ULONG_MAX, and else ULONG_MAX with ERANGE.
pub strtoul_lem :
    (start : List ℕ) (base errno : ℕ)
    → strtoul start base errno
      ≡ within ulong_max ulong_max
          (λ n. if is_minus start then negate32 n else n)
          (magnitude start base)
          (number_end start base)
          errno
unfolding strtoul
strtoul_lem start base errno =
    ap (λ neg. narrow_unsigned neg errno (strtoull start base 0)) (minus-eq start)
    ∙ ap (narrow_unsigned (is_minus start) errno) (strtoull_lem start base 0)
    ∙ narrow_unsigned-within (is_minus start) (magnitude start base) (number_end start base) errno
