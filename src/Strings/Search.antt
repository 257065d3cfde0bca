-- ===== src/Strings/Search.antt =====
-- The searches in strings: the first and the last occurrence of a character, the span of a set, and
-- the first occurrence of a string.
use yasos_libc.Base.{
  ℕ, ◌%◌, ◌<◌, ◌≡◌, refl, sym, ap, arith, Bool, false, ◌||◌, ◌==◌, if◌then◌else◌, ==_iff,
  Bool-cases, inl, inr, ◌⊎◌, if_both, Option, none, some, List, [], ◌∷◌, ◌++◌,
}
use yasos_libc.Strings.{strchr, strrchr, strrchr_loop, is_some}

-- `c` stands in the list.
unfoldable pub has : List ℕ → ℕ → Bool
has [] c = false
has (x ∷ s) c = x == c || has s c

-- For a character other than the terminator, `strchr` finds it just where it stands.
pub strchr-has : (s : List ℕ) (c : ℕ) → 0 < c → c < 256 → is_some (strchr s c) ≡ has s c
unfolding strchr has
strchr-has [] c ne small = ground arith
strchr-has (x ∷ s) c ne small = ground (arith, strchr-has s c)

-- `t` is the end of `s` from the first `c` on.
abbrev pub IsFirst : List ℕ → ℕ → List ℕ → Type 0
IsFirst s c t = (u w : List ℕ) × (s ≡ u ++ t) × (t ≡ c ∷ w) × (has u c ≡ false)

abbrev pub FindsFirst : List ℕ → ℕ → Option (List ℕ) → Type 0
FindsFirst s c none = has s c ≡ false
FindsFirst s c (some t) = IsFirst s c t

FindsFirst-cons :
    (x : ℕ) (s : List ℕ) (c : ℕ) (r : Option (List ℕ))
    → (x == c) ≡ false
    → FindsFirst s c r
    → FindsFirst (x ∷ s) c r
unfolding has
FindsFirst-cons x s c none other f = ground arith
FindsFirst-cons x s c (some t) other (u, w, whole, head, before) =
    (x ∷ u, w, ap (λ v. x ∷ v) whole, head, ground arith)

-- For a character other than the terminator, `strchr` points at the first occurrence, and gives NULL
-- just where there is none.
pub strchr-FindsFirst : (s : List ℕ) (c : ℕ) → 0 < c → c < 256 → FindsFirst s c (strchr s c)
unfolding strchr has
strchr-FindsFirst [] c ne small =
    if_both (FindsFirst [] c) (0 == c % 256) (λ t. absurd (ground arith)) (λ f. refl)
strchr-FindsFirst (x ∷ s) c ne small =
    if_both (FindsFirst (x ∷ s) c) (x == c % 256)
      (λ t. let same : x ≡ c = ground arith in ([], s, refl, ap (λ v. v ∷ s) same, refl))
      (λ f. FindsFirst-cons x s c (strchr s c) (ground arith) (strchr-FindsFirst s c ne small))

-- `t` is the end of `s` from the last `c` on.
abbrev pub IsLast : List ℕ → ℕ → List ℕ → Type 0
IsLast s c t = (u w : List ℕ) × (s ≡ u ++ t) × (t ≡ c ∷ w) × (has w c ≡ false)

-- The last occurrence, or what was found before it.
abbrev pub KeepsLast : List ℕ → ℕ → Option (List ℕ) → Option (List ℕ) → Type 0
KeepsLast s c last r =
    ((has s c ≡ false) × (last ≡ r))
    ⊎ ((t : List ℕ) × (r ≡ some t)
        × (u w : List ℕ) × (s ≡ u ++ t)
        × (t ≡ c ∷ w)
        × (has w c ≡ false))

abbrev pub FindsLast : List ℕ → ℕ → Option (List ℕ) → Type 0
FindsLast s c none = has s c ≡ false
FindsLast s c (some t) = IsLast s c t

KeepsLast-cons :
    (x : ℕ) (s : List ℕ) (c : ℕ) (last r : Option (List ℕ))
    → KeepsLast s c (if x == c then some (x ∷ s) else last) r
    → KeepsLast (x ∷ s) c last r
unfolding has
KeepsLast-cons x s c last r (inl (gone, same)) = elim (Bool-cases (x == c)) [
  | inl here ↦
      let e : some (x ∷ s) ≡ r = ground (arith, same) in
      inr (x ∷ s, sym e, [], s, refl, ap (λ v. v ∷ s) ((==_iff x c).0 here), gone)
  | inr there ↦ inl (ground arith, ground (arith, same))
]
KeepsLast-cons x s c last r (inr (t, found, u, w, whole, head, after)) =
    inr (t, found, x ∷ u, w, ap (λ v. x ∷ v) whole, head, after)

strrchr_loop-KeepsLast :
    (s : List ℕ) (c : ℕ) (last : Option (List ℕ))
    → c < 256
    → KeepsLast s c last (strrchr_loop s c last)
unfolding strrchr_loop has
strrchr_loop-KeepsLast [] c last small = inl (refl, refl)
strrchr_loop-KeepsLast (x ∷ s) c last small =
    let byte : c % 256 ≡ c = omega arith in
    let rest = strrchr_loop-KeepsLast s c (if x == c then some (x ∷ s) else last) small in
    rw (byte) (KeepsLast-cons x s c last _ rest)

-- `strrchr` points at the last occurrence, and gives NULL just where the character does not stand
-- before the terminator.
pub strrchr-FindsLast : (s : List ℕ) (c : ℕ) → c < 256 → FindsLast s c (strrchr s c)
unfolding strrchr
strrchr-FindsLast s c small = ended (strrchr_loop s c none) (strrchr_loop-KeepsLast s c none small)
  where
    ended : (r : Option (List ℕ)) → KeepsLast s c none r → FindsLast s c r
    ended none (inl (gone, same)) = gone
    ended (some t) (inl (gone, same)) = absurd (ground arith)
    ended none (inr (t, found, u, w, whole, head, after)) = absurd (ground arith)
    ended (some t) (inr (t', found, u, w, whole, head, after)) =
        let e : t ≡ t' = ground arith in rw (e) (u, w, whole, head, after)
