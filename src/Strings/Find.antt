-- ===== src/Strings/Find.antt =====
-- `memcmp`, and `strstr` with it: the first occurrence of one string in another.
use yasos_libc.Base.{
  ℕ, zero, suc, ◌+◌, ◌<◌, ◌≡◌, refl, sym, ap, ◌∙◌, arith, Bool, true, false, ◌&&◌, ◌==◌,
  if◌then◌else◌, ==_iff, Bool-cases, inl, inr, ◌⊎◌, ◌≢◌, if_both, Option, none, some, List, [], ◌∷◌,
  ◌++◌, length, length-append,
}
use mathlib.Core.Path.{subst}
use yasos_libc.Base.Int.{ℤ, sub_ℕ, is_zero, pos}
use yasos_libc.Strto.{cur}
use yasos_libc.Strings.{strchr, strlen, strstr, strstr_loop, memcmp, memcmp_loop, bytes}
use yasos_libc.Strings.Search.{has, FindsFirst, strchr-FindsFirst}
use yasos_libc.Strings.Tokens.{IsBytes}

-- `memcmp` of `n` bytes is 0 when they agree, and else the difference of the first two that do not.
abbrev pub Compared : (ℕ → ℕ) → (ℕ → ℕ) → ℕ → ℕ → ℤ → Type 0
Compared p q i n r =
    ((r ≡ pos 0) × ((k : ℕ) → k < n → p (i + k) ≡ q (i + k)))
    ⊎ ((j : ℕ) × (j < n)
        × ((k : ℕ) → k < j → p (i + k) ≡ q (i + k))
        × (p (i + j) ≢ q (i + j))
        × (r ≡ sub_ℕ (p (i + j)) (q (i + j))))

agree-suc :
    (p q : ℕ → ℕ) (i n : ℕ)
    → p i ≡ q i
    → ((k : ℕ) → k < n → p (i + 1 + k) ≡ q (i + 1 + k))
    → (k : ℕ) → k < suc n
    → p (i + k) ≡ q (i + k)
agree-suc p q i n e h zero lt = let s : i + 0 ≡ i = omega arith in ap p s ∙ e ∙ sym (ap q s)
agree-suc p q i n e h (suc k) lt =
    let s : i + 1 + k ≡ i + suc k = omega arith in sym (ap p s) ∙ h k (omega arith) ∙ ap q s

Compared-suc :
    (p q : ℕ → ℕ) (i n : ℕ) (r : ℤ)
    → p i ≡ q i
    → Compared p q (i + 1) n r
    → Compared p q i (suc n) r
Compared-suc p q i n r e (inl (zero_result, h)) = inl (zero_result, agree-suc p q i n e h)
Compared-suc p q i n r e (inr (j, lt, h, differ, value)) =
    let s : i + 1 + j ≡ i + suc j = omega arith in
    inr (
      suc j,
      omega arith,
      agree-suc p q i j e h,
      (λ same. differ (ap p s ∙ same ∙ sym (ap q s))),
      value ∙ ap (λ a. sub_ℕ (p a) (q a)) s,
    )

memcmp_loop-Compared : (left i : ℕ) (p q : ℕ → ℕ) → Compared p q i left (memcmp_loop left i p q)
unfolding memcmp_loop
memcmp_loop-Compared zero i p q = inl (refl, λ k h. absurd (omega arith))
memcmp_loop-Compared (suc left) i p q =
    if_both (Compared p q i (suc left)) (p i == q i)
      (λ same.
        Compared-suc p q i left _ ((==_iff _ _).0 same) (memcmp_loop-Compared left (i + 1) p q))
      (λ other.
        let here : i + 0 ≡ i = omega arith in
        inr (
          0,
          omega arith,
          (λ k h. absurd (omega arith)),
          rw (here) ground arith,
          ap (λ a. sub_ℕ (p a) (q a)) (sym here),
        ))

-- `memcmp` of `n` bytes is 0 when they all agree, and else the difference of the first two that do not.
pub memcmp-Compared : (p q : ℕ → ℕ) (n : ℕ) → Compared p q 0 n (memcmp p q n)
unfolding memcmp
memcmp-Compared p q n = memcmp_loop-Compared n 0 p q

-- `r` stands at the front of `s`.
unfoldable pub begins : List ℕ → List ℕ → Bool
begins [] s = true
begins (y ∷ r) [] = false
begins (y ∷ r) (x ∷ s) = x == y && begins r s

-- The end of `s` from the first place on where `r` stands.
unfoldable pub find : List ℕ → List ℕ → Option (List ℕ)
find r [] = if begins r [] then some [] else none
find r (x ∷ s) = if begins r (x ∷ s) then some (x ∷ s) else find r s

memcmp_loop-shift :
    (n i : ℕ) (p q : ℕ → ℕ)
    → memcmp_loop n (suc i) p q ≡ memcmp_loop n i (λ k. p (suc k)) (λ k. q (suc k))
unfolding memcmp_loop
memcmp_loop-shift zero i p q = refl
memcmp_loop-shift (suc n) i p q =
    let s : suc i + 1 ≡ suc (i + 1) = omega arith in
    ap (λ (r : ℤ). if p (suc i) == q (suc i) then r else sub_ℕ (p (suc i)) (q (suc i)))
      (ap (λ j. memcmp_loop n j p q) s ∙ memcmp_loop-shift n (i + 1) p q)

sub_zero : (a b : ℕ) → is_zero (sub_ℕ a b) ≡ is_zero (sub_ℕ b a)
sub_zero a b = ground arith

memcmp_loop-zero :
    (n i : ℕ) (p q : ℕ → ℕ) → is_zero (memcmp_loop n i p q) ≡ is_zero (memcmp_loop n i q p)
unfolding memcmp_loop
memcmp_loop-zero zero i p q = refl
memcmp_loop-zero (suc n) i p q = elim (Bool-cases (p i == q i)) [
  | inl e ↦
      let back : (q i == p i) ≡ true = ground arith in rw (e, back) (memcmp_loop-zero n (i + 1) p q)
  | inr e ↦ let back : (q i == p i) ≡ false = ground arith in rw (e, back) (sub_zero (p i) (q i))
]

-- Equal bytes do not depend on which comes first.
pub memcmp-swap : (p q : ℕ → ℕ) (n : ℕ) → is_zero (memcmp p q n) ≡ is_zero (memcmp q p n)
unfolding memcmp
memcmp-swap p q n = memcmp_loop-zero n 0 p q

pub memcmp-begins :
    (r s : List ℕ) → IsBytes r → is_zero (memcmp (bytes s) (bytes r) (strlen r)) ≡ begins r s
unfolding memcmp memcmp_loop strlen begins
memcmp-begins [] s b = refl
memcmp-begins (y ∷ r) [] (ne, small, b) = ground arith
memcmp-begins (y ∷ r) (x ∷ s) (ne, small, b) =
    ground
      (arith, memcmp_loop-shift (strlen r) 0 (bytes (x ∷ s)) (bytes (y ∷ r)), memcmp-begins r s b)

begins-cur : (y : ℕ) (r s : List ℕ) → cur s ≢ y → begins (y ∷ r) s ≡ false
unfolding begins
begins-cur y r [] ne = refl
begins-cur y r (x ∷ s) ne = ground arith

-- Where the first character of `r` does not stand, `r` does not.
find-none : (y : ℕ) (r s : List ℕ) → 0 < y → has s y ≡ false → find (y ∷ r) s ≡ none
unfolding find has begins
find-none y r [] ne gone = refl
find-none y r (x ∷ s) ne gone = ground (arith, find-none y r s)

find-skip : (y : ℕ) (r u t : List ℕ) → has u y ≡ false → find (y ∷ r) (u ++ t) ≡ find (y ∷ r) t
unfolding find has begins
find-skip y r [] t gone = refl
find-skip y r (x ∷ u) t gone = ground (arith, find-skip y r u t)

IsBytes-append : (u t : List ℕ) → IsBytes (u ++ t) → IsBytes t
IsBytes-append [] t b = b
IsBytes-append (x ∷ u) t (ne, small, b) = IsBytes-append u t b

find-here : (y : ℕ) (r s : List ℕ) → begins (y ∷ r) s ≡ true → find (y ∷ r) s ≡ some s
unfolding find
find-here y r [] here = rw (here) refl
find-here y r (x ∷ s) here = rw (here) refl

-- The move to the next place where the first character of `y ∷ r` stands skips no occurrence.
onward-find :
    (fuel : ℕ) (s : List ℕ) (y : ℕ) (r : List ℕ) (o : Option (List ℕ))
    → FindsFirst s y o
    → IsBytes s
    → 0 < y
    → length s < fuel
    → ((t : List ℕ)
        → IsBytes t
        → 0 < length t
        → length t < fuel
        → strstr_loop fuel t (y ∷ r) ≡ some (find (y ∷ r) t))
    → Path
        (Option (Option (List ℕ)))
        (elim o [ none ↦ some none | some t ↦ strstr_loop fuel t (y ∷ r) ])
        (some (find (y ∷ r) s))
onward-find fuel s y r none gone bs ne bound later = sym (ap some (find-none y r s ne gone))
onward-find fuel s y r (some t) (u, w, whole, head, before) bs ne bound later =
    let sizes : length s ≡ length u + length t = ap length whole ∙ length-append u t in
    let some_left : length t ≡ suc (length w) = ap length head in
    later t (IsBytes-append u t (subst IsBytes whole bs)) (omega arith) (omega arith)
    ∙ ap some (sym (find-skip y r u t before) ∙ ap (find (y ∷ r)) (sym whole))

-- A string that is not empty: with fuel above its length the loop ends by its tests, and never stands at
-- the terminator.
strstr_loop-find :
    (fuel : ℕ) (s : List ℕ) (y : ℕ) (r : List ℕ)
    → IsBytes s
    → IsBytes (y ∷ r)
    → 0 < length s
    → length s < fuel
    → strstr_loop fuel s (y ∷ r) ≡ some (find (y ∷ r) s)
unfolding strstr_loop find
strstr_loop-find zero s y r bs br some_chars enough = absurd (omega arith)
strstr_loop-find (suc fuel) [] y r bs br some_chars enough = absurd (omega arith)
strstr_loop-find (suc fuel) (x ∷ s) y r (nx, sx, bs) (ne, small, br) some_chars enough =
    let whole : IsBytes (y ∷ r) = (ne, small, br) in
    let ends = λ (t : List ℕ) (bt : IsBytes t) (full : 0 < length t) (lt : length t < fuel).
      strstr_loop-find fuel t y r bt whole full lt in
    rw (memcmp-begins (y ∷ r) (x ∷ s) whole) (
      if_both (λ (o : Option (Option (List ℕ))). o ≡ some (find (y ∷ r) (x ∷ s)))
        (begins (y ∷ r) (x ∷ s)) (λ here. ap some (sym (find-here y r (x ∷ s) here)))
        (λ away. rw (away) (
          onward-find fuel s y r (strchr s y) (strchr-FindsFirst s y ne small) bs ne (omega arith)
            ends)))

find-nil : (s : List ℕ) → find [] s ≡ some s
unfolding find begins
find-nil [] = refl
find-nil (x ∷ s) = refl

-- Where the first string has a character or the second has none, `strstr` does not read behind the first: it
-- gives the first place where the second string stands in the first, and NULL just where there is none.
pub strstr-find :
    (s r : List ℕ)
    → IsBytes s
    → IsBytes r
    → (0 < length s) ⊎ (length r ≡ 0)
    → strstr s r ≡ some (find r s)
unfolding strstr strlen
strstr-find s [] bs br apart = ap some (sym (find-nil s))
strstr-find s (y ∷ r) bs br (inl full) =
    let some_chars : (suc (strlen r) == 0) ≡ false = ground arith in
    rw (some_chars) (strstr_loop-find (suc (length s)) s y r bs br full (omega arith))
strstr-find s (y ∷ r) bs br (inr gone) = absurd (omega arith)
