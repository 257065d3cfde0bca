-- ===== src/Strings/Tokens.antt =====
-- `strspn`, `strcspn`, `strpbrk` and `strtok_r`: sets of characters, and the tokens between delimiters.
use yasos_libc.Base.{
  ℕ, zero, suc, ◌<◌, ◌≡◌, refl, ap, arith, Bool, true, false, not, ◌&&◌, ◌||◌, ◌==◌, if◌then◌else◌,
  none, some, List, [], ◌∷◌, ◌++◌, take, drop, ◌≢◌, Option, if_both, ◌⊎◌, length, ==_iff, inl, inr,
  sym, ◌∙◌,
}
use mathlib.Core.List.{append-nil}
use yasos_libc.Strto.{cur}
use yasos_libc.Strings.{strpbrk, strspn, strcspn, next, tokenize, strtok_r}
use yasos_libc.Strings.Search.{has, strchr-has}

-- Every character of the list is in the set, or none is.
unfoldable pub all_in : List ℕ → List ℕ → Bool
all_in set [] = true
all_in set (x ∷ s) = has set x && all_in set s

unfoldable pub none_in : List ℕ → List ℕ → Bool
none_in set [] = true
none_in set (x ∷ s) = not (has set x) && none_in set s

-- A string: its characters are bytes other than the terminator.
abbrev pub IsBytes : List ℕ → Type 0
IsBytes [] = Unit {0}
IsBytes (c ∷ s) = (0 < c) × (c < 256) × IsBytes s

-- The first `strspn` characters are in the set and the one behind them is not, and `strcspn` is the
-- same for the complement; `strpbrk` points where `strcspn` stops, if that is not the terminator.
pub spans :
    (s set : List ℕ)
    → IsBytes s
    → (all_in set (take (strspn s set) s) ≡ true)
      × (has set (cur (drop (strspn s set) s)) && not (cur (drop (strspn s set) s) == 0) ≡ false)
      × (none_in set (take (strcspn s set) s) ≡ true)
      × (has set (cur (drop (strcspn s set) s)) || cur (drop (strcspn s set) s) == 0 ≡ true)
      × (strpbrk s set
          ≡ (if cur (drop (strcspn s set) s) == 0 then none else some (drop (strcspn s set) s)))
unfolding strspn strcspn strpbrk all_in none_in
spans [] set b = (refl, ground arith, refl, ground arith, refl)
spans (x ∷ s) set (ne, small, b) = ground (arith, strchr-has set x ne small, spans s set b)

take-drop : (n : ℕ) (s : List ℕ) → take n s ++ drop n s ≡ s
take-drop zero s = refl
take-drop (suc n) [] = refl
take-drop (suc n) (x ∷ s) = ap (λ t. x ∷ t) (take-drop n s)

IsBytes-drop : (n : ℕ) (s : List ℕ) → IsBytes s → IsBytes (drop n s)
IsBytes-drop zero s b = b
IsBytes-drop (suc n) [] b = b
IsBytes-drop (suc n) (x ∷ s) (ne, small, b) = IsBytes-drop n s b

-- Where a string begins with a character outside the set, the complement spans some of it.
strcspn-pos :
    (s set : List ℕ)
    → IsBytes s
    → has set (cur s) && not (cur s == 0) ≡ false
    → cur s ≢ 0
    → 0 < length (take (strcspn s set) s)
unfolding strcspn
strcspn-pos [] set b out ne = absurd (ne refl)
strcspn-pos (x ∷ s) set (some_char, small, b) out ne =
    ground (arith, strchr-has set x some_char small)

-- The outcome of a call: no token, and nothing but delimiters in the string; or a token that is not
-- empty and has no delimiter, behind delimiters only, and what follows it, without the delimiter
-- that ends it if there is one.
abbrev pub Tokenized : List ℕ → List ℕ → Option (List ℕ) × Option (List ℕ) → Type 0
Tokenized str set (none, none) = all_in set str ≡ true
Tokenized str set (none, some rest) = ⊥
Tokenized str set (some token, none) = ⊥
Tokenized str set (some token, some rest) =
    (lead sep : List ℕ) × (str ≡ lead ++ (token ++ (sep ++ rest)))
    × (all_in set lead ≡ true)
    × (none_in set token ≡ true)
    × (0 < length token)
    × (((sep ≡ []) × (rest ≡ [])) ⊎ ((d : ℕ) × (sep ≡ d ∷ []) × (has set d ≡ true)))

-- What the end of the token is followed by.
ending :
    (e set : List ℕ)
    → has set (cur e) || cur e == 0 ≡ true
    → IsBytes e
    → (sep : List ℕ) × (e ≡ sep ++ next e)
      × (((sep ≡ []) × (next e ≡ [])) ⊎ ((d : ℕ) × (sep ≡ d ∷ []) × (has set d ≡ true)))
ending [] set stop b = ([], refl, inl (refl, refl))
ending (d ∷ e) set stop (ne, small, b) = (d ∷ [], refl, inr (d, refl, ground arith))

cur-zero : (s : List ℕ) → IsBytes s → cur s ≡ 0 → s ≡ []
cur-zero [] b e = refl
cur-zero (x ∷ s) (ne, small, b) e = absurd (omega arith)

-- `strtok_r` on a string.
pub tokenize-Tokenized : (str set : List ℕ) → IsBytes str → Tokenized str set (tokenize str set)
unfolding tokenize
tokenize-Tokenized str set b =
    let s = drop (strspn str set) str in
    let first = spans str set b in
    let bs = IsBytes-drop (strspn str set) str b in
    let second = spans s set bs in
    let i = strcspn s set in
    if_both (Tokenized str set) (cur s == 0)
      (λ t.
        let empty = cur-zero s bs ((==_iff _ 0).0 t) in
        let k = strspn str set in
        let lead : str ≡ take k str =
          sym (take-drop k str) ∙ ap (λ e. take k str ++ e) empty ∙ append-nil (take k str) in
        ap (all_in set) lead ∙ first.0)
      (λ f.
        let (sep, whole, kind) = ending (drop i s) set (second.3) (IsBytes-drop i s bs) in
        (
          take (strspn str set) str,
          sep,
          sym (take-drop (strspn str set) str)
              ∙ ap (λ v. take (strspn str set) str ++ v)
                  (sym (take-drop i s) ∙ ap (λ v. take i s ++ v) whole),
          first.0,
          second.2,
          strcspn-pos s set bs first.1 (ground arith),
          kind,
        ))

-- `strtok_r` with a string, or with NULL where one was saved, cuts the first token out of it: the
-- outcome is no token and NULL saved when the string has only delimiters, and else a token that is
-- not empty and holds no delimiter, with the rest saved, so that delimiters, token, the one
-- delimiter behind it and the rest make up the string. With NULL and nothing saved there is no token.
pub strtok_r-Tokenized :
    (str set : List ℕ) (saved : Option (List ℕ))
    → IsBytes str
    → Tokenized str set (strtok_r (some str) set saved)
      × Tokenized str set (strtok_r none set (some str))
      × (strtok_r none set none ≡ (none, none))
unfolding strtok_r
strtok_r-Tokenized str set saved b =
    (tokenize-Tokenized str set b, tokenize-Tokenized str set b, refl)
