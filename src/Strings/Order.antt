-- ===== src/Strings/Order.antt =====
-- The comparisons of strings against the order of the lists of characters.
use yasos_libc.Base.{
  ℕ, zero, suc, ◌<◌, ◌≡◌, refl, arith, Bool, true, false, ◌&&◌, ◌||◌, ltb, ◌==◌, List, [], ◌∷◌,
  ◌++◌, map, take,
}
use yasos_libc.Base.Int.{pos, is_zero, is_negative}
use yasos_libc.Strings.{strcmp, strncmp, strcasecmp, strncasecmp, lower}

-- The characters of a string are not 0.
unfoldable pub IsString : List ℕ → Type 0
IsString [] = Unit
IsString (c ∷ s) = (0 < c) × IsString s

-- The order of a dictionary, a beginning before what it begins.
unfoldable pub precedes : List ℕ → List ℕ → Bool
precedes [] [] = false
precedes [] (y ∷ t) = true
precedes (x ∷ s) [] = false
precedes (x ∷ s) (y ∷ t) = ltb x y || (x == y && precedes s t)

unfoldable pub eq : List ℕ → List ℕ → Bool
eq [] [] = true
eq [] (y ∷ t) = false
eq (x ∷ s) [] = false
eq (x ∷ s) (y ∷ t) = x == y && eq s t

-- `strcmp` is 0 just for equal strings, and negative just where the first comes before the second.
pub strcmp-order :
    (s t : List ℕ)
    → IsString s
    → IsString t
    → (is_zero (strcmp s t) ≡ eq s t) × (is_negative (strcmp s t) ≡ precedes s t)
unfolding strcmp IsString precedes eq
strcmp-order [] [] p q = (refl, refl)
strcmp-order [] (y ∷ t) p q = ground arith
strcmp-order (x ∷ s) [] p q = ground arith
strcmp-order (x ∷ s) (y ∷ t) p q = ground (arith, strcmp-order s t)

-- `strncmp` compares the first `num` characters as `strcmp` does.
pub strncmp-strcmp : (s t : List ℕ) (num : ℕ) → strncmp s t num ≡ strcmp (take num s) (take num t)
unfolding strncmp strcmp
strncmp-strcmp s t zero = ground arith
strncmp-strcmp [] [] (suc num) = refl
strncmp-strcmp [] (y ∷ t) (suc num) = refl
strncmp-strcmp (x ∷ s) [] (suc num) = refl
strncmp-strcmp (x ∷ s) (y ∷ t) (suc num) = ground (arith, strncmp-strcmp s t num)

lower-pos : (c : ℕ) → 0 < c → 0 < lower c
unfolding lower
lower-pos c h = ground arith

-- `strcasecmp` is 0, or negative, just where `strcmp` of the strings in lower case is.
pub strcasecmp-strcmp :
    (s t : List ℕ)
    → IsString s
    → IsString t
    → (is_zero (strcasecmp s t) ≡ is_zero (strcmp (map lower s) (map lower t)))
      × (is_negative (strcasecmp s t) ≡ is_negative (strcmp (map lower s) (map lower t)))
unfolding strcasecmp strcmp IsString
strcasecmp-strcmp [] [] p q = (refl, refl)
strcasecmp-strcmp [] (y ∷ t) p q = ground (arith, lower-pos y)
strcasecmp-strcmp (x ∷ s) [] p q = ground (arith, lower-pos x)
strcasecmp-strcmp (x ∷ s) (y ∷ t) p q = ground (arith, strcasecmp-strcmp s t)

-- `strncasecmp` takes a string and every continuation of it for equal, whatever the count.
pub strncasecmp-append : (s t : List ℕ) (n : ℕ) → strncasecmp s (s ++ t) n ≡ pos 0
unfolding strncasecmp
strncasecmp-append s t zero = ground arith
strncasecmp-append [] t (suc n) = refl
strncasecmp-append (x ∷ s) t (suc n) = ground (arith, strncasecmp-append s t n)
