-- ===== src/Stdlib/Environment.antt =====
-- The variable that `getenv` finds.
use yasos_libc.Base.{
  ℕ, suc, ◌+◌, ◌≡◌, refl, ap, ◌∙◌, arith, Bool, true, false, ◌&&◌, ◌==◌, if◌then◌else◌, Bool-cases,
  inl, inr, Option, none, some, List, [], ◌∷◌, length, drop,
}
use yasos_libc.Strings.{strlen, memcmp, bytes}
use yasos_libc.Base.Int.{is_zero}
use yasos_libc.Strings.Tokens.{IsBytes}
use yasos_libc.Strings.Find.{begins, memcmp-swap, memcmp-begins}
use yasos_libc.Strings.Copy.{strlen-length}
use yasos_libc.Stdlib.{getenv}

-- The value of an entry of the form `name=value`.
unfoldable pub value_of : List ℕ → List ℕ → Option (List ℕ)
value_of [] [] = none
value_of [] (x ∷ p) = if x == b'=' then some p else none
value_of (y ∷ name) [] = none
value_of (y ∷ name) (x ∷ p) = if x == y then value_of name p else none

-- The value of the first entry for the name.
unfoldable pub lookup : List ℕ → List (List ℕ) → Option (List ℕ)
lookup name [] = none
lookup name (p ∷ environ) = elim (value_of name p) [
  | some value ↦ some value
  | none ↦ lookup name environ
]

-- The entry begins with the name and has the sign behind it just if it has a value.
entry-value_of :
    (name p : List ℕ)
    → (if begins name p && bytes p (length name) == b'='
        then some (drop (length name + 1) p)
        else none)
      ≡ value_of name p
unfolding value_of begins
entry-value_of [] [] = refl
entry-value_of [] (x ∷ p) = refl
entry-value_of (y ∷ name) [] = refl
entry-value_of (y ∷ name) (x ∷ p) =
    let one_more : suc (length name) + 1 ≡ suc (length name + 1) = omega arith in
    elim (Bool-cases (x == y)) [
      | inl e ↦ rw (e, one_more) (entry-value_of name p)
      | inr e ↦ rw (e) refl
    ]

abbrev else_try : Option (List ℕ) → Option (List ℕ) → Option (List ℕ)
else_try other o = elim o [ some value ↦ some value | none ↦ other ]

or_else :
    (test : Bool) (x : List ℕ) (other : Option (List ℕ)) {o : Option (List ℕ)}
    → (if test then some x else none) ≡ o
    → (if test then some x else other) ≡ else_try other o
or_else true x other e = ap (else_try other) e
or_else false x other e = ap (else_try other) e

-- `getenv` gives the text behind the `=` of the first entry of the environment that is the name, an `=`
-- and a text, and NULL just where there is none.
pub getenv-lookup :
    (environ : List (List ℕ)) (name : List ℕ)
    → IsBytes name
    → getenv environ name ≡ lookup name environ
unfolding getenv lookup
getenv-lookup [] name b = refl
getenv-lookup (p ∷ environ) name b =
    let same : is_zero (memcmp (bytes name) (bytes p) (strlen name)) ≡ begins name p =
      memcmp-swap (bytes name) (bytes p) (strlen name) ∙ memcmp-begins name p b in
    rw (same, strlen-length name, getenv-lookup environ name b)
      (or_else (begins name p && bytes p (length name) == b'=') _ _ (entry-value_of name p))
