-- ===== src/Stdlib/Examples.antt =====
-- The theorems on stdlib.c applied to small cases.
use yasos_libc.Base.{ℕ, ◌≡◌, refl, arith, List, [], ◌∷◌, map, take}
use mathlib.Core.List.{reverse}
use yasos_libc.Base.Text.{codes}
use yasos_libc.Strings.Tokens.{IsBytes}
use yasos_libc.Stdlib.{finalize}
use yasos_libc.Stdlib.Exit.{register, finalize-reverse}

abbrev calls : List (ℕ × ℕ)
calls = (7, 0) ∷ (8, 1) ∷ (7, 2) ∷ []

finalize-reverse_example :
    finalize (λ f a t. t) 16 (register calls (record { func = λ i. 0; arg = λ i. 0; cnt = 0 }))
    ≡ reverse (take 16 calls)
finalize-reverse_example =
    finalize-reverse (λ f a t. t) (λ f a t. refl) (λ i. 0) (λ i. 0) calls 16 (omega arith)

abbrev name : List ℕ
name = codes "TERM"

abbrev environ : List (List ℕ)
environ = map codes ("TERMINFO=/etc" ∷ "TERM=vt100" ∷ [])

name-IsBytes : IsBytes name
name-IsBytes = (
  omega arith,
  omega arith,
  (omega arith, omega arith, (omega arith, omega arith, (omega arith, omega arith, tt))),
)
