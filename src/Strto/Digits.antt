-- ===== src/Strto/Digits.antt =====
-- The digit loop against the value of the digits in ℕ.
use yasos_libc.Base.{
  ℕ, ◌+◌, ◌*◌, ◌<◌, ◌≡◌, ap, ◌∙◌, arith, Bool, true, false, ◌||◌, Option-cases, inl, inr, ◌⊎◌, none,
  some, List, [], ◌∷◌,
}
use yasos_libc.Strto.{digit, Reading, take_digit, digit_loop, next}

-- The digits at the front of a string, and what follows them.
unfoldable pub digits_of : ℕ → List ℕ → List ℕ
digits_of base [] = []
digits_of base (c ∷ s) = elim (digit c base) [ none ↦ [] | some d ↦ d ∷ digits_of base s ]

unfoldable pub after_digits : ℕ → List ℕ → List ℕ
after_digits base [] = []
after_digits base (c ∷ s) = elim (digit c base) [ none ↦ c ∷ s | some d ↦ after_digits base s ]

-- Whether a digit stands at the front.
unfoldable pub has_digit : ℕ → List ℕ → Bool
has_digit base [] = false
has_digit base (c ∷ s) = elim (digit c base) [ none ↦ false | some d ↦ true ]

-- The number that digits stand for, behind the number `v`.
unfoldable pub value_from : ℕ → ℕ → List ℕ → ℕ
value_from base v [] = v
value_from base v (d ∷ ds) = value_from base (v * base + d) ds

pub digit-lt : (c base d : ℕ) → digit c base ≡ some d → d < base
unfolding digit
digit-lt c base d h = ground arith

-- The character of a decimal digit.
pub digit_char : (d : ℕ) → d < 10 → digit (b'0' + d) 10 ≡ some d
unfolding digit
digit_char d lt = ground arith

pub digit_cases :
    (c base : ℕ) → (digit c base ≡ none) ⊎ ((d : ℕ) × (digit c base ≡ some d) × (d < base))
digit_cases c base = elim (Option-cases (digit c base)) [
  | inl gone ↦ inl gone
  | inr (d, here) ↦ inr (d, here, digit-lt c base d here)
]

take_digit-rest :
    (base q m d : ℕ) (r : Reading) (x : ℕ) (s : List ℕ)
    → r.s ≡ x ∷ s
    → (take_digit base q m d r).s ≡ s
unfolding take_digit
take_digit-rest base q m d r x s at = ap next at

take_digit-any :
    (base q m d : ℕ) (r : Reading) (b : Bool)
    → ((take_digit base q m d r).any || b) ≡ (r.any || true)
unfolding take_digit
take_digit-any base q m d r b = ground arith

pub digit_loop-rest :
    (base q m : ℕ) (s : List ℕ) (r : Reading)
    → r.s ≡ s
    → (digit_loop base q m s r).s ≡ after_digits base s
unfolding digit_loop after_digits
digit_loop-rest base q m [] r at = at
digit_loop-rest base q m (x ∷ s) r at = elim (digit_cases x base) [
  | inl stop ↦ rw (digit_loop, after_digits, stop) at
  | inr (d, here, lt) ↦
      let later =
        digit_loop-rest base q m s (take_digit base q m d r)
          (take_digit-rest base q m d r x s at) in
      rw (digit_loop, after_digits, here) later
]

pub digit_loop-any :
    (base q m : ℕ) (s : List ℕ) (r : Reading)
    → (digit_loop base q m s r).any ≡ (r.any || has_digit base s)
unfolding digit_loop has_digit
digit_loop-any base q m [] r = ground arith
digit_loop-any base q m (x ∷ s) r = elim (digit_cases x base) [
  | inl stop ↦ rw (digit_loop, has_digit, stop) (ground arith)
  | inr (d, here, lt) ↦
      let later = digit_loop-any base q m s (take_digit base q m d r) in
      rw (digit_loop, has_digit, here) (later ∙ take_digit-any base q m d r (has_digit base s))
]
