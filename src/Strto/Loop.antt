-- ===== src/Strto/Loop.antt =====
-- The digit loop of `strtoull` and `strtoll`: the number it counts on 64 bits against the value of the
-- digits in ℕ.
use yasos_libc.Base.{
  ℕ, suc, ◌+◌, ◌*◌, ◌/◌, ◌%◌, ◌^◌, ◌≤◌, ◌<◌, ◌≡◌, refl, ap, ◌∙◌, arith, Bool, true, false, ◌&&◌,
  ◌||◌, ltb, ◌==◌, if◌then◌else◌, inl, inr, ◌⊎◌, List, [], ◌∷◌,
}
use native.Mathlib.Nat.{div-add-mod, mod-lt, mul-le-mul_right}
use yasos_libc.Strto.{Reading, take_digit, digit_loop, read_digits}
use yasos_libc.Strto.Digits.{digits_of, value_from, digit_cases}

pub le-value_from : (base v : ℕ) (ds : List ℕ) → 0 < base → v ≤ value_from base v ds
unfolding value_from
le-value_from base v [] h = omega arith
le-value_from base v (d ∷ ds) h =
    let step : v ≤ v * base + d = grind arith in
    let later = le-value_from base (v * base + d) ds h in omega arith

-- What the loop knows: either the value so far, within the limit, or that it went beyond.
abbrev pub Counted : ℕ → ℕ → Reading → Type 0
Counted limit v r =
    ((r.overflow ≡ false) × (r.num ≡ v) × (v ≤ limit)) ⊎ ((r.overflow ≡ true) × (limit < v))

nat_order : (a b : ℕ) → ((a < b) ⊎ (a ≡ b)) ⊎ (b < a)
nat_order a b = ground arith

lt_or_le : (a b : ℕ) → (a < b) ⊎ (b ≤ a)
lt_or_le a b = ground arith

at_equal :
    (base q m d v : ℕ)
    → v ≡ q
    → ((m < d) ⊎ (d ≤ m))
    → (((q < v) ⊎ ((v ≡ q) × (m < d))) × (q * base + m < v * base + d))
      ⊎ (((v < q) ⊎ ((v ≡ q) × (d ≤ m))) × (v * base + d ≤ q * base + m))
at_equal base q m d v same (inl lt) =
    let rows : v * base ≡ q * base = ap (λ x. x * base) same in inl (inr (same, lt), omega arith)
at_equal base q m d v same (inr le) =
    let rows : v * base ≡ q * base = ap (λ x. x * base) same in inr (inr (same, le), omega arith)

-- The test against the cutoff, for a number in ℕ.
mul-over :
    (base q m d v : ℕ)
    → m < base
    → d < base
    → (((q < v) ⊎ ((v ≡ q) × (m < d))) × (q * base + m < v * base + d))
      ⊎ (((v < q) ⊎ ((v ≡ q) × (d ≤ m))) × (v * base + d ≤ q * base + m))
mul-over base q m d v small lt = elim (nat_order v q) [
  | inl (inl less) ↦
      let rows : suc v * base ≤ q * base = mul-le-mul_right base less in inr (inl less, grind arith)
  | inl (inr same) ↦ at_equal base q m d v same (lt_or_le m d)
  | inr more ↦
      let rows : suc q * base ≤ v * base = mul-le-mul_right base more in inl (inl more, grind arith)
]

flag_set :
    (q m d v : ℕ) (o : Bool)
    → ((q < v) ⊎ ((v ≡ q) × (m < d)))
    → (if ltb q v || v == q && ltb m d then true else o) ≡ true
flag_set q m d v o over = ground arith

flag_kept :
    (q m d v : ℕ) (o : Bool)
    → ((v < q) ⊎ ((v ≡ q) × (d ≤ m)))
    → (if ltb q v || v == q && ltb m d then true else o) ≡ o
flag_kept q m d v o under = ground arith

flag_stays : (t o : Bool) → o ≡ true → (if t then true else o) ≡ true
flag_stays true o set = refl
flag_stays false o set = set

fits : (x limit : ℕ) → x ≤ limit → limit < 2 ^ 64 → x % 2 ^ 64 ≡ x
fits x limit le max = omega arith

take_digit-Counted :
    (base q m limit d v : ℕ) (r : Reading)
    → 0 < base
    → m < base
    → d < base
    → q * base + m ≡ limit
    → limit < 2 ^ 64
    → Counted limit v r
    → Counted limit (v * base + d) (take_digit base q m d r)
unfolding take_digit
take_digit-Counted base q m limit d v r pos small lt whole max (inl (clear, same, le)) =
    let held : r.num * base + d ≡ v * base + d = ap (λ x. x * base + d) same in
    elim (mul-over base q m d v small lt) [
      | inl (over, more) ↦ inr (
        ap (λ n. if ltb q n || n == q && ltb m d then true else r.overflow) same
            ∙ flag_set q m d v r.overflow over,
        omega arith,
      )
      | inr (under, less) ↦ inl (
        ap (λ n. if ltb q n || n == q && ltb m d then true else r.overflow) same
            ∙ flag_kept q m d v r.overflow under
            ∙ clear,
        ap (λ n. n % 2 ^ 64) held ∙ fits (v * base + d) limit (omega arith) max,
        omega arith,
      )
    ]
take_digit-Counted base q m limit d v r pos small lt whole max (inr (set, more)) =
    let grow : v ≤ v * base + d = grind arith in
    inr (flag_stays (ltb q r.num || r.num == q && ltb m d) r.overflow set, omega arith)

-- The loop reads the digits at the front, and stops behind them.
pub digit_loop-Counted :
    (base q m limit v : ℕ) (s : List ℕ) (r : Reading)
    → 0 < base
    → m < base
    → q * base + m ≡ limit
    → limit < 2 ^ 64
    → Counted limit v r
    → Counted limit (value_from base v (digits_of base s)) (digit_loop base q m s r)
unfolding digit_loop digits_of value_from
digit_loop-Counted base q m limit v [] r pos small whole max c = c
digit_loop-Counted base q m limit v (x ∷ s) r pos small whole max c = elim (digit_cases x base) [
  | inl stop ↦ rw (digit_loop, digits_of, stop) c
  | inr (d, here, lt) ↦
      let later =
        digit_loop-Counted base q m limit (v * base + d) s (take_digit base q m d r) pos small whole
          max (take_digit-Counted base q m limit d v r pos small lt whole max c) in
      rw (digit_loop, digits_of, here) later
]

-- `read_digits` finds the number of the digits at the front, or that it is above the limit.
pub read_digits-Counted :
    (base limit : ℕ) (s : List ℕ)
    → 0 < base
    → limit < 2 ^ 64
    → Counted limit (value_from base 0 (digits_of base s)) (read_digits base limit s)
unfolding read_digits
read_digits-Counted base limit s pos max =
    digit_loop-Counted base (limit / base) (limit % base) limit 0 s
      (record { s = s; num = 0; overflow = false; any = false }) pos (mod-lt limit pos)
      (grind (arith, div-add-mod limit base)) max (inl (refl, refl, omega arith))
