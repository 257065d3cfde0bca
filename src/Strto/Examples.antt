-- ===== src/Strto/Examples.antt =====
-- The theorems on atoi.c applied to short strings.
use yasos_libc.Base.{ℕ, ◌^◌, ◌≡◌, refl, arith, if◌then◌else◌, List, [], ◌∷◌}
use yasos_libc.Strto.{strtol, atoi, atol, long_max}
use yasos_libc.Strto.Digits.{digits_of, value_from}
use yasos_libc.Strto.Ranges.{is_minus, magnitude, number_end, within}
use yasos_libc.Strto.Narrow.{strtol_lem, long_limit, negate32}
use yasos_libc.Strto.Decimal.{IsText, signed32, unsigned_part, atoi_lem}

-- " -0x1g"
abbrev text : List ℕ
text = b' ' ∷ b'-' ∷ b'0' ∷ b'x' ∷ b'1' ∷ b'g' ∷ []

text-IsText : IsText text
unfolding IsText
text-IsText =
    (omega arith, (omega arith, (omega arith, (omega arith, (omega arith, (omega arith, tt))))))

strtol_lem_example :
    strtol text 0 7
    ≡ within
        (long_limit (is_minus text))
        (if is_minus text then 2 ^ 31 else long_max)
        (λ n. if is_minus text then negate32 n else n)
        (magnitude text 0)
        (number_end text 0)
        7
strtol_lem_example = strtol_lem text 0 7

atoi_lem_example :
    (atoi text ≡ signed32 (is_minus text) (value_from 10 0 (digits_of 10 (unsigned_part text))))
    × (atol text ≡ signed32 (is_minus text) (value_from 10 0 (digits_of 10 (unsigned_part text))))
atoi_lem_example = atoi_lem text text-IsText

-- The number that the digits "1g" stand for.
value_example : value_from 16 0 (1 ∷ 2 ∷ []) ≡ 18
unfolding value_from
value_example = refl
