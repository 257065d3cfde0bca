-- ===== src/Stdlib.antt =====
-- stdlib.c and rand.c: absolute values, the environment, the handlers that run at exit, and the generators
-- of random numbers. A `long` has 32 bits; `int` and `long` are their bit patterns.
pub mod Exit
pub mod Environment
mod Examples
use yasos_libc.Base.{
  ℕ, zero, suc, ◌+◌, ◌-◌, ◌*◌, ◌/◌, ◌%◌, ◌^◌, ◌≤◌, ◌<◌, ◌≡◌, refl, sym, ap, ◌∙◌, arith, Bool, true,
  false, not, ◌&&◌, ◌||◌, ltb, leb, ◌==◌, if◌then◌else◌, bit_and, bit_or, bit_xor, leb→le, ltb→lt,
  lt→ltb, le→leb, ltb-false, leb-false, tests, ==_iff, Bool-cases, Option-cases, inl, inr, ◌⊎◌, ◌≢◌,
  ◌↔◌, if_both, Option, none, some, List, [], ◌∷◌, ◌++◌, map, length, get_or, length-append, take,
  drop,
}
use yasos_libc.Base.Loop.{while, while_inv}
use yasos_libc.Base.Int.{ℤ, pos, negsuc, is_zero}
use yasos_libc.Strings.{strlen, memcmp, bytes}

-- `n >= 0 ? n : -n` with `w` bits; the least number is its own negative.
abbrev pub magnitude : ℕ → ℕ → ℕ
magnitude w n = if ltb n (2 ^ (w - 1)) then n else (2 ^ w - n) % 2 ^ w

pub abs : ℕ → ℕ
abs n = magnitude 32 n

pub labs : ℕ → ℕ
labs n = magnitude 32 n

pub llabs : ℕ → ℕ
llabs n = magnitude 64 n

-- The text of each entry of `environ`, up to the NULL. What lies behind a terminator is not looked at.
pub getenv : List (List ℕ) → List ℕ → Option (List ℕ)
getenv [] name = none
getenv (p ∷ environ) name =
    let len = strlen name in
    if is_zero (memcmp (bytes name) (bytes p) len) && bytes p len == b'='
    then some (drop (len + 1) p)
    else getenv environ name

abbrev pub atexit_max : ℕ
atexit_max = 16

-- `atexit_func`, `atexit_arg` and `atexit_cnt`, where `F` and `A` are the handlers and their arguments.
pub record Handlers {ℓ κ} (F : Type ℓ) (A : Type κ) : Type (ℓ ⊔ κ) where
  pub func : ℕ → F
  pub arg : ℕ → A
  pub cnt : ℕ

abbrev pub put {ℓ} : {T : Type ℓ} → (ℕ → T) → ℕ → T → ℕ → T
put a i x k = if k == i then x else a k

module _ {ℓ κ} {F : Type ℓ} {A : Type κ} where
  unfoldable pub on_exit : F → A → Handlers F A → ℤ × Handlers F A
  on_exit func arg s = if leb atexit_max s.cnt then (negsuc 0, s) else (
    pos 0,
    record { func = put s.func s.cnt func; arg = put s.arg s.cnt arg; cnt = s.cnt + 1 },
  )

  -- `null` is the argument that a handler without one gets.
  unfoldable pub atexit : A → F → Handlers F A → ℤ × Handlers F A
  atexit null func s = if leb atexit_max s.cnt then (negsuc 0, s) else (
    pos 0,
    record { func = put s.func s.cnt func; arg = put s.arg s.cnt null; cnt = s.cnt + 1 },
  )

  -- `while (atexit_cnt > 0)`: the calls that are made. `run` is what a handler does to the table.
  unfoldable pub finalize : (F → A → Handlers F A → Handlers F A) → ℕ → Handlers F A → List (F × A)
  finalize run zero s = []
  finalize run (suc fuel) s =
      let cnt = s.cnt - 1 in
      let rest = finalize run fuel (run (s.func cnt) (s.arg cnt) (record s { cnt = cnt })) in
      if s.cnt == 0 then [] else (s.func cnt, s.arg cnt) ∷ rest

abbrev pub rand_max : ℕ
rand_max = 0x7fffffff

-- The number and the new `seed`.
pub random : ℕ → ℕ × ℕ
random seed = let seed' = bit_and ((seed * 1103515245 + 12345) % 2 ^ 32) rand_max in (seed', seed')

-- The static `seed` after the call: the parameter hides it.
pub srandom : ℕ → ℕ → ℕ
srandom parameter seed = seed

-- The static `r` after the call.
pub srand : ℕ → ℕ → ℕ
srand seed r = seed

pub rand : ℕ → ℕ × ℕ
rand r = let r' = (r * 1103515245 + 12345) % 2 ^ 32 in (bit_and r' 0x7fffffff, r')
