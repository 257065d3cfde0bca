-- ===== src/Memory.antt =====
-- The byte-addressed memory that the routines of string.c work on, and their word accesses.
-- A `uint32_t` access is the little-endian one of the target, and addresses do not wrap.
pub mod Laws
use yasos_libc.Base.{
  ℕ, zero, suc, ◌+◌, ◌*◌, ◌/◌, ◌%◌, ◌<◌, Bool, ◌&&◌, ltb, leb, ◌==◌, if◌then◌else◌,
}

abbrev pub Ram : Type 0
Ram = ℕ → ℕ

-- Every cell holds a byte.
abbrev pub IsBytes : Ram → Type 0
IsBytes m = (a : ℕ) → m a < 256

-- `a` is one of the `n` addresses from `p` on.
abbrev pub inside : ℕ → ℕ → ℕ → Bool
inside p n a = leb p a && ltb a (p + n)

unfoldable pub store8 : Ram → ℕ → ℕ → Ram
store8 m p v a = if a == p then v else m a

unfoldable pub load32 : Ram → ℕ → ℕ
load32 m p = m p + 256 * m (p + 1) + 65536 * m (p + 2) + 16777216 * m (p + 3)

unfoldable pub store32 : Ram → ℕ → ℕ → Ram
unfolding store8
store32 m p w =
    store8
      (store8 (store8 (store8 m p (w % 256)) (p + 1) (w / 256 % 256)) (p + 2) (w / 65536 % 256))
      (p + 3) (w / 16777216 % 256)
