-- ===== src/MemOps/Sought.antt =====
-- What `memchr` finds.
use yasos_libc.Base.{
  ℕ, zero, suc, ◌+◌, ◌*◌, ◌%◌, ◌≤◌, ◌<◌, ◌≡◌, refl, sym, ap, ◌∙◌, arith, Bool, true, false, not,
  ◌&&◌, ltb, ◌==◌, if◌then◌else◌, bit_xor, ltb→lt, ltb-false, ==_iff, Bool-cases, inl, inr, ◌⊎◌,
  ◌≢◌, if_both, Option, none, some,
}
use yasos_libc.Base.Loop.{while, while_inv}
use yasos_libc.Memory.{Ram, IsBytes, load32}
use yasos_libc.MemOps.Seek.{
  Seeking, has_zero, skip, seek_bytes, seek_head, seek_words, memchr, long01,
}
use yasos_libc.MemOps.Words.{has_zero-xor}

-- Rounds that keep a property keep it however many there are.
while_keeps {ℓ κ} :
    {A : Type ℓ} (Good : A → Type κ) (again : A → Bool) (round : A → A)
    → ((x : A) → Good x → again x ≡ true → Good (round x))
    → (left : ℕ) (x : A) → Good x
    → Good (while left again round x)
unfolding while
while_keeps Good again round keep zero x good = good
while_keeps Good again round keep (suc left) x good =
    let rest = while_keeps Good again round keep left (round x) in
    let one = keep x good in ground (arith, one, rest)

four : (p a : ℕ) → p ≤ a → a < p + 4 → (a ≡ p) ⊎ (a ≡ p + 1) ⊎ (a ≡ p + 2) ⊎ (a ≡ p + 3)
four p a from below = elim (Bool-cases (a == p)) [
  | inl e ↦ inl ((==_iff a p).0 e)
  | inr n0 ↦ elim (Bool-cases (a == p + 1)) [
    | inl e ↦ inr (inl ((==_iff a (p + 1)).0 e))
    | inr n1 ↦ elim (Bool-cases (a == p + 2)) [
      | inl e ↦ inr (inr (inl ((==_iff a (p + 2)).0 e)))
      | inr n2 ↦ inr (inr (inr (ground arith)))
    ]
  ]
]

module _ (m : Ram) (src c n : ℕ) where
  -- The byte does not stand in front of `s`, and `n` bytes are left.
  record Passed (t : Seeking) : Type 0 where
    reached : src ≤ t.s
    left : t.s + t.n ≡ src + n
    absent : (a : ℕ) → src ≤ a → a < t.s → m a ≢ c

  -- The first place of the byte among the `n` bytes from `src` on, or none.
  unfoldable pub FindsByte : Option ℕ → Type 0
  FindsByte none = (a : ℕ) → src ≤ a → a < src + n → m a ≢ c
  FindsByte (some p) = (src ≤ p) × (p < src + n) × (m p ≡ c) × ((a : ℕ) → src ≤ a → a < p → m a ≢ c)

  skip-Passed :
      (k : ℕ) (t : Seeking)
      → k ≤ t.n
      → ((a : ℕ) → t.s ≤ a → a < t.s + k → m a ≢ c)
      → Passed t
      → Passed (skip k t)
  unfolding skip
  skip-Passed k t enough other passed = record {
    reached = omega (arith, passed.reached);
    left = omega (arith, passed.left, enough);
    absent = λ a from below e. elim (Bool-cases (ltb a t.s)) [
      | inl before ↦ passed.absent a from (ltb→lt a t.s before) e
      | inr behind ↦ other a (ltb-false a t.s behind) below e
    ];
  }

  byte-Passed :
      (t : Seeking) → (t.n == 0) ≡ false → (m t.s == c) ≡ false → Passed t → Passed (skip 1 t)
  byte-Passed t some_left other passed =
      skip-Passed 1 t (ground arith)
        (λ a from below e.
          let here : a ≡ t.s = omega arith in
          let there : m t.s ≡ c = sym (ap m here) ∙ e in ground arith)
        passed

  seek_head-Passed : (t : Seeking) → Passed t → Passed (seek_head m c t)
  unfolding seek_head
  seek_head-Passed t passed =
      while_keeps Passed _ _ (λ u good e. byte-Passed u (ground arith) (ground arith) good) 4 t
        passed

  word-Passed :
      (t : Seeking)
      → IsBytes m
      → c < 256
      → 4 ≤ t.n
      → has_zero (bit_xor (load32 m t.s) (long01 * c)) ≡ false
      → Passed t
      → Passed (skip 4 t)
  unfolding load32
  word-Passed t bytes small enough clear passed =
      let found =
        has_zero-xor (m (t.s + 3)) (m (t.s + 2)) (m (t.s + 1)) (m t.s) c (bytes _) (bytes _)
          (bytes _) (bytes _) small in
      skip-Passed 4 t enough
        (λ a from below e.
          let place : (m t.s ≡ c) ⊎ (m (t.s + 1) ≡ c) ⊎ (m (t.s + 2) ≡ c) ⊎ (m (t.s + 3) ≡ c) =
            elim (four t.s a from below) [
              | inl h ↦ inl (sym (ap m h) ∙ e)
              | inr (inl h) ↦ inr (inl (sym (ap m h) ∙ e))
              | inr (inr (inl h)) ↦ inr (inr (inl (sym (ap m h) ∙ e)))
              | inr (inr (inr h)) ↦ inr (inr (inr (sym (ap m h) ∙ e)))
            ] in
          let set = found place in ground arith)
        passed

  module _ (bytes : IsBytes m) (small : c < 256) where
    seek_words-Passed : (t : Seeking) → Passed t → Passed (seek_words m (long01 * c) t)
    unfolding seek_words
    seek_words-Passed t passed =
        while_keeps Passed _ _
          (λ u good e. word-Passed u bytes small (ground arith) (ground arith) good) (suc t.n) t
          passed

  ends : Seeking → Option ℕ
  ends t = if t.n == 0 then none else some t.s

  seek_bytes-FindsByte : (t : Seeking) → Passed t → FindsByte (ends (seek_bytes m c t))
  unfolding seek_bytes skip FindsByte ends
  seek_bytes-FindsByte t passed =
      let end = seek_bytes m c t in
      let ended =
        while_inv Passed (λ u. u.n) (λ u. not (u.n == 0) && not (m u.s == c)) (skip 1)
          (λ u good e. (byte-Passed u (ground arith) (ground arith) good, ground arith)) (suc t.n) t
          (omega arith) passed in
      let good : Passed end = ended.0 in
      if_both FindsByte (end.n == 0)
        (λ e a from below. good.absent a from (ground (arith, good.left)))
        (λ e. (good.reached, ground (arith, good.left), ground (arith, ended.1), good.absent))

-- `memchr` points at the first of the `n` bytes that is the character, taken to eight bits, and gives
-- NULL just where there is none.
pub memchr-FindsByte :
    (m : Ram) (src value n : ℕ) → IsBytes m → FindsByte m src (value % 256) n (memchr m src value n)
unfolding memchr ends
memchr-FindsByte m src value n bytes =
    let c = value % 256 in
    let start : Seeking = record { s = src; n = n } in
    let first : Passed m src c n start = record {
      reached = omega arith;
      left = refl;
      absent = λ a from below. absurd (omega arith);
    } in
    let head = seek_head-Passed m src c n start first in
    let words = seek_words-Passed m src c n bytes (omega arith) (seek_head m c start) head in
    seek_bytes-FindsByte m src c n _ (
      if_both (Passed m src c n)
        (not ((seek_head m c start).n == 0) && not (m (seek_head m c start).s == c)) (λ _. words)
        (λ _. head))
