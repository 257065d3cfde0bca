-- ===== src/Sorting.antt =====
-- qsort.c: heap sort and binary search. An array is a function of the index, an element one value: `a + i
-- * sz` is the index `i`. The comparison function belongs to the caller, so it is a parameter. `n`
-- is not negative.
pub mod Order
pub mod Heap
pub mod Sorted
pub mod Search
mod Examples
use yasos_libc.Base.{
  ℕ, zero, suc, ◌+◌, ◌-◌, ◌*◌, ◌/◌, ◌%◌, ◌^◌, ◌≤◌, ◌<◌, ◌≡◌, refl, sym, ap, ◌∙◌, arith, Bool, true,
  false, not, ◌&&◌, ◌||◌, ltb, leb, ◌==◌, if◌then◌else◌, bit_and, bit_or, bit_xor, leb→le, ltb→lt,
  lt→ltb, le→leb, ltb-false, leb-false, tests, ==_iff, Bool-cases, Option-cases, inl, inr, ◌⊎◌, ◌≢◌,
  ◌↔◌, if_both, Option, none, some, List, [], ◌∷◌, ◌++◌, map, length, get_or, length-append, take,
  drop,
}
use yasos_libc.Base.Loop.{while, while_inv}
use yasos_libc.Base.Int.{ℤ, is_negative, is_zero, is_positive}

module _ {ℓ} {A : Type ℓ} where
  abbrev pub set : (ℕ → A) → ℕ → A → ℕ → A
  set a i v k = if k == i then v else a k

  unfoldable pub swap : (ℕ → A) → ℕ → ℕ → ℕ → A
  swap a i j = set (set a i (a j)) j (a i)

module _ {ℓ} {A : Type ℓ} (cmp : A → A → ℤ) where
  -- `max` for the children of `root`. That of 0 is 1, and 0 stands for none.
  unfoldable pub larger_child : (ℕ → A) → ℕ → ℕ → ℕ
  larger_child a root n =
      let max = 2 * root in
      if ltb max n && is_negative (cmp (a max) (a (max + 1))) then max + 1 else max

  -- The `while` loop, with fuel for its rounds.
  unfoldable pub fix_loop : ℕ → (ℕ → A) → ℕ → ℕ → ℕ → A
  fix_loop zero a root n = a
  fix_loop (suc fuel) a root n =
      let max = larger_child a root n in
      let rest = fix_loop fuel (swap a root max) max n in
      let here = if not (max == 0) && is_negative (cmp (a root) (a max)) then rest else a in
      if leb (2 * root) n then here else a

  unfoldable pub fix : (ℕ → A) → ℕ → ℕ → ℕ → A
  fix a root n = fix_loop (suc n) a root n

  -- `for (i = (n + 1) >> 1; i; i--) fix(a, i - 1, n - 1, sz, cmp)`
  unfoldable pub build : ℕ → (ℕ → A) → ℕ → ℕ → A
  build zero a n = a
  build (suc i) a n = build i (fix a i (n - 1)) n

  -- `for (i = n - 1; i; i--)`
  unfoldable pub extract : ℕ → (ℕ → A) → ℕ → A
  extract zero a = a
  extract (suc i) a = extract i (fix (swap a 0 (suc i)) 0 i)

  unfoldable pub qsort : (ℕ → A) → ℕ → ℕ → A
  qsort a n = if n == 0 then a else extract (n - 1) (build ((n + 1) / 2) a n)

module _ {ℓ κ} {A : Type ℓ} {K : Type κ} (compar : K → A → ℤ) where
  -- `lo` is an index. The result is the index of the element that `mid` points at.
  unfoldable pub bsearch_loop : ℕ → K → (ℕ → A) → ℕ → ℕ → Option ℕ
  bsearch_loop zero key base lo nmemb = none
  bsearch_loop (suc fuel) key base lo nmemb =
      let mid = lo + nmemb / 2 in
      let c = compar key (base mid) in
      let above = bsearch_loop fuel key base (mid + 1) (nmemb - (nmemb / 2 + 1)) in
      let below = bsearch_loop fuel key base lo (nmemb / 2) in
      if nmemb == 0
      then none
      else if is_zero c
      then some mid
      else if is_positive c
      then above
      else below

  unfoldable pub bsearch : K → (ℕ → A) → ℕ → Option ℕ
  bsearch key base nmemb = bsearch_loop (suc nmemb) key base 0 nmemb
