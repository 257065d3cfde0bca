-- ===== src/Sorting/Heap.antt =====
-- `fix` lets an element sink to its place, and `build` makes a heap. The parent of the index `c` is `c / 2`, so 0
-- has the one child 1.
use yasos_libc.Base.{
  ◌-◌, ℕ, zero, suc, ◌+◌, ◌*◌, ◌/◌, ◌≤◌, ◌<◌, ◌≡◌, refl, ap, ◌∙◌, arith, Bool, true, false, not,
  ◌&&◌, ltb, leb, ◌==◌, if◌then◌else◌, leb→le, Bool-cases, inl, inr, ◌⊎◌, ◌≢◌, if_both,
}
use native.Mathlib.Nat.{div-add-mod, mod-lt}
use yasos_libc.Base.Int.{ℤ, is_negative}
use yasos_libc.Sorting.{swap, larger_child, fix_loop, fix, build}
use yasos_libc.Sorting.Order.{Rearranged, same, exchange, Rearranged-trans}

-- What `qsort` asks of the comparison: `cmp x y < 0` orders the elements, ties allowed.
pub record IsOrder {ℓ} {A : Type ℓ} (cmp : A → A → ℤ) : Type ℓ where
  pub asym : (x y : A) → is_negative (cmp x y) ≡ true → is_negative (cmp y x) ≡ false
  pub trans :
      (x y z : A)
      → is_negative (cmp y x) ≡ false
      → is_negative (cmp z y) ≡ false
      → is_negative (cmp z x) ≡ false

pub ≡-cases : (a b : ℕ) → (a ≡ b) ⊎ (a ≢ b)
≡-cases a b = ground arith

module _ {ℓ} {A : Type ℓ} (cmp : A → A → ℤ) (o : IsOrder cmp) where
  abbrev pub lt : A → A → Bool
  lt x y = is_negative (cmp x y)

  irrefl : (x : A) → lt x x ≡ false
  irrefl x = ground (arith, o.asym x x)

  -- Every element up to `n` whose parent has at least the index `lo` is not above its parent.
  abbrev pub Edges : ℕ → ℕ → (ℕ → A) → Type 0
  Edges lo n a = (c : ℕ) → 0 < c → c ≤ n → lo ≤ c / 2 → lt (a (c / 2)) (a c) ≡ false

  -- Only the children of `i` may be above their parent.
  record Sinking (lo n : ℕ) (a : ℕ → A) (i : ℕ) : Type 0 where
    edges : (c : ℕ) → 0 < c → c ≤ n → lo ≤ c / 2 → c / 2 ≢ i → lt (a (c / 2)) (a c) ≡ false
    bridged :
        (c : ℕ) → 0 < c → c ≤ n → c / 2 ≡ i → 0 < i → lo ≤ i / 2 → lt (a (i / 2)) (a c) ≡ false

  -- `m` is a child of `i` that no other one is above.
  record IsLarger (n : ℕ) (a : ℕ → A) (i m : ℕ) : Type 0 where
    some_child : 0 < m
    inside : m ≤ n
    child : m / 2 ≡ i
    most : (c : ℕ) → 0 < c → c ≤ n → c / 2 ≡ i → lt (a m) (a c) ≡ false

  either : (c k : ℕ) → c / 2 ≡ k → (c ≡ 2 * k) ⊎ (c ≡ 2 * k + 1)
  either c k e = ground (arith, div-add-mod c 2, mod-lt c {m = 2} (omega arith))

  larger_child-cases :
      (a : ℕ → A) (i n : ℕ)
      → 2 * i ≤ n
      → ((larger_child cmp a i n ≡ 0)
          × ((c : ℕ) → 0 < c → c ≤ n → c / 2 ≡ i → lt (a i) (a c) ≡ false))
        ⊎ IsLarger n a i (larger_child cmp a i n)
  unfolding larger_child
  larger_child-cases a zero n le =
      let only : (c : ℕ) → 0 < c → c / 2 ≡ 0 → c ≡ 1 = λ c h e. omega arith in
      elim (Bool-cases (ltb 0 n && lt (a 0) (a 1))) [
        | inl up ↦ rw (up) (
            inr (record {
              some_child = omega arith;
              inside = ground arith;
              child = refl;
              most = λ c h q e. ap (λ k. lt (a 1) (a k)) (only c h e) ∙ irrefl (a 1);
            }))
        | inr down ↦
            rw (down) (inl (refl, λ c h q e. ap (λ k. lt (a 0) (a k)) (only c h e) ∙ ground arith))
      ]
  larger_child-cases a (suc i) n le =
      let two : (c : ℕ) → c / 2 ≡ suc i → (c ≡ 2 * suc i) ⊎ (c ≡ 2 * suc i + 1) =
        λ c e. either c (suc i) e in
      elim (Bool-cases (ltb (2 * suc i) n && lt (a (2 * suc i)) (a (2 * suc i + 1)))) [
        | inl up ↦ rw (up) (
            inr (record {
              some_child = omega arith;
              inside = ground arith;
              child = omega arith;
              most = λ c h q e. elim (two c e) [
                | inl even ↦
                    ap (λ k. lt (a (2 * suc i + 1)) (a k)) even
                    ∙ ground (arith, o.asym (a (2 * suc i)) (a (2 * suc i + 1)))
                | inr odd ↦ ap (λ k. lt (a (2 * suc i + 1)) (a k)) odd ∙ irrefl (a (2 * suc i + 1))
              ];
            }))
        | inr down ↦ rw (down) (
            inr (record {
              some_child = omega arith;
              inside = le;
              child = omega arith;
              most = λ c h q e. elim (two c e) [
                | inl even ↦ ap (λ k. lt (a (2 * suc i)) (a k)) even ∙ irrefl (a (2 * suc i))
                | inr odd ↦ ap (λ k. lt (a (2 * suc i)) (a k)) odd ∙ ground arith
              ];
            }))
      ]

  pub swap_lem :
      (a : ℕ → A) (i j k : ℕ) → swap a i j k ≡ (if k == j then a i else if k == i then a j else a k)
  unfolding swap
  swap_lem a i j k = refl

  swap-Sinking :
      (lo n : ℕ) (a : ℕ → A) (i m : ℕ)
      → Sinking lo n a i
      → IsLarger n a i m
      → lt (a i) (a m) ≡ true
      → Sinking lo n (swap a i m) m
  swap-Sinking lo n a i m v s above = record {
    edges = λ c p q r away. ground (
      arith,
      swap_lem a i m c,
      swap_lem a i m (c / 2),
      v.edges c,
      v.bridged m,
      s.most c,
      o.asym (a i) (a m),
    );
    bridged =
        λ c p q child r l. ground (arith, swap_lem a i m c, swap_lem a i m (m / 2), v.edges c);
  }

  -- The sinking ends: with fuel for the rounds it restores the order of the heap.
  fix_loop-Edges :
      (fuel lo n : ℕ) (a : ℕ → A) (i : ℕ)
      → n < i + fuel
      → lo ≤ i
      → Sinking lo n a i
      → Edges lo n (fix_loop cmp fuel a i n) × Rearranged n a (fix_loop cmp fuel a i n)
  unfolding fix_loop
  fix_loop-Edges zero lo n a i enough above v = ((λ c p q r. v.edges c p q r (ground arith)), same)
  fix_loop-Edges (suc fuel) lo n a i enough above v =
      let m = larger_child cmp a i n in
      if_both (λ (b : ℕ → A). Edges lo n b × Rearranged n a b) (leb (2 * i) n)
        (λ some_child. elim (larger_child-cases a i n (leb→le (2 * i) n some_child)) [
          | inl (childless, most) ↦
              let stop : (not (m == 0) && lt (a i) (a m)) ≡ false = ground arith in
              rw (stop) (
                (λ c p q r. elim (≡-cases (c / 2) i) [
                  | inl here ↦ ap (λ k. lt (a k) (a c)) here ∙ most c p q here
                  | inr away ↦ v.edges c p q r away
                ]),
                same,
              )
          | inr s ↦
              if_both (λ (b : ℕ → A). Edges lo n b × Rearranged n a b)
                (not (m == 0) && lt (a i) (a m))
                (λ up.
                  let (edges, moved) =
                    fix_loop-Edges fuel lo n (swap a i m) m (omega (arith, s.child, s.some_child))
                      (omega (arith, s.child, s.some_child))
                      (swap-Sinking lo n a i m v s (ground arith)) in
                  (
                    edges,
                    Rearranged-trans
                        (exchange i m (omega (arith, leb→le (2 * i) n some_child)) s.inside same)
                        moved,
                  ))
                (λ down. (
                  (λ c p q r. elim (≡-cases (c / 2) i) [
                    | inl here ↦
                        ap (λ k. lt (a k) (a c)) here
                        ∙ o.trans (a c) (a m) (a i) (s.most c p q here)
                            (ground (arith, s.some_child))
                    | inr away ↦ v.edges c p q r away
                  ]),
                  same,
                ))
        ])
        (λ leaf. ((λ c p q r. v.edges c p q r (ground arith)), same))

  -- `fix` puts the element at `i` in its place in a heap that is in order below it.
  pub fix-Edges :
      (n : ℕ) (a : ℕ → A) (i : ℕ)
      → Edges (suc i) n a
      → Edges i n (fix cmp a i n) × Rearranged n a (fix cmp a i n)
  unfolding fix
  fix-Edges n a i v = fix_loop-Edges (suc n) i n a i (omega arith) (omega arith) (record {
    edges = λ c p q r away. v c p q (ground arith);
    bridged = λ c p q child some_parent r. absurd (omega arith);
  })

  -- Without a parent the element at 0 may be above its child.
  pub fix-root :
      (n : ℕ) (a : ℕ → A) → Edges 1 n a → Edges 0 n (fix cmp a 0 n) × Rearranged n a (fix cmp a 0 n)
  fix-root n a v = fix-Edges n a 0 v

  pub build-Edges :
      (i n : ℕ) (a : ℕ → A)
      → Edges i (n - 1) a
      → Edges 0 (n - 1) (build cmp i a n) × Rearranged (n - 1) a (build cmp i a n)
  unfolding build
  build-Edges zero n a v = (v, same)
  build-Edges (suc i) n a v =
      let (edges, moved) = fix-Edges (n - 1) a i v in
      let (all, more) = build-Edges i n (fix cmp a i (n - 1)) edges in
      (all, Rearranged-trans moved more)

  -- The root of a heap is not below any element.
  pub root_most :
      (fuel n : ℕ) (a : ℕ → A) (c : ℕ) → Edges 0 n a → c < fuel → c ≤ n → lt (a 0) (a c) ≡ false
  root_most zero n a c v enough le = absurd (omega arith)
  root_most (suc fuel) n a zero v enough le = irrefl (a 0)
  root_most (suc fuel) n a (suc c) v enough le =
      o.trans (a (suc c)) (a (suc c / 2)) (a 0) (v (suc c) (omega arith) le (omega arith))
        (root_most fuel n a (suc c / 2) v (omega arith) (omega arith))
