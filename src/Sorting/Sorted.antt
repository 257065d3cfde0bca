-- ===== src/Sorting/Sorted.antt =====
-- `qsort` sorts.
use yasos_libc.Base.{
  ℕ, zero, suc, ◌+◌, ◌-◌, ◌/◌, ◌≤◌, ◌<◌, ◌≡◌, refl, ◌∙◌, arith, Bool, false, ◌==◌, inl, inr,
  if_both,
}
use yasos_libc.Base.Int.{ℤ, is_negative}
use yasos_libc.Sorting.{swap, fix, build, extract, qsort}
use yasos_libc.Sorting.Order.{
  Rearranged, same, exchange, Rearranged-trans, Rearranged-wider, Rearranged-count,
  Rearranged-outside, Rearranged-all, count,
}
use yasos_libc.Sorting.Heap.{IsOrder, Edges, build-Edges, fix-Edges, root_most, swap_lem, ≡-cases}

module _ {ℓ} {A : Type ℓ} (cmp : A → A → ℤ) (o : IsOrder cmp) where
  -- `x` may stand before `y`.
  abbrev pub le : A → A → Type 0
  le x y = is_negative (cmp y x) ≡ false

  -- The elements up to `i` are a heap, and those behind it up to `last` are sorted and not below them.
  record Extracting (last i : ℕ) (a : ℕ → A) : Type 0 where
    inside : i ≤ last
    heap : Edges cmp o 0 i a
    sorted : (j : ℕ) → i < j → j < last → le (a j) (a (suc j))
    above : (j k : ℕ) → j ≤ i → i < k → k ≤ last → le (a j) (a k)

  round-Extracting :
      (last i : ℕ) (a : ℕ → A)
      → Extracting last (suc i) a
      → Extracting last i (fix cmp (swap a 0 (suc i)) 0 i)
        × Rearranged last a (fix cmp (swap a 0 (suc i)) 0 i)
  round-Extracting last i a v =
      let b = swap a 0 (suc i) in
      let at = swap_lem cmp o a 0 (suc i) in
      let (edges, moved) =
        fix-Edges cmp o i b 0 (λ c p q r. ground (arith, at c, at (c / 2), v.heap c)) in
      let beyond : (k : ℕ) → suc i < k → fix cmp b 0 i k ≡ a k =
        λ k h. Rearranged-outside k (omega arith) moved ∙ ground (arith, at k) in
      let end : fix cmp b 0 i (suc i) ≡ a 0 =
        Rearranged-outside (suc i) (omega arith) moved ∙ ground (arith, at (suc i)) in
      let most : (k : ℕ) → k ≤ suc i → le (a k) (a 0) =
        λ k h. root_most cmp o (suc k) (suc i) a k v.heap (omega arith) h in
      (
        record {
          inside = omega (arith, v.inside);
          heap = edges;
          sorted = λ j h below.
              ground (arith, end, beyond j, beyond (suc j), v.sorted j, v.above 0 (suc j));
          above = λ j k low g below.
              let below_all = λ (x : A) (h : (c : ℕ) → c ≤ suc i → le (a c) x).
                Rearranged-all (λ (y : A). le y x) moved
                  (λ c q. ground (arith, at c, h c, h (suc i))) j low in
              elim (≡-cases k (suc i)) [
                | inl here ↦ ground (arith, below_all (a 0) most, end)
                | inr there ↦
                    ground
                      (arith, below_all (a k) (λ c q. v.above c k q (ground arith) below), beyond k)
              ];
        },
        Rearranged-trans (exchange 0 (suc i) (omega arith) v.inside same)
            (Rearranged-wider (omega (arith, v.inside)) moved),
      )

  extract-Sorted :
      (last i : ℕ) (a : ℕ → A)
      → Extracting last i a
      → ((j : ℕ) → j < last → le (extract cmp i a j) (extract cmp i a (suc j)))
        × Rearranged last a (extract cmp i a)
  unfolding extract
  extract-Sorted last zero a v = (λ j h. ground (arith, v.sorted j, v.above 0 (suc j)), same)
  extract-Sorted last (suc i) a v =
      let (w, moved) = round-Extracting last i a v in
      let (sorted, more) = extract-Sorted last i (fix cmp (swap a 0 (suc i)) 0 i) w in
      (sorted, Rearranged-trans moved more)

  -- For every comparison that orders the elements, `qsort` of `n` elements leaves them in ascending order,
  -- each as often as before, whatever test counts them, and changes no element behind them.
  pub qsort-Sorted :
      (a : ℕ → A) (n : ℕ)
      → ((j : ℕ) → suc j < n → le (qsort cmp a n j) (qsort cmp a n (suc j)))
        × ((p : A → Bool) → count p (qsort cmp a n) n ≡ count p a n)
        × ((k : ℕ) → n ≤ k → qsort cmp a n k ≡ a k)
  unfolding qsort
  qsort-Sorted a n =
      if_both Good (n == 0) (λ empty. ((λ j h. absurd (ground arith)), (λ p. refl), λ k h. refl))
        (λ some_left.
          let (heap, built) =
            build-Edges cmp o ((n + 1) / 2) n a (λ c p q r. absurd (ground arith)) in
          let b = build cmp ((n + 1) / 2) a n in
          let (sorted, moved) = extract-Sorted (n - 1) (n - 1) b (record {
            inside = omega arith;
            heap = heap;
            sorted = λ j h g. absurd (omega arith);
            above = λ j k h g below. absurd (omega arith);
          }) in
          let whole = Rearranged-trans built moved in
          (
            (λ j h. sorted j (omega arith)),
            (λ p. Rearranged-count p n (ground arith) whole),
            λ k h. Rearranged-outside k (ground arith) whole,
          ))
    where
      Good : (ℕ → A) → Type ℓ
      Good b =
          ((j : ℕ) → suc j < n → le (b j) (b (suc j)))
          × ((p : A → Bool) → count p b n ≡ count p a n)
          × ((k : ℕ) → n ≤ k → b k ≡ a k)
