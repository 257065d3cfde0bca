-- ===== src/Sorting/Order.antt =====
-- What `swap` keeps, and the order of the heap that `fix` restores.
use yasos_libc.Base.{
  ℕ, zero, suc, ◌+◌, ◌≤◌, ◌<◌, ◌≡◌, refl, ap, ◌∙◌, arith, Bool, true, false, ◌==◌, ==_iff,
  Bool-cases, inl, inr, ◌≢◌, if_both,
}
use yasos_libc.Sorting.{set, swap}

-- `b` is `a` after exchanges of elements up to the index `n`.
pub data Rearranged {ℓ} {A : Type ℓ} (n : ℕ) (a : ℕ → A) : (ℕ → A) → Type ℓ where
  same : Rearranged n a a
  exchange : {b : ℕ → A} (i j : ℕ) → i ≤ n → j ≤ n → Rearranged n a b → Rearranged n a (swap b i j)

abbrev bit : Bool → ℕ
bit false = 0
bit true = 1

module _ {ℓ} {A : Type ℓ} where
  -- The number of elements below the index `n` that pass a test.
  unfoldable pub count : (A → Bool) → (ℕ → A) → ℕ → ℕ
  count p a zero = 0
  count p a (suc n) = bit (p (a n)) + count p a n

  count-set_outside :
      (p : A → Bool) (a : ℕ → A) (i : ℕ) (v : A) (n : ℕ)
      → n ≤ i
      → count p (set a i v) n ≡ count p a n
  unfolding count
  count-set_outside p a i v zero le = refl
  count-set_outside p a i v (suc n) le = ground (arith, count-set_outside p a i v n)

  count-set :
      (p : A → Bool) (a : ℕ → A) (i : ℕ) (v : A) (n : ℕ)
      → i < n
      → count p (set a i v) n + bit (p (a i)) ≡ count p a n + bit (p v)
  unfolding count
  count-set p a i v zero lt = absurd (omega arith)
  count-set p a i v (suc n) lt = elim (Bool-cases (n == i)) [
    | inl e ↦
        let s : n ≡ i = (==_iff n i).0 e in
        let one : bit (p (a n)) ≡ bit (p (a i)) = ap (λ k. bit (p (a k))) s in
        rw (e) (omega (arith, count-set_outside p a i v n (omega arith)))
    | inr ne ↦ rw (ne) (omega (arith, count-set p a i v n (ground arith)))
  ]

  set-at : (a : ℕ → A) (i j : ℕ) → set a i (a j) j ≡ a j
  set-at a i j = if_both (λ (x : A). x ≡ a j) (j == i) (λ t. refl) (λ f. refl)

  count-swap :
      (p : A → Bool) (a : ℕ → A) (i j n : ℕ) → i < n → j < n → count p (swap a i j) n ≡ count p a n
  unfolding swap
  count-swap p a i j n hi hj =
      let first = count-set p a i (a j) n hi in
      let second = count-set p (set a i (a j)) j (a i) n hj in
      let here : bit (p (set a i (a j) j)) ≡ bit (p (a j)) = ap (λ x. bit (p x)) (set-at a i j) in
      omega (arith, first, second, here)

  -- However often a test passes among the first `k` elements, it does so after the exchanges.
  pub Rearranged-count :
      (p : A → Bool) {n : ℕ} {a b : ℕ → A} (k : ℕ)
      → n < k
      → Rearranged n a b
      → count p b k ≡ count p a k
  Rearranged-count p k lt same = refl
  Rearranged-count p k lt (exchange i j hi hj r) =
      count-swap p _ i j k (omega arith) (omega arith) ∙ Rearranged-count p k lt r

  swap-outside : (a : ℕ → A) (i j k : ℕ) → k ≢ i → k ≢ j → swap a i j k ≡ a k
  unfolding swap
  swap-outside a i j k ni nj =
      let other : (k == i) ≡ false = ground arith in
      let far : (k == j) ≡ false = ground arith in rw (far, other) refl

  pub Rearranged-outside : {n : ℕ} {a b : ℕ → A} (k : ℕ) → n < k → Rearranged n a b → b k ≡ a k
  Rearranged-outside k lt same = refl
  Rearranged-outside k lt (exchange i j hi hj r) =
      swap-outside _ i j k (ground arith) (ground arith) ∙ Rearranged-outside k lt r

  -- What holds of all elements up to `n` still does.
  pub swap-all :
      (P : A → Type 0) (a : ℕ → A) (i j n : ℕ)
      → i ≤ n
      → j ≤ n
      → ((k : ℕ) → k ≤ n → P (a k))
      → (k : ℕ) → k ≤ n
      → P (swap a i j k)
  unfolding swap
  swap-all P a i j n hi hj h k le =
      if_both P (k == j) (λ t. h i hi) (λ f. if_both P (k == i) (λ t. h j hj) (λ g. h k le))

  pub Rearranged-all :
      (P : A → Type 0) {n : ℕ} {a b : ℕ → A}
      → Rearranged n a b
      → ((k : ℕ) → k ≤ n → P (a k))
      → (k : ℕ) → k ≤ n
      → P (b k)
  Rearranged-all P same h = h
  Rearranged-all P (exchange i j hi hj r) h = swap-all P _ i j _ hi hj (Rearranged-all P r h)

  pub Rearranged-trans :
      {n : ℕ} {a b c : ℕ → A} → Rearranged n a b → Rearranged n b c → Rearranged n a c
  Rearranged-trans r same = r
  Rearranged-trans r (exchange i j hi hj s) = exchange i j hi hj (Rearranged-trans r s)

  pub Rearranged-wider : {n m : ℕ} {a b : ℕ → A} → n ≤ m → Rearranged n a b → Rearranged m a b
  Rearranged-wider le same = same
  Rearranged-wider le (exchange i j hi hj r) =
      exchange i j (omega arith) (omega arith) (Rearranged-wider le r)
