-- ===== src/Sorting/Search.antt =====
-- `bsearch` finds an element that compares equal in an array that is partitioned by the key.
use yasos_libc.Base.{
  ℕ, zero, suc, ◌+◌, ◌-◌, ◌/◌, ◌≤◌, ◌<◌, ◌≡◌, arith, Bool, true, false, ◌==◌, ◌⊎◌, if_both, Option,
  none, some,
}
use yasos_libc.Base.Int.{ℤ, is_negative, is_zero, is_positive}
use yasos_libc.Sorting.{bsearch, bsearch_loop}

sign-cases : (c : ℤ) → is_zero c ≡ false → is_positive c ≡ false → is_negative c ≡ true
sign-cases c z p = ground arith

not-zero : (c : ℤ) → (is_positive c ≡ true) ⊎ (is_negative c ≡ true) → is_zero c ≡ false
not-zero c h = ground arith

module _ {ℓ κ} {A : Type ℓ} {K : Type κ} (compar : K → A → ℤ) (key : K) (base : ℕ → A) (n : ℕ) where
  -- The elements below the key come first and those above it last.
  pub record IsPartitioned : Type 0 where
    pub below :
        (i j : ℕ)
        → i < j
        → j < n
        → is_positive (compar key (base j)) ≡ true
        → is_positive (compar key (base i)) ≡ true
    pub above :
        (i j : ℕ)
        → i < j
        → j < n
        → is_negative (compar key (base i)) ≡ true
        → is_negative (compar key (base j)) ≡ true

  abbrev equal : ℕ → Bool
  equal i = is_zero (compar key (base i))

  -- The index of an equal element, or none where there is no such element.
  abbrev pub Finds : Option ℕ → Type 0
  Finds none = (i : ℕ) → i < n → is_zero (compar key (base i)) ≡ false
  Finds (some i) = (i < n) × (is_zero (compar key (base i)) ≡ true)

  bsearch_loop-Finds :
      (fuel lo nmemb : ℕ)
      → IsPartitioned
      → nmemb < fuel
      → lo + nmemb ≤ n
      → ((i : ℕ) → i < n → equal i ≡ true → (lo ≤ i) × (i < lo + nmemb))
      → Finds (bsearch_loop compar fuel key base lo nmemb)
  unfolding bsearch_loop
  bsearch_loop-Finds zero lo nmemb o enough fits held = absurd (omega arith)
  bsearch_loop-Finds (suc fuel) lo nmemb o enough fits held =
      let mid = lo + nmemb / 2 in
      if_both Finds (nmemb == 0) (λ empty. λ i h. ground (arith, held i))
        (λ some_left.
          if_both Finds (is_zero (compar key (base mid))) (λ found. (ground arith, found))
            (λ other.
              if_both Finds (is_positive (compar key (base mid)))
                (λ up.
                  bsearch_loop-Finds fuel (mid + 1) (nmemb - (nmemb / 2 + 1)) o (ground arith)
                    (ground arith)
                    (λ i h e.
                      ground (arith, held i h e, o.below i mid, not-zero (compar key (base i)))))
                (λ down.
                  bsearch_loop-Finds fuel lo (nmemb / 2) o (ground arith) (ground arith) (λ i h e.
                    ground (
                      arith,
                      held i h e,
                      o.above mid i,
                      not-zero (compar key (base i)),
                      sign-cases (compar key (base mid)) other down,
                    )))))

  -- For an array that is partitioned by the key, `bsearch` gives an element that compares equal, and none
  -- just where no element does.
  pub bsearch-Finds : IsPartitioned → Finds (bsearch compar key base n)
  unfolding bsearch
  bsearch-Finds o =
      bsearch_loop-Finds (suc n) 0 n o (omega arith) (omega arith)
        (λ i h e. (omega arith, omega arith))
