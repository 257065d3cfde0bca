-- ===== src/Sorting/Examples.antt =====
-- The theorems on qsort.c applied to numbers.
use yasos_libc.Base.{ℕ, suc, ◌-◌, ◌*◌, ◌/◌, ◌%◌, ◌≤◌, ◌<◌, ◌≡◌, arith, Bool, ◌==◌, if◌then◌else◌}
use yasos_libc.Base.Int.{sub_ℕ}
use yasos_libc.Sorting.{qsort, bsearch}
use yasos_libc.Sorting.Order.{count}
use yasos_libc.Sorting.Heap.{IsOrder}
use yasos_libc.Sorting.Sorted.{le, qsort-Sorted}
use yasos_libc.Sorting.Search.{IsPartitioned, Finds, bsearch-Finds}

-- The difference orders numbers.
sub-IsOrder : IsOrder sub_ℕ
sub-IsOrder = record { asym = λ x y h. ground arith; trans = λ x y z h k. ground arith }

-- 7, 5, 6, 4, …
abbrev numbers : ℕ → ℕ
numbers i = if i % 2 == 0 then 7 - i / 2 else 5 - i / 2

qsort-Sorted_example :
    ((j : ℕ)
      → suc j < 4
      → le sub_ℕ sub-IsOrder (qsort sub_ℕ numbers 4 j) (qsort sub_ℕ numbers 4 (suc j)))
    × ((p : ℕ → Bool) → count p (qsort sub_ℕ numbers 4) 4 ≡ count p numbers 4)
    × ((k : ℕ) → 4 ≤ k → qsort sub_ℕ numbers 4 k ≡ numbers k)
qsort-Sorted_example = qsort-Sorted sub_ℕ sub-IsOrder numbers 4

squares-IsPartitioned : IsPartitioned sub_ℕ 9 (λ i. 3 * i) 8
squares-IsPartitioned = record {
  below = λ i j lt h e. ground arith;
  above = λ i j lt h e. ground arith;
}

bsearch-Finds_example : Finds sub_ℕ 9 (λ i. 3 * i) 8 (bsearch sub_ℕ 9 (λ i. 3 * i) 8)
bsearch-Finds_example = bsearch-Finds sub_ℕ 9 (λ i. 3 * i) 8 squares-IsPartitioned
