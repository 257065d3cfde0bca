-- ===== src/Stdio/Cells.antt =====
-- The bytes that a buffer holds.
use yasos_libc.Base.{
  ℕ, zero, suc, ◌+◌, ◌-◌, ◌≤◌, ◌<◌, ◌≡◌, refl, ap, ◌∙◌, arith, List, [], ◌∷◌, ◌++◌, length, take,
}
use yasos_libc.Stdio.Read.{store_list}
use yasos_libc.Memory.{Ram, store8}
use yasos_libc.Stdio.{cells}

pub cells-same :
    (m m' : Ram) (p n : ℕ) → ((a : ℕ) → p ≤ a → a < p + n → m' a ≡ m a) → cells m' p n ≡ cells m p n
unfolding cells
cells-same m m' p zero same = refl
cells-same m m' p (suc n) same =
    rw (same p (omega arith) (omega arith)) (
      ap (λ l. m p ∷ l) (cells-same m m' (p + 1) n (λ a le lt. same a (omega arith) (omega arith))))

pub cells-append : (m : Ram) (p n l : ℕ) → cells m p (n + l) ≡ cells m p n ++ cells m (p + n) l
unfolding cells
cells-append m p zero l =
    let (none_more, here) : (0 + l ≡ l) × (p + 0 ≡ p) = (omega arith, omega arith) in
    rw (none_more, here) refl
cells-append m p (suc n) l =
    let (one_more, shift) : (suc n + l ≡ suc (n + l)) × (p + 1 + n ≡ p + suc n) =
      (omega arith, omega arith) in
    rw (one_more) (
      ap (λ t. m p ∷ t)
        (cells-append m (p + 1) n l ∙ ap (λ q. cells m (p + 1) n ++ cells m q l) shift))

pub length-cells : (m : Ram) (p n : ℕ) → length (cells m p n) ≡ n
unfolding cells
length-cells m p zero = refl
length-cells m p (suc n) = ap suc (length-cells m (p + 1) n)

-- A byte stored behind the bytes of a buffer is the next of them.
pub cells-store8 :
    (m : Ram) (p n v : ℕ) → cells (store8 m (p + n) v) p (n + 1) ≡ cells m p n ++ (v ∷ [])
unfolding store8
cells-store8 m p n v =
    let m' = store8 m (p + n) v in
    let before : cells m' p n ≡ cells m p n = cells-same m m' p n (λ a le lt. ground arith) in
    let here : cells m' (p + n) 1 ≡ v ∷ [] = unfold cells in ground arith in
    cells-append m' p n 1 ∙ rw (before, here) refl

pub take-length : (l : List ℕ) → take (length l) l ≡ l
take-length [] = refl
take-length (x ∷ l) = ap (λ t. x ∷ t) (take-length l)

store_list-below : (m : Ram) (p : ℕ) (l : List ℕ) (a : ℕ) → a < p → store_list m p l a ≡ m a
unfolding store_list store8
store_list-below m p [] a lt = refl
store_list-below m p (x ∷ l) a lt = ground (arith, store_list-below (store8 m p x) (p + 1) l a)

pub cells-store_list : (m : Ram) (p : ℕ) (l : List ℕ) → cells (store_list m p l) p (length l) ≡ l
unfolding store_list cells
cells-store_list m p [] = refl
cells-store_list m p (x ∷ l) =
    let here : store_list (store8 m p x) (p + 1) l p ≡ x =
      store_list-below (store8 m p x) (p + 1) l p (omega arith) ∙ unfold store8 in ground arith in
    rw (here) (ap (λ t. x ∷ t) (cells-store_list (store8 m p x) (p + 1) l))

pub cells-next :
    (m : Ram) (p i n : ℕ)
    → i < n
    → cells m (p + i) (n - i) ≡ m (p + i) ∷ cells m (p + (i + 1)) (n - (i + 1))
unfolding cells
cells-next m p i n lt =
    let (one_more, shift) : (n - i ≡ suc (n - (i + 1))) × (p + i + 1 ≡ p + (i + 1)) =
      (omega arith, omega arith) in
    rw (one_more, shift) refl

pub cells-none : (m : Ram) (p i n : ℕ) → n ≤ i → cells m p (n - i) ≡ []
unfolding cells
cells-none m p i n le = let none_left : n - i ≡ 0 = omega arith in rw (none_left) refl
