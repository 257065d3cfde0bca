-- ===== src/Stdlib/Exit.antt =====
-- The order in which the handlers run at exit.
use yasos_libc.Base.{
  ℕ, zero, suc, ◌+◌, ◌-◌, ◌≤◌, ◌≡◌, refl, sym, ap, ◌∙◌, arith, true, false, leb, ◌==◌, Bool-cases,
  inl, inr, if_both, List, [], ◌∷◌, take,
}
use mathlib.Core.List.{reverse, reverse_aux}
use yasos_libc.Stdlib.{Handlers, put, on_exit, atexit_max, finalize, ℤ}

put-same {ℓ} : {T : Type ℓ} (a : ℕ → T) (i : ℕ) (x : T) → put a i x i ≡ x
put-same a i x = if_both (λ y. y ≡ x) (i == i) (λ _. refl) (λ other. absurd (ground arith))

module _ {ℓ κ} {F : Type ℓ} {A : Type κ} where
  -- The handlers below an index, the last one first.
  unfoldable stored : (ℕ → F) → (ℕ → A) → ℕ → List (F × A)
  stored func arg zero = []
  stored func arg (suc k) = (func k, arg k) ∷ stored func arg k

  -- One call of `on_exit` after the other.
  unfoldable pub register : List (F × A) → Handlers F A → Handlers F A
  register [] s = s
  register ((func, arg) ∷ calls) s = register calls (on_exit func arg s).1

  stored-put :
      (func : ℕ → F) (arg : ℕ → A) (i k : ℕ) (f : F) (a : A)
      → k ≤ i
      → stored (put func i f) (put arg i a) k ≡ stored func arg k
  unfolding stored
  stored-put func arg i zero f a le = refl
  stored-put func arg i (suc k) f a le =
      let other : (k == i) ≡ false = ground arith in
      rw (other) (ap (λ l. (func k, arg k) ∷ l) (stored-put func arg i k f a (omega arith)))

  table : (ℕ → F) → (ℕ → A) → ℕ → Handlers F A
  table func arg k = record { func = func; arg = arg; cnt = k }

  module _ (run : F → A → Handlers F A → Handlers F A)
      (quiet : (f : F) (a : A) (t : Handlers F A) → run f a t ≡ t) where
    finalize-stored :
        (fuel k : ℕ) (func : ℕ → F) (arg : ℕ → A)
        → k ≤ fuel
        → finalize run fuel (table func arg k) ≡ stored func arg k
    unfolding finalize stored table
    finalize-stored zero zero func arg le = refl
    finalize-stored zero (suc k) func arg le = absurd (omega arith)
    finalize-stored (suc fuel) zero func arg le = refl
    finalize-stored (suc fuel) (suc k) func arg le =
        let one_less : suc k - 1 ≡ k = omega arith in
        let some_left : (suc k == 0) ≡ false = ground arith in
        rw (one_less, quiet, some_left)
          (ap (λ l. (func k, arg k) ∷ l) (finalize-stored fuel k func arg (omega arith)))

  take-nil : (k : ℕ) → take {A = F × A} k [] ≡ []
  take-nil zero = refl
  take-nil (suc k) = refl

  abbrev in_order : Handlers F A → List (F × A)
  in_order s = stored s.func s.arg s.cnt

  on_exit-full :
      (f : F) (a : A) (s : Handlers F A) → leb atexit_max s.cnt ≡ true → (on_exit f a s).1 ≡ s
  unfolding on_exit
  on_exit-full f a s full =
      if_both (λ (r : ℤ × Handlers F A). r.1 ≡ s) (leb atexit_max s.cnt) (λ _. refl)
        (λ room. absurd (ground arith))

  on_exit-room :
      (f : F) (a : A) (s : Handlers F A)
      → leb atexit_max s.cnt ≡ false
      → ((on_exit f a s).1.cnt ≡ suc s.cnt) × (in_order (on_exit f a s).1 ≡ (f, a) ∷ in_order s)
  unfolding on_exit stored
  on_exit-room f a s room =
      if_both
        (λ (r : ℤ × Handlers F A). (r.1.cnt ≡ suc s.cnt) × (in_order r.1 ≡ (f, a) ∷ in_order s))
        (leb atexit_max s.cnt) (λ full. absurd (ground arith))
        (λ _. (
          omega arith,
          let one_more : s.cnt + 1 ≡ suc s.cnt = omega arith in
              let (func, arg) : (ℕ → F) × (ℕ → A) = (put s.func s.cnt f, put s.arg s.cnt a) in
              ap (stored func arg) one_more
              ∙ ap (λ x. (x, put s.arg s.cnt a s.cnt) ∷ stored func arg s.cnt)
                  (put-same s.func s.cnt f)
              ∙ ap (λ y. (f, y) ∷ stored func arg s.cnt) (put-same s.arg s.cnt a)
              ∙ ap (λ l. (f, a) ∷ l) (stored-put s.func s.arg s.cnt s.cnt f a (omega arith)),
        ))

  -- What is registered stands in front, as far as there is room.
  in_order-register :
      (calls : List (F × A)) (s : Handlers F A)
      → s.cnt ≤ atexit_max
      → in_order (register calls s) ≡ reverse_aux (take (atexit_max - s.cnt) calls) (in_order s)
  unfolding register
  in_order-register [] s le =
      sym (ap (λ l. reverse_aux l (in_order s)) (take-nil (atexit_max - s.cnt)))
  in_order-register ((f, a) ∷ calls) s le = elim (Bool-cases (leb atexit_max s.cnt)) [
    | inl full ↦
        let no_room : atexit_max - s.cnt ≡ 0 = ground arith in
        ap (λ t. in_order (register calls t)) (on_exit-full f a s full)
        ∙ in_order-register calls s le
        ∙ rw (no_room) refl
    | inr room ↦
        let next = (on_exit f a s).1 in
        let (more, order) = on_exit-room f a s room in
        let one_less : atexit_max - s.cnt ≡ suc (atexit_max - next.cnt) = ground arith in
        in_order-register calls next (ground arith)
        ∙ ap (reverse_aux (take (atexit_max - next.cnt) calls)) order
        ∙ rw (one_less) refl
  ]

  cnt-register :
      (calls : List (F × A)) (s : Handlers F A)
      → s.cnt ≤ atexit_max
      → (register calls s).cnt ≤ atexit_max
  unfolding register
  cnt-register [] s le = le
  cnt-register ((f, a) ∷ calls) s le = elim (Bool-cases (leb atexit_max s.cnt)) [
    | inl full ↦
        cnt-register calls (on_exit f a s).1
          (omega (arith, ap (λ t. t.cnt) (on_exit-full f a s full), le))
    | inr room ↦ cnt-register calls (on_exit f a s).1 (ground (arith, (on_exit-room f a s room).0))
  ]

-- When handlers are registered one after the other in an empty table, and none of them registers another
-- one, the first 16 are called at exit, with their arguments, in the reverse order.
pub finalize-reverse {ℓ κ} :
    {F : Type ℓ} {A : Type κ} (run : F → A → Handlers F A → Handlers F A)
    → ((f : F) (a : A) (t : Handlers F A) → run f a t ≡ t)
    → (func : ℕ → F) (arg : ℕ → A) (calls : List (F × A)) (fuel : ℕ) → 16 ≤ fuel
    → finalize run fuel (register calls (record { func = func; arg = arg; cnt = 0 }))
      ≡ reverse (take 16 calls)
unfolding stored table
finalize-reverse run quiet func arg calls fuel enough =
    let s : Handlers _ _ = record { func = func; arg = arg; cnt = 0 } in
    let end = register calls s in
    finalize-stored run quiet fuel end.cnt end.func end.arg
      (omega (arith, cnt-register calls s (omega arith)))
    ∙ in_order-register calls s (omega arith)
