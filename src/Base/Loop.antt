-- ===== src/Base/Loop.antt =====
-- `while (test) body` over a state, with fuel, and the rule for its invariants.
use Prim.Native.Nat.{ℕ, zero, suc, ◌<◌}
use mathlib.Core.Path.{◌≡◌}
use mathlib.Core.Bool.{Bool, true, false}
use native.Mathlib.Omega.{arith}

-- The rounds are counted down by `left`; the loop stops early where the test fails.
unfoldable pub while {ℓ} : {A : Type ℓ} → ℕ → (A → Bool) → (A → A) → A → A
while zero again round x = x
while (suc left) again round x = elim (again x) [
  | false ↦ x
  | true ↦ while left again round (round x)
]

-- A round keeps `Good` and lowers `size`.
abbrev pub Keeps {ℓ κ} : {A : Type ℓ} → (A → Type κ) → (A → ℕ) → (A → Bool) → (A → A) → Type (ℓ ⊔ κ)
Keeps {A = A} Good size again round =
    (x : A) → Good x → again x ≡ true → Good (round x) × (size (round x) < size x)

-- The loop has come to its end, not to that of the fuel.
abbrev pub Ended {ℓ κ} : {A : Type ℓ} → (A → Type κ) → (A → Bool) → A → Type κ
Ended Good again y = Good y × (again y ≡ false)

pub while_inv {ℓ κ} :
    {A : Type ℓ} (Good : A → Type κ) (size : A → ℕ) (again : A → Bool) (round : A → A)
    → Keeps Good size again round
    → (left : ℕ) (x : A) → size x < left
    → Good x
    → Ended Good again (while left again round x)
unfolding while
while_inv Good size again round keep zero x below good = absurd (omega arith)
while_inv Good size again round keep (suc left) x below good =
    let rest = while_inv Good size again round keep left (round x) in
    let one = keep x good in ground (arith, one, rest)
