-- ===== src/Stdio/Truncated.antt =====
-- `vsnprintf` of stdio.c against the text of a format: what it returns, and what the memory holds.
use yasos_libc.Base.{
  ℕ, zero, suc, ◌+◌, ◌-◌, ◌%◌, ◌≡◌, Bool, true, false, not, ◌&&◌, ◌==◌, if◌then◌else◌, Option, none,
  some, List, [], ◌∷◌, ◌++◌, length, get_or,
}
use Prim.Native.Nat.{min}
use yasos_libc.Memory.{Ram, inside}
use yasos_libc.Stdio.{Kernel}
use yasos_libc.Stdio.Directive.{Arg, runs_off, read_spec}
use yasos_libc.Stdio.Printf.{writes, counts, Printed, put_all, convert}

-- What `vsnprintf` leaves: the length of the whole text as its value, and in the memory as much of
-- the text as fits in front of a terminator.
abbrev pub Holds : Ram → ℕ → ℕ → List ℕ → Option (ℕ × Ram) → Type 0
Holds m dst sz t none = ⊥
Holds m dst sz t (some (n, m')) =
    (n ≡ length t)
    × ((a : ℕ)
        → m' a ≡ (
            if inside dst (min (length t) (sz - 1)) a
            then get_or t (a - dst) 0 % 256
            else if not (sz == 0) && a == dst + min (length t) (sz - 1)
            then 0
            else m a))

-- A text behind another, if it is one.
unfoldable pub behind : List ℕ → Option (List ℕ) → Option (List ℕ)
behind t none = none
behind t (some u) = some (t ++ u)

module _ (ofloat : ℕ → ℕ → ℕ → ℕ → Bool → Bool → Bool → List ℕ) where
  -- The text of a format, whatever becomes of it: the characters between the directives, and the texts of
  -- those. `none` for a format that ends in the flags of a directive, and for one with a `%n`, which is more
  -- than a text. The format has fewer than `fuel` characters.
  unfoldable pub formatted : ℕ → List ℕ → List Arg → Option (List ℕ)
  formatted zero s args = none
  formatted (suc fuel) [] args = some []
  formatted (suc fuel) (c ∷ s) args = elim (c == b'%') [
    | false ↦ behind (c ∷ []) (formatted fuel s args)
    | true ↦ elim (runs_off s) [
      | true ↦ none
      | false ↦ elim (read_spec s args).s [
        | [] ↦ some []
        | x ∷ rest ↦
            let (action, args') = convert ofloat x (read_spec s args) in
            elim action [ writes t ↦ behind t (formatted fuel rest args') | counts at ↦ none ]
      ]
    ]
  ]

  module _ {W : Type 0} (k : Kernel W) where
    -- If there is a text, there is a result, with its characters counted and handed to the stream.
    abbrev Prints : Option (List ℕ) → Printed W → Option (Printed W) → Type 0
    Prints none p r = Unit
    Prints (some t) p none = ⊥
    Prints (some t) p (some p') = (p'.returned ≡ p.returned + length t) × (p'.fp ≡ put_all k t p.fp)
