-- ===== src/Stdio/ScanFormat.antt =====
-- The directives of a format of `vfscanf` in scanf.c.
use yasos_libc.Base.{ℕ, Bool, true, false, not, ◌&&◌, ◌||◌, leb, ◌==◌, if◌then◌else◌, List, [], ◌∷◌}
use yasos_libc.Strto.{cur, next}
use yasos_libc.Stdio.Directive.{read_number}

-- A conversion as it was read, with what follows in the format.
pub record Conversion : Type 0 where
  pub skip : Bool
  pub wid : ℕ
  pub size : ℕ
  pub fmt : List ℕ

unfoldable pub read_size : List ℕ → ℕ × List ℕ
read_size fmt =
    let after = next fmt in
    if cur fmt == b'h'
    then (if cur after == b'h' then (1, next after) else (2, after))
    else if cur fmt == b'l'
    then (if cur after == b'l' then (8, next after) else (4, after))
    else if cur fmt == b'j' || cur fmt == b'q' || cur fmt == b'L'
    then (8, after)
    else if cur fmt == b'z' || cur fmt == b't'
    then (4, after)
    else (4, fmt)

unfoldable pub read_conversion : List ℕ → Conversion
read_conversion fmt =
    let skip = cur fmt == b'*' in
    let (wid, fmt2) = read_number (if skip then next fmt else fmt) 0 in
    let (size, fmt3) = read_size fmt2 in record { skip = skip; wid = wid; size = size; fmt = fmt3 }

-- `set[i] = 1` from `a` to `b`.
abbrev pub with_range : (ℕ → Bool) → ℕ → ℕ → (ℕ → Bool)
with_range set a b = λ c. (leb a c && leb c b) || set c

-- The loop over a set, up to its `]`.
unfoldable pub read_set_loop : List ℕ → (ℕ → Bool) → (ℕ → Bool) × List ℕ
read_set_loop [] set = (set, [])
read_set_loop (a ∷ []) set = if a == b']' then (set, a ∷ []) else (with_range set a a, [])
read_set_loop (a ∷ b ∷ []) set =
    let one = read_set_loop (b ∷ []) (with_range set a a) in
    if a == b']' then (set, a ∷ b ∷ []) else one
read_set_loop (a ∷ b ∷ c ∷ fmt) set = elim (a == b']') [
  | true ↦ (set, a ∷ b ∷ c ∷ fmt)
  | false ↦ elim (b == b'-' && not (c == b']')) [
    | true ↦ read_set_loop fmt (with_range set a c)
    | false ↦ read_set_loop (b ∷ c ∷ fmt) (with_range set a a)
  ]
]

-- The set with its `^` and its leading `]`: whether it is negated, its members, and what is left.
unfoldable pub read_set : List ℕ → Bool × (ℕ → Bool) × List ℕ
read_set fmt =
    let negate = cur fmt == b'^' in
    let fmt1 = if negate then next fmt else fmt in
    let none_yet : ℕ → Bool = λ c. false in
    let (set, rest) =
      if cur fmt1 == b']'
      then read_set_loop (next fmt1) (with_range none_yet b']' b']')
      else read_set_loop fmt1 none_yet in
    (negate, set, rest)
