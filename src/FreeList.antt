-- ===== src/FreeList.antt =====
-- The free list of noos/malloc.c: the chunks that the `next` pointers lead through, in order, each
-- with its address and its size word.
pub mod Release
pub mod Take
use yasos_libc.Base.{
  ℕ, zero, suc, ◌+◌, ◌-◌, ◌*◌, ◌/◌, ◌%◌, ◌^◌, ◌≤◌, ◌<◌, ◌≡◌, refl, sym, ap, ◌∙◌, arith, Bool, true,
  false, not, ◌&&◌, ◌||◌, ltb, leb, ◌==◌, if◌then◌else◌, bit_and, bit_or, bit_xor, leb→le, ltb→lt,
  lt→ltb, le→leb, ltb-false, leb-false, tests, ==_iff, Bool-cases, Option-cases, inl, inr, ◌⊎◌, ◌≢◌,
  ◌↔◌, if_both, Option, none, some, List, [], ◌∷◌, ◌++◌, map, length, get_or, length-append,
}
use yasos_libc.Base.Loop.{while, while_inv}

pub record Chunk : Type 0 where
  pub at : ℕ
  pub size : ℕ

abbrev pub header : ℕ
header = 8

abbrev pub min_chunk : ℕ
min_chunk = 16

abbrev pub chunk_end : Chunk → ℕ
chunk_end c = c.at + c.size

-- `c` in front of the list that begins at `next`, merged with `next` if that is adjacent.
pub merge_next : Chunk → List Chunk → Chunk × List Chunk
merge_next c [] = (c, [])
merge_next c (next ∷ rest) =
    if chunk_end c == next.at
    then (record c { size = c.size + next.size }, rest)
    else (c, next ∷ rest)

-- The chunk `before` in front of `c`, merged with it if that is adjacent.
pub merge_before : Chunk → Chunk × List Chunk → List Chunk
merge_before before (c, rest) =
    if chunk_end before == c.at
    then record before { size = before.size + c.size } ∷ rest
    else before ∷ c ∷ rest

-- The walk of `release` past `before`, which lies below `c`.
pub release_after : Chunk → List Chunk → Chunk → List Chunk
release_after before [] c = merge_before before (merge_next c [])
release_after before (next ∷ rest) c =
    if ltb next.at c.at
    then before ∷ release_after next rest c
    else if next.at == c.at
    then before ∷ next ∷ rest
    else merge_before before (merge_next c (next ∷ rest))

pub release : List Chunk → Chunk → List Chunk
release [] c = c ∷ []
release (next ∷ rest) c =
    if ltb next.at c.at
    then release_after next rest c
    else if next.at == c.at
    then next ∷ rest
    else (let (c', tail) = merge_next c (next ∷ rest) in c' ∷ tail)

-- A chunk that was found, cut to `size` bytes if the rest is a chunk, and the list without it.
pub split : ℕ → Chunk → List Chunk → Chunk × List Chunk
split size c rest =
    if leb min_chunk (c.size - size)
    then (record c { size = size }, record { at = c.at + size; size = c.size - size } ∷ rest)
    else (c, rest)

unfoldable pub keep : Chunk → Option (Chunk × List Chunk) → Option (Chunk × List Chunk)
keep x none = none
keep x (some (c, rest)) = some (c, x ∷ rest)

-- First fit.
unfoldable pub take_fit : ℕ → List Chunk → Option (Chunk × List Chunk)
take_fit size [] = none
take_fit size (c ∷ rest) =
    if ltb c.size size then keep c (take_fit size rest) else some (split size c rest)

-- The highest chunk, and the list without it.
pub last_chunk : List Chunk → Option (Chunk × List Chunk)
last_chunk [] = none
last_chunk (c ∷ []) = some (c, [])
last_chunk (c ∷ d ∷ rest) = keep c (last_chunk (d ∷ rest))

-- The walk of `realloc` to the first chunk at or above `stop`, and the list without it.
pub find_from : ℕ → List Chunk → Option (Chunk × List Chunk)
find_from stop [] = none
find_from stop (c ∷ rest) = if ltb c.at stop then keep c (find_from stop rest) else some (c, rest)

-- Every chunk lies above `lo`, is aligned and big enough, and does not touch the next one.
abbrev pub IsSorted : ℕ → ℕ → List Chunk → Type 0
IsSorted lo hi [] = Unit {0}
IsSorted lo hi (c ∷ rest) =
    (lo < c.at)
    × (min_chunk ≤ c.size)
    × (c.at % 8 ≡ 0)
    × (c.size % 8 ≡ 0)
    × (chunk_end c ≤ hi)
    × IsSorted (chunk_end c) hi rest

-- `c` shares no byte with a chunk of the list.
abbrev pub IsApart : Chunk → List Chunk → Type 0
IsApart c [] = Unit {0}
IsApart c (x ∷ rest) = ((chunk_end x ≤ c.at) ⊎ (chunk_end c ≤ x.at)) × IsApart c rest

-- The byte at `a` is free.
abbrev pub covers : List Chunk → ℕ → Bool
covers [] a = false
covers (c ∷ rest) a = (leb c.at a && ltb a (chunk_end c)) || covers rest a
