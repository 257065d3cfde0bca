-- ===== src/FreeList/Release.antt =====
-- `release` keeps the list sorted and merged, and adds just the bytes of the chunk.
use yasos_libc.Base.{
  ℕ, ◌+◌, ◌%◌, ◌≤◌, ◌<◌, ◌≡◌, arith, Bool, true, false, ◌&&◌, ◌||◌, ltb, leb, ◌==◌, ◌⊎◌, List, [],
  ◌∷◌,
}
use yasos_libc.FreeList.{
  Chunk, min_chunk, chunk_end, merge_next, merge_before, release_after, release, IsSorted, IsApart,
  covers,
}

-- A chunk that can be put on the list.
abbrev pub IsChunk : ℕ → Chunk → Type 0
IsChunk hi c =
    (0 < c.at) × (min_chunk ≤ c.size) × (c.at % 8 ≡ 0) × (c.size % 8 ≡ 0) × (chunk_end c ≤ hi)

pub IsSorted-lower :
    (lo lo' hi : ℕ) (xs : List Chunk) → lo' ≤ lo → IsSorted lo hi xs → IsSorted lo' hi xs
IsSorted-lower lo lo' hi [] h s = tt
IsSorted-lower lo lo' hi (x ∷ xs) h s = (omega arith, s.1, s.2, s.3, s.4, s.5)

release_after-IsSorted :
    (lo hi : ℕ) (b : Chunk) (xs : List Chunk) (c : Chunk)
    → IsSorted lo hi (b ∷ xs)
    → IsChunk hi c
    → b.at < c.at
    → IsApart c (b ∷ xs)
    → IsSorted lo hi (release_after b xs c)
unfolding release_after merge_before merge_next
release_after-IsSorted lo hi b [] c s k below apart = ground arith
release_after-IsSorted lo hi b (x ∷ xs) c s k below apart = ground (
  arith,
  release_after-IsSorted (chunk_end b) hi x xs c,
  IsSorted-lower (chunk_end x) (c.at + (c.size + x.size)) hi xs,
  IsSorted-lower (chunk_end x) (b.at + (b.size + (c.size + x.size))) hi xs,
)

-- Releasing a chunk that overlaps no free one keeps the list sorted, aligned and fully merged.
pub release-IsSorted :
    (hi : ℕ) (xs : List Chunk) (c : Chunk)
    → IsSorted 0 hi xs
    → IsChunk hi c
    → IsApart c xs
    → IsSorted 0 hi (release xs c)
unfolding release merge_next
release-IsSorted hi [] c s k apart = ground arith
release-IsSorted hi (x ∷ xs) c s k apart = ground (
  arith,
  release_after-IsSorted 0 hi x xs c,
  IsSorted-lower (chunk_end x) (c.at + (c.size + x.size)) hi xs,
)

-- Two chunks share no byte.
abbrev pub AreApart : Chunk → Chunk → Type 0
AreApart c d = (chunk_end d ≤ c.at) ⊎ (chunk_end c ≤ d.at)

release_after-IsApart :
    (d b : Chunk) (xs : List Chunk) (c : Chunk)
    → IsApart d (b ∷ xs)
    → AreApart d c
    → b.at < c.at
    → 0 < d.size
    → IsApart d (release_after b xs c)
unfolding release_after merge_before merge_next
release_after-IsApart d b [] c s k below pos = ground arith
release_after-IsApart d b (x ∷ xs) c s k below pos = ground (arith, release_after-IsApart d x xs c)

-- A chunk that is apart from the list and from the one that is released stays apart.
pub release-IsApart :
    (d : Chunk) (xs : List Chunk) (c : Chunk)
    → IsApart d xs
    → AreApart d c
    → 0 < d.size
    → IsApart d (release xs c)
unfolding release merge_next
release-IsApart d [] c s k pos = ground arith
release-IsApart d (x ∷ xs) c s k pos = ground (arith, release_after-IsApart d x xs c)

release_after-covers :
    (lo hi : ℕ) (b : Chunk) (xs : List Chunk) (c : Chunk) (a : ℕ)
    → IsSorted lo hi (b ∷ xs)
    → IsApart c (b ∷ xs)
    → b.at < c.at
    → 0 < c.size
    → covers (release_after b xs c) a ≡ ((leb c.at a && ltb a (chunk_end c)) || covers (b ∷ xs) a)
unfolding release_after merge_before merge_next
release_after-covers lo hi b [] c a s k below pos = ground arith
release_after-covers lo hi b (x ∷ xs) c a s k below pos =
    ground (arith, release_after-covers (chunk_end b) hi x xs c a)

-- The free bytes after a release are those from before and those of the chunk.
pub release-covers :
    (hi : ℕ) (xs : List Chunk) (c : Chunk) (a : ℕ)
    → IsSorted 0 hi xs
    → IsApart c xs
    → 0 < c.size
    → covers (release xs c) a ≡ ((leb c.at a && ltb a (chunk_end c)) || covers xs a)
unfolding release merge_next
release-covers hi [] c a s k pos = ground arith
release-covers hi (x ∷ xs) c a s k pos = ground (arith, release_after-covers 0 hi x xs c a)

-- `p` is the address of a chunk on the list.
abbrev pub starts : List Chunk → ℕ → Bool
starts [] p = false
starts (c ∷ rest) p = c.at == p || starts rest p

starts-above : (l h : ℕ) (ys : List Chunk) (p : ℕ) → IsSorted l h ys → starts ys p ≡ true → l < p
starts-above l h [] p s e = cc
starts-above l h (y ∷ ys) p s e = ground (arith, starts-above (chunk_end y) h ys p)

release_after_again :
    (lo hi : ℕ) (b : Chunk) (xs : List Chunk) (c : Chunk)
    → IsSorted lo hi (b ∷ xs)
    → b.at < c.at
    → starts xs c.at ≡ true
    → release_after b xs c ≡ b ∷ xs
unfolding release_after
release_after_again lo hi b [] c s below h = cc
release_after_again lo hi b (x ∷ xs) c s below h =
    ground
      (arith, release_after_again (chunk_end b) hi x xs c, starts-above (chunk_end x) hi xs c.at)

-- Releasing a chunk whose address is on the list already changes nothing.
pub release_again :
    (hi : ℕ) (xs : List Chunk) (c : Chunk)
    → IsSorted 0 hi xs
    → starts xs c.at ≡ true
    → release xs c ≡ xs
unfolding release
release_again hi [] c s h = cc
release_again hi (x ∷ xs) c s h =
    ground (arith, release_after_again 0 hi x xs c, starts-above (chunk_end x) hi xs c.at)

-- A block that was merged into the free chunk below it is not recognised: a second release puts it on
-- the list again, inside the merged chunk.
pub release_twice :
    (b c : Chunk)
    → b.at < c.at
    → 0 < c.size
    → chunk_end b ≡ c.at
    → release (release (b ∷ []) c) c ≡ record b { size = b.size + c.size } ∷ c ∷ []
unfolding release release_after merge_before merge_next
release_twice b c below pos touch = ground arith
