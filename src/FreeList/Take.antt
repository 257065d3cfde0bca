-- ===== src/FreeList/Take.antt =====
-- Taking a chunk off the list: by first fit, the highest one, or the one at an address.
use yasos_libc.Base.{
  ℕ, ◌+◌, ◌-◌, ◌%◌, ◌≤◌, ◌<◌, ◌≡◌, refl, arith, ◌&&◌, ◌||◌, ltb, leb, leb→le, ltb-false, inl, inr,
  if_both, Option, none, some, List, [], ◌∷◌,
}
use yasos_libc.FreeList.{
  Chunk, min_chunk, chunk_end, split, keep, take_fit, last_chunk, find_from, IsSorted, IsApart,
  covers,
}
use yasos_libc.FreeList.Release.{IsChunk, AreApart, IsSorted-lower}

-- `rest` is the list `xs` without the chunk `c`.
pub record IsTaken (lo hi : ℕ) (xs : List Chunk) (c : Chunk) (rest : List Chunk) : Type 0 where
  pub sorted : IsSorted lo hi rest
  pub above : lo < c.at
  pub chunk : IsChunk hi c
  pub apart : IsApart c rest
  pub others : (d : Chunk) → IsApart d xs → IsApart d rest × AreApart d c
  pub bytes : (a : ℕ) → covers xs a ≡ ((leb c.at a && ltb a (chunk_end c)) || covers rest a)

IsApart-above :
    (lo hi : ℕ) (c : Chunk) (xs : List Chunk) → IsSorted lo hi xs → chunk_end c ≤ lo → IsApart c xs
IsApart-above lo hi c [] s h = tt
IsApart-above lo hi c (x ∷ xs) s h =
    (inr (omega arith), IsApart-above (chunk_end x) hi c xs s.5 (omega arith))

IsTaken-cons :
    (lo hi : ℕ) (x : Chunk) (xs : List Chunk) (c : Chunk) (rest : List Chunk)
    → IsSorted lo hi (x ∷ xs)
    → IsTaken (chunk_end x) hi xs c rest
    → IsTaken lo hi (x ∷ xs) c (x ∷ rest)
IsTaken-cons lo hi x xs c rest s t = record {
  sorted = (s.0, s.1, s.2, s.3, s.4, t.sorted);
  above = omega (arith, t.above);
  chunk = t.chunk;
  apart = (inl (omega (arith, t.above)), t.apart);
  others = λ d h. ((h.0, (t.others d h.1).0), (t.others d h.1).1);
  bytes = λ a. ground (arith, t.bytes a);
}

IsTaken-head :
    (lo hi : ℕ) (x : Chunk) (xs : List Chunk)
    → IsSorted lo hi (x ∷ xs)
    → IsTaken lo hi (x ∷ xs) x xs
IsTaken-head lo hi x xs s = record {
  sorted = IsSorted-lower (chunk_end x) lo hi xs (omega arith) s.5;
  above = s.0;
  chunk = omega arith;
  apart = IsApart-above (chunk_end x) hi x xs s.5 (omega arith);
  others = λ d h. (h.1, h.0);
  bytes = λ a. refl;
}

split-IsTaken :
    (lo hi size : ℕ) (x : Chunk) (xs : List Chunk)
    → IsSorted lo hi (x ∷ xs)
    → min_chunk ≤ size
    → size % 8 ≡ 0
    → size ≤ x.size
    → IsTaken lo hi (x ∷ xs) (split size x xs).0 (split size x xs).1
unfolding split
split-IsTaken lo hi size x xs s big aligned fits =
    if_both (λ (r : Chunk × List Chunk). IsTaken lo hi (x ∷ xs) r.0 r.1)
      (leb min_chunk (x.size - size))
      (λ room. record {
        sorted = (
          omega arith,
          leb→le _ _ room,
          omega arith,
          omega arith,
          omega arith,
          IsSorted-lower (chunk_end x) (x.at + size + (x.size - size)) hi xs (omega arith) s.5,
        );
        above = s.0;
        chunk = (omega arith, big, omega arith, aligned, omega arith);
        apart = (inr (omega arith), IsApart-above (chunk_end x) hi _ xs s.5 (omega arith));
        others = λ d h. ((ground arith, h.1), ground arith);
        bytes = λ a. ground arith;
      })
      (λ tight. IsTaken-head lo hi x xs s)

-- What a search hands out: nothing, or a chunk that it took off the list.
abbrev pub Taking : ℕ → ℕ → List Chunk → Option (Chunk × List Chunk) → Type 0
Taking lo hi xs none = Unit {0}
Taking lo hi xs (some (c, rest)) = IsTaken lo hi xs c rest

keep-Taking :
    (lo hi : ℕ) (x : Chunk) (xs : List Chunk) (r : Option (Chunk × List Chunk))
    → IsSorted lo hi (x ∷ xs)
    → Taking (chunk_end x) hi xs r
    → Taking lo hi (x ∷ xs) (keep x r)
unfolding keep
keep-Taking lo hi x xs none s t = tt
keep-Taking lo hi x xs (some (c, rest)) s t = IsTaken-cons lo hi x xs c rest s t

-- First fit takes a chunk off the list, whole or cut from the front of one.
pub take_fit-Taking :
    (lo hi size : ℕ) (xs : List Chunk)
    → IsSorted lo hi xs
    → min_chunk ≤ size
    → size % 8 ≡ 0
    → Taking lo hi xs (take_fit size xs)
unfolding take_fit
take_fit-Taking lo hi size [] s big aligned = tt
take_fit-Taking lo hi size (x ∷ xs) s big aligned =
    if_both (Taking lo hi (x ∷ xs)) (ltb x.size size)
      (λ small.
        keep-Taking lo hi x xs _ s (take_fit-Taking (chunk_end x) hi size xs s.5 big aligned))
      (λ fits. split-IsTaken lo hi size x xs s big aligned (ltb-false _ _ fits))

-- The highest chunk of a sorted list is taken off it: the rest is sorted and lacks just its bytes.
pub last_chunk-Taking :
    (lo hi : ℕ) (xs : List Chunk) → IsSorted lo hi xs → Taking lo hi xs (last_chunk xs)
unfolding last_chunk
last_chunk-Taking lo hi [] s = tt
last_chunk-Taking lo hi (x ∷ []) s = IsTaken-head lo hi x [] s
last_chunk-Taking lo hi (x ∷ y ∷ xs) s =
    keep-Taking lo hi x (y ∷ xs) _ s (last_chunk-Taking (chunk_end x) hi (y ∷ xs) s.5)

-- The first chunk at or above an address is taken off a sorted list: the rest is sorted and lacks just
-- its bytes.
pub find_from-Taking :
    (lo hi stop : ℕ) (xs : List Chunk) → IsSorted lo hi xs → Taking lo hi xs (find_from stop xs)
unfolding find_from
find_from-Taking lo hi stop [] s = tt
find_from-Taking lo hi stop (x ∷ xs) s =
    if_both (Taking lo hi (x ∷ xs)) (ltb x.at stop)
      (λ below. keep-Taking lo hi x xs _ s (find_from-Taking (chunk_end x) hi stop xs s.5))
      (λ found. IsTaken-head lo hi x xs s)

-- What first fit hands out is big enough.
abbrev pub IsAtLeast : ℕ → Option (Chunk × List Chunk) → Type 0
IsAtLeast size none = Unit {0}
IsAtLeast size (some (c, rest)) = size ≤ c.size

keep-IsAtLeast :
    (size : ℕ) (x : Chunk) (r : Option (Chunk × List Chunk))
    → IsAtLeast size r
    → IsAtLeast size (keep x r)
unfolding keep
keep-IsAtLeast size x none h = tt
keep-IsAtLeast size x (some (c, rest)) h = h

pub take_fit-IsAtLeast : (size : ℕ) (xs : List Chunk) → IsAtLeast size (take_fit size xs)
unfolding take_fit split
take_fit-IsAtLeast size [] = tt
take_fit-IsAtLeast size (x ∷ xs) =
    if_both (IsAtLeast size) (ltb x.size size)
      (λ small. keep-IsAtLeast size x _ (take_fit-IsAtLeast size xs))
      (λ fits.
        if_both (λ (r : Chunk × List Chunk). size ≤ r.0.size) (leb min_chunk (x.size - size))
          (λ room. omega arith) (λ tight. ltb-false _ _ fits))

-- Every chunk of the list is smaller than `size`.
abbrev pub AreBelow : ℕ → List Chunk → Type 0
AreBelow size [] = Unit {0}
AreBelow size (x ∷ xs) = (x.size < size) × AreBelow size xs

keep-eq-none : (x : Chunk) (r : Option (Chunk × List Chunk)) → keep x r ≡ none → r ≡ none
unfolding keep
keep-eq-none x none h = refl
keep-eq-none x (some (c, rest)) h = cc

-- First fit fails only when no chunk is big enough.
pub take_fit-none : (size : ℕ) (xs : List Chunk) → take_fit size xs ≡ none → AreBelow size xs
unfolding take_fit
take_fit-none size [] h = tt
take_fit-none size (x ∷ xs) h =
    ground (arith, take_fit-none size xs, keep-eq-none x (take_fit size xs))

abbrev pub IsBelow : ℕ → Option (Chunk × List Chunk) → Type 0
IsBelow size none = Unit {0}
IsBelow size (some (c, rest)) = c.size < size

keep-IsBelow :
    (size : ℕ) (x : Chunk) (r : Option (Chunk × List Chunk))
    → IsBelow size r
    → IsBelow size (keep x r)
unfolding keep
keep-IsBelow size x none h = tt
keep-IsBelow size x (some (c, rest)) h = h

pub last_chunk-IsBelow :
    (size : ℕ) (xs : List Chunk) → AreBelow size xs → IsBelow size (last_chunk xs)
unfolding last_chunk
last_chunk-IsBelow size [] b = tt
last_chunk-IsBelow size (x ∷ []) b = b.0
last_chunk-IsBelow size (x ∷ y ∷ xs) b =
    keep-IsBelow size x _ (last_chunk-IsBelow size (y ∷ xs) b.1)
