-- ===== src/NoosHeap/Grow.antt =====
-- A chunk from the break, and the chunk that `malloc` works on.
use yasos_libc.Base.{
  ℕ, ◌+◌, ◌-◌, ◌%◌, ◌^◌, ◌≤◌, ◌<◌, ◌≡◌, refl, sym, ap, arith, Bool, ◌==◌, bit_and, inl, ◌≢◌,
  if_both, Option, none, some, List, [], ◌∷◌,
}
use mathlib.Core.Path.{subst}
use yasos_libc.FreeList.{Chunk, min_chunk, chunk_end, last_chunk, take_fit, IsSorted, IsApart}
use yasos_libc.FreeList.Release.{AreApart}
use yasos_libc.FreeList.Take.{
  IsTaken, Taking, IsAtLeast, AreBelow, IsBelow, take_fit-Taking, take_fit-IsAtLeast, take_fit-none,
  last_chunk-Taking, last_chunk-IsBelow,
}
use yasos_libc.Base.Bits.{bit_and_seven}
use yasos_libc.NoosHeap.{
  hand_out, malloc, moved_by, chunk_size_for, Heap, chunk_at, sbrk, extended, padded, extend_top,
  new_top, grow_at, heap_grow, find_chunk,
}
use yasos_libc.NoosHeap.Invariant.{Live, IsHeap, IsFresh, IsSorted-upper}

-- The outcome of a search: a well-formed heap, and a chunk of at least `size` bytes if there is one.
abbrev pub Found : Live → ℕ → Heap → Option Chunk × Heap → Type 0
Found live size h (none, h') = IsHeap live h' × (h'.size ≡ h.size)
Found live size h (some c, h') =
    IsHeap live h' × (h'.size ≡ h.size) × IsFresh live h' c × (size ≤ c.size)

IsApart-beyond :
    (lo hi : ℕ) (c : Chunk) (xs : List Chunk) → IsSorted lo hi xs → hi ≤ c.at → IsApart c xs
IsApart-beyond lo hi c [] s h = tt
IsApart-beyond lo hi c (x ∷ xs) s h =
    (inl (omega arith), IsApart-beyond (chunk_end x) hi c xs s.5 h)

-- A chunk that ends where the heap ends can grow without meeting another.
pub IsApart-longer :
    (lo hi size : ℕ) (c : Chunk) (xs : List Chunk)
    → IsSorted lo hi xs
    → IsApart c xs
    → chunk_end c ≡ hi
    → IsApart (record c { size = size }) xs
IsApart-longer lo hi size c [] s a e = tt
IsApart-longer lo hi size c (x ∷ xs) s a e =
    (ground arith, IsApart-longer (chunk_end x) hi size c xs s.5 a.1 e)

-- A higher break.
pub brk-IsHeap :
    (live : Live) (h : Heap) (b : ℕ)
    → IsHeap live h
    → h.brk ≤ b
    → IsHeap live (record h { brk = b })
brk-IsHeap live h b v le = record {
  some_break = omega (arith, v.some_break);
  list = IsSorted-upper 0 h.brk b h.free le v.list;
  chunk = λ a e. omega (arith, v.chunk a e);
  free_apart = v.free_apart;
  live_apart = v.live_apart;
}

-- The heap without a chunk that was taken off the free list.
pub taken-IsHeap :
    (live : Live) (h : Heap) (c : Chunk) (rest : List Chunk)
    → IsHeap live h
    → IsTaken 0 h.brk h.free c rest
    → IsHeap live (record h { free = rest })
taken-IsHeap live h c rest v t = record {
  some_break = v.some_break;
  list = t.sorted;
  chunk = v.chunk;
  free_apart = λ a e. (t.others (chunk_at h a) (v.free_apart a e)).0;
  live_apart = v.live_apart;
}

AreApart-symm : (c d : Chunk) → AreApart c d → AreApart d c
AreApart-symm c d h = ground arith

pub taken-IsFresh :
    (live : Live) (h : Heap) (c : Chunk) (rest : List Chunk)
    → IsHeap live h
    → IsTaken 0 h.brk h.free c rest
    → IsFresh live (record h { free = rest }) c
taken-IsFresh live h c rest v t = record {
  chunk = t.chunk;
  free_apart = t.apart;
  live_apart = λ a e. AreApart-symm (chunk_at h a) c (t.others (chunk_at h a) (v.free_apart a e)).1;
}

abbrev IsKept : Heap → Heap → Type 0
IsKept h g = (g.ram ≡ h.ram) × (g.back ≡ h.back)

-- No payload byte changes, and no way back but that of the block that is handed out.
abbrev pub Untouched : Heap → Option ℕ × Heap → Type 0
Untouched h (none, h') = (h'.ram ≡ h.ram) × (h'.back ≡ h.back)
Untouched h (some p, h') = (h'.ram ≡ h.ram) × ((a : ℕ) → a ≢ p → h'.back a ≡ h.back a)

module _ (grants : ℕ → ℕ → Bool) where
  -- What holds whether the break was moved or not.
  sbrk_any {ℓ} :
      (P : Option ℕ × Heap → Type ℓ) (n : ℕ) (h : Heap)
      → P (some h.brk, record h { brk = moved_by h.brk n })
      → P (none, h)
      → P (sbrk grants n h)
  unfolding sbrk
  sbrk_any P n h p q = if_both P (grants h.brk n) (λ _. p) (λ _. q)

  -- The same for an increment that is not negative.
  pub sbrk_both {ℓ} :
      (P : Option ℕ × Heap → Type ℓ) (n : ℕ) (h : Heap)
      → n < 2 ^ 31
      → P (some h.brk, record h { brk = h.brk + n })
      → P (none, h)
      → P (sbrk grants n h)
  sbrk_both P n h up p q =
      let pushed : moved_by h.brk n ≡ h.brk + n = ground arith in
      sbrk_any P n h (subst (λ b. P (some h.brk, record h { brk = b })) (sym pushed) p) q

  new_top-Found :
      (live : Live) (size : ℕ) (h : Heap)
      → IsHeap live h
      → min_chunk ≤ size
      → size % 8 ≡ 0
      → size < 2 ^ 31
      → Found live size h (new_top grants size h.brk h)
  unfolding new_top padded
  new_top-Found live size h v big aligned rep =
      sbrk_both (λ r. Found live size h (padded pad size r)) (pad + size) h padded_rep
        (
          brk-IsHeap live h (h.brk + (pad + size)) v (omega arith),
          refl,
          record {
            chunk = (
              omega (arith, v.some_break),
              big,
              ground (arith, bit_and_seven (2 ^ 32 - h.brk % 2 ^ 32)),
              aligned,
              omega arith,
            );
            free_apart = IsApart-beyond 0 h.brk _ h.free v.list (omega arith);
            live_apart = λ a e. inl (omega (arith, v.chunk a e));
          },
          omega arith,
        )
        (v, refl)
    where
      pad : ℕ
      pad = bit_and (2 ^ 32 - h.brk % 2 ^ 32) 7

      padded_rep : pad + size < 2 ^ 31
      padded_rep = ground (arith, bit_and_seven (2 ^ 32 - h.brk % 2 ^ 32))

  extend_top-Found :
      (live : Live) (size : ℕ) (h : Heap) (top : Chunk) (rest : List Chunk)
      → IsHeap live h
      → min_chunk ≤ size
      → size % 8 ≡ 0
      → size < 2 ^ 31
      → IsTaken 0 h.brk h.free top rest
      → top.size < size
      → chunk_end top ≡ h.brk
      → Found live size h (extend_top grants size top rest h)
  unfolding extend_top extended
  extend_top-Found live size h top rest v big aligned rep t small at_brk =
      sbrk_both (λ r. Found live size h (extended size top rest r)) (size - top.size) h
        (omega (arith, rep))
        (
          brk-IsHeap live (record h { free = rest }) _ (taken-IsHeap live h top rest v t)
              (omega arith),
          refl,
          record {
            chunk = (t.above, big, omega (arith, t.chunk), aligned, omega arith);
            free_apart = IsApart-longer 0 h.brk size top rest t.sorted t.apart at_brk;
            live_apart = λ a e.
                inl (ground (arith, v.chunk a e, (t.others (chunk_at h a) (v.free_apart a e)).1));
          },
          omega arith,
        )
        (v, refl)

  grow_at-Found :
      (live : Live) (size : ℕ) (h : Heap) (top : Option (Chunk × List Chunk))
      → IsHeap live h
      → min_chunk ≤ size
      → size % 8 ≡ 0
      → size < 2 ^ 31
      → Taking 0 h.brk h.free top
      → IsBelow size top
      → Found live size h (grow_at grants size top (some h.brk, h))
  unfolding grow_at
  grow_at-Found live size h none v big aligned rep t b = new_top-Found live size h v big aligned rep
  grow_at-Found live size h (some (top, rest)) v big aligned rep t b =
      if_both (Found live size h) (chunk_end top == h.brk)
        (λ e. extend_top-Found live size h top rest v big aligned rep t b (ground arith))
        (λ _. new_top-Found live size h v big aligned rep)

  heap_grow-Found :
      (live : Live) (size : ℕ) (h : Heap)
      → IsHeap live h
      → min_chunk ≤ size
      → size % 8 ≡ 0
      → size < 2 ^ 31
      → AreBelow size h.free
      → Found live size h (heap_grow grants size h)
  unfolding heap_grow grow_at
  heap_grow-Found live size h v big aligned rep small =
      let same : record h { brk = h.brk + 0 } ≡ h = ground arith in
      sbrk_both (λ r. Found live size h (grow_at grants size (last_chunk h.free) r)) 0 h
        (omega arith)
        (subst (λ g. Found live size h (grow_at grants size (last_chunk h.free) (some h.brk, g)))
          (sym same)
          (grow_at-Found live size h (last_chunk h.free) v big aligned rep
            (last_chunk-Taking 0 h.brk h.free v.list) (last_chunk-IsBelow size h.free small)))
        (v, refl)

  find_chunk-cases :
      (live : Live) (size : ℕ) (h : Heap) (r : Option (Chunk × List Chunk))
      → IsHeap live h
      → min_chunk ≤ size
      → size % 8 ≡ 0
      → size < 2 ^ 31
      → Taking 0 h.brk h.free r
      → IsAtLeast size r
      → (r ≡ none → AreBelow size h.free)
      → Found live size h (find_chunk grants size r h)
  unfolding find_chunk
  find_chunk-cases live size h none v big aligned rep t l b =
      heap_grow-Found live size h v big aligned rep (b refl)
  find_chunk-cases live size h (some (c, rest)) v big aligned rep t l b =
      (taken-IsHeap live h c rest v t, refl, taken-IsFresh live h c rest v t, l)

  -- First fit, or a chunk from the break.
  pub find_chunk-Found :
      (live : Live) (size : ℕ) (h : Heap)
      → IsHeap live h
      → min_chunk ≤ size
      → size % 8 ≡ 0
      → size < 2 ^ 31
      → Found live size h (find_chunk grants size (take_fit size h.free) h)
  find_chunk-Found live size h v big aligned rep =
      find_chunk-cases live size h (take_fit size h.free) v big aligned rep
        (take_fit-Taking 0 h.brk size h.free v.list big aligned) (take_fit-IsAtLeast size h.free)
        (take_fit-none size h.free)

  new_top-IsKept : (size brk : ℕ) (h : Heap) → IsKept h (new_top grants size brk h).1
  unfolding new_top padded
  new_top-IsKept size brk h =
      let pad = bit_and (2 ^ 32 - brk % 2 ^ 32) 7 in
      sbrk_any (λ r. IsKept h (padded pad size r).1) (pad + size) h (refl, refl) (refl, refl)

  grow_at-IsKept :
      (size : ℕ) (top : Option (Chunk × List Chunk)) (r : Option ℕ × Heap)
      → IsKept r.1 (grow_at grants size top r).1
  unfolding grow_at extend_top extended
  grow_at-IsKept size top (none, h) = (refl, refl)
  grow_at-IsKept size none (some brk, h) = new_top-IsKept size brk h
  grow_at-IsKept size (some (top, rest)) (some brk, h) =
      if_both (λ (r : Option Chunk × Heap). IsKept h r.1) (chunk_end top == brk)
        (λ _.
          sbrk_any (λ r. IsKept h (extended size top rest r).1) (size - top.size) h (refl, refl)
            (refl, refl))
        (λ _. new_top-IsKept size brk h)

  find_chunk-IsKept :
      (size : ℕ) (r : Option (Chunk × List Chunk)) (h : Heap)
      → IsKept h (find_chunk grants size r h).1
  unfolding find_chunk heap_grow
  find_chunk-IsKept size none h =
      sbrk_any (λ r. IsKept h (grow_at grants size (last_chunk h.free) r).1) 0 h
        (grow_at-IsKept size (last_chunk h.free) (some h.brk, record h { brk = moved_by h.brk 0 }))
        (grow_at-IsKept size (last_chunk h.free) (none, h))
  find_chunk-IsKept size (some (c, rest)) h = (refl, refl)

  -- `malloc` writes no payload byte, and no way back but that of the block it hands out.
  pub malloc-Untouched : (n : ℕ) (h : Heap) → Untouched h (malloc grants n h)
  unfolding malloc
  malloc-Untouched n h =
      if_both (Untouched h) (chunk_size_for n == 0) (λ _. (refl, refl))
        (λ _.
          served (find_chunk grants (chunk_size_for n) (take_fit (chunk_size_for n) h.free) h)
            (find_chunk-IsKept (chunk_size_for n) (take_fit (chunk_size_for n) h.free) h))
    where
      served : (r : Option Chunk × Heap) → IsKept h r.1 → Untouched h (hand_out r)
      served (none, h') e = unfold hand_out in e
      served (some c, h') (e, b) =
          unfold hand_out in (e, λ a ne. ground (arith, ap (λ (g : ℕ → ℕ). g a) b))
