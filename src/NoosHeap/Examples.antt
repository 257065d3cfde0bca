-- ===== src/NoosHeap/Examples.antt =====
-- The theorems on noos/malloc.c applied to a small heap.
use yasos_libc.Base.{
  ℕ, ◌+◌, ◌*◌, ◌%◌, ◌^◌, ◌≡◌, refl, arith, Bool, ◌||◌, ltb, ◌==◌, if◌then◌else◌, inl, inr, [], ◌∷◌,
}
use yasos_libc.Memory.{IsBytes, inside}
use yasos_libc.FreeList.{Chunk, release, covers, IsSorted, IsApart}
use yasos_libc.FreeList.Release.{release-IsSorted, release_twice}
use yasos_libc.NoosHeap.{Heap, malloc, calloc, free, realloc, memalign}
use yasos_libc.NoosHeap.Invariant.{Live, remove, IsHeap}
use yasos_libc.NoosHeap.Blocks.{Served, IsCleared, malloc-Served, free-IsHeap, calloc-Served}
use yasos_libc.NoosHeap.Align.{ServedAligned, memalign-ServedAligned}
use yasos_libc.NoosHeap.Realloc.{IsPayload, Reallocated, realloc-Reallocated}

-- A free chunk between two blocks, which begin at 8 and at 64.
abbrev gap : Chunk
gap = record { at = 40; size = 24 }

abbrev heap : Heap
heap = record {
  free = gap ∷ [];
  size = λ a. if a == 8 then 32 else 64;
  back = λ p. 0;
  brk = 128;
  errno = 0;
  ram = λ a. a % 256;
}

abbrev live : Live
live a = a == 8 || a == 64

abbrev grants : ℕ → ℕ → Bool
grants b n = ltb (b + n) 4096

heap-IsSorted : IsSorted 0 128 (gap ∷ [])
heap-IsSorted = (omega arith, omega arith, refl, refl, omega arith, tt)

heap-IsHeap : IsHeap live heap
heap-IsHeap = record {
  some_break = omega arith;
  list = heap-IsSorted;
  chunk = λ a e. ground arith;
  free_apart = λ a e. (ground arith, tt);
  live_apart = λ a b e f lt. ground arith;
}

block-IsPayload : IsPayload live 16 heap
block-IsPayload = record { above = omega arith; there = refl; below = omega arith }

heap-IsBytes : IsBytes heap.ram
heap-IsBytes a = omega arith

realloc-Reallocated_example : Reallocated live 16 40 heap (realloc grants 16 40 heap)
realloc-Reallocated_example =
    realloc-Reallocated live 16 40 heap (ground arith) block-IsPayload heap-IsBytes (omega arith)
      grants (ground arith) (inl (omega arith)) heap-IsHeap

malloc-Served_example : Served live 40 heap (malloc grants 40 heap)
malloc-Served_example = malloc-Served grants live 40 heap (inl (omega arith)) heap-IsHeap

calloc-Served_example :
    Served live (3 * 8) heap (calloc grants 3 8 heap)
    × IsCleared (3 * 8) heap (calloc grants 3 8 heap)
calloc-Served_example = calloc-Served grants live 3 8 heap (inl (omega arith)) heap-IsHeap

free-IsHeap_example :
    IsHeap (remove 8 live) (free 16 heap)
    × ((a : ℕ) → covers (free 16 heap).free a ≡ (inside 8 32 a || covers (gap ∷ []) a))
free-IsHeap_example = free-IsHeap live 16 heap (ground arith) heap-IsHeap refl

memalign-ServedAligned_example :
    ServedAligned live 40 (2 ^ 3) heap (memalign grants (8 * 2 ^ 3) 40 heap)
memalign-ServedAligned_example =
    memalign-ServedAligned grants live 3 40 heap (omega arith) (inl (omega arith)) heap-IsHeap

-- The lower block goes back on the list.
abbrev low : Chunk
low = record { at = 8; size = 32 }

low-IsApart : IsApart low (gap ∷ [])
low-IsApart = (inr (omega arith), tt)

release-IsSorted_example : IsSorted 0 128 (release (gap ∷ []) low)
release-IsSorted_example =
    release-IsSorted 128 (gap ∷ []) low heap-IsSorted
      (omega arith, omega arith, refl, refl, omega arith) low-IsApart

release_twice_example :
    release (release (low ∷ []) gap) gap ≡ record { at = 8; size = 56 } ∷ gap ∷ []
release_twice_example = release_twice low gap (omega arith) (omega arith) refl
