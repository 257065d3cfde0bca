-- ===== src/NoosHeap/Invariant.antt =====
-- The well-formed heap: the free list is sorted and merged, and no two chunks share a byte. `live` are
-- the addresses of the chunks that are handed out.
use yasos_libc.Base.{
  ℕ, ◌+◌, ◌≤◌, ◌<◌, ◌≡◌, refl, arith, Bool, true, not, ◌&&◌, ◌||◌, ◌==◌, Bool-cases, inl, inr, some,
  List, [], ◌∷◌,
}
use yasos_libc.FreeList.{Chunk, chunk_end, IsSorted, IsApart}
use yasos_libc.FreeList.Release.{IsChunk, AreApart, release-IsSorted, release-IsApart}
use yasos_libc.NoosHeap.{Heap, chunk_at, put_back, hand_out}

abbrev pub Live : Type 0
Live = ℕ → Bool

abbrev pub add : ℕ → Live → Live
add c live a = a == c || live a

abbrev pub remove : ℕ → Live → Live
remove c live a = not (a == c) && live a

pub record IsHeap (live : Live) (h : Heap) : Type 0 where
  pub some_break : 0 < h.brk
  pub list : IsSorted 0 h.brk h.free
  pub chunk : (a : ℕ) → live a ≡ true → IsChunk h.brk (chunk_at h a)
  pub free_apart : (a : ℕ) → live a ≡ true → IsApart (chunk_at h a) h.free
  pub live_apart : (a b : ℕ) → live a ≡ true → live b ≡ true → a < b → a + h.size a ≤ b

-- A chunk that can be handed out.
pub record IsFresh (live : Live) (h : Heap) (c : Chunk) : Type 0 where
  pub chunk : IsChunk h.brk c
  pub free_apart : IsApart c h.free
  pub live_apart : (a : ℕ) → live a ≡ true → AreApart c (chunk_at h a)

pub IsSorted-upper :
    (lo hi hi' : ℕ) (xs : List Chunk) → hi ≤ hi' → IsSorted lo hi xs → IsSorted lo hi' xs
IsSorted-upper lo hi hi' [] h s = tt
IsSorted-upper lo hi hi' (x ∷ xs) h s =
    (s.0, s.1, s.2, s.3, omega arith, IsSorted-upper (chunk_end x) hi hi' xs h s.5)

pub IsApart-same :
    (c d : Chunk) (xs : List Chunk) → c.at ≡ d.at → c.size ≡ d.size → IsApart c xs → IsApart d xs
IsApart-same c d [] e g s = tt
IsApart-same c d (x ∷ xs) e g s = (ground arith, IsApart-same c d xs e g s.1)

-- Freeing a chunk that is handed out keeps the heap well formed.
pub put_back-IsHeap :
    (live : Live) (h : Heap) (c : ℕ)
    → IsHeap live h
    → live c ≡ true
    → IsHeap (remove c live) (put_back (chunk_at h c) h)
unfolding put_back
put_back-IsHeap live h c v there = record {
  some_break = v.some_break;
  list =
      release-IsSorted h.brk h.free (chunk_at h c) v.list (v.chunk c there) (v.free_apart c there);
  chunk = λ a e. v.chunk a (ground arith);
  free_apart = λ a e.
      release-IsApart (chunk_at h a) h.free (chunk_at h c) (v.free_apart a (ground arith))
        (ground (arith, v.live_apart a c, v.live_apart c a)) (ground (arith, v.chunk a));
  live_apart = λ a b e f lt. v.live_apart a b (ground arith) (ground arith) lt;
}

-- The new chunk is live, and the sizes of the others are as before.
pub hand_out-IsHeap :
    (live : Live) (h : Heap) (c : Chunk)
    → IsHeap live h
    → IsFresh live h c
    → IsHeap (add c.at live) (hand_out (some c, h)).1
unfolding hand_out
hand_out-IsHeap live h c v f = record {
  some_break = v.some_break;
  list = v.list;
  chunk = λ a e. ground (arith, v.chunk a, f.chunk);
  free_apart = λ a e. elim (Bool-cases (a == c.at)) [
    | inl same ↦ IsApart-same c _ h.free (ground arith) (ground arith) f.free_apart
    | inr other ↦
        IsApart-same (chunk_at h a) _ h.free refl (ground arith) (v.free_apart a (ground arith))
  ];
  live_apart = λ a b e g lt.
      ground
        (arith, v.live_apart a b, f.live_apart a, f.live_apart b, v.chunk a, v.chunk b, f.chunk);
}

-- The heap's shape does not depend on `errno`, on the payloads or on the ways back to them.
pub same-IsHeap :
    (live : Live) (h : Heap) (back : ℕ → ℕ) (errno : ℕ) (ram : ℕ → ℕ)
    → IsHeap live h
    → IsHeap live (record h { back = back; errno = errno; ram = ram })
same-IsHeap live h back errno ram v = record {
  some_break = v.some_break;
  list = v.list;
  chunk = v.chunk;
  free_apart = v.free_apart;
  live_apart = v.live_apart;
}
