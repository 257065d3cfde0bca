-- ===== src/NoosHeap/Resize.antt =====
-- `realloc`: growing and cutting a block where it stands, and moving it.
use yasos_libc.Base.{
  ℕ, ◌+◌, ◌-◌, ◌%◌, ◌^◌, ◌≢◌, ◌≤◌, ◌<◌, ◌≡◌, refl, sym, arith, Bool, true, ◌&&◌, ltb, leb, ◌==◌,
  ltb-false, Bool-cases, inl, inr, ◌⊎◌, if_both, Option, none, some, List, [], ◌∷◌,
}
use mathlib.Core.Path.{subst}
use yasos_libc.FreeList.{Chunk, min_chunk, chunk_end, IsSorted, IsApart}
use yasos_libc.FreeList.Release.{IsChunk, release-IsSorted, release-IsApart}
use yasos_libc.FreeList.Take.{Taking}
use yasos_libc.NoosHeap.{
  sbrk, Heap, update, chunk_at, put_back, trim, pushed, push_break, grow_into,
}
use yasos_libc.NoosHeap.Invariant.{Live, IsHeap, IsFresh, IsApart-same}
use yasos_libc.NoosHeap.Grow.{brk-IsHeap, taken-IsHeap, sbrk_both, IsApart-longer}

-- A chunk that belongs to nobody goes on the free list.
insert-IsHeap :
    (live : Live) (h : Heap) (d : Chunk)
    → IsHeap live h
    → IsFresh live h d
    → IsHeap live (put_back d h)
unfolding put_back
insert-IsHeap live h d v f = record {
  some_break = v.some_break;
  list = release-IsSorted h.brk h.free d v.list f.chunk f.free_apart;
  chunk = v.chunk;
  free_apart = λ a e.
      release-IsApart (chunk_at h a) h.free d (v.free_apart a e) (ground (arith, f.live_apart a))
        (omega (arith, v.chunk a e));
  live_apart = v.live_apart;
}

module _ (live : Live) (at : ℕ) (there : live at ≡ true) where
  -- A new size for the chunk at `at`, within the room up to the next chunk.
  resize-IsHeap :
      (size : ℕ) (h : Heap)
      → IsHeap live h
      → IsChunk h.brk (record { at = at; size = size })
      → IsApart (record { at = at; size = size }) h.free
      → ((b : ℕ) → live b ≡ true → at < b → at + size ≤ b)
      → IsHeap live (record h { size = update h.size at size })
  resize-IsHeap size h v c apart next = record {
    some_break = v.some_break;
    list = v.list;
    chunk = λ a e. ground (arith, v.chunk a);
    free_apart = λ a e. elim (Bool-cases (a == at)) [
      | inl same ↦
          IsApart-same (record { at = at; size = size }) _ h.free (ground arith) (ground arith)
            apart
      | inr other ↦ IsApart-same (chunk_at h a) _ h.free refl (ground arith) (v.free_apart a e)
    ];
    live_apart = λ a b e g lt. ground (arith, v.live_apart a b, next b);
  }

  IsApart-shorter :
      (c d : Chunk) (xs : List Chunk)
      → c.at ≤ d.at
      → chunk_end d ≤ chunk_end c
      → IsApart c xs
      → IsApart d xs
  IsApart-shorter c d [] p q a = tt
  IsApart-shorter c d (x ∷ xs) p q a = (ground arith, IsApart-shorter c d xs p q a.1)

  -- Cutting a chunk keeps the heap well formed, and leaves it at least `size` bytes.
  pub trim-IsHeap :
      (size : ℕ) (h : Heap)
      → min_chunk ≤ size
      → size % 8 ≡ 0
      → size ≤ h.size at
      → IsHeap live h
      → IsHeap live (trim at size h)
        × (size ≤ (trim at size h).size at)
        × ((trim at size h).ram ≡ h.ram)
  unfolding trim put_back
  trim-IsHeap size h big aligned fits v =
      if_both (λ g. IsHeap live g × (size ≤ g.size at) × (g.ram ≡ h.ram))
        (ltb (h.size at - size) min_chunk) (λ tight. (v, fits, refl))
        λ room.
          let c = v.chunk at there in
          let cut =
            resize-IsHeap size h v (c.0, big, c.2, aligned, omega arith)
              (IsApart-shorter (chunk_at h at) _ h.free (omega arith) (omega arith)
                (v.free_apart at there))
              (λ b e lt. omega (arith, v.live_apart at b there e lt)) in
          (
            insert-IsHeap live (record h { size = update h.size at size })
                (record { at = at + size; size = h.size at - size }) cut
                (record {
                  chunk = (omega arith, ltb-false _ _ room, omega arith, omega arith, omega arith);
                  free_apart =
                      IsApart-shorter (chunk_at h at) _ h.free (omega arith) (omega arith)
                        (v.free_apart at there);
                  live_apart =
                      λ a e. ground (arith, v.live_apart a at, v.live_apart at a, v.chunk a);
                }),
            ground arith,
            refl,
          )

  -- `g` is `h` after a try to grow the chunk at `at` in place to `size` bytes.
  pub record IsGrown (size : ℕ) (h g : Heap) : Type 0 where
    pub heap : IsHeap live g
    pub ram : g.ram ≡ h.ram
    pub back : g.back ≡ h.back
    pub outcome : (g.size at ≡ h.size at) ⊎ (size ≤ g.size at)
    pub others : (a : ℕ) → a ≢ at → g.size a ≡ h.size a

  pub same-IsGrown : (size : ℕ) (h : Heap) → IsHeap live h → IsGrown size h h
  same-IsGrown size h v = record {
    heap = v;
    ram = refl;
    back = refl;
    outcome = inl refl;
    others = λ a other. refl;
  }

  pushed-IsGrown :
      (grants : ℕ → ℕ → Bool) (size : ℕ) (h : Heap)
      → IsHeap live h
      → min_chunk ≤ size
      → size % 8 ≡ 0
      → h.size at ≤ size
      → size < 2 ^ 31
      → at + h.size at ≡ h.brk
      → IsGrown size h (pushed at size (sbrk grants (size - h.size at) h))
  unfolding pushed
  pushed-IsGrown grants size h v big aligned more rep top =
      let c = v.chunk at there in
      sbrk_both grants (λ r. IsGrown size h (pushed at size r)) (size - h.size at) h
        (omega (arith, rep))
        (record {
          heap =
              resize-IsHeap size (record h { brk = h.brk + (size - h.size at) })
                (brk-IsHeap live h _ v (omega arith)) (c.0, big, c.2, aligned, omega arith)
                (IsApart-longer 0 h.brk size (chunk_at h at) h.free v.list (v.free_apart at there)
                  top)
                (λ b e lt. absurd (omega (arith, v.live_apart at b there e lt, v.chunk b e)));
          ram = refl;
          back = refl;
          outcome = inr (ground arith);
          others = λ a other. ground arith;
        })
        (same-IsGrown size h v)

  IsApart-union :
      (c f : Chunk) (xs : List Chunk)
      → f.at ≡ chunk_end c
      → IsApart c xs
      → IsApart f xs
      → min_chunk ≤ c.size
      → (lo hi : ℕ) → IsSorted lo hi xs
      → IsApart (record c { size = c.size + f.size }) xs
  IsApart-union c f [] e p q big lo hi s = tt
  IsApart-union c f (x ∷ xs) e p q big lo hi s =
      (ground arith, IsApart-union c f xs e p.1 q.1 big (chunk_end x) hi s.5)

  -- Growing a live chunk in place to a larger chunk size, with what the walk of the free list found
  -- there, keeps the heap well formed and every payload byte, and either leaves the size of the chunk as
  -- it was or makes it at least the one asked for.
  pub grow_into-IsGrown :
      (grants : ℕ → ℕ → Bool) (size : ℕ) (r : Option (Chunk × List Chunk)) (h : Heap)
      → IsHeap live h
      → min_chunk ≤ size
      → size % 8 ≡ 0
      → h.size at ≤ size
      → size < 2 ^ 31
      → Taking 0 h.brk h.free r
      → IsGrown size h (grow_into grants at size r h)
  unfolding grow_into push_break
  grow_into-IsGrown grants size none h v big aligned more rep t =
      sbrk_both grants (λ r. IsGrown size h (push_break grants at size r)) 0 h (omega arith)
        (let same : record h { brk = h.brk + 0 } ≡ h = ground arith in
          subst (λ g. IsGrown size h (push_break grants at size (some h.brk, g))) (sym same)
            (if_both (IsGrown size h) (at + h.size at == h.brk)
              (λ top. pushed-IsGrown grants size h v big aligned more rep (ground arith))
              (λ below. same-IsGrown size h v)))
        (same-IsGrown size h v)
  grow_into-IsGrown grants size (some (f, rest)) h v big aligned more rep t =
      if_both (IsGrown size h) (f.at == at + h.size at && leb size (h.size at + f.size))
        (λ fits.
          let c = v.chunk at there in
          let next : f.at ≡ at + h.size at = ground arith in
          record {
            heap =
                resize-IsHeap (h.size at + f.size) (record h { free = rest })
                  (taken-IsHeap live h f rest v t)
                  (c.0, omega arith, c.2, omega (arith, t.chunk), omega (arith, t.chunk))
                  (IsApart-union (chunk_at h at) f rest next
                    (t.others (chunk_at h at) (v.free_apart at there)).0 t.apart c.1 0 h.brk
                    t.sorted)
                  (λ b e lt. ground (
                    arith,
                    v.live_apart at b there e lt,
                    (t.others (chunk_at h b) (v.free_apart b e)).1,
                    v.chunk b e,
                  ));
            ram = refl;
            back = refl;
            outcome = inr (ground arith);
            others = λ a other. ground arith;
          })
        (λ _. same-IsGrown size h v)
