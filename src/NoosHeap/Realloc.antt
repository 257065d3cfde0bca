-- ===== src/NoosHeap/Realloc.antt =====
-- `realloc` on a well-formed heap: the block is grown or cut in place, or moved with its contents.
use yasos_libc.Base.{
  ℕ, ◌+◌, ◌-◌, ◌%◌, ◌^◌, ◌≤◌, ◌<◌, ◌≡◌, refl, ap, ◌∙◌, arith, Bool, true, false, ◌&&◌, ltb, leb,
  ◌==◌, if◌then◌else◌, ltb→lt, Bool-cases, inl, inr, ◌⊎◌, ◌≢◌, if_both, Option, none, some,
}
use mathlib.Core.Path.{subst, fun_ext}
use native.Mathlib.Nat.{le_trans}
use yasos_libc.FreeList.{find_from, min_chunk, header, chunk_end}
use yasos_libc.Memory.{IsBytes, inside}
use yasos_libc.MemOps.{memcpy}
use yasos_libc.MemOps.Copy.{memcpy-inside}
use yasos_libc.NoosHeap.{
  trim, realloc, grow_into, chunk_size_for, Heap, enomem, chunk_of, chunk_at, put_back, free,
  malloc_usable_size, move_block,
}
use yasos_libc.NoosHeap.Invariant.{Live, add, remove, IsHeap, same-IsHeap}
use yasos_libc.NoosHeap.Grow.{malloc-Untouched, Untouched}
use yasos_libc.NoosHeap.Resize.{IsGrown, same-IsGrown, grow_into-IsGrown, trim-IsHeap}
use yasos_libc.FreeList.Take.{find_from-Taking}
use yasos_libc.NoosHeap.Blocks.{
  malloc-Served, IsRequest, chunk_size_for-rep, chunk_size_for-fits, chunk_size_for-zero, IsBlock,
  Served, free-IsHeap,
}

-- `p` is a pointer that an allocation handed out: the way back leads to a live chunk around it.
pub record IsPayload (live : Live) (p : ℕ) (h : Heap) : Type 0 where
  pub above : h.back p + header ≤ p
  pub there : live (chunk_of h p) ≡ true
  pub below : p ≤ chunk_end (chunk_at h (chunk_of h p))

-- Freeing writes neither a payload byte nor the size word of a chunk.
free-same : (p : ℕ) (h : Heap) → ((free p h).ram ≡ h.ram) × ((free p h).size ≡ h.size)
unfolding free put_back
free-same p h =
    if_both (λ (g : Heap). (g.ram ≡ h.ram) × (g.size ≡ h.size)) (p == 0) (λ _. (refl, refl))
      (λ _. (refl, refl))

-- Giving up one chunk and taking another commute.
remove-add : (live : Live) (a b : ℕ) → a ≢ b → remove a (add b live) ≡ add b (remove a live)
remove-add live a b ne = fun_ext (λ c. ground arith)

add-remove : (live : Live) (a : ℕ) → live a ≡ true → add a (remove a live) ≡ live
add-remove live a e = fun_ext (λ c. ground arith)

-- The outcome of `realloc(p, n)` for `n > 0`: on failure every block stays with its bytes and its way back; on
-- success its chunk is given up for the one of the result, which has room for `n` bytes, the bytes that fit are
-- kept, and no byte outside the result changes.
abbrev pub Reallocated : Live → ℕ → ℕ → Heap → Option ℕ × Heap → Type 0
Reallocated live p n h (none, h') =
    IsHeap live h'
    × (h'.errno ≡ enomem)
    × (h'.ram ≡ h.ram)
    × (h'.back ≡ h.back)
    × ((a : ℕ) → live a ≡ true → h'.size a ≡ h.size a)
Reallocated live p n h (some q, h') =
    IsHeap (add (q - header) (remove (chunk_of h p) live)) h'
    × (header ≤ q)
    × (n + header ≤ h'.size (q - header))
    × ((i : ℕ) → i < n → i < malloc_usable_size p h → h'.ram (q + i) ≡ h.ram (p + i))
    × ((b : ℕ) → inside q n b ≡ false → h'.ram b ≡ h.ram b)

module _ (live : Live) (p n : ℕ) (h : Heap) (ne : p ≢ 0) (w : IsPayload live p h)
    (bytes : IsBytes h.ram) (small : n < 2 ^ 32) where
  abbrev at : ℕ
  at = chunk_of h p

  usable_same :
      (h' : Heap)
      → chunk_of h' p ≡ at
      → h'.size at ≡ h.size at
      → malloc_usable_size p h' ≡ malloc_usable_size p h
  unfolding malloc_usable_size
  usable_same h' here size = rw (here, size)

  -- A block that `malloc` hands out lies apart from the one at `p`.
  apart_of_fresh :
      (q : ℕ) (h' : Heap)
      → IsHeap (add (q - header) live) h'
      → IsBlock n q h'
      → live (q - header) ≡ false
      → h'.size at ≡ h.size at
      → (q - header + h'.size (q - header) ≤ at) ⊎ (at + h.size at ≤ q - header)
  apart_of_fresh q h' v b fresh size =
      ground
        (arith, w.there, fresh, size, v.live_apart (q - header) at, v.live_apart at (q - header))

  usable_end : malloc_usable_size p h + p ≡ at + h.size at
  unfolding malloc_usable_size
  usable_end = ground (arith, w.below)

  -- The bytes of the block at `p` arrive in the one at `q`.
  copied :
      (q : ℕ) (h' : Heap) (count i : ℕ)
      → h'.ram ≡ h.ram
      → (q - header + h'.size (q - header) ≤ at) ⊎ (at + h.size at ≤ q - header)
      → header ≤ q
      → i < count
      → count ≤ malloc_usable_size p h
      → count ≤ n
      → memcpy h'.ram q p count (q + i) ≡ h.ram (p + i)
  copied q h' count i ram apart above inner fits short = ground (
    arith,
    memcpy-inside q p count h'.ram (omega arith)
        (λ a. ground (arith, bytes a, ap (λ (f : ℕ → ℕ). f a) ram))
        (ground (arith, apart, usable_end, w.above)) (q + i),
    ap (λ (f : ℕ → ℕ). f (p + i)) ram,
  )

  -- The copy writes no byte outside the new block.
  left_alone :
      (q : ℕ) (h' : Heap) (count a : ℕ)
      → h'.ram ≡ h.ram
      → (q - header + h'.size (q - header) ≤ at) ⊎ (at + h.size at ≤ q - header)
      → header ≤ q
      → count ≤ malloc_usable_size p h
      → count ≤ n
      → q + n ≤ q - header + h'.size (q - header)
      → inside q n a ≡ false
      → memcpy h'.ram q p count a ≡ h.ram a
  left_alone q h' count a ram apart above fits short room out = ground (
    arith,
    memcpy-inside q p count h'.ram (omega arith)
        (λ a. ground (arith, bytes a, ap (λ (f : ℕ → ℕ). f a) ram))
        (ground (arith, apart, usable_end, w.above)) a,
    ap (λ (f : ℕ → ℕ). f a) ram,
  )

  -- The move, from the heap `g` that a try to grow in place left.
  move_block-Reallocated :
      (g : Heap) (r : Option ℕ × Heap)
      → g.ram ≡ h.ram
      → g.back ≡ h.back
      → ((a : ℕ) → g.size a ≡ h.size a)
      → Served live n g r
      → Untouched g r
      → Reallocated live p n h (move_block p n r)
  unfolding move_block
  move_block-Reallocated g (none, h') ram back sizes s u =
      (s.0, s.1, u.0 ∙ ram, u.1 ∙ back, λ a there. ap (λ (f : ℕ → ℕ). f a) s.2 ∙ sizes a)
  move_block-Reallocated g (some q, h') ram back sizes (v, b, fresh, same) u =
      let sz : h'.size at ≡ h.size at = same at w.there ∙ sizes at in
      let apart = apart_of_fresh q h' v b fresh sz in
      let fresh_above = b.above in
      let b_room = b.room in
      let other : p ≢ q = ground (arith, apart, w.below, w.above, b.above, b.room) in
      let way : h'.back p ≡ h.back p = u.1 p other ∙ ap (λ (f : ℕ → ℕ). f p) back in
      let here : chunk_of h' p ≡ at = omega (arith, way) in
      let kept : malloc_usable_size p h' ≡ malloc_usable_size p h = usable_same h' here sz in
      let count : ℕ = if ltb (malloc_usable_size p h') n then malloc_usable_size p h' else n in
      let moved : Heap = record h' { ram = memcpy h'.ram q p count } in
      let freed =
        free-IsHeap (add (q - header) live) p moved ne
          (same-IsHeap (add (q - header) live) h' h'.back h'.errno _ v)
          (rw here (ground (arith, w.there))) in
      (
        subst (λ l. IsHeap l (free p moved))
            (ap (λ c. remove c (add (q - header) live)) here
              ∙ remove-add live at (q - header) (ground (arith, w.there, fresh)))
            freed.0,
        b.above,
        rw ((free-same p moved).1) b.room,
        λ i lt li.
            ap (λ (f : ℕ → ℕ). f (q + i)) (free-same p moved).0
            ∙ copied q h' count i (u.0 ∙ ram) apart b.above (ground (arith, kept))
                (ground (arith, kept)) (ground arith),
        λ b out.
            ap (λ (f : ℕ → ℕ). f b) (free-same p moved).0
            ∙ left_alone q h' count b (u.0 ∙ ram) apart fresh_above (ground (arith, kept))
                (ground (arith, kept)) (omega (arith, b_room, fresh_above)) out,
      )

  trimmed-Reallocated :
      (size : ℕ) (g : Heap)
      → IsHeap live g
      → g.ram ≡ h.ram
      → at + header ≡ p
      → n + header ≤ size
      → min_chunk ≤ size
      → size % 8 ≡ 0
      → size ≤ g.size at
      → Reallocated live p n h (some p, trim at size g)
  trimmed-Reallocated size g v ram plain room big aligned fits =
      let (cut, left, bytes_kept) = trim-IsHeap live at w.there size g big aligned fits v in
      let e : at ≡ p - header = omega (arith, plain) in
      (
        subst (λ a. IsHeap (add a (remove at live)) (trim at size g)) e
            (rw (add-remove live at w.there) cut),
        omega (arith, plain),
        subst (λ a. n + header ≤ (trim at size g).size a) e (le_trans room left),
        λ i lt li. ap (λ (f : ℕ → ℕ). f (p + i)) (bytes_kept ∙ ram),
        λ b out. ap (λ (f : ℕ → ℕ). f b) (bytes_kept ∙ ram),
      )

  -- The heap after the try to grow in place, which is made for a plain block only.
  abbrev tried : (ℕ → ℕ → Bool) → ℕ → Heap
  tried grants size =
      if at + header == p
      then if ltb (h.size at) size
        then grow_into grants at size (find_from (at + h.size at) h.free) h
        else h
      else h

  tried-IsGrown :
      (grants : ℕ → ℕ → Bool) (size : ℕ)
      → IsHeap live h
      → min_chunk ≤ size
      → size % 8 ≡ 0
      → size < 2 ^ 31
      → IsGrown live at w.there size h (tried grants size)
  tried-IsGrown grants size v big aligned rep =
      if_both (IsGrown live at w.there size h) (at + header == p)
        (λ plain.
          if_both (IsGrown live at w.there size h) (ltb (h.size at) size)
            (λ short.
              grow_into-IsGrown live at w.there grants size _ h v big aligned
                (omega (arith, ltb→lt _ _ short)) rep
                (find_from-Taking 0 h.brk (at + h.size at) h.free v.list))
            (λ _. same-IsGrown live at w.there size h v))
        (λ _. same-IsGrown live at w.there size h v)

  unmoved :
      (grants : ℕ → ℕ → Bool) (size : ℕ)
      → IsGrown live at w.there size h (tried grants size)
      → (at + header == p && leb size ((tried grants size).size at)) ≡ false
      → (a : ℕ) → (tried grants size).size a ≡ h.size a
  unmoved grants size g more a = elim (Bool-cases (a == at)) [
    | inl same ↦ ground (arith, g.outcome, more)
    | inr other ↦ g.others a (ground arith)
  ]

  -- `realloc` of a block to `n > 0` bytes, below 2 ^ 31 - 15 or from 2 ^ 31 on, keeps the heap well formed. It
  -- either fails with `ENOMEM`, and every block keeps its size, its bytes and its way back, or gives a block with
  -- room for `n` bytes in exchange for it, whose bytes are those of the old one as far as both reach, and no
  -- byte outside the first `n` of it changes.
  pub realloc-Reallocated :
      (grants : ℕ → ℕ → Bool)
      → n ≢ 0
      → IsRequest n
      → IsHeap live h
      → Reallocated live p n h (realloc grants p n h)
  unfolding realloc
  realloc-Reallocated grants some_bytes request v =
      let size : ℕ = chunk_size_for n in
      if_both (Reallocated live p n h) (p == 0) (λ null. absurd (ground arith))
        λ _.
          if_both (Reallocated live p n h) (n == 0) (λ nothing. absurd (ground arith))
            λ _.
              if_both (Reallocated live p n h) (size == 0)
                (λ huge.
                  (same-IsHeap live h h.back enomem h.ram v, refl, refl, refl, λ a there. refl))
                λ fine.
                  let fits = chunk_size_for-fits n (ground (arith, (chunk_size_for-zero n).1)) in
                  let g =
                    tried-IsGrown grants size v fits.1 fits.2 (chunk_size_for-rep n request) in
                  let t : Heap = tried grants size in
                  if_both (Reallocated live p n h) (at + header == p && leb size (t.size at))
                    (λ done.
                      trimmed-Reallocated size t g.heap g.ram (ground arith) fits.0 fits.1 fits.2
                        (ground arith))
                    (λ more.
                      move_block-Reallocated t _ g.ram g.back (unmoved grants size g more)
                        (malloc-Served grants live n t request g.heap)
                        (malloc-Untouched grants n t))
