-- ===== src/NoosHeap/Blocks.antt =====
-- `malloc`, `calloc` and `free` on a well-formed heap.
use yasos_libc.Base.{
  ℕ, zero, suc, ◌+◌, ◌-◌, ◌*◌, ◌/◌, ◌%◌, ◌^◌, ◌≤◌, ◌<◌, ◌≡◌, refl, ap, arith, Bool, true, false,
  not, ◌&&◌, ◌||◌, ltb, ◌==◌, if◌then◌else◌, Bool-cases, inl, inr, ◌⊎◌, ◌≢◌, ◌↔◌, if_both, Option,
  none, some,
}
use mathlib.Core.Path.{subst}
use native.Mathlib.Nat.{le-div_iff_mul-le}
use yasos_libc.FreeList.{Chunk, header, min_chunk, covers}
use yasos_libc.FreeList.Release.{starts, release_again, release-covers}
use yasos_libc.Base.Bits.{bit_and_seven}
use yasos_libc.Memory.{inside}
use yasos_libc.MemOps.Fill.{memset-inside}
use yasos_libc.NoosHeap.{
  Heap, size_max, enomem, round_up, chunk_size_for, chunk_of, chunk_at, put_back, hand_out, free,
  malloc, clear_payload, calloc,
}
use yasos_libc.NoosHeap.Invariant.{
  Live, add, remove, IsHeap, put_back-IsHeap, hand_out-IsHeap, same-IsHeap,
}
use yasos_libc.NoosHeap.Grow.{Found, find_chunk-Found, malloc-Untouched, Untouched}

-- A request that can be represented gets room for itself and the header, in whole units of 8.
pub chunk_size_for-fits :
    (n : ℕ)
    → n ≤ size_max / 2
    → (n + header ≤ chunk_size_for n)
      × (min_chunk ≤ chunk_size_for n)
      × (chunk_size_for n % 8 ≡ 0)
      × (chunk_size_for n ≤ n + 16)
unfolding chunk_size_for round_up
chunk_size_for-fits n h = ground (arith, bit_and_seven ((n + header + 7) % 2 ^ 32))

pub chunk_size_for-zero : (n : ℕ) → (chunk_size_for n ≡ 0) ↔ (size_max / 2 < n)
unfolding chunk_size_for
chunk_size_for-zero n = ground arith

-- A request whose chunk has a size below 2 ^ 31, or one that is refused as too large. The sizes between them
-- reach `sbrk` as negative increments.
abbrev pub IsRequest : ℕ → Type 0
IsRequest n = (n ≤ 2 ^ 31 - 16) ⊎ (2 ^ 31 ≤ n)

pub chunk_size_for-rep : (n : ℕ) → IsRequest n → chunk_size_for n < 2 ^ 31
unfolding chunk_size_for round_up
chunk_size_for-rep n (inl small) = ground (arith, bit_and_seven ((n + header + 7) % 2 ^ 32))
chunk_size_for-rep n (inr huge) = ground arith

-- `p` is the payload of a plain block of at least `n` bytes.
pub record IsBlock (n p : ℕ) (h : Heap) : Type 0 where
  pub above : header ≤ p
  pub aligned : p % 8 ≡ 0
  pub plain : h.back p ≡ 0
  pub room : n + header ≤ h.size (p - header)

-- The outcome of `malloc(n)` on `h`: on failure `errno` is set and no block changes; on success the
-- chunk of the result was not handed out before, and now is, and no other block changes its size.
abbrev pub Served : Live → ℕ → Heap → Option ℕ × Heap → Type 0
Served live n h (none, h') = IsHeap live h' × (h'.errno ≡ enomem) × (h'.size ≡ h.size)
Served live n h (some p, h') =
    IsHeap (add (p - header) live) h'
    × IsBlock n p h'
    × (live (p - header) ≡ false)
    × ((a : ℕ) → live a ≡ true → h'.size a ≡ h.size a)

hand_out-Served :
    (live : Live) (n size : ℕ) (h : Heap) (r : Option Chunk × Heap)
    → Found live size h r
    → n + header ≤ size
    → Served live n h (hand_out r)
unfolding hand_out
hand_out-Served live n size h (none, h') (v, same) room =
    (same-IsHeap live h' h'.back enomem h'.ram v, refl, same)
hand_out-Served live n size h (some c, h') (v, same, f, big) room =
    let e : c.at ≡ c.at + header - header = omega arith in
    let fresh : live c.at ≡ false = elim (Bool-cases (live c.at)) [
      | inl taken ↦ absurd (omega (arith, f.live_apart c.at taken, f.chunk, v.chunk c.at taken))
      | inr unused ↦ unused
    ] in
    (
      subst (λ a. IsHeap (add a live) (hand_out (some c, h')).1) e (hand_out-IsHeap live h' c v f),
      record {
        above = omega arith;
        aligned = omega (arith, f.chunk);
        plain = ground arith;
        room = ground arith;
      },
      subst (λ a. live a ≡ false) e fresh,
      λ a taken. ground (arith, fresh, ap (λ (g : ℕ → ℕ). g a) same),
    )

module _ (grants : ℕ → ℕ → Bool) where
  -- For a request below 2 ^ 31 - 15 bytes, or of 2 ^ 31 and more, `malloc` keeps the heap well formed and hands
  -- out an aligned block of at least `n` bytes that shares no byte with another block, or fails with `ENOMEM`.
  pub malloc-Served :
      (live : Live) (n : ℕ) (h : Heap)
      → IsRequest n
      → IsHeap live h
      → Served live n h (malloc grants n h)
  unfolding malloc
  malloc-Served live n h request v =
      if_both (Served live n h) (chunk_size_for n == 0)
        (λ huge. (same-IsHeap live h h.back enomem h.ram v, refl, refl))
        λ small.
          let fits = chunk_size_for-fits n (ground (arith, (chunk_size_for-zero n).1)) in
          hand_out-Served live n (chunk_size_for n) h _
            (find_chunk-Found grants live (chunk_size_for n) h v fits.1 fits.2
              (chunk_size_for-rep n request))
            fits.0

-- Freeing a block keeps the heap well formed: its chunk is not handed out any more, and just its bytes
-- are added to the free ones.
pub free-IsHeap :
    (live : Live) (p : ℕ) (h : Heap)
    → p ≢ 0
    → IsHeap live h
    → live (chunk_of h p) ≡ true
    → IsHeap (remove (chunk_of h p) live) (free p h)
      × ((a : ℕ)
          → covers (free p h).free a
            ≡ (inside (chunk_of h p) (h.size (chunk_of h p)) a || covers h.free a))
unfolding free put_back
free-IsHeap live p h ne v there =
    let plain : (p == 0) ≡ false = ground arith in
    rw plain (
      put_back-IsHeap live h (chunk_of h p) v there,
      λ a.
          release-covers h.brk h.free (chunk_at h (chunk_of h p)) a v.list
            (v.free_apart (chunk_of h p) there) (omega (arith, v.chunk (chunk_of h p) there)),
    )

-- A free of `NULL`, and of a block whose chunk stands on the free list, changes nothing.
pub free_again :
    (live : Live) (p : ℕ) (h : Heap)
    → IsHeap live h
    → (p ≡ 0) ⊎ (starts h.free (chunk_of h p) ≡ true)
    → free p h ≡ h
unfolding free put_back
free_again live p h v again =
    ground (arith, release_again h.brk h.free (chunk_at h (chunk_of h p)) v.list)

clear_payload-Served :
    (live : Live) (n : ℕ) (h : Heap) (r : Option ℕ × Heap)
    → Served live n h r
    → Served live n h (clear_payload n r)
unfolding clear_payload
clear_payload-Served live n h (none, h') s = s
clear_payload-Served live n h (some p, h') (v, b, fresh, same) = (
  same-IsHeap (add (p - header) live) h' h'.back h'.errno _ v,
  record { above = b.above; aligned = b.aligned; plain = b.plain; room = b.room },
  fresh,
  same,
)

-- The bytes of a block read as zero, and no other payload byte changes.
abbrev pub IsCleared : ℕ → Heap → Option ℕ × Heap → Type 0
IsCleared n h (none, h') = h'.ram ≡ h.ram
IsCleared n h (some p, h') = (a : ℕ) → h'.ram a ≡ (if inside p n a then 0 else h.ram a)

product_fits : (n sz : ℕ) → (not (sz == 0) && ltb (size_max / sz) n) ≡ false → n * sz < 2 ^ 32
product_fits n zero h = omega arith
product_fits n (suc k) h =
    let le : n ≤ size_max / suc k = ground arith in
    omega (arith, (le-div_iff_mul-le {k = suc k} {x = n} {y = size_max} (omega arith)).0 le)

Untouched-ram : (h : Heap) (r : Option ℕ × Heap) → Untouched h r → r.1.ram ≡ h.ram
Untouched-ram h (none, h') u = u.0
Untouched-ram h (some p, h') u = u.0

clear_payload-IsCleared :
    (n : ℕ) (h : Heap) (r : Option ℕ × Heap)
    → n < 2 ^ 32
    → r.1.ram ≡ h.ram
    → IsCleared n h (clear_payload n r)
unfolding clear_payload
clear_payload-IsCleared n h (none, h') fits same = same
clear_payload-IsCleared n h (some p, h') fits same =
    λ a. ground (arith, memset-inside h'.ram p 0 n fits a, ap (λ (g : ℕ → ℕ). g a) same)

module _ (grants : ℕ → ℕ → Bool) where
  -- For a product below 2 ^ 31 - 15, or of 2 ^ 31 and more, `calloc` serves `n * sz` bytes like `malloc`, or fails
  -- with `ENOMEM`, also where the product cannot be represented; the bytes it serves are zero, and no other
  -- payload byte changes.
  pub calloc-Served :
      (live : Live) (n sz : ℕ) (h : Heap)
      → IsRequest (n * sz)
      → IsHeap live h
      → Served live (n * sz) h (calloc grants n sz h) × IsCleared (n * sz) h (calloc grants n sz h)
  unfolding calloc
  calloc-Served live n sz h request v =
      if_both (λ r. Served live (n * sz) h r × IsCleared (n * sz) h r)
        (not (sz == 0) && ltb (size_max / sz) n)
        (λ huge. ((same-IsHeap live h h.back enomem h.ram v, refl, refl), refl))
        (λ fits. (
          clear_payload-Served live (n * sz) h _ (malloc-Served grants live (n * sz) h request v),
          clear_payload-IsCleared (n * sz) h _ (product_fits n sz fits)
              (Untouched-ram h _ (malloc-Untouched grants (n * sz) h)),
        ))
