-- ===== src/NoosHeap.antt =====
-- noos/malloc.c, the allocator of the build without an operating system. The free list is that of
-- FreeList. The words of a chunk that is handed out are kept by address: its `size`, and the word in
-- front of each payload as the distance `back` to the payload that `malloc` gave (0 for a plain
-- block). `ram` holds the payload bytes. The hook `_sbrk` belongs to the embedding program: `grants b
-- n` says whether it moves the break at `b` by the increment `n`, an `intptr_t` on 32 bits. The lock hooks do nothing.
pub mod Invariant
pub mod Grow
pub mod Blocks
pub mod Align
pub mod Resize
pub mod Realloc
mod Examples
use yasos_libc.Base.{
  ℕ, zero, suc, ◌+◌, ◌-◌, ◌*◌, ◌/◌, ◌%◌, ◌^◌, ◌≤◌, ◌<◌, ◌≡◌, refl, sym, ap, ◌∙◌, arith, Bool, true,
  false, not, ◌&&◌, ◌||◌, ltb, leb, ◌==◌, if◌then◌else◌, bit_and, bit_or, bit_xor, leb→le, ltb→lt,
  lt→ltb, le→leb, ltb-false, leb-false, tests, ==_iff, Bool-cases, Option-cases, inl, inr, ◌⊎◌, ◌≢◌,
  ◌↔◌, if_both, Option, none, some, List, [], ◌∷◌, ◌++◌, map, length, get_or, length-append,
}
use yasos_libc.Base.Loop.{while, while_inv}
use yasos_libc.FreeList.{
  Chunk, header, min_chunk, chunk_end, release, take_fit, last_chunk, find_from,
}
use yasos_libc.Memory.{Ram}
use yasos_libc.MemOps.{memset, memcpy}

abbrev pub size_max : ℕ
size_max = 2 ^ 32 - 1

abbrev pub enomem : ℕ
enomem = 12

abbrev pub einval : ℕ
einval = 22

pub record Heap : Type 0 where
  pub free : List Chunk
  pub size : ℕ → ℕ
  pub back : ℕ → ℕ
  pub brk : ℕ
  pub errno : ℕ
  pub ram : Ram

abbrev pub update : (ℕ → ℕ) → ℕ → ℕ → ℕ → ℕ
update f k v a = if a == k then v else f a

-- `x & ~7` is `x` less its low three bits.
pub round_up : ℕ → ℕ
round_up n = let x = (n + 7) % 2 ^ 32 in x - bit_and x 7

pub chunk_size_for : ℕ → ℕ
chunk_size_for n =
    let size = round_up (n + header) in
    if ltb (size_max / 2) n then 0 else if ltb size min_chunk then min_chunk else size

abbrev pub chunk_of : Heap → ℕ → ℕ
chunk_of h p = p - h.back p - header

-- The chunk at `at` with its size word.
abbrev pub chunk_at : Heap → ℕ → Chunk
chunk_at h at = record { at = at; size = h.size at }

-- `release(c)` for a chunk that is handed out.
pub put_back : Chunk → Heap → Heap
put_back c h = record h { free = release h.free c }

-- `trim(c, size)`
pub trim : ℕ → ℕ → Heap → Heap
trim at size h =
    let rest = h.size at - size in
    if ltb rest min_chunk
    then h
    else put_back (record { at = at + size; size = rest })
        (record h { size = update h.size at size })

pub free : ℕ → Heap → Heap
free p h = if p == 0 then h else put_back (chunk_at h (chunk_of h p)) h

pub malloc_usable_size : ℕ → Heap → ℕ
malloc_usable_size p h = if p == 0 then 0 else chunk_end (chunk_at h (chunk_of h p)) - p

-- The header words of a chunk that is handed out, and the pointer to its payload.
pub hand_out : Option Chunk × Heap → Option ℕ × Heap
hand_out (none, h) = (none, record h { errno = enomem })
hand_out (some c, h) = (
  some (c.at + header),
  record h { size = update h.size c.at c.size; back = update h.back (c.at + header) 0 },
)

-- `heap_grow` after the break was asked for.
pub extended : ℕ → Chunk → List Chunk → Option ℕ × Heap → Option Chunk × Heap
extended size top rest (none, h) = (none, h)
extended size top rest (some _, h) = (some (record top { size = size }), record h { free = rest })

pub padded : ℕ → ℕ → Option ℕ × Heap → Option Chunk × Heap
padded pad size (none, h) = (none, h)
padded pad size (some base, h) = (some (record { at = base + pad; size = size }), h)

-- `realloc` after the break was asked for.
pub pushed : ℕ → ℕ → Option ℕ × Heap → Heap
pushed at size (none, h) = h
pushed at size (some _, h) = record h { size = update h.size at size }

pub clear_payload : ℕ → Option ℕ × Heap → Option ℕ × Heap
clear_payload n (none, h) = (none, h)
clear_payload n (some p, h) = (some p, record h { ram = memset h.ram p 0 n })

-- The block moved: a new one, the bytes of the old one copied, and the old one freed.
pub move_block : ℕ → ℕ → Option ℕ × Heap → Option ℕ × Heap
move_block p n (none, h) = (none, h)
move_block p n (some q, h) =
    let kept = malloc_usable_size p h in
    (some q, free p (record h { ram = memcpy h.ram q p (if ltb kept n then kept else n) }))

-- The first aligned address of the payload, with the way back in the word in front of it.
pub align_block : ℕ → Option ℕ × Heap → Option ℕ × Heap
align_block alignment (none, h) = (none, h)
align_block alignment (some p, h) =
    let x = p + alignment - 1 in
    let aligned = x - bit_and x (alignment - 1) in
    (
      some aligned,
      if aligned == p then h else record h { back = update h.back aligned (aligned - p) },
    )

pub stored : Option ℕ × Heap → ℕ × Option ℕ × Heap
stored (none, h) = (enomem, none, h)
stored (some p, h) = (0, some p, h)

-- The break behind an increment, which is negative from 2 ^ 31 on.
abbrev pub moved_by : ℕ → ℕ → ℕ
moved_by brk n = if ltb n (2 ^ 31) then brk + n else brk + n - 2 ^ 32

module _ (grants : ℕ → ℕ → Bool) where
  -- The old break if it was moved. The `size_t` that the allocator passes is an `intptr_t` here.
  pub sbrk : ℕ → Heap → Option ℕ × Heap
  sbrk n h = if grants h.brk n then (some h.brk, record h { brk = moved_by h.brk n }) else (none, h)

  -- The highest free chunk, which ends at the break, made `size` bytes long.
  pub extend_top : ℕ → Chunk → List Chunk → Heap → Option Chunk × Heap
  extend_top size top rest h = extended size top rest (sbrk (size - top.size) h)

  -- `(size_t)(-(uintptr_t)brk) & 7` bytes of padding, and a chunk behind them.
  pub new_top : ℕ → ℕ → Heap → Option Chunk × Heap
  new_top size brk h =
      let pad = bit_and (2 ^ 32 - brk % 2 ^ 32) 7 in padded pad size (sbrk (pad + size) h)

  pub grow_at : ℕ → Option (Chunk × List Chunk) → Option ℕ × Heap → Option Chunk × Heap
  grow_at size top (none, h) = (none, h)
  grow_at size none (some brk, h) = new_top size brk h
  grow_at size (some (top, rest)) (some brk, h) =
      if chunk_end top == brk then extend_top size top rest h else new_top size brk h

  pub heap_grow : ℕ → Heap → Option Chunk × Heap
  heap_grow size h = grow_at size (last_chunk h.free) (sbrk 0 h)

  -- The chunk that the list search found, or one from the break.
  pub find_chunk : ℕ → Option (Chunk × List Chunk) → Heap → Option Chunk × Heap
  find_chunk size none h = heap_grow size h
  find_chunk size (some (c, rest)) h = (some c, record h { free = rest })

  pub malloc : ℕ → Heap → Option ℕ × Heap
  malloc n h =
      let size = chunk_size_for n in
      if size == 0
      then (none, record h { errno = enomem })
      else hand_out (find_chunk size (take_fit size h.free) h)

  pub calloc : ℕ → ℕ → Heap → Option ℕ × Heap
  calloc n sz h =
      if not (sz == 0) && ltb (size_max / sz) n
      then (none, record h { errno = enomem })
      else clear_payload (n * sz) (malloc (n * sz) h)

  -- The chunk at `at`, if it ends at the break, made `size` bytes long.
  pub push_break : ℕ → ℕ → Option ℕ × Heap → Heap
  push_break at size (none, h) = h
  push_break at size (some brk, h) =
      if at + h.size at == brk then pushed at size (sbrk (size - h.size at) h) else h

  -- The chunk at `at` grown in place to `size` bytes: into the free chunk behind it, or at the break.
  pub grow_into : ℕ → ℕ → Option (Chunk × List Chunk) → Heap → Heap
  grow_into at size none h = push_break at size (sbrk 0 h)
  grow_into at size (some (f, rest)) h =
      if f.at == at + h.size at && leb size (h.size at + f.size)
      then record h { free = rest; size = update h.size at (h.size at + f.size) }
      else h

  pub realloc : ℕ → ℕ → Heap → Option ℕ × Heap
  realloc p n h =
      let size = chunk_size_for n in
      let at = chunk_of h p in
      let grown =
        if ltb (h.size at) size
        then grow_into at size (find_from (at + h.size at) h.free) h
        else h in
      let tried = if at + header == p then grown else h in
      if p == 0
      then malloc n h
      else if n == 0
      then (none, free p h)
      else if size == 0
      then (none, record h { errno = enomem })
      else if at + header == p && leb size (tried.size at)
      then (some p, trim at size tried)
      else move_block p n (malloc n tried)

  pub memalign : ℕ → ℕ → Heap → Option ℕ × Heap
  memalign alignment n h =
      if alignment == 0 || not (bit_and alignment (alignment - 1) == 0)
      then (none, record h { errno = einval })
      else if leb alignment 8
      then malloc n h
      else if ltb (size_max / 2) n
      then (none, record h { errno = enomem })
      else align_block alignment (malloc ((n + alignment - 8) % 2 ^ 32) h)

  pub aligned_alloc : ℕ → ℕ → Heap → Option ℕ × Heap
  aligned_alloc alignment n h = memalign alignment n h

  -- The result and what is stored in `*memptr`.
  pub posix_memalign : ℕ → ℕ → Heap → ℕ × Option ℕ × Heap
  posix_memalign alignment n h =
      if ltb alignment 4 || not (bit_and alignment (alignment - 1) == 0)
      then (einval, none, h)
      else stored (memalign alignment n h)
