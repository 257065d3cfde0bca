-- ===== src/NoosHeap/Align.antt =====
-- `memalign`: an aligned payload inside a block, which still finds the way back to its chunk.
use yasos_libc.Base.{
  ℕ, suc, ◌+◌, ◌-◌, ◌*◌, ◌/◌, ◌%◌, ◌^◌, ◌≤◌, ◌<◌, ◌≡◌, refl, ap, ◌∙◌, arith, Bool, true, false, not,
  ◌||◌, ltb, leb, ◌==◌, bit_and, leb→le, ltb-false, if_both, Option, none, some,
}
use mathlib.Core.Path.{subst}
use native.Mathlib.Nat.{
  pow-suc, one-le-pow, pow-le-pow_right, mod_self, div-add-mod', mod-lt, mul-mod_left,
}
use yasos_libc.FreeList.{header}
use yasos_libc.Base.Bits.{bit_and_mask}
use yasos_libc.NoosHeap.{
  Heap, size_max, enomem, chunk_of, malloc_usable_size, align_block, memalign,
}
use yasos_libc.NoosHeap.Invariant.{Live, add, same-IsHeap, IsHeap}
use yasos_libc.NoosHeap.Blocks.{Served, malloc-Served, IsRequest}

-- The first multiple of `8 * t` at or above `p`.
align_up :
    (t p : ℕ)
    → 0 < t
    → p % 8 ≡ 0
    → let a = p + 8 * t - 1 - (p + 8 * t - 1) % (8 * t) in
      (p ≤ a) × (a ≤ p + 8 * t - 8) × (a % 8 ≡ 0) × (a % (8 * t) ≡ 0)
align_up t p pos aligned =
    let x = p + 8 * t - 1 in
    let q = x / (8 * t) in
    let whole : q * (8 * t) + x % (8 * t) ≡ x = div-add-mod' x (8 * t) in
    let low : x % (8 * t) < 8 * t = mod-lt x {m = 8 * t} (omega arith) in
    let eq : x - x % (8 * t) ≡ q * (8 * t) = omega arith in
    let even : (x - x % (8 * t)) % 8 ≡ 0 = rw eq (omega arith) in
    (omega arith, omega arith, even, rw eq (mul-mod_left q (8 * t)))

module _ (live : Live) (n t : ℕ) (h : Heap) where
  -- The payload of `memalign(8 * t, n)`.
  pub record IsAligned (q : ℕ) (h' : Heap) : Type 0 where
    pub multiple : q % (8 * t) ≡ 0
    pub room : n ≤ malloc_usable_size q h'
    pub fresh : live (chunk_of h' q) ≡ false
    pub heap : IsHeap (add (chunk_of h' q) live) h'

  abbrev pub ServedAligned : Option ℕ × Heap → Type 0
  ServedAligned (none, h') = IsHeap live h' × (h'.errno ≡ enomem)
  ServedAligned (some q, h') = IsAligned q h' × ((a : ℕ) → live a ≡ true → h'.size a ≡ h.size a)

  -- The header word at `a` leads back to the block at `p`.
  way_back :
      (p a : ℕ) (h' h'' : Heap)
      → p ≤ a
      → a ≤ p + 8 * t - 8
      → a % (8 * t) ≡ 0
      → Served live (n + 8 * t - 8) h (some p, h')
      → 0 < t
      → h''.back a ≡ a - p
      → h''.size ≡ h'.size
      → IsHeap (add (p - header) live) h''
      → IsAligned a h''
  unfolding malloc_usable_size
  way_back p a h' h'' low high multiple (v, b, fresh, same) pos back size heap =
      let e : chunk_of h'' a ≡ p - header = omega (arith, back, b.above) in
      record {
        multiple = multiple;
        room = ground (arith, e, b.room, b.above, ap (λ (g : ℕ → ℕ). g (p - header)) size);
        fresh = rw e fresh;
        heap = rw e heap;
      }

  align_block-ServedAligned :
      (r : Option ℕ × Heap)
      → 0 < t
      → ((x : ℕ) → bit_and x (8 * t - 1) ≡ x % (8 * t))
      → Served live (n + 8 * t - 8) h r
      → ServedAligned (align_block (8 * t) r)
  unfolding align_block
  align_block-ServedAligned (none, h') pos mask s = (s.0, s.1)
  align_block-ServedAligned (some p, h') pos mask s =
      let (low, high, even, multiple) = align_up t p pos s.1.aligned in
      rw (mask (p + 8 * t - 1)) (
        if_both
          (λ g.
            IsAligned (p + 8 * t - 1 - (p + 8 * t - 1) % (8 * t)) g
            × ((a : ℕ) → live a ≡ true → g.size a ≡ h.size a))
          (p + 8 * t - 1 - (p + 8 * t - 1) % (8 * t) == p)
          (λ e. (
            way_back p _ h' h' low high multiple s pos
                (let e' : p + 8 * t - 1 - (p + 8 * t - 1) % (8 * t) ≡ p = ground arith in
                  rw e' (omega (arith, s.1.plain)))
                refl s.0,
            s.3,
          ))
          (λ e. (
            way_back p _ h' _ low high multiple s pos (ground arith) refl
                (same-IsHeap (add (p - header) live) h' _ h'.errno h'.ram s.0),
            s.3,
          )))

  plain-ServedAligned : (r : Option ℕ × Heap) → t ≡ 1 → Served live n h r → ServedAligned r
  plain-ServedAligned (none, h') one s = (s.0, s.1)
  plain-ServedAligned (some p, h') one s =
      let e : n ≡ n + 8 * t - 8 = omega arith in
      (
        way_back p p h' h' (omega arith) (omega arith)
            (let e' : 8 * t ≡ 8 = omega arith in rw e' s.1.aligned)
            (subst (λ m. Served live m h (some p, h')) e s) (omega arith) (omega (arith, s.1.plain))
            refl s.0,
        s.3,
      )

-- The mask of an alignment gives the remainder by it.
mask_eight : (k x : ℕ) → bit_and x (8 * 2 ^ k - 1) ≡ x % (8 * 2 ^ k)
mask_eight k x =
    let e : 2 ^ suc (suc (suc k)) ≡ 8 * 2 ^ k =
      omega (arith, pow-suc 2 k, pow-suc 2 (suc k), pow-suc 2 (suc (suc k))) in
    subst (λ al. bit_and x (al - 1) ≡ x % al) e (bit_and_mask (suc (suc (suc k))) x)

module _ (grants : ℕ → ℕ → Bool) where
  -- An aligned allocation with an alignment of `8 * 2 ^ k` bytes, at most 2 ^ 31, where the request with its
  -- padding is below 2 ^ 31 - 15 bytes, or from 2 ^ 31 on, either fails with
  -- `ENOMEM`, or gives an address that is a multiple of the alignment, with room for `n` bytes, from
  -- which the way back leads to a chunk that was not handed out before and now is; the heap stays well
  -- formed, and the other blocks keep their sizes.
  pub memalign-ServedAligned :
      (live : Live) (k n : ℕ) (h : Heap)
      → k ≤ 28
      → IsRequest (n + 8 * 2 ^ k - 8)
      → IsHeap live h
      → ServedAligned live n (2 ^ k) h (memalign grants (8 * 2 ^ k) n h)
  unfolding memalign
  memalign-ServedAligned live k n h small request v =
      let al = 8 * 2 ^ k in
      let pos : 0 < 2 ^ k = one-le-pow k 2 (omega arith) in
      let bound : 2 ^ k ≤ 2 ^ 28 = pow-le-pow_right (omega arith) small in
      let power : bit_and al (al - 1) ≡ 0 = mask_eight k al ∙ mod_self al in
      if_both (ServedAligned live n (2 ^ k) h) (al == 0 || not (bit_and al (al - 1) == 0))
        (λ bad. absurd (ground (arith, power)))
        λ _.
          if_both (ServedAligned live n (2 ^ k) h) (leb al 8)
            (λ le. plain-ServedAligned live n (2 ^ k) h _ (omega (arith, leb→le _ _ le)) (
              malloc-Served grants live n h
                (subst IsRequest (omega (arith, leb→le _ _ le, pos)) request) v))
            λ gt.
              if_both (ServedAligned live n (2 ^ k) h) (ltb (size_max / 2) n)
                (λ huge. (same-IsHeap live h h.back enomem h.ram v, refl))
                λ fits.
                  let e : (n + al - 8) % 2 ^ 32 ≡ n + al - 8 = omega (arith, ltb-false _ _ fits) in
                  rw e (
                    align_block-ServedAligned live n (2 ^ k) h _ pos (mask_eight k)
                      (malloc-Served grants live (n + al - 8) h request v))
