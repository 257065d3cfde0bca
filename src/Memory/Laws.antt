-- ===== src/Memory/Laws.antt =====
-- What one byte or word access does, address by address.
use yasos_libc.Base.{ℕ, ◌+◌, ◌-◌, ◌*◌, ◌%◌, ◌≡◌, ◌^◌, ◌<◌, arith, if◌then◌else◌}
use yasos_libc.Memory.{Ram, IsBytes, inside, store8, load32, store32}

pub store8-inside : (m : Ram) (p v a : ℕ) → store8 m p v a ≡ (if inside p 1 a then v else m a)
unfolding store8
store8-inside m p v a = ground arith

-- A word of four equal bytes fills four cells.
pub store32-fill :
    (m : Ram) (p b a : ℕ)
    → b < 256
    → store32 m p (0x01010101 * b % 2 ^ 32) a ≡ (if inside p 4 a then b else m a)
unfolding store32
store32-fill m p b a h = ground arith

-- A word that is loaded and stored moves four bytes.
pub store32-load32 :
    (m : Ram) (d s a : ℕ)
    → IsBytes m
    → store32 m d (load32 m s) a ≡ (if inside d 4 a then m (s + (a - d)) else m a)
unfolding store32 load32
store32-load32 m d s a bytes = ground (arith, bytes s, bytes (s + 1), bytes (s + 2), bytes (s + 3))
