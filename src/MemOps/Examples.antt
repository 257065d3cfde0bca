-- ===== src/MemOps/Examples.antt =====
-- The theorems on the memory routines applied to small regions.
use yasos_libc.MemOps.Seek.{memchr}
use yasos_libc.MemOps.Sought.{FindsByte, memchr-FindsByte}
use yasos_libc.Base.{◌+◌, ◌-◌, ◌%◌, ◌≡◌, arith, if◌then◌else◌, inl}
use yasos_libc.Memory.{Ram, IsBytes, inside}
use yasos_libc.MemOps.{memset, memcpy, memmove}
use yasos_libc.MemOps.Fill.{memset-inside}
use yasos_libc.MemOps.Copy.{memcpy-inside}
use yasos_libc.MemOps.Move.{memmove-inside}

-- Every byte holds the low part of its address.
abbrev ram : Ram
ram a = a % 256

ram-IsBytes : IsBytes ram
ram-IsBytes a = omega arith

memset-inside_example : memset ram 17 300 12 20 ≡ (if inside 17 12 20 then 300 % 256 else ram 20)
memset-inside_example = memset-inside ram 17 300 12 (omega arith) 20

memcpy-inside_example :
    memcpy ram 16 32 13 20 ≡ (if inside 16 13 20 then ram (32 + (20 - 16)) else ram 20)
memcpy-inside_example = memcpy-inside 16 32 13 ram (omega arith) ram-IsBytes (inl (omega arith)) 20

memmove-inside_example :
    memmove ram 20 17 12 25 ≡ (if inside 20 12 25 then ram (17 + (25 - 20)) else ram 25)
memmove-inside_example = memmove-inside ram 20 17 12 (omega arith) ram-IsBytes 25

-- The byte at an address is its lowest one.
memchr-FindsByte_example :
    FindsByte (λ a. a % 256) 3 (1042 % 256) 40 (memchr (λ a. a % 256) 3 1042 40)
memchr-FindsByte_example = memchr-FindsByte (λ a. a % 256) 3 1042 40 (λ a. omega arith)
