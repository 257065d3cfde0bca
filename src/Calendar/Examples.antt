-- ===== src/Calendar/Examples.antt =====
-- The theorems on localtime.c applied to one time.
use yasos_libc.Base.{ℕ, ◌-◌, ◌^◌, ◌≡◌, arith}
use yasos_libc.Calendar.{localtime, mktime}
use yasos_libc.Calendar.Days.{mktime-localtime}

-- February 29th of 2024, at noon.
abbrev noon : ℕ
noon = 1709208000

-- An hour east of Greenwich.
abbrev east : ℕ
east = 2 ^ 32 - 3600

mktime-localtime_example : mktime east (localtime east noon) ≡ (noon, localtime east noon)
mktime-localtime_example = mktime-localtime east noon (omega arith) (omega arith) (omega arith)
