-- ===== src/Format/Examples.antt =====
-- The theorems on strftime.c applied to one time.
use yasos_libc.Base.{◌≡◌, arith, true}
use yasos_libc.Calendar.{Tm, tp2tm}
use yasos_libc.Strto.{atoi}
use yasos_libc.Format.{puti}
use yasos_libc.Format.Digits.{atoi-puti}

-- February 29th of 2024, at noon.
abbrev noon : Tm
noon = tp2tm 1709208000

atoi-puti_example : atoi (puti 12024 4 true) ≡ 2024
atoi-puti_example = atoi-puti 12024 4 (omega arith)
