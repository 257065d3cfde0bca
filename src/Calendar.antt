-- ===== src/Calendar.antt =====
-- localtime.c: the broken-down time of a number of seconds since 1970, and back. A `time_t`, the fields of a
-- `struct tm` and `timezone` are signed numbers of 32 bits: those below zero are the numbers from 2 ^ 31 on.
-- `timezone` is what `gettimeofday` reports, in seconds west, and a parameter. In `mktime` the year is not before
-- 1900 and the month not negative, as `tp2tm` gives them; its sums wrap around where the code overflows.
pub mod Days
mod Examples
use yasos_libc.Base.{
  ℕ, zero, suc, ◌+◌, ◌-◌, ◌*◌, ◌/◌, ◌%◌, ◌^◌, ◌≤◌, ◌<◌, ◌≡◌, refl, sym, ap, ◌∙◌, arith, Bool, true,
  false, not, ◌&&◌, ◌||◌, ltb, leb, ◌==◌, if◌then◌else◌, bit_and, bit_or, bit_xor, leb→le, ltb→lt,
  lt→ltb, le→leb, ltb-false, leb-false, tests, ==_iff, Bool-cases, Option-cases, inl, inr, ◌⊎◌, ◌≢◌,
  ◌↔◌, if_both, Option, none, some, List, [], ◌∷◌, ◌++◌, map, length, get_or, length-append, take,
  drop,
}
use yasos_libc.Base.Loop.{while, while_inv}

pub record Tm : Type 0 where
  pub sec : ℕ
  pub min : ℕ
  pub hour : ℕ
  pub mday : ℕ
  pub mon : ℕ
  pub year : ℕ
  pub wday : ℕ
  pub yday : ℕ

abbrev pub spd : ℕ
spd = 24 * 60 * 60

unfoldable pub isleap : ℕ → Bool
isleap y = (y % 4 == 0 && not (y % 100 == 0)) || y % 400 == 0

-- `365 + isleap(i)`
unfoldable pub year_days : ℕ → ℕ
year_days i = if isleap i then 366 else 365

unfoldable pub dpm : ℕ → ℕ
dpm i = get_or (31 ∷ 28 ∷ 31 ∷ 30 ∷ 31 ∷ 30 ∷ 31 ∷ 31 ∷ 30 ∷ 31 ∷ 30 ∷ 31 ∷ []) i 0

-- `for (i = 1970; days >= 365 + isleap(i); i++)`, which leaves the year and the days.
pub year_loop : ℕ → ℕ → ℕ → ℕ × ℕ
year_loop zero i days = (i, days)
year_loop (suc fuel) i days =
    let rest = year_loop fuel (i + 1) (days - year_days i) in
    if leb (year_days i) days then rest else (i, days)

-- `for (i = 0; i < 11 && days >= dpm[i]; i++)`
pub month_loop : ℕ → ℕ → ℕ → ℕ × ℕ
month_loop zero i days = (i, days)
month_loop (suc fuel) i days =
    let rest = month_loop fuel (i + 1) (days - dpm i) in
    if ltb i 11 && leb (dpm i) days then rest else (i, days)

-- `tm_mon` and `tm_mday` of a day of the year.
pub month_day : Bool → ℕ → ℕ × ℕ
month_day leap days =
    let mday = if leap && days == 59 then 2 else 1 in
    let (i, left) = month_loop 11 0 (if leap && leb 59 days then days - 1 else days) in
    (i, mday + left)

-- `tp2tm` of a time from 1970 on.
pub since_1970 : ℕ → Tm
since_1970 t =
    let days = t / spd in
    let rem = t % spd in
    let (i, yday) = year_loop (suc days) 1970 days in
    let (mon, mday) = month_day (isleap i) yday in
    record {
      sec = rem % 60;
      min = rem / 60 % 60;
      hour = rem / 60 / 60;
      mday = mday;
      mon = mon;
      year = i - 1900;
      wday = (4 + days) % 7;
      yday = yday;
    }

-- A signed number below zero.
abbrev pub minus : ℕ → ℕ
minus n = (2 ^ 32 - n) % 2 ^ 32

-- `tp2tm` of `n` seconds before 1970: the quotients and the remainders are those of C, towards zero, and neither
-- loop makes a round.
pub before_1970 : ℕ → Tm
before_1970 n =
    let days = n / spd in
    let rem = n % spd in
    record {
      sec = minus (rem % 60);
      min = minus (rem / 60 % 60);
      hour = minus (rem / 60 / 60);
      mday = (1 + minus days) % 2 ^ 32;
      mon = 0;
      year = 70;
      wday = if leb days 4 then 4 - days else minus ((days - 4) % 7);
      yday = minus days;
    }

pub tp2tm : ℕ → Tm
tp2tm t = if ltb t (2 ^ 31) then since_1970 t else before_1970 (2 ^ 32 - t)

pub localtime : ℕ → ℕ → Tm
localtime timezone t = tp2tm ((t + (2 ^ 32 - timezone)) % 2 ^ 32)

pub gmtime : ℕ → Tm
gmtime t = tp2tm t

-- `for (i = 70; i < tm->tm_year; i++)`, with `left` rounds to go.
pub days_loop : ℕ → ℕ → ℕ → ℕ
days_loop zero i d = d
days_loop (suc left) i d = days_loop left (i + 1) (d + year_days (1900 + i))

-- `for (i = 0; i < tm->tm_mon; i++)`, with `left` rounds to go.
pub yday_loop : ℕ → ℕ → ℕ → ℕ
yday_loop zero i yday = yday
yday_loop (suc left) i yday = yday_loop left (i + 1) (yday + dpm i)

-- The value that `mktime` stores in `tm_yday`.
pub yday_of : Bool → ℕ → ℕ → ℕ
yday_of leap mon mday =
    let yday = yday_loop mon 0 (mday + (2 ^ 32 - 1)) in
    (if leap && ltb 1 mon then yday + 1 else yday) % 2 ^ 32

pub mktime : ℕ → Tm → ℕ × Tm
mktime timezone tm =
    let s = tm.hour * 3600 + tm.min * 60 + tm.sec in
    let yday = yday_of (isleap (1900 + tm.year)) tm.mon tm.mday in
    let d = days_loop (tm.year - 70) 70 0 + yday in
    ((d * 24 * 3600 + s + timezone) % 2 ^ 32, record tm { yday = yday })
