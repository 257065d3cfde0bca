-- ===== src/Calendar/Days.antt =====
-- The days of the years and of the months, there and back.
use yasos_libc.Base.{
  ℕ, zero, suc, ◌+◌, ◌-◌, ◌*◌, ◌/◌, ◌%◌, ◌^◌, ◌≤◌, ◌<◌, ◌≡◌, refl, ap, ◌∙◌, arith, Bool, true,
  false, ◌&&◌, ltb, leb, ◌==◌, if◌then◌else◌, leb→le, lt→ltb, Bool-cases, inl, inr, ◌⊎◌, if_both,
}
use mathlib.Core.Path.{subst}
use yasos_libc.Calendar.{
  Tm, spd, isleap, year_days, dpm, year_loop, month_loop, month_day, tp2tm, since_1970, localtime,
  days_loop, yday_loop, yday_of, mktime,
}

-- The number of days of a month.
unfoldable pub month_length : Bool → ℕ → ℕ
month_length leap mon = if leap && mon == 1 then 29 else dpm mon

-- Every day of a year has its month and its day, and they lead back to it.
day_is : Bool → ℕ → Bool
day_is leap yday =
    let (mon, mday) = month_day leap yday in
    ltb mon 12 && ltb 0 mday && leb mday (month_length leap mon) && yday_of leap mon mday == yday

all_below : ℕ → (ℕ → Bool) → Bool
all_below zero p = true
all_below (suc n) p = p n && all_below n p

≡_or_lt : (k n : ℕ) → k < suc n → (k ≡ n) ⊎ (k < n)
≡_or_lt k n lt = ground arith

all_below-at : (n : ℕ) (p : ℕ → Bool) (k : ℕ) → all_below n p ≡ true → k < n → p k ≡ true
unfolding all_below
all_below-at zero p k all lt = absurd (omega arith)
all_below-at (suc n) p k all lt = elim (≡_or_lt k n lt) [
  | inl same ↦ ap p same ∙ ground arith
  | inr below ↦ all_below-at n p k (ground arith) (omega arith)
]

leap_days : all_below 366 (day_is true) ≡ true
unfolding all_below day_is month_day month_loop month_length yday_of yday_loop dpm
leap_days = refl

common_days : all_below 365 (day_is false) ≡ true
unfolding all_below day_is month_day month_loop month_length yday_of yday_loop dpm
common_days = refl

-- The years from 1900 + j on that a walk over `days` days passes, and the days that are left.
abbrev pub Passed : ℕ → ℕ → ℕ → ℕ × ℕ → Type 0
Passed j days d (y, left) =
    (k : ℕ) × (y ≡ 1900 + j + k) × (left < year_days y) × (days_loop k j d + left ≡ d + days)

Passed-next :
    (j days d : ℕ) (r : ℕ × ℕ)
    → year_days (1900 + j) ≤ days
    → Passed (j + 1) (days - year_days (1900 + j)) (d + year_days (1900 + j)) r
    → Passed j days d r
unfolding days_loop
Passed-next j days d (y, left) le (k, year, small, total) = (suc k, omega arith, small, omega arith)

year_days-pos : (y : ℕ) → 0 < year_days y
unfolding year_days
year_days-pos y = ground arith

-- The walk over the years ends within a year, and the days of the years that it passes are those
-- `mktime` adds up.
year_loop-Passed :
    (fuel j days d : ℕ) → days < fuel → Passed j days d (year_loop fuel (1900 + j) days)
unfolding year_loop
year_loop-Passed zero j days d enough = absurd (omega arith)
year_loop-Passed (suc fuel) j days d enough =
    if_both (Passed j days d) (leb (year_days (1900 + j)) days)
      (λ more.
        let le = leb→le (year_days (1900 + j)) days more in
        let e : 1900 + (j + 1) ≡ 1900 + j + 1 = omega arith in
        Passed-next j days d _ le (
          subst
            (λ y.
              Passed (j + 1) (days - year_days (1900 + j)) (d + year_days (1900 + j))
                (year_loop fuel y (days - year_days (1900 + j))))
            e
            (year_loop-Passed fuel (j + 1) (days - year_days (1900 + j)) (d + year_days (1900 + j))
              (omega (arith, year_days-pos (1900 + j))))))
      (λ end. ended (ground arith))
  where
    ended : days < year_days (1900 + j) → Passed j days d (1900 + j, days)
    ended lt = unfold days_loop in (0, omega arith, lt, refl)

-- `day_is` for every day of a year.
day_is-all : (y yday : ℕ) → yday < year_days y → day_is (isleap y) yday ≡ true
unfolding year_days
day_is-all y yday lt = elim (Bool-cases (isleap y)) [
  | inl leap ↦ rw (leap) (all_below-at 366 (day_is true) yday leap_days (ground arith))
  | inr common ↦ rw (common) (all_below-at 365 (day_is false) yday common_days (ground arith))
]

-- What `day_is` tests, as facts.
day_is-parts :
    (leap : Bool) (yday : ℕ)
    → day_is leap yday ≡ true
    → ((month_day leap yday).0 < 12)
      × (0 < (month_day leap yday).1)
      × ((month_day leap yday).1 ≤ month_length leap (month_day leap yday).0)
      × (yday_of leap (month_day leap yday).0 (month_day leap yday).1 ≡ yday)
unfolding day_is
day_is-parts leap yday h = ground arith

-- A day, a month and a year of the calendar, and a time of day.
pub record IsTime (tm : Tm) : Type 0 where
  pub sec : tm.sec < 60
  pub min : tm.min < 60
  pub hour : tm.hour < 24
  pub mon : tm.mon < 12
  pub mday : (0 < tm.mday) × (tm.mday ≤ month_length (isleap (1900 + tm.year)) tm.mon)
  pub year : 70 ≤ tm.year
  pub yday : yday_of (isleap (1900 + tm.year)) tm.mon tm.mday ≡ tm.yday
  pub within : tm.yday < year_days (1900 + tm.year)

since_1970-IsTime : (t : ℕ) → IsTime (since_1970 t)
unfolding since_1970
since_1970-IsTime t =
    let days = t / spd in
    let (k, year, small, total) = year_loop-Passed (suc days) 70 days 0 (omega arith) in
    let y = (year_loop (suc days) 1970 days).0 in
    let yday = (year_loop (suc days) 1970 days).1 in
    let whole : 1900 + (y - 1900) ≡ y = omega arith in
    let parts = day_is-parts (isleap y) yday (day_is-all y yday small) in
    record {
      sec = omega arith;
      min = omega arith;
      hour = omega arith;
      mon = parts.0;
      mday = (parts.1, rw (whole) (parts.2));
      year = omega arith;
      yday = rw (whole) (parts.3);
      within = rw (whole) small;
    }

since_1970-days :
    (t : ℕ) → days_loop ((since_1970 t).year - 70) 70 0 + (since_1970 t).yday ≡ t / spd
unfolding since_1970
since_1970-days t =
    let days = t / spd in
    let (k, year, small, total) = year_loop-Passed (suc days) 70 days 0 (omega arith) in
    let y = (year_loop (suc days) 1970 days).0 in
    let rounds : y - 1900 - 70 ≡ k = omega arith in rw (rounds) (omega arith)

since_1970-seconds :
    (t : ℕ) → (since_1970 t).hour * 3600 + (since_1970 t).min * 60 + (since_1970 t).sec ≡ t % spd
unfolding since_1970
since_1970-seconds t = omega arith

-- `mktime` takes the broken-down time of a number of seconds back to it, plus the offset of the time
-- zone, on 32 bits, and stores the day of the year that was there.
mktime-since_1970 :
    (timezone t : ℕ) → mktime timezone (since_1970 t) ≡ ((t + timezone) % 2 ^ 32, since_1970 t)
unfolding mktime
mktime-since_1970 timezone t =
    let v = since_1970-IsTime t in
    let tm = since_1970 t in
    let value : ((days_loop (tm.year - 70) 70 0 + tm.yday) * 24 * 3600
            + (tm.hour * 3600 + tm.min * 60 + tm.sec)
            + timezone)
          % 2 ^ 32
        ≡ (t + timezone) % 2 ^ 32 =
      omega (arith, since_1970-days t, since_1970-seconds t) in
    rw (v.yday) (ap (λ (n : ℕ). (n, since_1970 t)) value)

tp2tm-since : (t : ℕ) → t < 2 ^ 31 → tp2tm t ≡ since_1970 t
unfolding tp2tm
tp2tm-since t lt = let late : ltb t (2 ^ 31) ≡ true = lt→ltb t (2 ^ 31) lt in rw (late) refl

-- `mktime` is the inverse of `localtime` for a time below 2 ^ 31 whose local time is from 1970 on and below 2 ^ 31
-- too, west and east of Greenwich: the offset of the zone is a number of 32 bits, which is negative in the east.
pub mktime-localtime :
    (timezone t : ℕ)
    → timezone < 2 ^ 32
    → t < 2 ^ 31
    → (t + (2 ^ 32 - timezone)) % 2 ^ 32 < 2 ^ 31
    → mktime timezone (localtime timezone t) ≡ (t, localtime timezone t)
unfolding localtime
mktime-localtime timezone t zone fits late =
    let local : ℕ = (t + (2 ^ 32 - timezone)) % 2 ^ 32 in
    let back : (local + timezone) % 2 ^ 32 ≡ t = omega arith in
    rw (tp2tm-since local late)
      (mktime-since_1970 timezone local ∙ ap (λ (n : ℕ). (n, since_1970 local)) back)
