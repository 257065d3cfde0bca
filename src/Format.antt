-- ===== src/Format.antt =====
-- strftime.c: the text of a broken-down time. `s - beg` is the length of what was written, `room` is `e - s`, and the
-- format is the list of its characters. `timezone` is not negative, as in Calendar. What an index outside of a
-- table of names would read is left out: it gives no characters.
pub mod Digits
pub mod Text
mod Examples
use yasos_libc.Base.{
  ℕ, zero, suc, ◌+◌, ◌-◌, ◌*◌, ◌/◌, ◌%◌, ◌^◌, ◌≤◌, ◌<◌, ◌≡◌, refl, sym, ap, ◌∙◌, arith, Bool, true,
  false, not, ◌&&◌, ◌||◌, ltb, leb, ◌==◌, if◌then◌else◌, bit_and, bit_or, bit_xor, leb→le, ltb→lt,
  lt→ltb, le→leb, ltb-false, leb-false, tests, ==_iff, Bool-cases, Option-cases, inl, inr, ◌⊎◌, ◌≢◌,
  ◌↔◌, if_both, Option, none, some, List, [], ◌∷◌, ◌++◌, map, length, get_or, length-append, take,
  drop,
}
use yasos_libc.Base.Loop.{while, while_inv}
use Prim.Native.String.{String}
use yasos_libc.Base.Text.{codes}
use yasos_libc.Strto.{cur}
use yasos_libc.Calendar.{Tm, mktime}

abbrev pub name_at : List (List ℕ) → ℕ → List ℕ
name_at names i = get_or names i []

abbrev pub wday_ab : List (List ℕ)
wday_ab = map codes ("Sun" ∷ "Mon" ∷ "Tue" ∷ "Wed" ∷ "Thu" ∷ "Fri" ∷ "Sat" ∷ [])

abbrev pub wday : List (List ℕ)
wday =
    map codes
      ("Sunday" ∷ "Monday" ∷ "Tuesday" ∷ "Wednesday" ∷ "Thursday" ∷ "Friday" ∷ "Saturday" ∷ [])

abbrev pub mon_ab : List (List ℕ)
mon_ab = map codes (
    "Jan" ∷ "Feb" ∷ "Mar" ∷ "Apr" ∷ "May" ∷ "Jun" ∷ "Jul" ∷ "Aug" ∷ "Sep" ∷ "Oct" ∷ "Nov" ∷ "Dec"
    ∷ [])

abbrev pub mon : List (List ℕ)
mon = map codes (
    "January" ∷ "February" ∷ "March" ∷ "April" ∷ "May" ∷ "June" ∷ "July" ∷ "August" ∷ "September"
    ∷ "October" ∷ "November" ∷ "December" ∷ [])

-- The loop from the last place to the first, with `left` places to go, in front of what was written.
pub puti_loop : ℕ → ℕ → ℕ → Bool → List ℕ → List ℕ
puti_loop zero n wid zpad written = written
puti_loop (suc i) n wid zpad written =
    let c : ℕ =
      if n == 0 then if not zpad && ltb i (wid - 1) then b' ' else b'0' else b'0' + n % 10 in
    puti_loop i (n / 10) wid zpad (c ∷ written)

pub puti : ℕ → ℕ → Bool → List ℕ
puti n wid zpad = puti_loop wid n wid zpad []

-- `do … while (n)`, whose digits are then taken off in reverse order. `n` has fewer digits than the fuel.
pub putul_loop : ℕ → ℕ → List ℕ → List ℕ
putul_loop zero n written = written
putul_loop (suc fuel) n written =
    let rest = putul_loop fuel (n / 10) ((b'0' + n % 10) ∷ written) in
    if n / 10 == 0 then (b'0' + n % 10) ∷ written else rest

pub putul : ℕ → List ℕ
putul n = putul_loop 24 n []

pub puttz : ℕ → List ℕ
puttz timezone = let d = timezone / 60 in b'-' ∷ (puti (d / 60) 2 true ++ puti (d % 60) 2 true)

abbrev pub hour12 : ℕ → ℕ
hour12 hour = let val : ℕ = if ltb 12 hour then hour - 12 else hour in if val == 0 then 12 else val

-- The directives that write by themselves. `none` is any other character.
pub plain : ℕ → Tm → ℕ → Option (List ℕ)
plain timezone tm c =
    if c == b'%'
    then some (b'%' ∷ [])
    else if c == b'a'
    then some (name_at wday_ab tm.wday)
    else if c == b'A'
    then some (name_at wday tm.wday)
    else if c == b'b' || c == b'h'
    then some (name_at mon_ab tm.mon)
    else if c == b'B'
    then some (name_at mon tm.mon)
    else if c == b'C'
    then some (puti ((1900 + tm.year) / 100) 2 true)
    else if c == b'd'
    then some (puti tm.mday 2 true)
    else if c == b'e'
    then some (puti tm.mday 2 false)
    else if c == b'H' || c == b'k'
    then some (puti tm.hour 2 true)
    else if c == b'I'
    then some (puti (hour12 tm.hour) 2 true)
    else if c == b'j'
    then some (puti (tm.yday + 1) 3 true)
    else if c == b'm'
    then some (puti (tm.mon + 1) 2 true)
    else if c == b'M'
    then some (puti tm.min 2 true)
    else if c == b'n'
    then some (10 ∷ [])
    else if c == b'p'
    then some (codes (if leb 12 tm.hour then "PM" else "AM"))
    else if c == b'P'
    then some (codes (if leb 12 tm.hour then "pm" else "am"))
    else if c == b's'
    then some (putul (mktime timezone tm).0)
    else if c == b'S'
    then some (puti tm.sec 2 true)
    else if c == b't'
    then some (9 ∷ [])
    else if c == b'u'
    then some (puti (if tm.wday == 0 then 7 else tm.wday) 1 false)
    else if c == b'w'
    then some (puti tm.wday 1 false)
    else if c == b'y'
    then some (puti (tm.year % 100) 2 true)
    else if c == b'Y'
    then some (puti (1900 + tm.year) 4 true)
    else if c == b'z'
    then some (puttz timezone)
    else if c == b'Z'
    then some (codes "UTC")
    else none

-- The directives that stand for a format.
pub compound : ℕ → List ℕ
compound c =
    if c == b'D'
    then codes "%m/%d/%y"
    else if c == b'F'
    then codes "%Y-%m-%d"
    else if c == b'r'
    then codes "%I:%M:%S %p"
    else if c == b'R'
    then codes "%H:%M"
    else if c == b'T'
    then codes "%H:%M:%S"
    else if c == b'x'
    then codes "%b %a %d"
    else []

-- `%s` calls `mktime`, which stores the day of the year.
pub after : ℕ → ℕ → Tm → Tm
after timezone c tm = if c == b's' then (mktime timezone tm).1 else tm

-- The call for a compound directive, which `sub` makes, or a plain directive.
pub directive : (ℕ → List ℕ → Tm → List ℕ × Tm) → ℕ → ℕ → ℕ → Tm → List ℕ × Tm
directive sub timezone room c tm = elim (plain timezone tm c) [
  | some out ↦ (out, after timezone c tm)
  | none ↦ sub room (compound c) tm
]

-- `while (s + 1 < e && *f)`. Behind a lone `%` at the end the code reads past the format; here it stops.
pub format_loop : (ℕ → List ℕ → Tm → List ℕ × Tm) → ℕ → ℕ → List ℕ → Tm → List ℕ × Tm
format_loop sub timezone room [] tm = ([], tm)
format_loop sub timezone room (c ∷ []) tm =
    if ltb 1 room && not (c == b'%') then (c ∷ [], tm) else ([], tm)
format_loop sub timezone room (c ∷ d ∷ f) tm =
    let (copied, tm') = format_loop sub timezone (room - 1) (d ∷ f) tm in
    let (out, tm1) = directive sub timezone room d tm in
    let (rest, tm2) = format_loop sub timezone (room - length out) f tm1 in
    if ltb 1 room then if c == b'%' then (out ++ rest, tm2) else (c ∷ copied, tm') else ([], tm)

-- The calls nest `depth` deep at most.
pub strftime_at : ℕ → ℕ → ℕ → List ℕ → Tm → List ℕ × Tm
strftime_at zero timezone room f tm = ([], tm)
strftime_at (suc depth) timezone room f tm =
    format_loop (strftime_at depth timezone) timezone room f tm

-- The characters before the terminator. A compound directive stands for a format with none.
pub strftime : ℕ → ℕ → List ℕ → Tm → List ℕ × Tm
strftime timezone n f tm = strftime_at 2 timezone n f tm
