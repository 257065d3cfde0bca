-- ===== src/Stdio/Examples.antt =====
-- The theorems on stdio.c and scanf.c applied to streams of one kernel.
use yasos_libc.Base.{
  ℕ, ◌+◌, ◌-◌, ◌^◌, ◌≡◌, refl, sym, ap, ◌∙◌, arith, Bool, false, leb, inl, Option, none, some, List,
  [], ◌∷◌, ◌++◌, length,
}
use mathlib.Core.List.{append-nil}
use yasos_libc.Stdio.{Kernel, File, caller, fputc, puts}
use yasos_libc.Stdio.Read.{ic, ungetc}
use yasos_libc.Stdio.Directive.{Arg, number, text}
use yasos_libc.Stdio.Output.{IsReady, Put, fputc-Put}
use yasos_libc.Stdio.Output.{IsFaithful}
use yasos_libc.Stdio.Bulk.{Written, octets, puts-Written}
use yasos_libc.Stdio.Cells.{take-length}
use yasos_libc.Stdio.Full.{Dropped, fputc-Dropped}
use yasos_libc.Stdio.Source.{IsSource, Got, remaining}
use yasos_libc.Stdio.Input.{ic-Got}
use yasos_libc.Stdio.Source
use yasos_libc.Base.Text.{codes}
use yasos_libc.Strto.{atoi}
use yasos_libc.Stdio.Integer.{oint, fmt_signed, int_max}
use yasos_libc.Stdio.Decimal.{atoi-oint}
use yasos_libc.Strto.Decimal.{IsText}
use yasos_libc.Stdio.{cells}
use yasos_libc.Stdio.Lines.{Line, getdelim}
use yasos_libc.Stdio.Getdelim.{IsLine, getdelim-IsLine}
use yasos_libc.Stdio.Seek.{fseek}
use yasos_libc.Stdio.Moved.{Moved, fseek-Moved}
use yasos_libc.Stdio.Scan.{Scan, scan_int, skip_input_space}
use yasos_libc.Stdio.Numbers.{Ends, scan_int-Ends}
use yasos_libc.Stdio.Scanned.{Skips, skip_input_space-Skips}
use yasos_libc.Stdio.Pushback.{Pushed, ungetc-Pushed}

-- What was written, and what is left to read.
pub record World : Type 0 where
  written : List ℕ
  left : List ℕ

-- A kernel that takes and gives everything.
abbrev kernel : Kernel World
kernel = record {
  read = λ fd n w. (some w.left, record w { left = [] });
  write = λ fd bytes w. (some (length bytes), record w { written = w.written ++ bytes });
  malloc = λ n w. (some 4096, w);
}

abbrev log : ℕ → World → List ℕ
log fd w = w.written

abbrev rest : ℕ → World → List ℕ
rest fd w = w.left

kernel-IsFaithful : IsFaithful kernel log
kernel-IsFaithful = record {
  writes = λ fd bytes w. (omega arith, ap (λ l. w.written ++ l) (sym (take-length bytes)));
  keeps = λ fd n w. refl;
}

delivered :
    (fd : ℕ) (l : List ℕ) (w : World)
    → w.left ≡ l
    → Source.Delivered kernel rest fd w (some l, record w { left = [] })
delivered fd [] w e = (e, refl)
delivered fd (x ∷ l) w e = e ∙ ap (λ t. x ∷ t) (sym (append-nil l))

kernel-reads : Source.IsFaithful kernel rest
kernel-reads = record {
  reads = λ fd n w some_room. delivered fd w.left w refl;
  keeps = λ fd n w. refl;
}

-- A file that holds `AB`, with a buffer of four bytes at 64 with a byte in it.
abbrev file : File World
file = record {
  fd = some 3;
  back = none;
  ibuf = 0;
  obuf = 64;
  isize = 0;
  osize = 4;
  ilen = 0;
  olen = 1;
  oown = caller;
  icur = 0;
  ostat = 0;
  eof = false;
  err = false;
  is_stderr = false;
  ram = λ a. 0;
  world = record { written = []; left = 65 ∷ 66 ∷ [] };
}

file-IsReady : IsReady kernel log 3 file
file-IsReady = record { is_open = refl; room = inl (omega arith) }

file-IsSource : IsSource kernel rest file
file-IsSource = record { inside = omega arith; own = λ e. absurd (ground (arith, e)); sized = refl }

abbrev full : File World
full = record file { olen = 4 }

-- The text of a floating-point number, which the format here does not ask for.
abbrev no_float : ℕ → ℕ → ℕ → ℕ → Bool → Bool → Bool → List ℕ
no_float n wid flags precision zero_flag upper general = []

fputc-Put_example : Put kernel log kernel-IsFaithful 3 65 file (fputc kernel 65 file)
fputc-Put_example = fputc-Put kernel log kernel-IsFaithful 3 65 file file-IsReady

puts-Written_example :
    Written kernel log kernel-IsFaithful 3
      (octets (codes "hello") ++ (10 ∷ []))
      (length (codes "hello") + 1)
      file
      (puts kernel (codes "hello") file)
puts-Written_example = puts-Written kernel log kernel-IsFaithful 3 (codes "hello") file file-IsReady

fputc-Dropped_example : Dropped kernel log kernel-IsFaithful 3 65 full (fputc kernel 65 full)
fputc-Dropped_example = fputc-Dropped kernel log kernel-IsFaithful 3 65 full refl (omega arith) refl

ic-Got_example : Got kernel rest (remaining kernel rest file) (ic kernel file)
ic-Got_example = ic-Got kernel rest kernel-reads file file-IsSource

ungetc-Pushed_example : Pushed kernel rest 65 66 file (ungetc kernel (some 65) file)
ungetc-Pushed_example = ungetc-Pushed kernel rest 65 66 file refl

abbrev given : List Arg
given = number 300 ∷ text (some (codes "xyz")) ∷ []

abbrev fmt : List ℕ
fmt = codes "%5d|%s"

-- "  300|xyz"
abbrev printed : List ℕ
printed = codes "  300|xyz"

-- -42, as an argument of 64 bits.
atoi-oint_example : atoi (oint (2 ^ 64 - 42) 10 0 4 fmt_signed int_max) ≡ 2 ^ 32 - 42
atoi-oint_example = atoi-oint (2 ^ 64 - 42) (omega arith)

abbrev scanner : Scan World
scanner = record { fp = file; count = 0 }

file-IsText : IsText (remaining kernel rest file)
unfolding IsText cells
file-IsText = (omega arith, (omega arith, tt))

scan_int-Ends_example : Ends kernel rest kernel-reads scanner (scan_int kernel 16 8 scanner).1
scan_int-Ends_example =
    scan_int-Ends kernel rest kernel-reads 16 8 scanner file-IsSource file-IsText

file-length : length (remaining kernel rest file) ≡ 2
unfolding cells
file-length = refl

skip_input_space-Skips_example :
    Skips kernel rest kernel-reads scanner (skip_input_space kernel 4 scanner)
skip_input_space-Skips_example =
    skip_input_space-Skips kernel rest kernel-reads 4 scanner (omega (arith, file-length))
      file-IsSource file-IsText

abbrev grants : ℕ → Bool
grants n = leb n 1024

abbrev no_line : Line
no_line = record { held = false; size = 0; chars = [] }

getdelim-IsLine_example :
    IsLine grants kernel rest kernel-reads 66 file (getdelim grants kernel 4 66 no_line file)
getdelim-IsLine_example =
    getdelim-IsLine grants kernel rest kernel-reads 4 66 no_line file (omega (arith, file-length))
      file-IsSource

-- An `lseek` that goes where it is told.
abbrev lseek : ℕ → ℕ → ℕ → World → Option ℕ × World
lseek fd offset whence w = (some offset, w)

fseek-Moved_example :
    Moved kernel lseek log rest kernel-IsFaithful
      (λ fd offset whence w. refl)
      3
      file
      (fseek kernel lseek file 7 0)
fseek-Moved_example =
    fseek-Moved kernel lseek log rest kernel-IsFaithful (λ fd offset whence w. refl) 3 file 7 0 refl
