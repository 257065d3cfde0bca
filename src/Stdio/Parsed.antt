-- ===== src/Stdio/Parsed.antt =====
-- How far the parts of a directive read: what is left of the format is never longer.
use yasos_libc.Base.{
  ℕ, suc, ◌+◌, ◌-◌, ◌*◌, ◌^◌, ◌≤◌, arith, not, leb, ◌==◌, if_both, List, [], ◌∷◌, length,
}
use yasos_libc.Ctype.{isdigit}
use yasos_libc.Fnmatch.{has_flag}
use yasos_libc.Stdio.Integer.{fmt_zero, int_max}
use yasos_libc.Strto.{cur, next}
use yasos_libc.Stdio.Directive.{
  Arg, Spec, flag_of, set_flag, read_flags, read_number, read_width, read_precision, read_run,
  read_length, read_spec, int_of,
}

length-read_flags : (s : List ℕ) (flags : ℕ) → length (read_flags s flags).1 ≤ length s
unfolding read_flags
length-read_flags [] flags = omega arith
length-read_flags (c ∷ s) flags =
    let ih = length-read_flags s (set_flag flags (flag_of c)) in
    if_both (λ (r : ℕ × List ℕ). length r.1 ≤ suc (length s)) (flag_of c == 0) (λ _. omega arith)
      (λ _. omega (arith, ih))

length-read_number : (s : List ℕ) (n : ℕ) → length (read_number s n).1 ≤ length s
unfolding read_number
length-read_number [] n = omega arith
length-read_number (c ∷ s) n =
    let ih = length-read_number s (n * 10 + (c - b'0')) in
    if_both (λ (r : ℕ × List ℕ). length r.1 ≤ suc (length s)) (isdigit c) (λ _. omega (arith, ih))
      (λ _. omega arith)

length-read_run : (c : ℕ) (s : List ℕ) (n : ℕ) → length (read_run c s n).1 ≤ length s
unfolding read_run
length-read_run c [] n = omega arith
length-read_run c (x ∷ s) n =
    let ih = length-read_run c s (n + 1) in
    if_both (λ (r : ℕ × List ℕ). length r.1 ≤ suc (length s)) (x == c) (λ _. omega (arith, ih))
      (λ _. omega arith)

length-next : (s : List ℕ) → length (next s) ≤ length s
length-next [] = omega arith
length-next (x ∷ s) = omega arith

-- Two directives of which the second has no more of the format.
abbrev Shorter : Spec → Spec → Type 0
Shorter d d' = length d'.s ≤ length d.s

read_width-Shorter : (d : Spec) → Shorter d (read_width d)
unfolding read_width
read_width-Shorter d =
    let behind = length-next d.s in
    let number = length-read_number d.s 0 in
    if_both (Shorter d) (cur d.s == b'*')
      (λ _. if_both (Shorter d) (leb (2 ^ 31) (int_of d.args)) (λ _. behind) (λ _. behind))
      (λ _. number)

read_precision-Shorter : (d : Spec) → Shorter d (read_precision d)
unfolding read_precision
read_precision-Shorter d =
    let behind = length-next d.s in
    let further = length-next (next d.s) in
    let number = length-read_number (next d.s) 0 in
    if_both (Shorter d) (not (cur d.s == b'.')) (λ _. omega arith)
      (λ _.
        if_both (Shorter d) (cur (next d.s) == b'*') (λ _. omega (arith, behind, further))
          (λ _.
            if_both (Shorter d) (isdigit (cur (next d.s))) (λ _. omega (arith, behind, number))
              (λ _. behind)))

read_length-Shorter : (d : Spec) → Shorter d (read_length d)
unfolding read_length
read_length-Shorter d =
    let s1 = (read_run b'l' d.s 0).1 in
    let s2 = (read_run b'h' s1 0).1 in
    let ls = length-read_run b'l' d.s 0 in
    let hs = length-read_run b'h' s1 0 in
    let behind = length-next s2 in
    if_both (λ (t : List ℕ). length t ≤ length d.s) (cur s2 == b'L')
      (λ _. omega (arith, ls, hs, behind)) (λ _. omega (arith, ls, hs))

abbrev start : List ℕ → List Arg → ℕ → Spec
start s args flags = record {
  s = s;
  args = args;
  flags = flags;
  zero_flag = has_flag flags fmt_zero;
  wid = 0;
  max_len = int_max;
  bytes = 4;
}

pub length-read_spec : (s : List ℕ) (args : List Arg) → length (read_spec s args).s ≤ length s
unfolding read_spec
length-read_spec s args =
    let (flags, s1) = read_flags s 0 in
    let d = start s1 args flags in
    omega (
      arith,
      length-read_flags s 0,
      read_width-Shorter d,
      read_precision-Shorter (read_width d),
      read_length-Shorter (read_precision (read_width d)),
    )
