-- ===== src/Stdio/Numbers.antt =====
-- `scan_int` of scanf.c: what it consumes, and what it counts.
use yasos_libc.Base.{
  ℕ, zero, suc, ◌+◌, ◌-◌, ◌*◌, ◌%◌, ◌^◌, refl, arith, Bool, true, false, not, ◌&&◌, ◌||◌, ◌==◌,
  if◌then◌else◌, if_both, Option, none, some, List, [], ◌∷◌, ◌++◌,
}
use mathlib.Core.Path.{subst}
use yasos_libc.Strto.Decimal.{IsText}
use yasos_libc.Stdio.{Kernel}
use yasos_libc.Stdio.Source.{IsFaithful, remaining, IsSource}
use yasos_libc.Stdio.Scan.{
  Scan, Number, or_eof, idig, sget, sunget, scan_sign, scan_hex, scan_prefix, scan_digits, scan_int,
  negate_if,
}
use yasos_libc.Stdio.Scanned.{
  IsText-behind, Consumes, Consumes-append, Sgot, sget-Sgot, sunget-Consumes,
}

module _ {W : Type 0} (k : Kernel W) (rest : ℕ → W → List ℕ) (faithful : IsFaithful k rest) where
  -- The scanner has taken just the characters of some text, and counted them.
  abbrev pub Ends : Scan W → Scan W → Type 0
  Ends s s' = (t : List ℕ) × Consumes k rest t s s'

  -- A character that was read behind such a text, which may still be put back.
  abbrev Pending : Scan W → Option ℕ → Scan W → Type 0
  Pending s c s1 = (s0 : Scan W) × Ends s s0 × Sgot k rest s0 (c, s1)

  start : (s : Scan W) → IsSource k rest s.fp → Consumes k rest [] s s
  start s source = record { taken = refl; counted = omega arith; source = source }

  sget-Pending : (s : Scan W) → IsSource k rest s.fp → Pending s (sget k s).0 (sget k s).1
  sget-Pending s source = (s, ([], start s source), sget-Sgot k rest faithful s source)

  Pending-Ends : (s s1 : Scan W) (c : Option ℕ) → Pending s c s1 → Ends s s1
  Pending-Ends s s1 none (s0, (t, before), (why, same, fresh)) =
      (t ++ [], Consumes-append k rest t [] s s0 s1 before same)
  Pending-Ends s s1 (some c) (s0, (t, before), (given, fresh)) =
      (t ++ (c ∷ []), Consumes-append k rest t (c ∷ []) s s0 s1 before given)

  Pending-sget :
      (s s1 : Scan W) (c : Option ℕ) → Pending s c s1 → Pending s (sget k s1).0 (sget k s1).1
  Pending-sget s s1 c before =
      let (t, taken) = Pending-Ends s s1 c before in
      (s1, (t, taken), sget-Sgot k rest faithful s1 taken.source)

  Pending-sunget :
      (s s1 : Scan W) (c : Option ℕ)
      → IsText (remaining k rest s.fp)
      → Pending s c s1
      → Ends s (sunget k c s1)
  Pending-sunget s s1 c text (s0, (t, before), got) =
      let chars = IsText-behind t _ (subst IsText before.taken text) in
      (
        t ++ [],
        Consumes-append k rest t [] s s0 _ before
            (sunget-Consumes k rest faithful s0 s1 c chars got),
      )

  scan_sign-Pending :
      (base wid : ℕ) (s : Scan W)
      → IsSource k rest s.fp
      → Pending s (scan_sign k base wid s).c (scan_sign k base wid s).s
  unfolding scan_sign
  scan_sign-Pending base wid s source =
      let first = sget-Pending s source in
      if_both (λ (p : Number W). Pending s p.c p.s) _ (λ _. Pending-sget s _ _ first) (λ _. first)

  -- The prefix was read, or it is no number and the scanner stands behind what was read.
  abbrev Prefixed : Scan W → Bool × Number W → Type 0
  Prefixed s (false, p) = Ends s p.s
  Prefixed s (true, p) = Pending s p.c p.s

  scan_hex-Prefixed :
      (s : Scan W) (p : Number W)
      → IsText (remaining k rest s.fp)
      → Pending s p.c p.s
      → Prefixed s (scan_hex k p)
  unfolding scan_hex
  scan_hex-Prefixed s p text before =
      let next_char = Pending-sget s p.s p.c before in
      let third = Pending-sget s _ _ next_char in
      if_both (Prefixed s)
        (not (p.wid - 1 == 0) && (or_eof (sget k p.s).0 == b'x' || or_eof (sget k p.s).0 == b'X'))
        {y = (
          true,
          record p {
            s = (sget k p.s).1;
            c = (sget k p.s).0;
            wid = p.wid - 1;
            base = if p.base == 0 then 8 else p.base;
            digits = 1;
          },
        )}
        (λ _. hex (idig (or_eof (sget k (sget k p.s).1).0) 16) third) (λ _. next_char)
    where
      hex :
          (d : Option ℕ)
          → Pending s (sget k (sget k p.s).1).0 (sget k (sget k p.s).1).1
          → Prefixed s (elim d [
            | none ↦ (
              false,
              record p { s = sunget k (sget k (sget k p.s).1).0 (sget k (sget k p.s).1).1 },
            )
            | some d ↦ (
              true,
              record p {
                s = (sget k (sget k p.s).1).1;
                c = (sget k (sget k p.s).1).0;
                base = 16;
                wid = p.wid - 1 - 1;
              },
            )
          ])
      hex none third = Pending-sunget s _ _ text third
      hex (some d) third = third

  scan_prefix-Prefixed :
      (s : Scan W) (p : Number W)
      → IsText (remaining k rest s.fp)
      → Pending s p.c p.s
      → Prefixed s (scan_prefix k p)
  unfolding scan_prefix
  scan_prefix-Prefixed s p text before =
      if_both (Prefixed s) (not (p.wid == 0) && or_eof p.c == b'0' && (p.base == 0 || p.base == 16))
        {x = scan_hex k p} {y = (true, p)} (λ _. scan_hex-Prefixed s p text before) (λ _. before)

  abbrev Digits : Scan W → ℕ × ℕ × Option ℕ × Scan W → Type 0
  Digits s r = Pending s r.2 r.3

  scan_digits-Pending :
      (wid base n digits : ℕ) (s s1 : Scan W) (c : Option ℕ)
      → Pending s c s1
      → Digits s (scan_digits k wid base n digits c s1)
  unfolding scan_digits
  scan_digits-Pending zero base n digits s s1 c before = before
  scan_digits-Pending (suc wid) base n digits s s1 none before = before
  scan_digits-Pending (suc wid) base n digits s s1 (some c) before =
      on (idig c base)
        (λ d. scan_digits-Pending wid base _ (digits + 1) s _ _ (Pending-sget s s1 (some c) before))
    where
      on :
          (d : Option ℕ)
          → ((d' : ℕ)
              → Digits s (
                  scan_digits k wid base
                    ((n * base + d') % 2 ^ 64)
                    (digits + 1)
                    (sget k s1).0
                    (sget k s1).1))
          → Digits s (elim d [
            | none ↦ (n, digits, some c, s1)
            | some d' ↦
                scan_digits k wid base
                  ((n * base + d') % 2 ^ 64)
                  (digits + 1)
                  (sget k s1).0
                  (sget k s1).1
          ])
      on none later = before
      on (some d) later = later d

  -- Whatever `scan_int` gives, the scanner has taken just the characters that it counted, and none of them
  -- is lost: the source goes on behind them.
  pub scan_int-Ends :
      (base wid : ℕ) (s : Scan W)
      → IsSource k rest s.fp
      → IsText (remaining k rest s.fp)
      → Ends s (scan_int k base wid s).1
  unfolding scan_int
  scan_int-Ends base wid s source text =
      prefixed (scan_prefix k (scan_sign k base wid s))
        (scan_prefix-Prefixed s _ text (scan_sign-Pending base wid s source))
    where
      prefixed :
          (r : Bool × Number W)
          → Prefixed s r
          → Ends s (
              let (n, digits, c, s1) =
                scan_digits k r.1.wid
                  (if r.1.base == 0 then 10 else r.1.base)
                  0
                  r.1.digits
                  r.1.c
                  r.1.s in
              let out : Option ℕ × Scan W =
                if not r.0
                then (none, r.1.s)
                else if digits == 0
                then (none, sunget k c s1)
                else (some (negate_if r.1.neg n), sunget k c s1) in
              out.1)
      prefixed (false, p) ends = ends
      prefixed (true, p) before =
          let radix = if p.base == 0 then 10 else p.base in
          let after = scan_digits-Pending p.wid radix 0 p.digits s p.s p.c before in
          let ends = Pending-sunget s _ _ text after in
          if_both (λ (r : Option ℕ × Scan W). Ends s r.1) _ (λ _. ends) (λ _. ends)
