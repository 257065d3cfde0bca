-- ===== src/Format/Text.antt =====
-- The text that `strftime` gives for a format.
use yasos_libc.Base.{
  ℕ, zero, suc, ◌+◌, ◌-◌, ◌≤◌, ◌<◌, ◌≡◌, refl, sym, ap, ◌∙◌, arith, Bool, true, false, not, ◌&&◌,
  ltb, ◌==◌, ltb→lt, ltb-false, if_both, some, List, [], ◌∷◌, ◌++◌, length, length-append, take,
}
use yasos_libc.Base.Text.{codes}
use yasos_libc.Calendar.{Tm}
use yasos_libc.Format.Digits.{length-puti}
use yasos_libc.Format.{strftime, strftime_at, format_loop, directive, plain, after, puti}

-- No directive.
unfoldable pub is_plain : List ℕ → Bool
is_plain [] = true
is_plain (c ∷ f) = not (c == b'%') && is_plain f

take-some :
    (room c : ℕ) (f : List ℕ) → 1 < room → take (room - 1) (c ∷ f) ≡ c ∷ take (room - 1 - 1) f
take-some zero c f h = absurd (omega arith)
take-some (suc zero) c f h = absurd (omega arith)
take-some (suc (suc r)) c f h =
    let one : suc (suc r) - 1 ≡ suc r = omega arith in
    let two : suc r - 1 ≡ r = omega arith in
    ap (λ k. take k (c ∷ f)) one ∙ ap (λ k. c ∷ take k f) (sym (ap (λ k. k - 1) one ∙ two))

take-none : (room : ℕ) (f : List ℕ) → room ≤ 1 → take (room - 1) f ≡ []
take-none room f h = let none_left : room - 1 ≡ 0 = omega arith in ap (λ k. take k f) none_left

take-nil : (k : ℕ) → take {A = ℕ} k [] ≡ []
take-nil zero = refl
take-nil (suc k) = refl

-- A format without directives is copied, up to one character less than the room.
format_loop-plain :
    (sub : ℕ → List ℕ → Tm → List ℕ × Tm) (timezone room : ℕ) (f : List ℕ) (tm : Tm)
    → is_plain f ≡ true
    → format_loop sub timezone room f tm ≡ (take (room - 1) f, tm)
unfolding format_loop is_plain
format_loop-plain sub timezone room [] tm h = ap (λ s. (s, tm)) (sym (take-nil (room - 1)))
format_loop-plain sub timezone room (c ∷ []) tm h =
    if_both (λ (r : List ℕ × Tm). r ≡ (take (room - 1) (c ∷ []), tm))
      (ltb 1 room && not (c == b'%'))
      (λ some_room.
        ap (λ s. (s, tm))
          (sym (take-some room c [] (ground arith) ∙ ap (λ s. c ∷ s) (take-nil (room - 1 - 1)))))
      (λ full. ap (λ s. (s, tm)) (sym (take-none room (c ∷ []) (ground arith))))
format_loop-plain sub timezone room (c ∷ d ∷ f) tm h =
    if_both (λ (r : List ℕ × Tm). r ≡ (take (room - 1) (c ∷ d ∷ f), tm)) (ltb 1 room)
      (λ some_room.
        let other : (c == b'%') ≡ false = ground arith in
        let rest = format_loop-plain sub timezone (room - 1) (d ∷ f) tm (ground arith) in
        rw (other) (
          ap (λ (r : List ℕ × Tm). (c ∷ r.0, r.1)) rest
          ∙ ap (λ s. (s, tm)) (sym (take-some room c (d ∷ f) (ltb→lt 1 room some_room)))))
      (λ full. ap (λ s. (s, tm)) (sym (take-none room (c ∷ d ∷ f) (ltb-false 1 room full))))

module _ (sub : ℕ → List ℕ → Tm → List ℕ × Tm) (timezone : ℕ) (tm : Tm) where
  abbrev text : ℕ → List ℕ → List ℕ
  text room f = (format_loop sub timezone room f tm).0

  directive-plain :
      (room d : ℕ) (out : List ℕ)
      → plain timezone tm d ≡ some out
      → (d == b's') ≡ false
      → directive sub timezone room d tm ≡ (out, tm)
  unfolding directive after
  directive-plain room d out is other = rw (directive, is, other) refl

  -- A directive that writes `out` and does not call `mktime`.
  text-directive :
      (room d : ℕ) (f out : List ℕ)
      → 1 < room
      → plain timezone tm d ≡ some out
      → (d == b's') ≡ false
      → text room (b'%' ∷ d ∷ f) ≡ out ++ text (room - length out) f
  unfolding format_loop
  text-directive room d f out some_room is other =
      if_both (λ (r : List ℕ × Tm). r.0 ≡ out ++ text (room - length out) f) (ltb 1 room)
        (λ _.
          ap (λ (r : List ℕ × Tm). r.0 ++ (format_loop sub timezone (room - length r.0) f r.1).0)
            (directive-plain room d out is other))
        (λ full. absurd (ground arith))

-- `%Y` at the end of a format writes four characters as soon as there is room for one of them.
pub strftime-overrun :
    (timezone n : ℕ) (tm : Tm) → 1 < n → length (strftime timezone n (codes "%Y") tm).0 ≡ 4
unfolding strftime strftime_at plain format_loop
strftime-overrun timezone n tm some_room =
    let year = puti (1900 + tm.year) 4 true in
    ap length
      (text-directive (strftime_at 1 timezone) timezone tm n b'Y' [] year some_room refl refl)
    ∙ length-append year []
    ∙ omega (arith, length-puti (1900 + tm.year) 4 true)
