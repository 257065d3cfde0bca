-- ===== src/Stdio/Sink.antt =====
-- The characters that a string takes, as the buffer of a stream without a file.
use yasos_libc.Base.{
  ℕ, suc, ◌+◌, ◌-◌, ◌%◌, ◌≤◌, ◌<◌, ◌≡◌, refl, sym, ap, ◌∙◌, arith, Bool, true, false, ◌||◌, ltb,
  ◌==◌, if◌then◌else◌, ltb→lt, lt→ltb, ltb-false, Bool-cases, inl, inr, if_both, Option, none, some,
  List, [], ◌∷◌, length, get_or,
}
use mathlib.Core.Path.{subst}
use Prim.Native.Nat.{min}
use yasos_libc.Memory.{Ram, inside, store8}
use yasos_libc.Stdio.{
  Kernel, File, caller, is_lazy, stdio_lazy_obuf, fflush, flush_to, put_unbuffered, put_byte_to,
  store_char, put_buffered, fputc,
}
use yasos_libc.Stdio.Printf.{put_all}

module _ {W : Type 0} (k : Kernel W) where
  -- A string: no file, and the buffer is that of the caller.
  pub record IsString (fp : File W) : Type 0 where
    pub no_file : fp.fd ≡ none
    pub given : fp.oown ≡ caller
    pub fits : fp.olen ≤ fp.osize

  fflush-string : (fp : File W) → fp.fd ≡ none → fflush k fp ≡ (true, fp)
  unfolding fflush
  fflush-string fp e = ap (λ o. elim o [ none ↦ (true, fp) | some d ↦ flush_to k d fp ]) e

  put_unbuffered-string : (c : ℕ) (fp : File W) → fp.fd ≡ none → (put_unbuffered k c fp).1 ≡ fp
  unfolding put_unbuffered
  put_unbuffered-string c fp e =
      ap
        (λ o.
          (elim o as (λ x. Option ℕ × File W) [
            | none ↦ (some c, fp)
            | some d ↦ put_byte_to k d c fp
          ]).1)
        e

  lazy-string : (fp : File W) → fp.oown ≡ caller → stdio_lazy_obuf k fp ≡ (false, fp)
  unfolding stdio_lazy_obuf
  lazy-string fp e = let ours : is_lazy fp.oown ≡ false = ap is_lazy e in rw (ours) refl

  fd-store_char : (c : ℕ) (fp : File W) → (store_char k c fp).fd ≡ fp.fd
  unfolding store_char
  fd-store_char c fp =
      if_both (λ (f : File W). f.fd ≡ fp.fd) (ltb fp.olen fp.osize) (λ _. refl) (λ _. refl)

  put_buffered-string :
      (c : ℕ) (fp : File W) → fp.fd ≡ none → (put_buffered k c fp).1 ≡ store_char k c fp
  unfolding put_buffered
  put_buffered-string c fp e =
      let fp1 = store_char k c fp in
      let flushed = fflush-string fp1 (fd-store_char c fp ∙ e) in
      if_both (λ (r : Option ℕ × File W). r.1 ≡ fp1) (c == 10 || fp1.olen == fp1.osize)
        (λ _. ap (λ (r : Bool × File W). r.1) flushed) (λ _. refl)

  pub store_char-full : (c : ℕ) (fp : File W) → fp.osize ≤ fp.olen → store_char k c fp ≡ fp
  unfolding store_char
  store_char-full c fp full =
      if_both (λ (f : File W). f ≡ fp) (ltb fp.olen fp.osize) (λ room. absurd (ground arith))
        (λ _. refl)

  fputc-string : (c : ℕ) (fp : File W) → IsString fp → (fputc k c fp).1 ≡ store_char k c fp
  unfolding fputc
  fputc-string c fp s = elim (Bool-cases (fp.osize == 0)) [
    | inl e ↦
        rw (e, lazy-string fp s.given)
          (put_unbuffered-string c fp s.no_file ∙ sym (store_char-full c fp (ground arith)))
    | inr ne ↦ rw (ne) (put_buffered-string c fp s.no_file)
  ]

  -- What a string holds when it has taken a text: the part of it that fits.
  pub record Taken (t : List ℕ) (fp fp' : File W) : Type 0 where
    pub string : IsString fp'
    pub same_place : fp'.obuf ≡ fp.obuf
    pub same_size : fp'.osize ≡ fp.osize
    pub filled : fp'.olen ≡ min (fp.olen + length t) fp.osize
    pub bytes :
        (a : ℕ)
        → fp'.ram a ≡ (
            if inside (fp.obuf + fp.olen) (min (length t) (fp.osize - fp.olen)) a
            then get_or t (a - (fp.obuf + fp.olen)) 0 % 256
            else fp.ram a)

  store_char-room :
      (c : ℕ) (fp : File W)
      → fp.olen < fp.osize
      → store_char k c fp ≡ record fp {
        ram = store8 fp.ram (fp.obuf + fp.olen) (c % 256);
        olen = fp.olen + 1;
        ostat = fp.ostat + 1;
      }
  unfolding store_char
  store_char-room c fp room =
      let more : ltb fp.olen fp.osize ≡ true = lt→ltb fp.olen fp.osize room in rw (more) refl

  Taken-full :
      (c : ℕ) (t : List ℕ) (fp fp' : File W)
      → fp.osize ≤ fp.olen
      → Taken t fp fp'
      → Taken (c ∷ t) fp fp'
  Taken-full c t fp fp' full taken = record {
    string = taken.string;
    same_place = taken.same_place;
    same_size = taken.same_size;
    filled = taken.filled ∙ omega arith;
    bytes = λ a.
        let (n1, n2) : (min (length (c ∷ t)) (fp.osize - fp.olen) ≡ 0)
            × (min (length t) (fp.osize - fp.olen) ≡ 0) =
          (omega arith, omega arith) in
        taken.bytes a ∙ rw (n1, n2) (ground arith);
  }

  get_or-later : (c : ℕ) (t : List ℕ) (i : ℕ) → get_or (c ∷ t) (i + 1) 0 ≡ get_or t i 0
  get_or-later c t i = let e : i + 1 ≡ suc i = omega arith in ap (λ j. get_or (c ∷ t) j 0) e

  bytes-room :
      (c : ℕ) (t : List ℕ) (m : Ram) (p n size : ℕ)
      → n < size
      → (a : ℕ)
      → (if inside (p + (n + 1)) (min (length t) (size - (n + 1))) a
          then get_or t (a - (p + (n + 1))) 0 % 256
          else store8 m (p + n) (c % 256) a)
        ≡ (if inside (p + n) (min (length (c ∷ t)) (size - n)) a
            then get_or (c ∷ t) (a - (p + n)) 0 % 256
            else m a)
  unfolding store8
  bytes-room c t m p n size room a = elim (Bool-cases (a == p + n)) [
    | inl e ↦ let here : a - (p + n) ≡ 0 = ground arith in rw (here) (ground arith)
    | inr ne ↦ elim (Bool-cases (ltb (p + n) a)) [
      | inl lt ↦
          let later : a - (p + n) ≡ (a - (p + (n + 1))) + 1 = ground arith in
          rw (later, get_or-later c t (a - (p + (n + 1)))) (ground arith)
      | inr ge ↦ ground arith
    ]
  ]

  Taken-room :
      (c : ℕ) (t : List ℕ) (fp fp' : File W)
      → fp.olen < fp.osize
      → Taken t
          (record fp {
            ram = store8 fp.ram (fp.obuf + fp.olen) (c % 256);
            olen = fp.olen + 1;
            ostat = fp.ostat + 1;
          })
          fp'
      → Taken (c ∷ t) fp fp'
  Taken-room c t fp fp' room taken = record {
    string = taken.string;
    same_place = taken.same_place;
    same_size = taken.same_size;
    filled = taken.filled ∙ omega arith;
    bytes = λ a. taken.bytes a ∙ bytes-room c t fp.ram fp.obuf fp.olen fp.osize room a;
  }

  pub put_all-Taken : (t : List ℕ) (fp : File W) → IsString fp → Taken t fp (put_all k t fp)
  unfolding put_all
  put_all-Taken [] fp s = record {
    string = s;
    same_place = refl;
    same_size = refl;
    filled = omega (arith, s.fits);
    bytes = λ a. ground arith;
  }
  put_all-Taken (c ∷ t) fp s =
      subst (λ f. Taken (c ∷ t) fp (put_all k t f)) (sym (fputc-string c fp s))
        (elim (Bool-cases (ltb fp.olen fp.osize)) [
          | inl room ↦
              let lt = ltb→lt fp.olen fp.osize room in
              subst (λ f. Taken (c ∷ t) fp (put_all k t f)) (sym (store_char-room c fp lt))
                (Taken-room c t fp _ lt (
                  put_all-Taken t _
                    (record { no_file = s.no_file; given = s.given; fits = omega (arith, lt) })))
          | inr over ↦
              let full : fp.osize ≤ fp.olen = ltb-false fp.olen fp.osize over in
              subst (λ f. Taken (c ∷ t) fp (put_all k t f)) (sym (store_char-full c fp full))
                (Taken-full c t fp _ full (put_all-Taken t fp s))
        ])
