-- ===== src/Stdio/Input.antt =====
-- What the routines that read from a stream give.
use yasos_libc.Base.{
  ℕ, suc, ◌+◌, ◌-◌, ◌≤◌, ◌<◌, ◌≡◌, refl, sym, ap, ◌∙◌, arith, Bool, true, false, not, ◌||◌, ltb,
  ◌==◌, if◌then◌else◌, ltb→lt, ltb-false, Bool-cases, Option-cases, inl, inr, ◌⊎◌, if_both, Option,
  none, some, List, [], ◌∷◌, ◌++◌, length,
}
use mathlib.Core.Path.{subst}
use yasos_libc.Stdio.{Kernel, File, cells, is_none, bufsiz}
use yasos_libc.Stdio.Cells.{cells-none, cells-store_list}
use yasos_libc.Stdio.Read.{
  store_list, next_char, ic_string, input_buffer, refill, at_error, at_eof, ic, ic_file, ic_fresh,
  ic_empty,
}
use yasos_libc.Stdio.Source.{
  IsFaithful, ahead, pushed, unread, remaining, IsSource, IsFresh, Got, Stays, remaining-unread,
  unread-world, unread-used, next_char-Got, Delivered,
}

module _ {W : Type 0} (k : Kernel W) (rest : ℕ → W → List ℕ) (faithful : IsFaithful k rest) where
  ic_string-Got :
      (fp : File W)
      → fp.back ≡ none
      → fp.fd ≡ none
      → IsSource k rest fp
      → Got k rest (unread k rest fp) (ic_string k fp)
  unfolding ic_string
  ic_string-Got fp fresh string source =
      let none_there : is_none fp.fd ≡ true = ap is_none string in
      let own = source.own none_there in
      rw (own) (
        if_both (Got k rest (unread k rest fp)) (ltb fp.icur fp.ilen)
          (λ more. next_char-Got k rest fp fresh (ltb→lt fp.icur fp.ilen more) source)
          (λ over. (
            inl (
              ap (λ l. l ++ ahead k rest fp.fd fp.world)
                    (cells-none fp.ram (fp.ibuf + fp.icur) fp.icur fp.ilen
                      (ltb-false fp.icur fp.ilen over))
                  ∙ ap (λ o. ahead k rest o fp.world) string,
              refl,
            ),
            remaining-unread k rest fp fresh,
            (fresh, record { inside = source.inside; own = source.own; sized = source.sized }),
          )))

  -- The state behind the attempt to get a buffer.
  abbrev Buffered : ℕ → File W → Bool × File W → Type 0
  Buffered fd fp (false, fp1) = (fp1.err ≡ true) × Stays k rest fp fp1
  Buffered fd fp (true, fp1) =
      (rest fd fp1.world ≡ rest fd fp.world)
      × (fp1.back ≡ fp.back)
      × (fp1.fd ≡ fp.fd)
      × (0 < fp1.isize)
      × (fp1.icur ≡ fp.icur)
      × (fp1.ilen ≡ fp.ilen)

  fresh_buffer :
      (fd : ℕ) (fp : File W) (r : Option ℕ × W)
      → fp.fd ≡ some fd
      → rest fd r.1 ≡ rest fd fp.world
      → Buffered fd fp (elim r.0 [
        | none ↦ (false, at_error k (record fp { world = r.1 }))
        | some buf ↦ (true, record fp { world = r.1; ibuf = buf; isize = bufsiz })
      ])
  fresh_buffer fd fp (none, after) file same = (
    refl,
    (
      unread-world k rest fd fp after file same,
      refl,
      λ source. record { inside = source.inside; own = source.own; sized = source.sized },
    ),
  )
  fresh_buffer fd fp (some buf, after) file same = (same, refl, refl, omega arith, refl, refl)

  input_buffer-Buffered :
      (fd : ℕ) (fp : File W)
      → fp.fd ≡ some fd
      → (fp.ibuf == 0 || ltb 0 fp.isize) ≡ true
      → Buffered fd fp (input_buffer k fp)
  unfolding input_buffer
  input_buffer-Buffered fd fp file sized =
      if_both (Buffered fd fp) (fp.ibuf == 0)
        (λ _.
          fresh_buffer fd fp (k.malloc bufsiz fp.world) file (faithful.keeps fd bufsiz fp.world))
        (λ given. (refl, refl, refl, ground arith, refl, refl))

  -- The state behind a read into the buffer.
  abbrev Refilled : ℕ → File W → Bool × File W → Type 0
  Refilled fd fp (false, fp2) =
      (((rest fd fp.world ≡ []) × (fp2.eof ≡ true)) ⊎ (fp2.err ≡ true)) × Stays k rest fp fp2
  Refilled fd fp (true, fp2) =
      (rest fd fp.world ≡ unread k rest fp2)
      × (fp2.icur < fp2.ilen)
      × (fp2.back ≡ fp.back)
      × (fp2.fd ≡ fp.fd)
      × (fp2.isize ≡ fp.isize)

  refill-Refilled :
      (fd : ℕ) (fp : File W) → fp.fd ≡ some fd → 0 < fp.isize → Refilled fd fp (refill k fd fp)
  unfolding refill
  refill-Refilled fd fp file room =
      read (k.read fd fp.isize fp.world) (faithful.reads fd fp.isize fp.world room)
    where
      read :
          (r : Option (List ℕ) × W)
          → Delivered k rest fd fp.world r
          → Refilled fd fp (elim r.0 [
            | none ↦ (false, at_error k (record fp { world = r.1 }))
            | some [] ↦ (false, at_eof k (record fp { world = r.1 }))
            | some (x ∷ l) ↦ (
              true,
              record fp {
                world = r.1;
                ram = store_list fp.ram fp.ibuf (x ∷ l);
                ilen = length (x ∷ l);
                icur = 0;
              },
            )
          ])
      read (none, after) given = (
        inr refl,
        (
          unread-world k rest fd fp after file given,
          refl,
          λ source. record { inside = source.inside; own = source.own; sized = source.sized },
        ),
      )
      read (some [], after) given = (
        inl (given.0, refl),
        (
          unread-world k rest fd fp after file (given.1 ∙ sym given.0),
          refl,
          λ source. record { inside = source.inside; own = source.own; sized = source.sized },
        ),
      )
      read (some (x ∷ l), after) given =
          let m = store_list fp.ram fp.ibuf (x ∷ l) in
          let start : fp.ibuf + 0 ≡ fp.ibuf = omega arith in
          let full : suc (length l) - 0 ≡ suc (length l) = omega arith in
          let stored : cells m (fp.ibuf + 0) (suc (length l) - 0) ≡ x ∷ l =
            ap (λ q. cells m q (suc (length l) - 0)) start
            ∙ ap (cells m fp.ibuf) full
            ∙ cells-store_list fp.ram fp.ibuf (x ∷ l) in
          (
            given
                ∙ ap (λ t. t ++ rest fd after) (sym stored)
                ∙ ap (λ o. cells m (fp.ibuf + 0) (suc (length l) - 0) ++ ahead k rest o after)
                    (sym file),
            omega arith,
            refl,
            refl,
            refl,
          )

  -- A read into an empty buffer.
  ic_read-Got :
      (fd : ℕ) (fp : File W) (r : Bool × File W)
      → fp.fd ≡ some fd
      → IsFresh k rest fp
      → fp.ilen ≤ fp.icur
      → 0 < fp.isize
      → Refilled fd fp r
      → Got k rest (unread k rest fp) (if r.0 then next_char k r.1 else (none, r.1))
  ic_read-Got fd fp (false, fp2) file (fresh, source) used room (why, (same, same_back, stays)) =
      let fresh2 = same_back ∙ fresh in
      (at_end why, remaining-unread k rest fp2 fresh2 ∙ same, (fresh2, stays source))
    where
      at_end :
          ((rest fd fp.world ≡ []) × (fp2.eof ≡ true)) ⊎ (fp2.err ≡ true)
          → ((unread k rest fp ≡ []) × (fp2.eof ≡ true)) ⊎ (fp2.err ≡ true)
      at_end (inl (ended, flag)) = inl (unread-used k rest fd fp file used ∙ ended, flag)
      at_end (inr flag) = inr flag
  ic_read-Got fd fp (true, fp2) file (fresh, source) used room (given, more, back2, fd2, size2) =
      let open_file : is_none fp2.fd ≡ false = ap is_none (fd2 ∙ file) in
      let source2 : IsSource k rest fp2 = record {
        inside = omega (arith, more);
        own = λ e. ground arith;
        sized = ground (arith, room, size2);
      } in
      let got = next_char-Got k rest fp2 (back2 ∙ fresh) more source2 in
      (unread-used k rest fd fp file used ∙ given ∙ got.0, got.1)

  -- The empty buffer in front of a read.
  ready-IsFresh :
      (fd : ℕ) (fp fp1 : File W)
      → fp.fd ≡ some fd
      → IsFresh k rest fp
      → fp.ilen ≤ fp.icur
      → Buffered fd fp (true, fp1)
      → (unread k rest fp ≡ unread k rest fp1)
        × (fp1.fd ≡ some fd)
        × IsFresh k rest fp1
        × (fp1.ilen ≤ fp1.icur)
  ready-IsFresh fd fp fp1 file (fresh, source) used (same, same_back, same_fd, room, icur1, ilen1) =
      let file1 = same_fd ∙ file in
      let used1 : fp1.ilen ≤ fp1.icur = omega (arith, used, icur1, ilen1) in
      let open_file : is_none fp1.fd ≡ false = ap is_none file1 in
      (
        unread-used k rest fd fp file used ∙ sym same ∙ sym (unread-used k rest fd fp1 file1 used1),
        file1,
        (
          same_back ∙ fresh,
          record {
            inside = omega (arith, source.inside, icur1, ilen1);
            own = λ e. ground arith;
            sized = ground arith;
          },
        ),
        used1,
      )

  empty-Got :
      (fd : ℕ) (fp : File W) (r : Bool × File W)
      → fp.fd ≡ some fd
      → IsFresh k rest fp
      → fp.ilen ≤ fp.icur
      → Buffered fd fp r
      → Got k rest (unread k rest fp) (
          if not r.0
          then (none, r.1)
          else if (refill k fd r.1).0
          then next_char k (refill k fd r.1).1
          else (none, (refill k fd r.1).1))
  empty-Got fd fp (false, fp1) file (fresh, source) used (flag, (same, same_back, stays)) =
      let fresh1 = same_back ∙ fresh in
      (inr flag, remaining-unread k rest fp1 fresh1 ∙ same, (fresh1, stays source))
  empty-Got fd fp (true, fp1) file fresh used buffered =
      let (same, file1, fresh1, used1) = ready-IsFresh fd fp fp1 file fresh used buffered in
      let (rest_same, same_back, same_fd, room, icur1, ilen1) = buffered in
      subst
        (λ l. Got k rest l (
          if (refill k fd fp1).0
          then next_char k (refill k fd fp1).1
          else (none, (refill k fd fp1).1)))
        (sym same)
        (ic_read-Got fd fp1 (refill k fd fp1) file1 fresh1 used1 room
          (refill-Refilled fd fp1 file1 room))

  ic_empty-Got :
      (fd : ℕ) (fp : File W)
      → fp.fd ≡ some fd
      → IsFresh k rest fp
      → fp.ilen ≤ fp.icur
      → Got k rest (unread k rest fp) (ic_empty k fd fp)
  unfolding ic_empty
  ic_empty-Got fd fp file (fresh, source) used =
      let sized : (fp.ibuf == 0 || ltb 0 fp.isize) ≡ true =
        subst (λ o. (is_none o || fp.ibuf == 0 || ltb 0 fp.isize) ≡ true) file source.sized in
      empty-Got fd fp (input_buffer k fp) file (fresh, source) used
        (input_buffer-Buffered fd fp file sized)

  ic_file-Got :
      (fd : ℕ) (fp : File W)
      → fp.back ≡ none
      → fp.fd ≡ some fd
      → IsSource k rest fp
      → Got k rest (unread k rest fp) (ic_file k fd fp)
  unfolding ic_file
  ic_file-Got fd fp fresh file source = elim (Bool-cases (fp.icur == fp.ilen)) [
    | inl e ↦
        let used : fp.ilen ≤ fp.icur = ground arith in
        rw (e) (ic_empty-Got fd fp file (fresh, source) used)
    | inr ne ↦
        let more : ltb fp.icur fp.ilen ≡ true = ground (arith, source.inside) in
        rw (ne, more) (next_char-Got k rest fp fresh (ltb→lt fp.icur fp.ilen more) source)
  ]

  ic_fresh-Got :
      (fp : File W)
      → fp.back ≡ none
      → IsSource k rest fp
      → Got k rest (unread k rest fp) (ic_fresh k fp)
  unfolding ic_fresh
  ic_fresh-Got fp fresh source = elim (Option-cases fp.fd) [
    | inl string ↦
        subst (Got k rest (unread k rest fp))
          (sym (ap (λ o. elim o [ none ↦ ic_string k fp | some fd ↦ ic_file k fd fp ]) string))
          (ic_string-Got fp fresh string source)
    | inr (fd, file) ↦
        subst (Got k rest (unread k rest fp))
          (sym (ap (λ o. elim o [ none ↦ ic_string k fp | some d ↦ ic_file k d fp ]) file))
          (ic_file-Got fd fp fresh file source)
  ]

  -- `ic` gives the first of the characters that are still to be read, and leaves the others. It gives
  -- EOF only with the flag of the end set, when there are none, or with the error flag set, and what is
  -- still to be read is as it was. None is pushed back afterwards.
  pub ic-Got : (fp : File W) → IsSource k rest fp → Got k rest (remaining k rest fp) (ic k fp)
  unfolding ic
  ic-Got fp source = elim (Option-cases fp.back) [
    | inl fresh ↦
        subst (Got k rest (remaining k rest fp))
          (sym (
            ap (λ o. elim o [ none ↦ ic_fresh k fp | some i ↦ (some i, record fp { back = none }) ])
              fresh))
          (subst (λ b. Got k rest (pushed k rest b (unread k rest fp)) (ic_fresh k fp)) (sym fresh)
            (ic_fresh-Got fp fresh source))
    | inr (c, kept) ↦
        subst (Got k rest (remaining k rest fp))
          (sym (
            ap (λ o. elim o [ none ↦ ic_fresh k fp | some i ↦ (some i, record fp { back = none }) ])
              kept))
          (
            ap (λ b. pushed k rest b (unread k rest fp)) kept,
            (refl, record { inside = source.inside; own = source.own; sized = source.sized }),
          )
  ]
