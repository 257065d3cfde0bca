-- ===== src/Stdio/Lines.antt =====
-- `getdelim` of stdio.c. The buffer for the line is taken not to lie in the memory of the stream, so a line is
-- the list of the characters stored in it; `realloc` is the function `grants`, which says for which sizes it
-- gives a block.
use yasos_libc.Base.{
  ℕ, zero, suc, ◌+◌, ◌*◌, Bool, true, false, not, ◌||◌, ltb, ◌==◌, if◌then◌else◌, Option, none,
  some, List, [], ◌∷◌, ◌++◌, length,
}
use yasos_libc.Stdio.{Kernel, File}
use yasos_libc.Stdio.Read.{fgetc}

-- `*lineptr`, with what is stored there, and `*n`.
pub record Line : Type 0 where
  pub held : Bool
  pub size : ℕ
  pub chars : List ℕ

-- The value, -1 where it is `none`, and whether it stands for ENOMEM.
pub record Result (W : Type 0) : Type 0 where
  pub ret : Option ℕ
  pub no_memory : Bool
  pub line : Line
  pub fp : File W

module _ (grants : ℕ → Bool) where
  -- `if (*lineptr == NULL || *n < 2) …`
  unfoldable pub first_block : Line → Option Line
  first_block l =
      if not l.held || ltb l.size 2
      then (if grants 128 then some (record { held = true; size = 128; chars = [] }) else none)
      else some (record l { chars = [] })

  -- Room for this character and the terminator.
  unfoldable pub grow : Line → Option Line
  grow l =
      if ltb l.size (length l.chars + 2)
      then (if grants (l.size * 2) then some (record l { size = l.size * 2 }) else none)
      else some l

  module _ {W : Type 0} (k : Kernel W) where
    -- `while ((c = fgetc(stream)) != EOF)`: false if there was no memory. `none` is no result for want of fuel.
    unfoldable pub getdelim_loop : ℕ → ℕ → Line → File W → Option (Bool × Line × File W)
    getdelim_loop zero delimiter l fp = none
    getdelim_loop (suc fuel) delimiter l fp =
        let (c, fp1) = fgetc k fp in
        elim c [
          | none ↦ some (true, l, fp1)
          | some x ↦ elim (grow l) [
            | none ↦ some (false, l, fp1)
            | some l1 ↦
                let l2 = record l1 { chars = l1.chars ++ (x ∷ []) } in
                elim (x == delimiter) [
                  | true ↦ some (true, l2, fp1)
                  | false ↦ getdelim_loop fuel delimiter l2 fp1
                ]
          ]
        ]

    -- What `getdelim` returns behind the loop.
    abbrev pub line_result : Bool × Line × File W → Result W
    line_result (false, l, fp) = record { ret = none; no_memory = true; line = l; fp = fp }
    line_result (true, l, fp) = record {
      ret = if length l.chars == 0 then none else some (length l.chars);
      no_memory = false;
      line = l;
      fp = fp;
    }

    unfoldable pub getdelim : ℕ → ℕ → Line → File W → Option (Result W)
    getdelim fuel delimiter l fp = elim (first_block l) [
      | none ↦ some (record { ret = none; no_memory = true; line = l; fp = fp })
      | some l1 ↦ elim (getdelim_loop fuel delimiter l1 fp) [
        | none ↦ none
        | some r ↦ some (line_result r)
      ]
    ]

    -- `getline`
    unfoldable pub getline : ℕ → Line → File W → Option (Result W)
    getline fuel l fp = getdelim fuel 10 l fp
