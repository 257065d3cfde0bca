-- ===== src/Strings/Examples.antt =====
-- The theorems on strings applied to short strings.
use yasos_libc.Base.{
  ℕ, ◌-◌, ◌<◌, ◌≡◌, refl, arith, ◌==◌, if◌then◌else◌, inl, none, some, List, [], ◌∷◌, ◌++◌, get_or,
  take,
}
use yasos_libc.Memory.{Ram, inside}
use yasos_libc.Strings.{strtok_r, strstr}
use yasos_libc.Strings.Order.{IsString}
use yasos_libc.Strings.Tokens.{IsBytes, Tokenized, strtok_r-Tokenized}
use yasos_libc.Strings.Find.{find, strstr-find}
use yasos_libc.Strings.Copy.{strncpy, strncat, Holds}
use yasos_libc.Strings.Bounded.{strncat-Holds, strncpy-inside}

-- "ab,c"
abbrev text : List ℕ
text = b'a' ∷ b'b' ∷ b',' ∷ b'c' ∷ []

abbrev part : List ℕ
part = b'b' ∷ b',' ∷ []

text-IsString : IsString text
unfolding IsString
text-IsString = (omega arith, (omega arith, (omega arith, (omega arith, tt))))

part-IsString : IsString part
unfolding IsString
part-IsString = (omega arith, (omega arith, tt))

text-IsBytes : IsBytes text
text-IsBytes = (
  omega arith,
  omega arith,
  (omega arith, omega arith, (omega arith, omega arith, (omega arith, omega arith, tt))),
)

part-IsBytes : IsBytes part
part-IsBytes = (omega arith, omega arith, (omega arith, omega arith, tt))

strtok_r-Tokenized_example :
    Tokenized text (b',' ∷ []) (strtok_r (some text) (b',' ∷ []) none)
    × Tokenized text (b',' ∷ []) (strtok_r none (b',' ∷ []) (some text))
    × (strtok_r none (b',' ∷ []) none ≡ (none, none))
strtok_r-Tokenized_example = strtok_r-Tokenized text (b',' ∷ []) none text-IsBytes

strstr-find_example : strstr text part ≡ some (find part text)
strstr-find_example = strstr-find text part text-IsBytes part-IsBytes (inl (omega arith))

-- A memory with "b," at 32 and "" elsewhere.
abbrev ram : Ram
ram a = if a == 32 then b'b' else if a == 33 then b',' else 0

ram-bytes : (a : ℕ) → ram a < 256
ram-bytes a = ground arith

ram-Holds : Holds ram 32 part
unfolding Holds
ram-Holds = (refl, (refl, refl))

ram-empty : Holds ram 8 []
unfolding Holds
ram-empty = refl

strncat-Holds_example : Holds (strncat ram 8 [] 32 part 1) 8 ([] ++ take 1 part)
strncat-Holds_example =
    strncat-Holds ram 8 [] 32 part 1 ram-bytes ram-empty ram-Holds (omega arith) (inl (omega arith))

strncpy-inside_example :
    strncpy ram 8 32 part 5 9 ≡ (if inside 8 5 9 then get_or (take 5 part) (9 - 8) 0 else ram 9)
strncpy-inside_example =
    strncpy-inside ram 8 32 part 5 ram-bytes ram-Holds (omega arith) (omega arith)
      (inl (omega arith)) 9
