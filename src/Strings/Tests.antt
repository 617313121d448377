-- ===== src/Strings/Tests.antt =====
-- Runs of lib/string.c.
use untitled_bare_metal.Base.{
  ℕ, ◌≡◌, ◌↔◌, refl, ◌==◌, if◌then◌else◌, inr, List, [], ◌∷◌, length, some, suc, arith,
}
use untitled_bare_metal.Base.Int.{pos}
use untitled_bare_metal.Strings.{Bytes, memmove, strcpy, strcmp}
use untitled_bare_metal.Strings.Move.{Moved, memmove-Moved}
use untitled_bare_metal.Strings.Compare.{difference, strcmp-Compared, strcpy-strcmp}

-- "ab" at 8, and "ac" at 16
abbrev memory : Bytes
memory a =
    if a == 8
    then b'a'
    else if a == 9
    then b'b'
    else if a == 16
    then b'a'
    else if a == 17
    then b'c'
    else 0

abbrev ab : List ℕ
ab = b'a' ∷ b'b' ∷ []

abbrev ac : List ℕ
ac = b'a' ∷ b'c' ∷ []

-- The source and the destination overlap.
memmove-Moved_example : Moved 3 9 8 memory (memmove 3 9 8 memory)
memmove-Moved_example = memmove-Moved 3 9 8 memory

overlap_run : memmove 3 9 8 memory 10 ≡ b'b'
unfolding memmove
overlap_run = refl

strcmp-Compared_example :
    (strcmp 3 8 16 memory ≡ some (difference ab ac)) × ((difference ab ac ≡ pos 0) ↔ (ab ≡ ac))
strcmp-Compared_example =
    strcmp-Compared 3 ab ac 8 16 memory (omega arith) (omega arith) (omega arith)

strcpy-strcmp_example :
    (mem' : Bytes) × (strcpy 3 32 8 memory ≡ some mem')
    × Moved (suc (length ab)) 32 8 memory mem'
    × (strcmp 3 32 8 mem' ≡ some (pos 0))
strcpy-strcmp_example =
    strcpy-strcmp 3 ab 32 8 memory (omega arith) (inr (omega arith)) (omega arith)
