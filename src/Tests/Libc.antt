-- ===== src/Tests/Libc.antt =====
-- Witnesses and runs for the userland's memory and string functions.
use void.Base.{◌+◌, ◌-◌, ◌≡◌, refl, some, [], ◌∷◌, get_or, if◌then◌else◌, arith, inr}
use void.Base.Strings.{CString}
use void.Libc.{Mem, poke, copy_up, copy_down, memmove, strcpy, strcmp}
use void.Libc.Moves.{in_area, memmove_lem}
use void.Libc.Texts.{HoldsText, lex, Copied, strcmp_lem, strcpy_lem}

-- "hi" at 0 and "ho" at 3
abbrev hi : CString
hi = 104 ∷ 105 ∷ []

abbrev ho : CString
ho = 104 ∷ 111 ∷ []

abbrev demo_memory : Mem
demo_memory a = get_or (104 ∷ 105 ∷ 0 ∷ 104 ∷ 111 ∷ 0 ∷ []) a 7

-- The areas overlap.
memmove_lem_example :
    memmove 1 0 4 demo_memory 3
    ≡ (if in_area 1 4 3 then demo_memory (0 + (3 - 1)) else demo_memory 3)
memmove_lem_example = memmove_lem 1 0 4 demo_memory 3

moves_up : memmove 1 0 4 demo_memory 4 ≡ 104
unfolding memmove copy_down copy_up poke
moves_up = refl

hi_there : HoldsText demo_memory 0 hi
hi_there = (refl, omega arith, (refl, omega arith, refl))

ho_there : HoldsText demo_memory 3 ho
ho_there = (refl, omega arith, (refl, omega arith, refl))

strcmp_lem_example : strcmp 9 demo_memory 0 3 ≡ some (lex hi ho)
strcmp_lem_example = strcmp_lem 9 demo_memory 0 3 hi ho hi_there ho_there (omega arith)

strcpy_lem_example :
    (m' : Mem) × (strcpy 9 20 0 demo_memory ≡ some m') × Copied demo_memory 20 hi m'
strcpy_lem_example = strcpy_lem 9 20 0 demo_memory hi hi_there (inr (omega arith)) (omega arith)
