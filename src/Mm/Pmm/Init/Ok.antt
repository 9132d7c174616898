-- ===== src/Mm/Pmm/Init/Ok.antt =====
-- What pmm_init of kernel/mm/pmm.c sets up.
use void.Base.{◌+◌, ◌%◌, ◌^◌, ◌<◌, ◌≡◌, true, List, [], ◌∷◌}
use void.Mm.Pmm.{Pmm}
use void.Mm.Pmm.Init.{Region}

-- Usable regions end on a page and below the end of the address space, as the boot protocol has it.
abbrev pub Aligned : List Region → Type 0
Aligned [] = Unit {0}
Aligned (r ∷ rs) =
    (r.usable ≡ true → ((r.base + r.length) % 4096 ≡ 0) × (r.base + r.length < 2 ^ 64)) × Aligned rs
