-- ===== src/Proc/Brk.antt =====
-- The break of a process, kernel/mm/user_mem.c, sys_brk of kernel/syscall/syscall.c and brk_init of
-- kernel/proc/process.c.
use void.Base.{
  ℕ, zero, suc, ◌+◌, ◌-◌, ◌/◌, ◌^◌, Bool, ltb, ◌==◌, if◌then◌else◌, Ret, ok, err, inval, nomem,
}
use void.Mm.Vmm.{VoidStatus, void_ok, err_nomem, err_inval}
use void.Proc.{Space, World, page_up, alloc_user_page, release_from}

-- `if (... != VOID_OK) return -VE_NOMEM;`
abbrev pub and_grow : VoidStatus × World → (World → Ret ℕ × World) → Ret ℕ × World
and_grow (void_ok, w) f = f w
and_grow (err_nomem, w) f = (err nomem, w)
and_grow (err_inval, w) f = (err nomem, w)

unfoldable pub brk_grow : (fuel : ℕ) → ℕ → ℕ → World → Ret ℕ × World
unfolding alloc_user_page
brk_grow zero va new_brk w = (ok 0, w)
brk_grow (suc fuel) va new_brk w =
    if ltb va new_brk
    then and_grow (alloc_user_page va w.space.brk_perm w)
        (λ w'. brk_grow fuel (va + 4096) new_brk w')
    else (ok 0, w)

abbrev set_brk : ℕ → World → World
set_brk b w = record w { space = record (w.space) { brk_current = b } }

-- The rounds of the growing loop: one for each page, and one for the test that ends it.
abbrev pub brk_rounds : ℕ → ℕ → ℕ
brk_rounds old new_brk = (new_brk - old) / 4096 + 2

-- The break moves if the growth has found memory.
abbrev pub grown : ℕ → Ret ℕ × World → Ret ℕ × World
grown new_brk (ok _, w) = (ok 0, set_brk new_brk w)
grown new_brk (err e, w) = (err e, w)

unfoldable pub brk_set : ℕ → World → Ret ℕ × World
unfolding brk_grow
brk_set new_brk w =
    let old = w.space.brk_current in
    if w.space.heap_start == 0
    then (err inval, w)
    else if ltb new_brk w.space.heap_start
    then (err inval, w)
    else if ltb old new_brk
    then grown new_brk (brk_grow (brk_rounds old new_brk) old new_brk w)
    else if ltb new_brk old
    then (ok 0, set_brk new_brk (release_from (page_up new_brk) w))
    else (ok 0, w)

unfoldable pub sys_brk : ℕ → World → Ret ℕ × World
sys_brk addr w =
    if w.space.heap_start == 0
    then (err inval, w)
    else if addr == 0
    then (ok w.space.brk_current, w)
    else if ltb addr w.space.heap_start
    then (ok w.space.brk_current, w)
    else (let (r, w') = brk_set addr w in
        elim r [ ok _ ↦ (ok w'.space.brk_current, w') | err e ↦ (err e, w') ])

unfoldable pub brk_init : ℕ → Bool → Space → Space
brk_init image_end nx s =
    let start = page_up image_end in
    record s {
      heap_start = start;
      brk_current = start + 4096;
      brk_perm = if nx then 2 + 2 ^ 63 else 2;
    }
