-- ===== src/Proc/Mmap.antt =====
-- Anonymous mappings, kernel/mm/user_mem.c, and sys_mmap and sys_munmap of
-- kernel/syscall/syscall.c.
use Prim.Native.Nat.{bit_or}
use void.Base.{
  ℕ, zero, suc, ◌+◌, ◌-◌, ◌*◌, ◌/◌, ◌%◌, ◌^◌, Bool, true, false, not, ◌&&◌, ◌||◌, Option, none,
  some, ltb, leb, ◌==◌, if◌then◌else◌, Ret, ok, err, inval, nomem, perm,
}
use void.Mm.Vmm.{Mem, void_ok, unmap_page, get_pte, present}
use void.Proc.{Space, World, mmap_top, code_base, page_up, alloc_user_page, release_from}

-- Whether `n` pages from `va` on are free.
unfoldable pub clear_pages : Mem → ℕ → (n : ℕ) → ℕ → Bool
clear_pages m cr3 zero va = true
clear_pages m cr3 (suc n) va = not (present (get_pte m cr3 va)) && clear_pages m cr3 n (va + 4096)

unfoldable pub range_clear : Mem → ℕ → ℕ → ℕ → Bool
unfolding clear_pages
range_clear m cr3 start stop =
    if leb stop start
    then true
    else (let first = start / 4096 * 4096 in clear_pages m cr3 ((stop - first + 4095) / 4096) first)

-- The last page in use among `n` pages from `va` on, `occ` if there is none.
unfoldable pub highest_used : Mem → ℕ → (n : ℕ) → ℕ → ℕ → ℕ
highest_used m cr3 zero va occ = occ
highest_used m cr3 (suc n) va occ =
    highest_used m cr3 n (va + 4096) (if present (get_pte m cr3 va) then va else occ)

-- `len` bytes, a multiple of the page size, at `base` or below; `none` is that the rounds ran out.
unfoldable pub reserve_loop : (fuel : ℕ) → Mem → ℕ → ℕ → ℕ → ℕ → Option (Ret ℕ)
unfolding range_clear highest_used
reserve_loop zero m cr3 len floor base = none
reserve_loop (suc fuel) m cr3 len floor base =
    elim (range_clear m cr3 base ((base + len) % 2 ^ 64)) [
      | true ↦ some (ok base)
      | false ↦
          let occ = highest_used m cr3 (len / 4096) base base in
          let base' = (occ + 2 ^ 64 - len) % 2 ^ 64 / 4096 * 4096 in
          if ltb base' floor then some (err nomem) else reserve_loop fuel m cr3 len floor base'
    ]

abbrev pub mmap_floor : Space → ℕ
mmap_floor s = let f = page_up s.brk_current in if ltb f code_base then code_base else f

-- The base falls by at least `len` in each round, so a round for every byte below the stack is enough.
unfoldable pub mmap_reserve : (fuel : ℕ) → ℕ → World → Option (Ret ℕ)
mmap_reserve fuel len w =
    let floor = mmap_floor w.space in
    if len == 0
    then some (err inval)
    else if not (len % 4096 == 0)
    then some (err inval)
    else if ltb mmap_top len
    then some (err nomem)
    else if ltb (mmap_top - len) floor
    then some (err nomem)
    else reserve_loop fuel w.machine.mem w.space.cr3 len floor ((mmap_top - len) / 4096 * 4096)

unfoldable pub sys_munmap : ℕ → ℕ → World → Ret ℕ × World
sys_munmap addr len w =
    let n = (len + 4095) % 2 ^ 64 / 4096 * 4096 in
    let stop = (addr + n) % 2 ^ 64 in
    if w.space.cr3 == 0
    then (err perm, w)
    else if len == 0
    then (err inval, w)
    else if not (addr % 4096 == 0)
    then (err inval, w)
    else if ltb stop addr || ltb mmap_top stop
    then (err inval, w)
    else (ok 0, release_from addr w)

-- Bits 1 (write) and 2 (execute) of `prot`.
unfoldable pub mmap_prot_flags : ℕ → Bool → ℕ
mmap_prot_flags prot nx =
    bit_or (if prot / 2 % 2 == 1 then 2 else 0)
      (if not (prot / 4 % 2 == 1) && nx then 2 ^ 63 else 0)

-- `n` pages from `va` on are unmapped.
unfoldable pub unmap_run : (n : ℕ) → ℕ → World → World
unmap_run zero va w = w
unmap_run (suc n) va w =
    unmap_run n (va + 4096) (record w { machine = (unmap_page w.space.cr3 va w.machine).1 })

unfoldable pub mmap_loop : (fuel : ℕ) → (base va stop flags : ℕ) → World → Ret ℕ × World
unfolding unmap_run alloc_user_page
mmap_loop zero base va stop flags w = (ok base, w)
mmap_loop (suc fuel) base va stop flags w =
    if ltb va stop
    then (let (status, w') = alloc_user_page va flags w in
        elim status [
          | void_ok ↦ mmap_loop fuel base (va + 4096) stop flags w'
          | _ ↦ (err nomem, unmap_run ((va - base) / 4096) base w')
        ])
    else (ok base, w)

-- The rounds of the search: one for each page below the stack, and two more.
abbrev pub reserve_rounds : ℕ
reserve_rounds = mmap_top / 4096 + 2

unfoldable pub choose_base : ℕ → ℕ → World → Option (Ret ℕ)
unfolding mmap_reserve range_clear
choose_base addr n w =
    if addr == 0
    then mmap_reserve reserve_rounds n w
    else if not (addr % 4096 == 0)
    then some (err inval)
    else if leb mmap_top addr
    then some (err inval)
    else if ltb ((addr + n) % 2 ^ 64) addr
    then some (err nomem)
    else if range_clear w.machine.mem w.space.cr3 addr ((addr + n) % 2 ^ 64)
    then some (ok addr)
    else some (err inval)

abbrev map_chosen : ℕ → ℕ → Option (Ret ℕ) → World → Option (Ret ℕ × World)
map_chosen n flags none w = none
map_chosen n flags (some (err e)) w = some (err e, w)
map_chosen n flags (some (ok base)) w =
    some (mmap_loop (n / 4096 + 1) base base ((base + n) % 2 ^ 64) flags w)

-- `none` is that the rounds of the search ran out. `nx` says whether the processor can forbid
-- execution.
unfoldable pub sys_mmap :
    (nx : Bool) → (addr len prot flags fd offset : ℕ) → World → Option (Ret ℕ × World)
unfolding choose_base mmap_loop mmap_prot_flags
sys_mmap nx addr len prot flags fd offset w =
    let n = (len + 4095) % 2 ^ 64 / 4096 * 4096 in
    if w.space.cr3 == 0
    then some (err perm, w)
    else if len == 0
    then some (err inval, w)
    else if leb mmap_top len
    then some (err nomem, w)
    else if not (fd == 2 ^ 32 - 1) || not (offset == 0)
    then some (err inval, w)
    else if not (flags == 0x22)
    then some (err inval, w)
    else if prot == 0
    then some (err inval, w)
    else map_chosen n (mmap_prot_flags prot nx) (choose_base addr n w) w
