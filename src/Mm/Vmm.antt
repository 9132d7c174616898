-- ===== src/Mm/Vmm.antt =====
-- Four-level page tables, kernel/mm/vmm.c.
-- Physical memory is the 64-bit word at every multiple of 8, and a table is the physical address of
-- its frame: the source reaches it through the direct map of physical memory.
pub mod Space
pub mod Create
pub mod Walk
pub mod Leaf
pub mod Maps
pub mod Translate
use Prim.Native.Nat.{bit_or}
use void.Base.{
  ℕ, zero, suc, ◌+◌, ◌*◌, ◌/◌, ◌%◌, ◌^◌, Bool, true, false, not, ◌&&◌, Option, none, some, ltb, leb,
  ◌==◌, if◌then◌else◌,
}
use void.Mm.Pmm.{Pmm, alloc_frame}

abbrev pub Mem : Type 0
Mem = ℕ → ℕ

pub record Machine : Type 0 where
  pub pmm : Pmm
  pub mem : Mem

pub data VoidStatus : Type 0 where
  void_ok err_nomem err_inval : VoidStatus

-- The flags of an entry, and its bits 12 to 51.
abbrev pub present : ℕ → Bool
present e = e % 2 == 1

abbrev pub writable : ℕ → Bool
writable e = e / 2 % 2 == 1

abbrev pub user : ℕ → Bool
user e = e / 4 % 2 == 1

abbrev pub huge : ℕ → Bool
huge e = e / 128 % 2 == 1

abbrev pub no_execute : ℕ → Bool
no_execute e = e / 2 ^ 63 % 2 == 1

abbrev pub phys_of : ℕ → ℕ
phys_of e = e % 2 ^ 52 / 4096 * 4096

-- The index of an address into its table of depth `k`: PML4, PDPT, PD, PT.
abbrev pub index : ℕ → ℕ → ℕ
index zero v = v / 2 ^ 39 % 512
index (suc zero) v = v / 2 ^ 30 % 512
index (suc (suc zero)) v = v / 2 ^ 21 % 512
index (suc (suc (suc k))) v = v / 2 ^ 12 % 512

abbrev pub entry : Mem → ℕ → ℕ → ℕ
entry m table i = m (table / 8 + i)

unfoldable pub put_entry : Mem → ℕ → ℕ → ℕ → Mem
put_entry m table i e a = if a == table / 8 + i then e else m a

unfoldable pub zero_frame : Mem → ℕ → Mem
zero_frame m frame a = if leb (frame / 8) a && ltb a (frame / 8 + 512) then 0 else m a

-- 0 is the failure.
unfoldable pub alloc_table : Machine → ℕ × Machine
unfolding zero_frame
alloc_table s =
    let (frame, p) = alloc_frame s.pmm in
    if frame == 0
    then (0, record s { pmm = p })
    else (frame, record { pmm = p; mem = zero_frame s.mem frame })

unfoldable pub walk_or_create : ℕ → ℕ → ℕ → Machine → Option ℕ × Machine
unfolding alloc_table put_entry
walk_or_create table i flags s =
    if not (present (entry s.mem table i))
    then (let (frame, s') = alloc_table s in
        if frame == 0
        then (none, s')
        else (let m = put_entry s'.mem table i (bit_or frame flags) in
            (some (phys_of (entry m table i)), record s' { mem = m })))
    else (some (phys_of (entry s.mem table i)), s)

-- `if (!table) return VOID_ERR_NOMEM;`
abbrev pub and_then :
    Option ℕ × Machine → (ℕ → Machine → VoidStatus × Machine) → VoidStatus × Machine
and_then (none, s) f = (err_nomem, s)
and_then (some t, s) f = f t s

abbrev pub table_flags : ℕ → ℕ
table_flags flags = if user flags then 7 else 3

unfoldable pub map_page : ℕ → ℕ → ℕ → ℕ → Machine → VoidStatus × Machine
unfolding walk_or_create put_entry
map_page pml4 virt phys flags s =
    and_then (walk_or_create pml4 (index 0 virt) (table_flags flags) s) λ pdpt s1.
      and_then (walk_or_create pdpt (index 1 virt) (table_flags flags) s1) λ pd s2.
        and_then (walk_or_create pd (index 2 virt) (table_flags flags) s2) λ pt s3. (
          void_ok,
          record s3 { mem = put_entry s3.mem pt (index 3 virt) (bit_or (phys_of phys) flags) },
        )

-- The physical address that was mapped, or 0.
unfoldable pub unmap_page : ℕ → ℕ → Machine → ℕ × Machine
unfolding put_entry
unmap_page pml4 virt s =
    let pml4e = entry s.mem pml4 (index 0 virt) in
    let pdpte = entry s.mem (phys_of pml4e) (index 1 virt) in
    let pde = entry s.mem (phys_of pdpte) (index 2 virt) in
    let pt = phys_of pde in
    let pte = entry s.mem pt (index 3 virt) in
    if not (present pml4e)
    then (0, s)
    else if not (present pdpte)
    then (0, s)
    else if not (present pde)
    then (0, s)
    else if not (present pte)
    then (0, s)
    else (phys_of pte, record s { mem = put_entry s.mem pt (index 3 virt) 0 })

unfoldable pub virt_to_phys : Mem → ℕ → ℕ → ℕ
virt_to_phys m pml4 virt =
    let pml4e = entry m pml4 (index 0 virt) in
    let pdpte = entry m (phys_of pml4e) (index 1 virt) in
    let pde = entry m (phys_of pdpte) (index 2 virt) in
    let pte = entry m (phys_of pde) (index 3 virt) in
    if not (present pml4e)
    then 0
    else if not (present pdpte)
    then 0
    else if huge pdpte
    then bit_or (pdpte % 2 ^ 48 / 2 ^ 30 * 2 ^ 30) (virt % 2 ^ 30)
    else if not (present pde)
    then 0
    else if huge pde
    then bit_or (pde % 2 ^ 48 / 2 ^ 21 * 2 ^ 21) (virt % 2 ^ 21)
    else if not (present pte)
    then 0
    else bit_or (phys_of pte) (virt % 4096)

unfoldable pub get_pte : Mem → ℕ → ℕ → ℕ
get_pte m pml4 virt =
    let pml4e = entry m pml4 (index 0 virt) in
    let pdpte = entry m (phys_of pml4e) (index 1 virt) in
    let pde = entry m (phys_of pdpte) (index 2 virt) in
    if not (present pml4e)
    then 0
    else if not (present pdpte)
    then 0
    else if huge pdpte
    then pdpte
    else if not (present pde)
    then 0
    else if huge pde
    then pde
    else entry m (phys_of pde) (index 3 virt)
