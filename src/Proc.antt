-- ===== src/Proc.antt =====
-- The memory of a process, kernel/proc/process.c and kernel/mm/user_mem.c.
pub mod Brk
pub mod Mmap
pub mod Pages
pub mod Reserve
pub mod Wraps
pub mod Grow
pub mod Table
pub mod Life
pub mod Family
use Prim.Native.Nat.{bit_or}
use void.Base.{
  ℕ, zero, suc, ◌+◌, ◌-◌, ◌*◌, ◌/◌, ◌%◌, ◌^◌, Bool, true, false, not, ◌&&◌, ◌||◌, Option, none,
  some, List, [], ◌∷◌, ◌++◌, ltb, leb, ◌==◌, if◌then◌else◌, length, get_elem?, Ret, ok, err, inval,
  nomem, perm,
}
use void.Mm.Pmm.{Pmm, alloc_frame, free_frame}
use void.Mm.Vmm.{
  Mem, Machine, VoidStatus, void_ok, err_nomem, err_inval, map_page, unmap_page, get_pte, present,
  zero_frame,
}

-- A page that the process owns: its address, which need not be aligned, and its frame.
pub record Page : Type 0 where
  pub virt : ℕ
  pub phys : ℕ

-- The memory fields of process_t.
pub record Space : Type 0 where
  pub cr3 : ℕ
  pub umap : List Page
  pub heap_start : ℕ
  pub brk_current : ℕ
  pub brk_perm : ℕ

-- A process's space and the machine.
pub record World : Type 0 where
  pub machine : Machine
  pub space : Space

abbrev pub max_umap : ℕ
max_umap = 256

abbrev pub user_limit : ℕ
user_limit = 0x800000000000

abbrev pub mmap_top : ℕ
mmap_top = 0x700000000000 - 16 * 4096

abbrev pub code_base : ℕ
code_base = 0x400000

-- A page that was mapped is recorded.
abbrev pub record_page : ℕ → ℕ → VoidStatus × Machine → World → VoidStatus × World
record_page virt phys (void_ok, m) w = (
  void_ok,
  record {
    machine = m;
    space = record (w.space) { umap = w.space.umap ++ record { virt = virt; phys = phys } ∷ [] };
  },
)
record_page virt phys (err_nomem, m) w = (err_nomem, record w { machine = m })
record_page virt phys (err_inval, m) w = (err_inval, record w { machine = m })

unfoldable pub map_user : ℕ → ℕ → ℕ → World → VoidStatus × World
map_user virt phys flags w =
    if leb user_limit virt
    then (err_nomem, w)
    else if leb max_umap (length w.space.umap)
    then (err_nomem, w)
    else record_page virt phys (map_page w.space.cr3 virt phys (bit_or flags 5) w.machine) w

-- `if (s != VOID_OK) pmm_free_frame(frame);`
abbrev pub give_back : ℕ → VoidStatus × World → VoidStatus × World
give_back frame (void_ok, w) = (void_ok, w)
give_back frame (err_nomem, w) =
    (err_nomem, record w { machine = record (w.machine) { pmm = free_frame w.machine.pmm frame } })
give_back frame (err_inval, w) =
    (err_inval, record w { machine = record (w.machine) { pmm = free_frame w.machine.pmm frame } })

unfoldable pub alloc_user_page : ℕ → ℕ → World → VoidStatus × World
unfolding map_user
alloc_user_page virt flags w =
    let (frame, p) = alloc_frame w.machine.pmm in
    if frame == 0
    then (err_nomem, record w { machine = record (w.machine) { pmm = p } })
    else (let zeroed : Machine = record { pmm = p; mem = zero_frame w.machine.mem frame } in
        give_back frame (map_user virt frame flags (record w { machine = zeroed })))

-- Unmap the page and free its frame.
abbrev pub release_page : Page → World → World
release_page page w =
    let m = (unmap_page w.space.cr3 page.virt w.machine).1 in
    record w { machine = record m { pmm = free_frame m.pmm page.phys } }

abbrev pub is_released : ℕ → Page → Bool
is_released start page = leb start page.virt && ltb page.virt mmap_top

-- Page `i` goes, and the last one takes its place.
unfoldable pub swap_tail : List Page → List Page
swap_tail [] = []
swap_tail (y ∷ []) = y ∷ []
swap_tail (y ∷ z ∷ ys) = elim (swap_tail (z ∷ ys)) as (λ l. List Page) [
  | [] ↦ y ∷ []
  | t ∷ ts ↦ t ∷ y ∷ ts
]

unfoldable pub umap_remove : ℕ → List Page → List Page
unfolding swap_tail
umap_remove i [] = []
umap_remove zero (x ∷ xs) = swap_tail xs
umap_remove (suc i) (x ∷ xs) = x ∷ umap_remove i xs

-- `n` pages are left, from number `i` on.
unfoldable pub release_loop : ℕ → (n : ℕ) → ℕ → World → World
unfolding umap_remove
release_loop start zero i w = w
release_loop start (suc n) i w = elim (get_elem? w.space.umap i) [
  | none ↦ w
  | some page ↦ elim (is_released start page) [
    | true ↦
        let w' = release_page page w in
        release_loop start n i
          (record w' { space = record (w'.space) { umap = umap_remove i w'.space.umap } })
    | false ↦ release_loop start n (i + 1) w
  ]
]

abbrev pub release_from : ℕ → World → World
release_from start w = release_loop start (length w.space.umap) 0 w

-- Every page in the record, unmapped and its frame freed.
unfoldable pub release_pages : List Page → World → World
release_pages [] w = w
release_pages (page ∷ pages) w = release_pages pages (release_page page w)

abbrev pub page_up : ℕ → ℕ
page_up a = (a + 4095) % 2 ^ 64 / 4096 * 4096
