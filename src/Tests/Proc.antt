-- ===== src/Tests/Proc.antt =====
-- Witnesses and runs for the memory of a process.
use void.Base.{arith, ◌≡◌, refl, true, not, ◌&&◌, leb, ltb, [], ◌∷◌, ok}
use void.Proc.{alloc_user_page, map_user, World, mmap_top}
use void.Mm.Pmm.{alloc_frame, scan_bytes, scan_bits, bit_test, bit_set}
use void.Mm.Vmm.{map_page, walk_or_create, alloc_table, put_entry, zero_frame}
use void.Base.Bytes.{test_bit, set_bit}
use void.Proc.Brk.{brk_set, brk_grow}
use void.Proc.Grow.{brk_set_records}
use void.Proc.Mmap.{sys_munmap}
use void.Proc.Pages.{count, sys_munmap_count}
use void.Tests.Vmm.{page_machine}

-- A process that owns its code page and one page far above it.
abbrev pub two_pages : World
two_pages = record {
  machine = page_machine;
  space = record {
    cr3 = 4096;
    umap =
        record { virt = 0x400000; phys = 0x5000 } ∷ record { virt = 0x600000; phys = 0x6000 } ∷ [];
    heap_start = 0x401000;
    brk_current = 0x402000;
    brk_perm = 2;
  };
}

accepts : (sys_munmap 0x400000 4096 two_pages).0 ≡ ok 0
unfolding sys_munmap
accepts = refl

-- The length covers the first page alone.
sys_munmap_count_example :
    count (λ p. true) (sys_munmap 0x400000 4096 two_pages).1.space.umap
    ≡ count (λ p. true && not (leb 0x400000 p.virt && ltb p.virt mmap_top)) two_pages.space.umap
sys_munmap_count_example = sys_munmap_count 0x400000 4096 two_pages (λ p. true) accepts

no_page_stays :
    count (λ p. true && not (leb 0x400000 p.virt && ltb p.virt mmap_top)) two_pages.space.umap ≡ 0
no_page_stays = refl

-- The break lies inside the page at 0x400000, which the process owns.
abbrev inside_page : World
inside_page = record two_pages {
  space = record (two_pages.space) {
    umap = record { virt = 0x400000; phys = 0x5000 } ∷ [];
    heap_start = 0x400000;
    brk_current = 0x400064;
  };
}

grows : (brk_set 0x4000c8 inside_page).0 ≡ ok 0
unfolding map_page walk_or_create alloc_table put_entry zero_frame alloc_frame scan_bytes scan_bits
    bit_test bit_set test_bit set_bit brk_set brk_grow alloc_user_page map_user
grows = refl

brk_set_records_example :
    (brk_set 0x4000c8 inside_page).1.space.umap
    ≡ record { virt = 0x400000; phys = 0x5000 }
      ∷ record { virt = 0x400064; phys = (alloc_frame page_machine.pmm).0 }
      ∷ []
brk_set_records_example =
    brk_set_records 0x4000c8 inside_page (omega arith) (omega arith) (omega arith) (omega arith)
      grows
