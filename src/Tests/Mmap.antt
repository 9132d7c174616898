-- ===== src/Tests/Mmap.antt =====
-- Witnesses for anonymous mappings.
use void.Base.{
  ℕ, ◌+◌, ◌-◌, ◌/◌, ◌^◌, ◌<◌, ◌≤◌, ◌≡◌, refl, ap, ◌∙◌, true, false, arith, [], ◌∷◌, ok, some, inl,
  inr, ◌==◌,
}
use void.Base.Bytes.{test_bit, set_bit}
use void.Mm.Pmm.{alloc_frame, scan_bytes, scan_bits, bit_set, bit_test}
use void.Mm.Vmm.{
  map_page, get_pte, present, walk_or_create, alloc_table, put_entry, zero_frame, void_ok,
}
use void.Mm.Vmm.Maps.{map_page_lem}
use void.Proc.{World, mmap_top}
use void.Proc.Mmap.{sys_mmap}
use void.Proc.Wraps.{sys_mmap_wraps}
use void.Tests.Vmm.{empty_machine, empty-SpaceOk}

-- 96 TiB, and a page mapped where the search starts.
abbrev length_asked : ℕ
length_asked = 0x600000000000

abbrev first_place : ℕ
first_place = mmap_top - length_asked

abbrev one_page : World
one_page = record {
  machine = (map_page 4096 first_place 0x5000 7 empty_machine).1;
  space = record {
    cr3 = 4096;
    umap = record { virt = first_place; phys = 0x5000 } ∷ [];
    heap_start = 0x401000;
    brk_current = 0x402000;
    brk_perm = 2;
  };
}

first_taken : present (get_pte one_page.machine.mem 4096 first_place) ≡ true
unfolding map_page walk_or_create alloc_table put_entry zero_frame alloc_frame scan_bytes scan_bits
    bit_test bit_set test_bit set_bit get_pte
first_taken = refl

maps : (map_page 4096 first_place 0x5000 7 empty_machine).0 ≡ void_ok
unfolding map_page walk_or_create alloc_table put_entry zero_frame alloc_frame scan_bytes scan_bits
    bit_test bit_set test_bit set_bit
maps = refl

nothing : (a : ℕ) → get_pte (λ a. 0) 4096 a ≡ 0
unfolding get_pte
nothing a = refl

rest_free :
    (a : ℕ)
    → first_place + 4096 ≤ a
    → a < mmap_top
    → present (get_pte one_page.machine.mem 4096 a) ≡ false
rest_free a above below =
    elim (map_page_lem empty_machine 4096 empty-SpaceOk first_place 0x5000 7 (omega arith)).1 [
      | inr (full, _) ↦ cc (maps, full)
      | inl (_, entries) ↦
          let other : (a / 4096 == first_place / 4096) ≡ false = ground arith in
          let zero_entry : get_pte one_page.machine.mem 4096 a ≡ 0 =
            entries a (omega arith) ∙ rw other (nothing a) in
          ap present zero_entry
    ]

-- The answer is the word of a negative number.
sys_mmap_wraps_example :
    sys_mmap true 0 length_asked 3 0x22 (2 ^ 32 - 1) 0 one_page
    ≡ some (ok 0xFFFFAFFFFFFF0000, one_page)
sys_mmap_wraps_example =
    sys_mmap_wraps one_page length_asked refl (omega arith) (omega arith) (omega arith) true 3
      (omega arith) (omega arith) first_taken rest_free
