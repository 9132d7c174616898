-- ===== src/Tests/Vmm.antt =====
-- Witnesses and runs for the page tables and the copies from user memory.
use void.Base.{
  ℕ, suc, zero, ◌+◌, ◌/◌, ◌%◌, ◌<◌, ◌≤◌, ◌≡◌, ◌≢◌, ◌⊎◌, ◌↔◌, refl, true, false, some, none, [], ◌∷◌,
  arith, if◌then◌else◌, ◌==◌, sym, ap, ◌∙◌,
}
use Prim.Native.Nat.{bit_or}
use void.Mm.Pmm.{bit_test, bit_set, alloc_frame, scan_bytes, scan_bits}
use void.Mm.Vmm.{
  Machine, void_ok, err_nomem, map_page, get_pte, virt_to_phys, phys_of, walk_or_create,
  alloc_table, put_entry, zero_frame,
}
use void.Mm.Vmm.Space.{SpaceOk, table, table_back, user_half}
use void.Mm.Vmm.Maps.{map_page_lem}
use void.Mm.Vmm.Translate.{virt_to_phys-map_page}
use void.Base.Bytes.{test_bit, set_bit}
use void.Syscall.{copy_from_user, copy_from_loop, user_range_ok, pages_ok, read_run, byte, page_of}
use void.Syscall.Range.{Accessible, user_range_ok_iff, get_pte-page_of}
use void.Syscall.Copies.{user_bytes, copy_from_user_lem}
use void.Tests.Mm.{demo_pmm, demo-PmmOk}

-- A machine of six frames whose frame 1 is an empty top-level table.
abbrev pub empty_machine : Machine
empty_machine = record { pmm = demo_pmm; mem = λ a. 0 }

only_root : (v k t : ℕ) → table (λ a. 0) 4096 v k ≡ some t → (k ≡ 0) × (t ≡ 4096)
only_root v zero t h = (refl, unfold table in cc h)
only_root v (suc k) t h = let (u, before, here, next) = table_back (λ a. 0) 4096 v k t h in cc here

pub empty-SpaceOk : SpaceOk empty_machine 4096
unfolding bit_test test_bit
empty-SpaceOk = record {
  frames = demo-PmmOk;
  memory = omega arith;
  tables = λ v k t low deep h. rw (only_root v k t h).1 (refl, omega arith, refl);
  apart = λ v w j k t low low' deep deep' h h'.
      let at_j = (only_root v j t h).0 in
      let at_k = (only_root w k t h').0 in rw (at_j, at_k) (refl, tt);
  no_huge = λ v k t low above h here. cc;
}

-- 0x400000 to frame 5, writable.
map_page_lem_example :
    SpaceOk (map_page 4096 0x400000 0x5000 7 empty_machine).1 4096
    × ((((map_page 4096 0x400000 0x5000 7 empty_machine).0 ≡ void_ok)
          × ((w : ℕ)
              → w < user_half
              → get_pte (map_page 4096 0x400000 0x5000 7 empty_machine).1.mem 4096 w ≡ (
                  if w / 4096 == 0x400000 / 4096
                  then bit_or (phys_of 0x5000) 7
                  else get_pte (λ a. 0) 4096 w)))
        ⊎ (((map_page 4096 0x400000 0x5000 7 empty_machine).0 ≡ err_nomem)
            × ((w : ℕ)
                → w < user_half
                → get_pte (map_page 4096 0x400000 0x5000 7 empty_machine).1.mem 4096 w
                  ≡ get_pte (λ a. 0) 4096 w)))
map_page_lem_example = map_page_lem empty_machine 4096 empty-SpaceOk 0x400000 0x5000 7 (omega arith)

runs : (map_page 4096 0x400000 0x5000 7 empty_machine).0 ≡ void_ok
unfolding map_page walk_or_create alloc_table put_entry zero_frame alloc_frame scan_bytes scan_bits
    bit_test bit_set test_bit set_bit
runs = refl

virt_to_phys-map_page_example :
    virt_to_phys (map_page 4096 0x400000 0x5000 7 empty_machine).1.mem 4096 0x400123
    ≡ 0x5000 + 0x400123 % 4096
virt_to_phys-map_page_example =
    virt_to_phys-map_page empty_machine 4096 empty-SpaceOk 0x400000 0x5000 7 0x400123 (omega arith)
      (omega arith) (omega arith) (omega arith) (omega arith) refl (omega arith) runs

-- A machine with that page.
abbrev pub page_machine : Machine
page_machine = (map_page 4096 0x400000 0x5000 7 empty_machine).1

pub page-SpaceOk : SpaceOk page_machine 4096
page-SpaceOk = (map_page_lem empty_machine 4096 empty-SpaceOk 0x400000 0x5000 7 (omega arith)).0

-- The first bytes of that page, as a process reads them.
copies_zeros : copy_from_user page_machine.mem 4096 0x400ffe 2 ≡ some (0 ∷ 0 ∷ [])
unfolding map_page walk_or_create alloc_table put_entry zero_frame alloc_frame scan_bytes scan_bits
    bit_test bit_set test_bit set_bit copy_from_user copy_from_loop user_range_ok pages_ok get_pte
    virt_to_phys read_run byte
copies_zeros = refl

page_five : get_pte page_machine.mem 4096 0x400000 ≡ 0x5007
unfolding map_page walk_or_create alloc_table put_entry zero_frame alloc_frame scan_bytes scan_bits
    bit_test bit_set test_bit set_bit get_pte
page_five = refl

in_frame_five :
    (a : ℕ) → 0x400ffe ≤ a → a < 0x400ffe + 2 → phys_of (get_pte page_machine.mem 4096 a) ≢ 0
in_frame_five a above below =
    let here : page_of a ≡ 0x400000 = omega arith in
    let same : get_pte page_machine.mem 4096 a ≡ 0x5007 =
      sym (get_pte-page_of page_machine.mem 4096 a)
      ∙ ap (get_pte page_machine.mem 4096) here
      ∙ page_five in
    rw same (omega arith)

copy_from_user_lem_example : copy_from_user page_machine.mem 4096 0x400ffe 2 ≡ (
    if user_range_ok page_machine.mem 4096 0x400ffe 2 false
    then some (user_bytes page_machine.mem 4096 0x400ffe 2)
    else none)
copy_from_user_lem_example =
    copy_from_user_lem page_machine 4096 page-SpaceOk 0x400ffe 2 in_frame_five

user_range_ok_iff_example : (user_range_ok page_machine.mem 4096 0x400ffe 2 true ≡ true) ↔ (
    (0 < 2)
    × (0x400ffe + 2 ≤ 0x800000000000)
    × ((a : ℕ) → 0x400ffe ≤ a → a < 0x400ffe + 2 → Accessible page_machine.mem 4096 true a))
user_range_ok_iff_example = user_range_ok_iff page_machine.mem 4096 0x400ffe 2 true
