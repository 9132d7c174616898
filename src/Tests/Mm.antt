-- ===== src/Tests/Mm.antt =====
-- Witnesses and runs for the frame allocator.
use void.Base.{
  List, ℕ, ◌+◌, ◌/◌, ◌<◌, ◌≡◌, ◌≢◌, refl, true, not, ◌&&◌, ◌⊎◌, if◌then◌else◌, ◌==◌, ltb, [], ◌∷◌,
  arith,
}
use void.Base.Bytes.{test_bit, set_bit}
use void.Mm.Pmm.{Pmm, bit_test, alloc_frame, free_frame, scan_bytes, scan_bits, bit_set}
use void.Mm.Pmm.Alloc.{PmmOk, Taken, alloc_frame_lem, free_frame_lem}
use void.Mm.Pmm.Count.{count_free}
use void.Mm.Pmm.Init.{Region}

-- Frames 0 and 1 of six are in use.
abbrev pub demo_pmm : Pmm
demo_pmm = record { bitmap = 3 ∷ []; bitmap_size = 1; total_frames = 6; free_frames = 4 }

pub demo-PmmOk : PmmOk demo_pmm
unfolding count_free bit_test test_bit
demo-PmmOk = record {
  bytes = (omega arith, tt);
  sized = refl;
  covered = omega arith;
  addressable = omega arith;
  counted = refl;
  reserved = refl;
}

alloc_frame_lem_example :
    ((alloc_frame demo_pmm ≡ (0, demo_pmm)) × ((g : ℕ) → g < 6 → bit_test (3 ∷ []) g ≡ true))
    ⊎ ((f : ℕ) × Taken demo_pmm f (alloc_frame demo_pmm).0 (alloc_frame demo_pmm).1)
alloc_frame_lem_example = alloc_frame_lem demo_pmm demo-PmmOk

allocates_two : (alloc_frame demo_pmm).0 ≡ 8192
unfolding alloc_frame scan_bytes scan_bits bit_test bit_set test_bit set_bit
allocates_two = refl

free_frame_lem_example :
    PmmOk (free_frame demo_pmm 4100)
    × ((g : ℕ)
        → bit_test (free_frame demo_pmm 4100).bitmap g
          ≡ (not (g == 4100 / 4096 && ltb (4100 / 4096) 6) && bit_test (3 ∷ []) g))
    × ((free_frame demo_pmm 4100).free_frames
        ≡ 4 + (if ltb (4100 / 4096) 6 && bit_test (3 ∷ []) (4100 / 4096) then 1 else 0))
free_frame_lem_example = free_frame_lem demo_pmm 4100 demo-PmmOk (omega arith)

not_full : (alloc_frame demo_pmm).0 ≢ 0
unfolding alloc_frame scan_bytes scan_bits bit_test bit_set test_bit set_bit
not_full = omega arith

-- Three usable pages behind the first one.
abbrev demo_map : List Region
demo_map = record { base = 4096; length = 12288; usable = true } ∷ []

abbrev booted : Pmm
booted = record { bitmap = 243 ∷ []; bitmap_size = 1; total_frames = 4; free_frames = 2 }
