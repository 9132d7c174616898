-- ===== src/Mm/Pmm/Init.antt =====
-- pmm_init of kernel/mm/pmm.c.
pub mod Runs
pub mod Regions
pub mod Ok
use void.Base.{
  ℕ, zero, suc, ◌+◌, ◌-◌, ◌/◌, ◌%◌, ◌^◌, Bool, true, false, not, ◌&&◌, Option, none, some, List, [],
  ◌∷◌, ltb, leb, ◌==◌, if◌then◌else◌, length, replicate, max,
}
use void.Mm.Pmm.{Pmm, page_size, u64, bit_set, bit_clear, bit_test}

-- An entry of the boot memory map; `usable` says whether its type is BOOT_MEM_USABLE.
pub record Region : Type 0 where
  pub base : ℕ
  pub length : ℕ
  pub usable : Bool

abbrev pub top : Region → ℕ
top r = u64 (r.base + r.length)

abbrev pub start_frame : Region → ℕ
start_frame r = u64 (r.base + (page_size - 1)) / page_size

abbrev pub end_frame : Region → ℕ
end_frame r = top r / page_size

unfoldable pub highest : List Region → ℕ
highest [] = 0
highest (r ∷ rs) = max (top r) (highest rs)

-- The base of the first usable region that has room for the bitmap.
unfoldable pub place : ℕ → List Region → Option ℕ
place size [] = none
place size (r ∷ rs) =
    let rest = place size rs in
    if not r.usable then rest else if leb size r.length then some r.base else rest

abbrev pub free_one : Pmm → ℕ → Pmm
free_one p f = record p { bitmap = bit_clear p.bitmap f; free_frames = u64 (p.free_frames + 1) }

-- `n` frames from `f` on.
unfoldable pub free_run : ℕ → ℕ → Pmm → Pmm
unfolding bit_clear
free_run zero f p = p
free_run (suc n) f p = free_run n (f + 1) (free_one p f)

unfoldable pub free_regions : List Region → Pmm → Pmm
unfolding free_run
free_regions [] p = p
free_regions (r ∷ rs) p =
    free_regions rs
      (if r.usable then free_run (end_frame r - start_frame r) (start_frame r) p else p)

unfoldable pub reserve_one : Pmm → ℕ → Pmm
unfolding bit_test bit_set
reserve_one p f =
    if bit_test p.bitmap f
    then p
    else record p { bitmap = bit_set p.bitmap f; free_frames = u64 (p.free_frames + 2 ^ 64 - 1) }

unfoldable pub reserve_run : ℕ → ℕ → Pmm → Pmm
unfolding reserve_one
reserve_run zero f p = p
reserve_run (suc n) f p = reserve_run n (f + 1) (reserve_one p f)

abbrev pub all_used : List Region → Pmm
all_used rs =
    let total = highest rs / page_size in
    let size = (total + 7) / 8 in
    record {
      bitmap = replicate size 255;
      bitmap_size = size;
      total_frames = total;
      free_frames = 0;
    }

-- `none` where the kernel halts: no region has room, or the one that has begins at 0.
unfoldable pub pmm_init : List Region → Option Pmm
unfolding highest place free_regions reserve_run
pmm_init rs =
    let start = all_used rs in
    elim (place start.bitmap_size rs) [
      | none ↦ none
      | some phys ↦
          if phys == 0
          then none
          else (let first = phys / page_size in
              let last = u64 (phys + start.bitmap_size + (page_size - 1)) / page_size in
              let reserved = reserve_run (last - first) first (free_regions rs start) in
              some (if ltb 0 start.total_frames then reserve_one reserved 0 else reserved))
    ]
