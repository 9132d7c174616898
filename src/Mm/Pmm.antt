-- ===== src/Mm/Pmm.antt =====
-- The physical frame allocator, kernel/mm/pmm.c.
-- The bitmap is the list of its bytes; a frame past its end is never asked for.
pub mod Frames
pub mod Search
pub mod Count
pub mod Alloc
pub mod Init
use void.Base.{
  ℕ, zero, suc, ◌+◌, ◌-◌, ◌*◌, ◌/◌, ◌%◌, ◌^◌, Bool, true, false, not, ◌&&◌, Option, none, some,
  List, [], ◌∷◌, ltb, leb, ◌==◌, if◌then◌else◌, get_or, set, replicate,
}
use void.Base.Bytes.{set_bit, clear_bit, test_bit}

abbrev pub page_size : ℕ
page_size = 4096

-- uint64_t arithmetic
abbrev pub u64 : ℕ → ℕ
u64 x = x % 2 ^ 64

pub record Pmm : Type 0 where
  pub bitmap : List ℕ
  pub bitmap_size : ℕ
  pub total_frames : ℕ
  pub free_frames : ℕ

unfoldable pub bit_set : List ℕ → ℕ → List ℕ
bit_set bm frame = set bm (frame / 8) (set_bit (get_or bm (frame / 8) 0) (frame % 8))

unfoldable pub bit_clear : List ℕ → ℕ → List ℕ
bit_clear bm frame = set bm (frame / 8) (clear_bit (get_or bm (frame / 8) 0) (frame % 8))

unfoldable pub bit_test : List ℕ → ℕ → Bool
bit_test bm frame = test_bit (get_or bm (frame / 8) 0) (frame % 8)

-- What the loop over the bits of a byte comes to: a free frame, a `return 0`, or the next byte.
pub data Scan : Type 0 where
  found : ℕ → Scan
  stop : Scan
  go_on : Scan

-- `n` bits are left, from `bit` on.
unfoldable pub scan_bits : List ℕ → ℕ → ℕ → ℕ → ℕ → Scan
scan_bits bm total i zero bit = go_on
scan_bits bm total i (suc n) bit =
    let frame = i * 8 + bit in
    let rest = scan_bits bm total i n (bit + 1) in
    if leb total frame then stop else if not (bit_test bm frame) then found frame else rest

-- `n` bytes are left, from byte `i` on.
unfoldable pub scan_bytes : List ℕ → ℕ → ℕ → ℕ → Option ℕ
unfolding scan_bits bit_test
scan_bytes bm total zero i = none
scan_bytes bm total (suc n) i =
    let rest = scan_bytes bm total n (i + 1) in
    if get_or bm i 0 == 255
    then rest
    else elim (scan_bits bm total i 8 0) [ found f ↦ some f | stop ↦ none | go_on ↦ rest ]

-- The physical address, 0 when there is none, and the new state.
unfoldable pub alloc_frame : Pmm → ℕ × Pmm
unfolding scan_bytes bit_set
alloc_frame p = elim (scan_bytes p.bitmap p.total_frames p.bitmap_size 0) [
  | none ↦ (0, p)
  | some frame ↦ (
    u64 (frame * page_size),
    record p { bitmap = bit_set p.bitmap frame; free_frames = u64 (p.free_frames + 2 ^ 64 - 1) },
  )
]

unfoldable pub free_frame : Pmm → ℕ → Pmm
unfolding bit_test bit_clear
free_frame p phys_addr =
    let frame = phys_addr / page_size in
    if leb p.total_frames frame
    then p
    else if bit_test p.bitmap frame
    then record p { bitmap = bit_clear p.bitmap frame; free_frames = u64 (p.free_frames + 1) }
    else p
