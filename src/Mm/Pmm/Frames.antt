-- ===== src/Mm/Pmm/Frames.antt =====
-- Which frames are in use after a bit of the bitmap of kernel/mm/pmm.c is set or cleared.
use void.Base.{
  ℕ, zero, suc, ◌*◌, ◌/◌, ◌%◌, ◌<◌, ◌≡◌, ◌≢◌, true, false, not, ◌&&◌, ◌||◌, List, [], ◌∷◌, arith,
  ◌==◌, get_or, set, length, length-set, get_or-set_self, get_or-set_ne, Bool-cases, inl, inr,
}
use void.Base.Bytes.{set_bit, clear_bit, test-set_bit, test-clear_bit, bits_lt}
use void.Mm.Pmm.{bit_set, bit_clear, bit_test}

abbrev pub AreBytes : List ℕ → Type 0
AreBytes [] = Unit {0}
AreBytes (b ∷ bs) = (b < 256) × AreBytes bs

pub get_or-AreBytes : (bm : List ℕ) (i : ℕ) → AreBytes bm → get_or bm i 0 < 256
get_or-AreBytes [] i v = omega arith
get_or-AreBytes (b ∷ bs) zero v = v.0
get_or-AreBytes (b ∷ bs) (suc i) v = get_or-AreBytes bs i v.1

pub set-AreBytes : (bm : List ℕ) (i b : ℕ) → AreBytes bm → b < 256 → AreBytes (set bm i b)
set-AreBytes [] i b v h = tt
set-AreBytes (x ∷ bs) zero b v h = (h, v.1)
set-AreBytes (x ∷ bs) (suc i) b v h = (v.0, set-AreBytes bs i b v.1 h)

same_byte : (g f : ℕ) → (g / 8 == f / 8) ≡ true → ((g % 8 == f % 8) ≡ (g == f)) × (g / 8 ≡ f / 8)
same_byte g f e = ground arith

other_byte : (g f : ℕ) → (g / 8 == f / 8) ≡ false → ((g == f) ≡ false) × (f / 8 ≢ g / 8)
other_byte g f e = ground arith

module _ (bm : List ℕ) (f : ℕ) (v : AreBytes bm) where
  pub bit_set-AreBytes : AreBytes (bit_set bm f)
  unfolding bit_set
  bit_set-AreBytes =
      set-AreBytes bm (f / 8) _ v
        (bits_lt (get_or bm (f / 8) 0) (f % 8) (get_or-AreBytes bm (f / 8) v) (omega arith)).0

  pub bit_clear-AreBytes : AreBytes (bit_clear bm f)
  unfolding bit_clear
  bit_clear-AreBytes =
      set-AreBytes bm (f / 8) _ v
        (bits_lt (get_or bm (f / 8) 0) (f % 8) (get_or-AreBytes bm (f / 8) v) (omega arith)).1

  -- A frame is in use after the write exactly if it is the one set or was in use before.
  pub bit_test-set :
      (g : ℕ) → f < 8 * length bm → bit_test (bit_set bm f) g ≡ (g == f || bit_test bm g)
  unfolding bit_test bit_set
  bit_test-set g h = elim (Bool-cases (g / 8 == f / 8)) [
    | inl same ↦ ground (
      arith,
      same_byte g f,
      get_or-set_self bm (f / 8) (set_bit (get_or bm (f / 8) 0) (f % 8)) 0 (omega arith),
      test-set_bit (get_or bm (f / 8) 0) (f % 8) (get_or-AreBytes bm (f / 8) v) (omega arith)
          (g % 8) (omega arith),
    )
    | inr other ↦ ground (
      arith,
      other_byte g f,
      get_or-set_ne bm {i = f / 8} {j = g / 8} (set_bit (get_or bm (f / 8) 0) (f % 8)) 0,
    )
  ]

  -- After a bit is cleared a frame is in use exactly if it is another one that was in use.
  pub bit_test-clear :
      (g : ℕ) → f < 8 * length bm → bit_test (bit_clear bm f) g ≡ (not (g == f) && bit_test bm g)
  unfolding bit_test bit_clear
  bit_test-clear g h = elim (Bool-cases (g / 8 == f / 8)) [
    | inl same ↦ ground (
      arith,
      same_byte g f,
      get_or-set_self bm (f / 8) (clear_bit (get_or bm (f / 8) 0) (f % 8)) 0 (omega arith),
      test-clear_bit (get_or bm (f / 8) 0) (f % 8) (get_or-AreBytes bm (f / 8) v) (omega arith)
          (g % 8) (omega arith),
    )
    | inr other ↦ ground (
      arith,
      other_byte g f,
      get_or-set_ne bm {i = f / 8} {j = g / 8} (clear_bit (get_or bm (f / 8) 0) (f % 8)) 0,
    )
  ]

pub length-bit_set : (bm : List ℕ) (f : ℕ) → length (bit_set bm f) ≡ length bm
unfolding bit_set
length-bit_set bm f = length-set bm (f / 8) _

pub length-bit_clear : (bm : List ℕ) (f : ℕ) → length (bit_clear bm f) ≡ length bm
unfolding bit_clear
length-bit_clear bm f = length-set bm (f / 8) _
