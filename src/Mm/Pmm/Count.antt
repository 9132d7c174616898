-- ===== src/Mm/Pmm/Count.antt =====
-- Counting the free frames of the bitmap of kernel/mm/pmm.c.
use void.Base.{
  ℕ, zero, suc, ◌+◌, ◌*◌, ◌≤◌, ◌<◌, ◌≡◌, true, false, List, arith, leb, length, if◌then◌else◌,
}
use void.Mm.Pmm.{bit_test, bit_set, bit_clear}
use void.Mm.Pmm.Frames.{AreBytes, bit_test-set, bit_test-clear}

-- The number of frames below `n` that are not in use.
unfoldable pub count_free : List ℕ → ℕ → ℕ
count_free bm zero = 0
count_free bm (suc n) = (if bit_test bm n then 0 else 1) + count_free bm n

pub count_free-set :
    (bm : List ℕ) (f n : ℕ)
    → AreBytes bm
    → f < 8 * length bm
    → bit_test bm f ≡ false
    → count_free (bit_set bm f) n + (if leb (suc f) n then 1 else 0) ≡ count_free bm n
unfolding count_free
count_free-set bm f zero v h e = ground arith
count_free-set bm f (suc n) v h e =
    ground (arith, bit_test-set bm f v n h, count_free-set bm f n v h e)

pub count_free-clear :
    (bm : List ℕ) (f n : ℕ)
    → AreBytes bm
    → f < 8 * length bm
    → bit_test bm f ≡ true
    → count_free (bit_clear bm f) n ≡ count_free bm n + (if leb (suc f) n then 1 else 0)
unfolding count_free
count_free-clear bm f zero v h e = ground arith
count_free-clear bm f (suc n) v h e =
    ground (arith, bit_test-clear bm f v n h, count_free-clear bm f n v h e)

pub count_free-le : (bm : List ℕ) (n : ℕ) → count_free bm n ≤ n
unfolding count_free
count_free-le bm zero = omega arith
count_free-le bm (suc n) = ground (arith, count_free-le bm n)
