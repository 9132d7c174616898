-- ===== src/Base/Bytes.antt =====
-- The bits of a byte, checked over all bytes.
use Prim.Native.Nat.{ℕ, zero, suc, ◌+◌, ◌-◌, ◌/◌, ◌%◌, ◌^◌, ◌<◌, bit_and, bit_or}
use mathlib.Core.Path.{◌≡◌, refl}
use mathlib.Core.Bool.{Bool, true, false, not, ◌&&◌, ◌||◌}
use native.Mathlib.Omega.{arith}
use void.Base.Tests.{◌==◌, ltb}

-- byte | 1 << k, byte & ~(1 << k) and (byte >> k) & 1, for a byte and k < 8.
unfoldable pub set_bit : ℕ → ℕ → ℕ
set_bit b k = bit_or b (2 ^ k)

unfoldable pub clear_bit : ℕ → ℕ → ℕ
clear_bit b k = bit_and b (255 - 2 ^ k)

unfoldable pub test_bit : ℕ → ℕ → Bool
test_bit b k = b / 2 ^ k % 2 == 1

-- Whether a test passes at each of the `k` numbers from `x` on.
unfoldable pub passes : (ℕ → Bool) → ℕ → ℕ → Bool
passes test x zero = true
passes test x (suc k) = test x && passes test (suc x) k

passes_sound : (test : ℕ → Bool) (x k d : ℕ) → passes test x k ≡ true → d < k → test (x + d) ≡ true
unfolding passes
passes_sound test x zero d h small = absurd (omega arith)
passes_sound test x (suc k) zero h small = ground arith
passes_sound test x (suc k) (suc d) h small =
    let later = passes_sound test (suc x) k d (ground arith) (omega arith) in
    let moved : suc x + d ≡ x + suc d = omega arith in rw (← moved) later

pub passes_at : (test : ℕ → Bool) (k d : ℕ) → passes test 0 k ≡ true → d < k → test d ≡ true
passes_at test k d h small =
    let same : 0 + d ≡ d = omega arith in rw (← same) (passes_sound test 0 k d h small)

iff : Bool → Bool → Bool
iff true b = b
iff false b = not b

iff_eq : (a b : Bool) → iff a b ≡ true → a ≡ b
unfolding iff
iff_eq true true h = refl
iff_eq true false h = cc
iff_eq false true h = cc
iff_eq false false h = refl

-- A fact about a byte and two bit positions.
abbrev over : (ℕ → ℕ → ℕ → Bool) → Bool
over p = passes (λ b. passes (λ k. passes (λ j. p b k j) 0 8) 0 8) 0 256

over_sound :
    (p : ℕ → ℕ → ℕ → Bool) (b k j : ℕ) → over p ≡ true → b < 256 → k < 8 → j < 8 → p b k j ≡ true
over_sound p b k j h hb hk hj =
    passes_at (p b k) 8 j
      (passes_at (λ k. passes (λ j. p b k j) 0 8) 8 k
        (passes_at (λ b. passes (λ k. passes (λ j. p b k j) 0 8) 0 8) 256 b h hb) hk)
      hj

set_table : over (λ b k j. iff (test_bit (set_bit b k) j) (j == k || test_bit b j)) ≡ true
unfolding passes set_bit test_bit iff
set_table = refl

clear_table : over (λ b k j. iff (test_bit (clear_bit b k) j) (not (j == k) && test_bit b j)) ≡ true
unfolding passes clear_bit test_bit iff
clear_table = refl

range_table : over (λ b k j. ltb (set_bit b k) 256 && ltb (clear_bit b k) 256) ≡ true
unfolding passes set_bit clear_bit
range_table = refl

full_table : over (λ b k j. not (b == 255) || test_bit b j) ≡ true
unfolding passes test_bit
full_table = refl

module _ (b k : ℕ) (hb : b < 256) (hk : k < 8) where
  pub test-set_bit : (j : ℕ) → j < 8 → test_bit (set_bit b k) j ≡ (j == k || test_bit b j)
  test-set_bit j hj = iff_eq _ _ (
      over_sound (λ b k j. iff (test_bit (set_bit b k) j) (j == k || test_bit b j)) b k j set_table
        hb hk hj)

  pub test-clear_bit : (j : ℕ) → j < 8 → test_bit (clear_bit b k) j ≡ (not (j == k) && test_bit b j)
  test-clear_bit j hj = iff_eq _ _ (
      over_sound (λ b k j. iff (test_bit (clear_bit b k) j) (not (j == k) && test_bit b j)) b k j
        clear_table hb hk hj)

  pub bits_lt : (set_bit b k < 256) × (clear_bit b k < 256)
  bits_lt = ground (
    arith,
    over_sound (λ b k j. ltb (set_bit b k) 256 && ltb (clear_bit b k) 256) b k k range_table hb hk
        hk,
  )

pub test-full : (j : ℕ) → j < 8 → test_bit 255 j ≡ true
test-full j hj = ground (
  arith,
  over_sound (λ b k j. not (b == 255) || test_bit b j) 255 0 j full_table (omega arith)
      (omega arith) hj,
)
