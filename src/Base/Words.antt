-- ===== src/Base/Words.antt =====
-- Facts about `bit_and` and `bit_or` at variables.
use Prim.Native.Nat.{
  ℕ, zero, suc, ◌+◌, ◌*◌, ◌/◌, ◌%◌, ◌^◌, ◌≤◌, ◌<◌, min, max, digits, bit_and, bit_or,
  bit_and-bitwise, bit_or-bitwise,
}
use mathlib.Core.Path.{◌≡◌, refl, ◌∙◌}
use native.Mathlib.Omega.{arith}

module _ (z : ℕ → ℕ) (f : ℕ → ℕ → ℕ) where
  digits_enough : (n m a b : ℕ) → a ≤ n → a ≤ m → digits z f n a b ≡ digits z f m a b
  digits_enough zero zero a b p q = refl
  digits_enough zero (suc m) zero b p q = refl
  digits_enough zero (suc m) (suc a) b p q = absurd (omega arith)
  digits_enough (suc n) zero zero b p q = refl
  digits_enough (suc n) zero (suc a) b p q = absurd (omega arith)
  digits_enough (suc n) (suc m) zero b p q = refl
  digits_enough (suc n) (suc m) (suc a) b p q =
      rw (digits_enough n m (suc a / 2) (b / 2) (omega arith) (omega arith))

-- The lowest digit, where the halves are named.
pub bit_and_halves :
    (a b p q : ℕ) → a / 2 ≡ p → b / 2 ≡ q → bit_and a b ≡ bit_and p q * 2 + min (a % 2) (b % 2)
bit_and_halves zero b p q e f = rw (← e) (omega (arith, bit_and-bitwise 0 b, bit_and-bitwise 0 q))
bit_and_halves (suc a) b p q e f =
    rw (← e, ← f)
      (omega (
        arith,
        bit_and-bitwise (suc a) b,
        bit_and-bitwise (suc a / 2) (b / 2),
        digits_enough (λ b. zero) min a (suc a / 2) (suc a / 2) (b / 2) (omega arith) (omega arith),
      ))

pub bit_or_halves :
    (a b p q : ℕ) → a / 2 ≡ p → b / 2 ≡ q → bit_or a b ≡ bit_or p q * 2 + max (a % 2) (b % 2)
bit_or_halves zero b p q e f = rw (← e) (omega (arith, bit_or-bitwise 0 b, bit_or-bitwise 0 q))
bit_or_halves (suc a) b p q e f =
    rw (← e, ← f)
      (omega (
        arith,
        bit_or-bitwise (suc a) b,
        bit_or-bitwise (suc a / 2) (b / 2),
        digits_enough (λ b. b) max a (suc a / 2) (suc a / 2) (b / 2) (omega arith) (omega arith),
      ))

-- Numbers that share no digit.
bit_or_add : (n a b : ℕ) → a ≤ n → bit_and a b ≡ 0 → bit_or a b ≡ a + b
bit_or_add n zero b h disjoint = bit_or-bitwise 0 b ∙ omega arith
bit_or_add zero (suc a) b h disjoint = absurd (omega arith)
bit_or_add (suc n) (suc a) b h disjoint =
    let both = bit_and_halves (suc a) b (suc a / 2) (b / 2) refl refl in
    let either = bit_or_halves (suc a) b (suc a / 2) (b / 2) refl refl in
    omega (arith, both, either, bit_or_add n (suc a / 2) (b / 2) (omega arith) (omega arith))

-- `x << k` and `x >> k`.
abbrev double : ℕ → ℕ → ℕ
double zero x = x
double (suc k) x = 2 * double k x

abbrev halve : ℕ → ℕ → ℕ
halve zero x = x
halve (suc k) x = halve k (x / 2)

double-bit_and : (k x b : ℕ) → bit_and (double k x) b ≡ double k (bit_and x (halve k b))
double-bit_and zero x b = refl
double-bit_and (suc k) x b = omega (
  arith,
  bit_and_halves (2 * double k x) b (double k x) (b / 2) (omega arith) refl,
  double-bit_and k x (b / 2),
)

bit_and-double : (k x b : ℕ) → bit_and x (double k b) ≡ double k (bit_and (halve k x) b)
bit_and-double zero x b = refl
bit_and-double (suc k) x b = omega (
  arith,
  bit_and_halves x (2 * double k b) (x / 2) (double k b) refl (omega arith),
  bit_and-double k (x / 2) b,
)

-- An aligned physical address below 2 to the power of 52 and flags outside its bits.
pub bit_or_flags :
    (frame flags : ℕ)
    → frame % 4096 ≡ 0
    → frame < 2 ^ 52
    → flags % 2 ^ 52 < 4096
    → bit_or frame flags ≡ frame + flags
bit_or_flags frame flags aligned small high =
    let x = frame / 4096 in
    let h = flags / 2 ^ 52 in
    let as_frame : double 12 x ≡ frame = omega arith in
    let as_flags : double 40 h ≡ halve 12 flags = omega arith in
    let gone : halve 40 x ≡ 0 = omega arith in
    let inner : bit_and x (halve 12 flags) ≡ 0 =
      rw (← as_flags) (bit_and-double 40 x h ∙ rw (gone, bit_and-bitwise 0 h)) in
    bit_or_add frame frame flags (omega arith)
      (rw (← as_frame) (double-bit_and 12 x flags ∙ rw inner))
