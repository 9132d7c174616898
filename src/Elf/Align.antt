-- ===== src/Elf/Align.antt =====
-- The test of a segment's alignment in kernel/elf/elf.c means the congruence that the ELF format asks
-- for.
use Prim.Native.Nat.{bit_and, bit_and-bitwise}
use native.Mathlib.Nat.{mod-one}
use void.Base.{
  ℕ, zero, suc, ◌+◌, ◌-◌, ◌*◌, ◌/◌, ◌%◌, ◌≤◌, ◌<◌, ◌≡◌, ◌⊎◌, refl, true, leb, ◌==◌, arith, inl, inr,
  ◌∙◌, sym, ap, Bool-cases, leb→le,
}
use void.Base.Words.{bit_and_halves}
use void.Elf.{aligned}
use void.Elf.Format.{Phdr}

bit_and_self : (n a : ℕ) → a ≤ n → bit_and a a ≡ a
bit_and_self n zero h = bit_and-bitwise 0 0
bit_and_self zero (suc a) h = absurd (omega arith)
bit_and_self (suc n) (suc a) h = omega (
  arith,
  bit_and_halves (suc a) (suc a) (suc a / 2) (suc a / 2) refl refl,
  bit_and_self n (suc a / 2) (omega arith),
)

bit_and-zero : (n a : ℕ) → a ≤ n → bit_and a 0 ≡ 0
bit_and-zero n zero h = bit_and-bitwise 0 0
bit_and-zero zero (suc a) h = absurd (omega arith)
bit_and-zero (suc n) (suc a) h = omega (
  arith,
  bit_and_halves (suc a) 0 (suc a / 2) 0 refl (omega arith),
  bit_and-zero n (suc a / 2) (omega arith),
)

mod_double : (x b : ℕ) → 0 < b → x % (2 * b) ≡ x / 2 % b * 2 + x % 2
mod_double x b h = grind arith

parity : (a : ℕ) → (a ≡ 2 * (a / 2)) ⊎ (a ≡ 2 * (a / 2) + 1)
parity a = elim (Bool-cases (a % 2 == 0)) [
  | inl e ↦ inl (ground arith)
  | inr e ↦ inr (ground arith)
]

-- An odd number above 1 fails the test.
odd_mask :
    (b x : ℕ)
    → bit_and (2 * b + 1) (2 * b + 1 - 1) ≡ 0
    → bit_and x (2 * b + 1 - 1) ≡ x % (2 * b + 1)
odd_mask b x h =
    let zero_b : b ≡ 0 = omega (
      arith,
      bit_and_halves (2 * b + 1) (2 * b + 1 - 1) b b (omega arith) (omega arith),
      bit_and_self b b (omega arith),
    ) in
    rw zero_b (bit_and-zero x x (omega arith) ∙ sym (mod-one x))

-- If `a & (a - 1)` is 0, the mask `a - 1` takes the remainder modulo `a`.
mask_lem : (n a x : ℕ) → 0 < a → a ≤ n → bit_and a (a - 1) ≡ 0 → bit_and x (a - 1) ≡ x % a
mask_lem zero a x pos small h = absurd (omega arith)
mask_lem (suc n) a x pos small h = elim (parity a) [
  | inr e ↦ rw e (odd_mask (a / 2) x (rw (← e) h))
  | inl e ↦
      let half = a / 2 in
      let lower = bit_and_halves a (a - 1) half (half - 1) refl (omega arith) in
      let rest = mask_lem n half (x / 2) (omega arith) (omega arith) (omega arith) in
      let above = bit_and_halves x (a - 1) (x / 2) (half - 1) refl (omega arith) in
      omega (arith, mod_double x half (omega arith), ap (λ (t : ℕ). x % t) e)
]

-- The offsets of a segment in the file and in memory agree modulo its alignment.
pub aligned_lem :
    (ph : Phdr)
    → aligned ph ≡ true
    → (ph.p_align ≤ 1) ⊎ (ph.p_vaddr % ph.p_align ≡ ph.p_offset % ph.p_align)
unfolding aligned
aligned_lem ph h = elim (Bool-cases (leb ph.p_align 1)) [
  | inl e ↦ inl (leb→le _ _ e)
  | inr e ↦
      let mask =
        λ (x : ℕ). mask_lem ph.p_align ph.p_align x (ground arith) (omega arith) (ground arith) in
      inr (ground (arith, mask ph.p_vaddr, mask ph.p_offset))
]
