-- ===== src/Proc/Reserve.antt =====
-- The search for a free range, um_mmap_reserve of kernel/mm/user_mem.c: it ends, and where it ends.
use void.Base.{
  ℕ, zero, suc, ◌+◌, ◌-◌, ◌*◌, ◌/◌, ◌%◌, ◌^◌, ◌≤◌, ◌<◌, ◌≡◌, ◌⊎◌, refl, ap, Bool, true, false,
  Option, some, ltb, leb, if◌then◌else◌, arith, ok, err, nomem, Ret,
}
use void.Mm.Vmm.{Mem, get_pte, present}
use void.Proc.{mmap_top}
use void.Proc.Mmap.{range_clear, highest_used, reserve_loop}

-- A free range of whole pages between the floor and the stack.
pub record Window (m : Mem) (cr3 len floor base : ℕ) : Type 0 where
  pub aligned : base % 4096 ≡ 0
  pub above : floor ≤ base
  pub below : base + len ≤ mmap_top
  pub free : (a : ℕ) → base ≤ a → a < base + len → present (get_pte m cr3 a) ≡ false

-- What the search answers.
abbrev pub Searched : Mem → ℕ → ℕ → ℕ → Option (Ret ℕ) → Type 0
Searched m cr3 len floor r =
    (r ≡ some (err nomem))
    ⊎ ((base : ℕ) × (r ≡ some (ok base)) × (Window m cr3 len floor base ⊎ (2 ^ 63 ≤ base)))

module _ (m : Mem) (cr3 len floor : ℕ) (whole : len % 4096 ≡ 0) (some_page : 0 < len)
    (fits : len ≤ mmap_top) (low : floor ≤ mmap_top) where
  -- The base below the highest page in use.
  abbrev pub next_base : ℕ → ℕ
  next_base base = (highest_used m cr3 (len / 4096) base base + 2 ^ 64 - len) % 2 ^ 64 / 4096 * 4096

  abbrev tried : ℕ → ℕ → Bool → Option (Ret ℕ)
  tried fuel base true = some (ok base)
  tried fuel base false =
      if ltb (next_base base) floor
      then some (err nomem)
      else reserve_loop fuel m cr3 len floor (next_base base)

  pub round :
      (fuel base : ℕ) (b : Bool)
      → range_clear m cr3 base ((base + len) % 2 ^ 64) ≡ b
      → reserve_loop (suc fuel) m cr3 len floor base ≡ tried fuel base b
  unfolding reserve_loop
  round fuel base b h = ap (tried fuel base) h

  -- A base that has wrapped ends the search: the end of its range has wrapped too.
  pub wrapped_base :
      (fuel base : ℕ)
      → 0 < fuel
      → base < 2 ^ 64
      → 2 ^ 64 ≤ base + len
      → reserve_loop fuel m cr3 len floor base ≡ some (ok base)
  unfolding range_clear
  wrapped_base zero base enough word wraps = absurd (omega arith)
  wrapped_base (suc fuel) base enough word wraps =
      let none_left : leb ((base + len) % 2 ^ 64) base ≡ true = ground arith in
      round fuel base true (rw none_left refl)
