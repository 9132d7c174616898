-- ===== src/Proc/Wraps.antt =====
-- Where the search of um_mmap_reserve of kernel/mm/user_mem.c wraps, and what sys_mmap of
-- kernel/syscall/syscall.c then answers.
use void.Base.{
  ℕ, zero, suc, ◌+◌, ◌-◌, ◌*◌, ◌/◌, ◌%◌, ◌^◌, ◌≤◌, ◌<◌, ◌≡◌, ◌≢◌, refl, ap, ◌∙◌, Bool, true, false,
  some, ltb, leb, ◌==◌, arith, ok,
}
use void.Mm.Vmm.{Mem, get_pte, present}
use void.Proc.{World, mmap_top}
use void.Proc.Mmap.{
  clear_pages, range_clear, highest_used, reserve_loop, mmap_reserve, mmap_floor, choose_base,
  mmap_loop, sys_mmap, reserve_rounds,
}
use void.Proc.Reserve.{round, wrapped_base, next_base}

highest_used_none :
    (m : Mem) (cr3 n va occ : ℕ)
    → ((a : ℕ) → va ≤ a → a < va + n * 4096 → present (get_pte m cr3 a) ≡ false)
    → highest_used m cr3 n va occ ≡ occ
unfolding highest_used
highest_used_none m cr3 zero va occ free = refl
highest_used_none m cr3 (suc n) va occ free =
    let here = free va (omega arith) (omega arith) in
    rw here (
      highest_used_none m cr3 n (va + 4096) occ
        (λ a above below. free a (omega arith) (omega arith)))

first_taken :
    (m : Mem) (cr3 n va : ℕ)
    → 0 < n
    → present (get_pte m cr3 va) ≡ true
    → clear_pages m cr3 n va ≡ false
unfolding clear_pages
first_taken m cr3 zero va some_page taken = absurd (omega arith)
first_taken m cr3 (suc n) va some_page taken = rw taken refl

range_taken :
    (m : Mem) (cr3 base len : ℕ)
    → base % 4096 ≡ 0
    → 0 < len
    → base + len < 2 ^ 64
    → present (get_pte m cr3 base) ≡ true
    → range_clear m cr3 base ((base + len) % 2 ^ 64) ≡ false
unfolding range_clear
range_taken m cr3 base len aligned positive small taken =
    let no_wrap : (base + len) % 2 ^ 64 ≡ base + len = omega arith in
    let more : leb (base + len) base ≡ false = ground arith in
    let at : base / 4096 * 4096 ≡ base = omega arith in
    rw (no_wrap, more, at) (first_taken m cr3 _ base (omega arith) taken)

module _ (m : Mem) (cr3 len floor base : ℕ) (whole : len % 4096 ≡ 0) (positive : 0 < len)
    (fits : len ≤ mmap_top) (low : floor ≤ mmap_top) (ends : base + len ≡ mmap_top)
    (below : base < len) (taken : present (get_pte m cr3 base) ≡ true)
    (free : (a : ℕ) → base + 4096 ≤ a → a < base + len → present (get_pte m cr3 a) ≡ false) where
  -- The last page in use is the first of the range.
  occupied : highest_used m cr3 (len / 4096) base base ≡ base
  unfolding highest_used
  occupied = by_pages (len / 4096) (omega arith) (omega arith)
    where
      by_pages :
          (n : ℕ) → 0 < n → base + n * 4096 ≤ base + len → highest_used m cr3 n base base ≡ base
      by_pages zero some_page inside = absurd (omega arith)
      by_pages (suc n) some_page inside = rw taken (
          highest_used_none m cr3 n (base + 4096) base
            (λ a above to. free a (omega arith) (omega arith)))

  reserve_loop_wraps :
      (fuel : ℕ)
      → 2 ≤ fuel
      → reserve_loop fuel m cr3 len floor base ≡ some (ok (base + 2 ^ 64 - len))
  reserve_loop_wraps zero enough = absurd (omega arith)
  reserve_loop_wraps (suc fuel) enough =
      let aligned : base % 4096 ≡ 0 = omega arith in
      let small : base + len < 2 ^ 64 = omega arith in
      let next : next_base m cr3 len floor whole positive fits low base ≡ base + 2 ^ 64 - len =
        rw occupied (omega arith) in
      let far : ltb (base + 2 ^ 64 - len) floor ≡ false = ground (arith, ends, low) in
      round m cr3 len floor whole positive fits low fuel base false
        (range_taken m cr3 base len aligned positive small taken)
      ∙ rw (next, far)
          (wrapped_base m cr3 len floor whole positive fits low fuel (base + 2 ^ 64 - len)
            (omega arith) (omega arith) (omega arith))

no_pages :
    (fuel base va stop flags : ℕ) (w : World)
    → ltb va stop ≡ false
    → mmap_loop fuel base va stop flags w ≡ (ok base, w)
unfolding mmap_loop
no_pages zero base va stop flags w h = refl
no_pages (suc fuel) base va stop flags w h = rw h refl

module _ (w : World) (len : ℕ) (whole : len % 4096 ≡ 0) (fits : len < mmap_top)
    (above : mmap_floor w.space ≤ mmap_top - len) (low : mmap_top - len < len) where
  mmap_reserve_wraps :
      present (get_pte w.machine.mem w.space.cr3 (mmap_top - len)) ≡ true
      → ((a : ℕ)
          → mmap_top - len + 4096 ≤ a
          → a < mmap_top
          → present (get_pte w.machine.mem w.space.cr3 a) ≡ false)
      → mmap_reserve reserve_rounds len w ≡ some (ok (mmap_top - len + 2 ^ 64 - len))
  unfolding mmap_reserve
  mmap_reserve_wraps taken free =
      let floor = mmap_floor w.space in
      let at_zero : (len == 0) ≡ false = ground arith in
      let at_page : (len % 4096 == 0) ≡ true = ground arith in
      let at_fits : ltb mmap_top len ≡ false = ground arith in
      let at_floor : ltb (mmap_top - len) floor ≡ false = ground arith in
      let base : (mmap_top - len) / 4096 * 4096 ≡ mmap_top - len = omega arith in
      let ends : mmap_top - len + len ≡ mmap_top = omega arith in
      rw (at_zero, at_page, at_fits, at_floor, base)
        (reserve_loop_wraps w.machine.mem w.space.cr3 len floor (mmap_top - len) whole (omega arith)
          (omega arith) (omega arith) ends low taken
          (λ a from to. free a from (omega (arith, ends, to))) reserve_rounds (omega arith))

  -- An sys_mmap without a fixed address, of a length above half of the user's space, of a process
  -- that uses the first page of the highest place for it and no page above: it answers with an
  -- address in the kernel's half, and maps nothing.
  pub sys_mmap_wraps :
      (nx : Bool) (prot : ℕ)
      → w.space.cr3 ≢ 0
      → prot ≢ 0
      → present (get_pte w.machine.mem w.space.cr3 (mmap_top - len)) ≡ true
      → ((a : ℕ)
          → mmap_top - len + 4096 ≤ a
          → a < mmap_top
          → present (get_pte w.machine.mem w.space.cr3 a) ≡ false)
      → sys_mmap nx 0 len prot 0x22 (2 ^ 32 - 1) 0 w ≡ some (ok (mmap_top - len + 2 ^ 64 - len), w)
  unfolding sys_mmap choose_base
  sys_mmap_wraps nx prot has_space has_prot taken free =
      let at_space : (w.space.cr3 == 0) ≡ false = ground arith in
      let at_zero : (len == 0) ≡ false = ground arith in
      let at_fits : leb mmap_top len ≡ false = ground arith in
      let at_prot : (prot == 0) ≡ false = ground arith in
      let n : (len + 4095) % 2 ^ 64 / 4096 * 4096 ≡ len = omega arith in
      let base = mmap_top - len + 2 ^ 64 - len in
      let passed : ltb base ((base + len) % 2 ^ 64) ≡ false = ground arith in
      rw (at_space, at_zero, at_fits, at_prot, n, mmap_reserve_wraps taken free)
        (ap some (no_pages _ base base ((base + len) % 2 ^ 64) _ w passed))
