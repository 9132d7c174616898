-- ===== src/Elf/Wraps.antt =====
-- The range check of a segment in elf_validate of kernel/elf/elf.c, where the end of the segment wraps.
use void.Base.{
  ℕ, ◌+◌, ◌≤◌, ◌<◌, ◌^◌, ◌≡◌, refl, Bool, true, false, ◌&&◌, ◌||◌, List, [], ◌∷◌, ◌++◌, length,
  arith, All,
}
use void.Elf.{Range, Scan, check_load, overlaps, aligned, contains}
use void.Elf.Format.{
  Outcome, done, ◌>>=◌, require, Phdr, u64, executable, writable, readable, dyn_base, user_max,
  max_loads,
}

pass :
    {A : Type 0} (b : Bool) (f : Unit {0} → Outcome A) {r : Outcome A}
    → b ≡ true
    → f tt ≡ r
    → (require b >>= f) ≡ r
unfolding require
pass b f h k = rw h k

clear_above :
    (a b : ℕ) (rs : List Range)
    → All (λ r. r.stop ≤ user_max) rs
    → user_max ≤ a
    → overlaps a b rs ≡ false
unfolding overlaps
clear_above a b [] h high = refl
clear_above a b (r ∷ rs) h high = ground (arith, h.0, clear_above a b rs h.1 high)

-- A position-independent image may ask for memory in the kernel's half: a segment whose biased end
-- reaches 2 to the power of 64 passes the checks, if its file bytes are in the image and its flags
-- and alignment are in order.
pub check_load_kernel_half :
    (size entry : ℕ) (ph : Phdr) (st : Scan)
    → length st.seen < max_loads
    → All (λ r. r.stop ≤ user_max) st.seen
    → ph.p_filesz ≤ ph.p_memsz
    → ph.p_offset + ph.p_filesz ≤ size
    → readable ph ≡ true
    → (writable ph && executable ph) ≡ false
    → aligned ph ≡ true
    → user_max ≤ ph.p_vaddr + dyn_base
    → ph.p_vaddr + dyn_base < 2 ^ 64
    → ph.p_vaddr + ph.p_memsz < 2 ^ 64
    → 2 ^ 64 ≤ ph.p_vaddr + dyn_base + ph.p_memsz
    → (st' : Scan) × (check_load size dyn_base entry ph st ≡ done st')
unfolding check_load
check_load_kernel_half size entry ph st room user fill file read wx align high a b c =
    let start = u64 (ph.p_vaddr + dyn_base) in
    let high' : user_max ≤ start = omega arith in
    (
      record st {
        seen =
            st.seen
            ++ record {
              start = u64 (ph.p_vaddr + dyn_base);
              stop = u64 (u64 (ph.p_vaddr + dyn_base) + ph.p_memsz);
            }
              ∷ [];
        entry_ok = st.entry_ok || executable ph && contains ph entry;
      },
      pass _ _ (ground arith) (
          pass _ _ (ground arith) (
            pass _ _ (ground arith) (
              pass _ _ (ground arith) (
                pass _ _ (ground arith) (
                  pass _ _ (ground arith) (
                    pass _ _ (ground arith) (
                      pass _ _ (ground arith) (
                        pass _ _ read (
                          pass _ _ (rw wx) (
                            pass _ _ align (
                              pass _ _ (ground arith) (
                                pass _ _
                                  (rw (
                                    clear_above start (u64 (start + ph.p_memsz)) st.seen user
                                      high'))
                                  refl)))))))))))),
    )
