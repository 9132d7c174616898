-- ===== src/Elf/Segments.antt =====
-- What the loader needs of the segments of an image, and the checks of kernel/elf/elf.c that
-- give it.
use void.Base.{
  ℕ, ◌+◌, ◌-◌, ◌%◌, ◌≤◌, ◌<◌, ◌^◌, ◌≡◌, ◌⊎◌, refl, Bool, true, false, not, ◌&&◌, ◌||◌, [], ◌∷◌,
  ◌++◌, ltb, leb→le, ltb→lt, Bool-cases, arith, inl, inr,
}
use void.Elf.{Range, Scan, check_load, overlaps, contains}
use void.Elf.Format.{
  Phdr, u64, executable, writable, readable, user_min, user_max, stack_top, stack_size,
}
use void.Elf.Align.{aligned_lem}
use void.Elf.Reads.{Ends, returns, bind, require-Ends}

abbrev pub seg_start : ℕ → Phdr → ℕ
seg_start base ph = ph.p_vaddr + base

-- The end, as the 64-bit word that the loader computes.
abbrev pub seg_stop : ℕ → Phdr → ℕ
seg_stop base ph = u64 (ph.p_vaddr + base + ph.p_memsz)

abbrev pub seg_range : ℕ → Phdr → Range
seg_range base ph = record { start = seg_start base ph; stop = seg_stop base ph }

-- A segment that can be loaded from an image of `size` bytes at `base`.
pub record SegmentOk (size base : ℕ) (ph : Phdr) : Type 0 where
  pub in_file : ph.p_offset + ph.p_filesz ≤ size
  pub filled : ph.p_filesz ≤ ph.p_memsz
  pub starts : user_min ≤ seg_start base ph
  pub stops : seg_stop base ph ≤ user_max
  pub unwrapped :
      (seg_stop base ph ≡ seg_start base ph + ph.p_memsz)
      ⊎ ((2 ^ 64 ≤ seg_start base ph + ph.p_memsz) × (0 < base))
  pub can_read : readable ph ≡ true
  pub no_write_execute : (writable ph && executable ph) ≡ false
  pub off_stack : (stack_top ≤ seg_start base ph) ⊎ (seg_stop base ph ≤ stack_top - stack_size)
  pub congruent : (ph.p_align ≤ 1) ⊎ (ph.p_vaddr % ph.p_align ≡ ph.p_offset % ph.p_align)

abbrev pub Enters : ℕ → Phdr → Type 0
Enters entry ph = (executable ph ≡ true) × (ph.p_vaddr ≤ entry) × (entry < ph.p_vaddr + ph.p_memsz)

-- The effect of the checks of a segment that passes.
pub record Added (size base entry : ℕ) (ph : Phdr) (st st' : Scan) : Type 0 where
  pub segment : SegmentOk size base ph
  pub clear : overlaps (seg_start base ph) (seg_stop base ph) st.seen ≡ false
  pub seen : st'.seen ≡ st.seen ++ seg_range base ph ∷ []
  pub enters : st'.entry_ok ≡ true → (st.entry_ok ≡ true) ⊎ Enters entry ph
  pub same_path : (st'.interp_off ≡ st.interp_off) × (st'.interp_len ≡ st.interp_len)

not-true : (b : Bool) → not b ≡ true → b ≡ false
not-true b h = ground arith

-- The end of a segment wraps only for an image with a base.
wrap_cases :
    (base : ℕ) (ph : Phdr)
    → ph.p_vaddr < 2 ^ 64
    → ph.p_memsz < 2 ^ 64
    → ph.p_vaddr ≤ u64 (ph.p_vaddr + ph.p_memsz)
    → (seg_stop base ph ≡ seg_start base ph + ph.p_memsz)
      ⊎ ((2 ^ 64 ≤ seg_start base ph + ph.p_memsz) × (0 < base))
wrap_cases base ph v m mem = elim (Bool-cases (ltb (seg_start base ph + ph.p_memsz) (2 ^ 64))) [
  | inl e ↦ inl (omega (arith, ltb→lt _ _ e))
  | inr e ↦ let le : 2 ^ 64 ≤ seg_start base ph + ph.p_memsz = ground arith in inr (le, omega arith)
]

beside_cases : (a b lo hi : ℕ) → not (ltb a hi && ltb lo b) ≡ true → (hi ≤ a) ⊎ (b ≤ lo)
beside_cases a b lo hi h = elim (Bool-cases (ltb a hi)) [
  | inl e ↦ inr (ground arith)
  | inr e ↦ inl (ground arith)
]

Enters-cases :
    (b : Bool) (entry : ℕ) (ph : Phdr)
    → ph.p_vaddr < 2 ^ 64
    → ph.p_memsz < 2 ^ 64
    → ph.p_vaddr ≤ u64 (ph.p_vaddr + ph.p_memsz)
    → (b || executable ph && contains ph entry) ≡ true
    → (b ≡ true) ⊎ Enters entry ph
Enters-cases true entry ph v m mem h = inl refl
Enters-cases false entry ph v m mem h = inr (ground arith, ground arith, ground arith)

module _ (size base entry : ℕ) (ph : Phdr) (st : Scan) where
  pub check_load-Ends :
      ph.p_vaddr < 2 ^ 64
      → ph.p_memsz < 2 ^ 64
      → base < 2 ^ 63
      → Ends (Added size base entry ph st) (check_load size base entry ph st)
  unfolding check_load
  check_load-Ends vaddr_lt memsz_lt small = bind (require-Ends _) λ _ room.
      bind (require-Ends _) λ _ filled. bind (require-Ends _) λ _ off.
        bind (require-Ends _) λ _ file. bind (require-Ends _) λ _ no_wrap.
          bind (require-Ends _) λ _ mem. bind (require-Ends _) λ _ above.
            bind (require-Ends _) λ _ below. bind (require-Ends _) λ _ read.
              bind (require-Ends _) λ _ wx. bind (require-Ends _) λ _ align.
                bind (require-Ends _) λ _ stack. bind (require-Ends _) λ _ over.
                  let s : u64 (ph.p_vaddr + base) ≡ seg_start base ph =
                    omega (arith, leb→le _ _ no_wrap) in
                  let t : u64 (u64 (ph.p_vaddr + base) + ph.p_memsz) ≡ seg_stop base ph =
                    omega arith in
                  let above' = leb→le _ _ above in
                  let below' = leb→le _ _ below in
                  returns (record {
                    segment = record {
                      in_file = omega (arith, leb→le _ _ off, leb→le _ _ file);
                      filled = leb→le _ _ filled;
                      starts = omega arith;
                      stops = omega arith;
                      unwrapped = wrap_cases base ph vaddr_lt memsz_lt (leb→le _ _ mem);
                      can_read = read;
                      no_write_execute = not-true _ wx;
                      off_stack = beside_cases _ _ _ _ (cc (stack, s, t));
                      congruent = aligned_lem ph align;
                    };
                    clear = not-true _ (cc (over, s, t));
                    seen = cc (s, t);
                    enters = Enters-cases st.entry_ok entry ph vaddr_lt memsz_lt (leb→le _ _ mem);
                    same_path = (refl, refl);
                  })
