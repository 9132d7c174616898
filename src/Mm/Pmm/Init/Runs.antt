-- ===== src/Mm/Pmm/Init/Runs.antt =====
-- Freeing and reserving runs of frames in pmm_init of kernel/mm/pmm.c.
use void.Base.{
  ℕ, zero, suc, ◌+◌, ◌-◌, ◌*◌, ◌^◌, ◌≤◌, ◌<◌, ◌≡◌, refl, sym, ap, ◌∙◌, Bool, true, false, not, ◌&&◌,
  ◌||◌, ltb, leb, ◌==◌, arith, length, Bool-cases, inl, inr,
}
use void.Mm.Pmm.{Pmm, u64, bit_set, bit_test}
use void.Mm.Pmm.Count.{count_free, count_free-set, count_free-clear, count_free-le}
use void.Mm.Pmm.Frames.{
  AreBytes, bit_test-clear, bit_set-AreBytes, bit_clear-AreBytes, length-bit_set, length-bit_clear,
}
use void.Mm.Pmm.Init.{free_one, free_run, reserve_one, reserve_run}

-- The allocator's invariant, but for frame 0.
pub record Counted (p : Pmm) : Type 0 where
  pub bytes : AreBytes p.bitmap
  pub sized : p.bitmap_size ≡ length p.bitmap
  pub covered : p.total_frames ≤ 8 * p.bitmap_size
  pub addressable : p.total_frames < 2 ^ 52
  pub counted : p.free_frames ≡ count_free p.bitmap p.total_frames

free_one-Counted :
    (p : Pmm) (f : ℕ)
    → Counted p
    → f < p.total_frames
    → bit_test p.bitmap f ≡ true
    → Counted (free_one p f)
free_one-Counted p f v below used =
    let counts =
      count_free-clear p.bitmap f p.total_frames v.bytes (omega (arith, v.sized, v.covered)) used in
    let small = count_free-le p.bitmap p.total_frames in
    record {
      bytes = bit_clear-AreBytes p.bitmap f v.bytes;
      sized = omega (arith, v.sized, length-bit_clear p.bitmap f);
      covered = v.covered;
      addressable = v.addressable;
      counted = ground (arith, v.counted, v.addressable);
    }

take_one : Pmm → ℕ → Pmm
take_one p f = record p {
  bitmap = bit_set p.bitmap f;
  free_frames = u64 (p.free_frames + 2 ^ 64 - 1);
}

take_one-Counted :
    (p : Pmm) (f : ℕ)
    → Counted p
    → f < p.total_frames
    → bit_test p.bitmap f ≡ false
    → Counted (take_one p f)
unfolding take_one
take_one-Counted p f v below free =
    let counts =
      count_free-set p.bitmap f p.total_frames v.bytes (omega (arith, v.sized, v.covered)) free in
    let small = count_free-le p.bitmap p.total_frames in
    record {
      bytes = bit_set-AreBytes p.bitmap f v.bytes;
      sized = omega (arith, v.sized, length-bit_set p.bitmap f);
      covered = v.covered;
      addressable = v.addressable;
      counted = ground (arith, v.counted, v.addressable);
    }

pub reserve_one-Counted :
    (p : Pmm) (f : ℕ) → Counted p → f < p.total_frames → Counted (reserve_one p f)
unfolding reserve_one take_one
reserve_one-Counted p f v below = elim (Bool-cases (bit_test p.bitmap f)) [
  | inl used ↦ rw used v
  | inr free ↦ rw free (take_one-Counted p f v below free)
]

abbrev pub within : ℕ → ℕ → ℕ → Bool
within f n g = leb f g && ltb g (f + n)

-- A run of frames has been freed.
pub record Freed (p : Pmm) (f n : ℕ) (p' : Pmm) : Type 0 where
  pub valid : Counted p'
  pub total : p'.total_frames ≡ p.total_frames
  pub bits : (g : ℕ) → bit_test p'.bitmap g ≡ (not (within f n g) && bit_test p.bitmap g)

within_next : (f n g : ℕ) → within f (suc n) g ≡ (g == f || within (f + 1) n g)
within_next f n g = ground arith

not_or : (a b c : Bool) → (not b && (not a && c)) ≡ (not (a || b) && c)
not_or a b c = ground arith

pub free_run-Freed :
    (n f : ℕ) (p : Pmm)
    → Counted p
    → f + n ≤ p.total_frames
    → ((g : ℕ) → f ≤ g → g < f + n → bit_test p.bitmap g ≡ true)
    → Freed p f n (free_run n f p)
unfolding free_run
free_run-Freed zero f p v below used = record { valid = v; total = refl; bits = λ g. ground arith }
free_run-Freed (suc n) f p v below used =
    let here = used f (omega arith) (omega arith) in
    let first = bit_test-clear p.bitmap f v.bytes in
    let inside : f < 8 * length p.bitmap = omega (arith, v.sized, v.covered, below) in
    let rest =
      free_run-Freed n (f + 1) (free_one p f) (free_one-Counted p f v (omega arith) here)
        (omega arith)
        (λ g low high.
          still_used f g (bit_test p.bitmap g) (first g inside) low
            (used g (omega arith) (omega arith))) in
    record {
      valid = rest.valid;
      total = rest.total;
      bits = λ g.
          rest.bits g
          ∙ (ap (λ b. not (within (f + 1) n g) && b) (first g inside)
              ∙ (not_or (g == f) (within (f + 1) n g) (bit_test p.bitmap g)
                  ∙ ap (λ b. not b && bit_test p.bitmap g) (sym (within_next f n g))));
    }
  where
    still_used :
        {a : Bool} (f g : ℕ) (b : Bool) → a ≡ (not (g == f) && b) → f + 1 ≤ g → b ≡ true → a ≡ true
    still_used f g b e low h = ground arith

pub total-reserve_one : (p : Pmm) (f : ℕ) → (reserve_one p f).total_frames ≡ p.total_frames
unfolding reserve_one
total-reserve_one p f = elim (Bool-cases (bit_test p.bitmap f)) [
  | inl used ↦ rw used
  | inr free ↦ rw free
]

pub reserve_run-Counted :
    (n f : ℕ) (p : Pmm)
    → Counted p
    → f + n ≤ p.total_frames
    → Counted (reserve_run n f p) × ((reserve_run n f p).total_frames ≡ p.total_frames)
unfolding reserve_run
reserve_run-Counted zero f p v below = (v, refl)
reserve_run-Counted (suc n) f p v below =
    let same = total-reserve_one p f in
    let rest =
      reserve_run-Counted n (f + 1) (reserve_one p f) (reserve_one-Counted p f v (omega arith))
        (omega (arith, same)) in
    (rest.0, rest.1 ∙ same)
