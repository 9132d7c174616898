-- ===== src/Mm/Pmm/Init/Regions.antt =====
-- The usable regions that pmm_init of kernel/mm/pmm.c frees.
use void.Base.{
  ℕ, ◌-◌, ◌≤◌, ◌<◌, ◌≡◌, refl, ◌∙◌, ◌⊎◌, Bool, true, not, ◌&&◌, List, [], ◌∷◌, leb, arith,
  Bool-cases, inl, inr,
}
use void.Mm.Pmm.{Pmm, bit_test}
use void.Mm.Pmm.Init.{Region, start_frame, end_frame, free_run, free_regions}
use void.Mm.Pmm.Init.Runs.{Counted, Freed, within, free_run-Freed}

-- The frames of the usable regions of the list are all in use, and inside the bitmap.
abbrev pub AllUsed : Pmm → List Region → Type 0
AllUsed p [] = Unit {0}
AllUsed p (r ∷ rs) =
    (r.usable ≡ true
      → (end_frame r ≤ p.total_frames)
        × ((g : ℕ) → start_frame r ≤ g → g < end_frame r → bit_test p.bitmap g ≡ true))
    × AllUsed p rs

-- No usable region shares a frame with a later one.
abbrev pub Apart : Region → List Region → Type 0
Apart r [] = Unit {0}
Apart r (q ∷ rs) =
    (q.usable ≡ true → (end_frame r ≤ start_frame q) ⊎ (end_frame q ≤ start_frame r)) × Apart r rs

abbrev pub Disjoint : List Region → Type 0
Disjoint [] = Unit {0}
Disjoint (r ∷ rs) = (r.usable ≡ true → Apart r rs) × Disjoint rs

apart_bit :
    (f e g : ℕ) (b : Bool) → (g < f) ⊎ (e ≤ g) → b ≡ true → (not (within f (e - f) g) && b) ≡ true
apart_bit f e g b (inl low) h = ground arith
apart_bit f e g b (inr high) h = ground arith

AllUsed-Freed :
    (p p' : Pmm) (r : Region) (rs : List Region)
    → Freed p (start_frame r) (end_frame r - start_frame r) p'
    → Apart r rs
    → AllUsed p rs
    → AllUsed p' rs
AllUsed-Freed p p' r [] freed apart used = tt
AllUsed-Freed p p' r (q ∷ rs) freed apart used = (
  (λ usable.
      let (inside, all) = used.0 usable in
      (
        omega (arith, inside, freed.total),
        (λ g low high.
            freed.bits g
            ∙ apart_bit (start_frame r) (end_frame r) g (bit_test p.bitmap g)
                (elim (apart.0 usable) [
                  | inl before ↦ inr (omega arith)
                  | inr behind ↦ inl (omega arith)
                ])
                (all g low high)),
      )),
  AllUsed-Freed p p' r rs freed apart.1 used.1,
)

-- The run of a region, which is empty when the region holds no whole frame.
free_region-Freed :
    (f e : ℕ) (p : Pmm)
    → Counted p
    → e ≤ p.total_frames
    → ((g : ℕ) → f ≤ g → g < e → bit_test p.bitmap g ≡ true)
    → Freed p f (e - f) (free_run (e - f) f p)
unfolding free_run
free_region-Freed f e p v below used = elim (Bool-cases (leb e f)) [
  | inr some_in ↦
      free_run-Freed (e - f) f p v (ground arith)
        (λ g low high. used g low (omega (arith, low, high)))
  | inl empty ↦
      let nothing : e - f ≡ 0 = ground arith in
      rw nothing (record { valid = v; total = refl; bits = λ g. ground arith })
]

pub free_regions-Counted :
    (rs : List Region) (p : Pmm)
    → Counted p
    → Disjoint rs
    → AllUsed p rs
    → Counted (free_regions rs p) × ((free_regions rs p).total_frames ≡ p.total_frames)
unfolding free_regions
free_regions-Counted [] p v apart used = (v, refl)
free_regions-Counted (r ∷ rs) p v apart used = elim (Bool-cases r.usable) [
  | inr reserved ↦ rw reserved (free_regions-Counted rs p v apart.1 used.1)
  | inl usable ↦
      let p' = free_run (end_frame r - start_frame r) (start_frame r) p in
      let mine = used.0 usable in
      let freed : Freed p (start_frame r) (end_frame r - start_frame r) p' =
        free_region-Freed (start_frame r) (end_frame r) p v mine.0 mine.1 in
      let rest =
        free_regions-Counted rs p' freed.valid apart.1
          (AllUsed-Freed p p' r rs freed (apart.0 usable) used.1) in
      rw usable (rest.0, rest.1 ∙ freed.total)
]
