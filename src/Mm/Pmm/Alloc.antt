-- ===== src/Mm/Pmm/Alloc.antt =====
-- What pmm_alloc_frame and pmm_free_frame of kernel/mm/pmm.c do to the set of frames in use.
use void.Base.{
  ℕ, ◌+◌, ◌-◌, ◌*◌, ◌/◌, ◌^◌, ◌≤◌, ◌<◌, ◌≡◌, refl, ◌≢◌, ap, true, false, not, ◌&&◌, ◌||◌, arith,
  leb, ltb, ◌∙◌, ◌==◌, length, Option-cases, Bool-cases, inl, inr, ◌⊎◌, if◌then◌else◌,
}
use void.Mm.Pmm.{
  Pmm, page_size, u64, bit_test, bit_set, bit_clear, scan_bytes, alloc_frame, free_frame,
}
use void.Mm.Pmm.Count.{count_free, count_free-set, count_free-clear, count_free-le}
use void.Mm.Pmm.Frames.{
  AreBytes, bit_test-set, bit_test-clear, bit_set-AreBytes, bit_clear-AreBytes, length-bit_set,
  length-bit_clear,
}
use void.Mm.Pmm.Search.{First, scan_bytes-SearchOk}

-- The bitmap covers every frame, `free_frames` counts the free ones, and frame 0 is reserved.
pub record PmmOk (p : Pmm) : Type 0 where
  pub bytes : AreBytes p.bitmap
  pub sized : p.bitmap_size ≡ length p.bitmap
  pub covered : p.total_frames ≤ 8 * p.bitmap_size
  pub addressable : p.total_frames < 2 ^ 52
  pub counted : p.free_frames ≡ count_free p.bitmap p.total_frames
  pub reserved : bit_test p.bitmap 0 ≡ true

-- Frame `f` has been taken from `p`: it was the first free one, and no other frame has changed.
pub record Taken (p : Pmm) (f : ℕ) (a : ℕ) (p' : Pmm) : Type 0 where
  pub address : a ≡ f * 4096
  pub not_null : 0 < a
  pub first : First p.bitmap p.total_frames 0 (8 * p.bitmap_size) f
  pub in_use : (g : ℕ) → bit_test p'.bitmap g ≡ (g == f || bit_test p.bitmap g)
  pub counts : p'.free_frames + 1 ≡ p.free_frames
  pub valid : PmmOk p'
  pub same_total : p'.total_frames ≡ p.total_frames

take : Pmm → ℕ → Pmm
take p f = record p { bitmap = bit_set p.bitmap f; free_frames = u64 (p.free_frames + 2 ^ 64 - 1) }

take-PmmOk :
    (p : Pmm) (f : ℕ)
    → PmmOk p
    → f < p.total_frames
    → bit_test p.bitmap f ≡ false
    → PmmOk (take p f) × ((take p f).free_frames + 1 ≡ p.free_frames)
unfolding take
take-PmmOk p f v below free =
    let counts =
      count_free-set p.bitmap f p.total_frames v.bytes (omega (arith, v.sized, v.covered)) free in
    let small = count_free-le p.bitmap p.total_frames in
    (
      record {
        bytes = bit_set-AreBytes p.bitmap f v.bytes;
        sized = omega (arith, v.sized, length-bit_set p.bitmap f);
        covered = v.covered;
        addressable = v.addressable;
        counted = ground (arith, v.counted, v.addressable);
        reserved = ground (
          arith,
          v.reserved,
          bit_test-set p.bitmap f v.bytes 0 (omega (arith, v.sized, v.covered)),
        );
      },
      ground (arith, v.counted, v.addressable),
    )

take-Taken :
    (p : Pmm) (f : ℕ)
    → PmmOk p
    → First p.bitmap p.total_frames 0 (8 * p.bitmap_size) f
    → Taken p f (u64 (f * page_size)) (take p f)
unfolding take
take-Taken p f v first =
    let kept = take-PmmOk p f v first.below_total first.is_free in
    record {
      address = omega (arith, first.below_total, v.addressable);
      not_null =
          nonzero f (ground (arith, v.reserved, first.is_free))
            (omega (arith, first.below_total, v.addressable));
      first = first;
      in_use = λ g.
          bit_test-set p.bitmap f v.bytes g (omega (arith, v.sized, v.covered, first.below_total));
      counts = kept.1;
      valid = kept.0;
      same_total = refl;
    }
  where
    nonzero : (f : ℕ) → f ≢ 0 → f < 2 ^ 52 → 0 < u64 (f * page_size)
    nonzero f ne h = omega arith

-- Allocation returns 0 and changes nothing exactly when every frame is in use; otherwise it takes
-- the first free frame, whose address is not 0, and keeps the allocator's invariant.
pub alloc_frame_lem :
    (p : Pmm)
    → PmmOk p
    → ((alloc_frame p ≡ (0, p)) × ((g : ℕ) → g < p.total_frames → bit_test p.bitmap g ≡ true))
      ⊎ ((f : ℕ) × Taken p f (alloc_frame p).0 (alloc_frame p).1)
unfolding alloc_frame take
alloc_frame_lem p v =
    let searched =
      scan_bytes-SearchOk p.bitmap p.total_frames p.bitmap_size 0 0 (8 * p.bitmap_size)
        (omega arith) (omega arith) in
    elim (Option-cases (scan_bytes p.bitmap p.total_frames p.bitmap_size 0)) [
      | inl e ↦ inl (
        rw (e, alloc_frame),
        λ g h. (rw e at searched) g (omega arith) (omega (arith, v.covered)) h,
      )
      | inr (f, e) ↦ inr (f, rw (e, alloc_frame) (take-Taken p f v (rw e at searched)))
    ]

give : Pmm → ℕ → Pmm
give p f = record p { bitmap = bit_clear p.bitmap f; free_frames = u64 (p.free_frames + 1) }

give-PmmOk :
    (p : Pmm) (f : ℕ)
    → PmmOk p
    → f ≢ 0
    → f < p.total_frames
    → bit_test p.bitmap f ≡ true
    → PmmOk (give p f) × ((give p f).free_frames ≡ p.free_frames + 1)
unfolding give
give-PmmOk p f v ne below used =
    let counts =
      count_free-clear p.bitmap f p.total_frames v.bytes (omega (arith, v.sized, v.covered)) used in
    let small = count_free-le p.bitmap p.total_frames in
    (
      record {
        bytes = bit_clear-AreBytes p.bitmap f v.bytes;
        sized = omega (arith, v.sized, length-bit_clear p.bitmap f);
        covered = v.covered;
        addressable = v.addressable;
        counted = ground (arith, v.counted, v.addressable);
        reserved = ground (
          arith,
          v.reserved,
          bit_test-clear p.bitmap f v.bytes 0 (omega (arith, v.sized, v.covered)),
        );
      },
      ground (arith, v.counted, v.addressable),
    )

-- Freeing the frame of an address outside frame 0 keeps the invariant. It frees that frame if it is
-- one of the bitmap's, and changes no other; a frame that is free already is not counted twice.
pub free_frame_lem :
    (p : Pmm) (a : ℕ)
    → PmmOk p
    → 4096 ≤ a
    → PmmOk (free_frame p a)
      × ((g : ℕ)
          → bit_test (free_frame p a).bitmap g
            ≡ (not (g == a / 4096 && ltb (a / 4096) p.total_frames) && bit_test p.bitmap g))
      × ((free_frame p a).free_frames
          ≡ p.free_frames
            + (if ltb (a / 4096) p.total_frames && bit_test p.bitmap (a / 4096) then 1 else 0))
unfolding free_frame give
free_frame_lem p a v outside =
    let f = a / 4096 in
    elim (Bool-cases (leb p.total_frames f)) [
      | inl past ↦ rw (past, free_frame) (v, (λ g. ground arith), ground arith)
      | inr inside ↦ elim (Bool-cases (bit_test p.bitmap f)) [
        | inr free ↦ rw (inside, free, free_frame) (v, (λ g. stays p f g free), ground arith)
        | inl used ↦
            let kept = give-PmmOk p f v (omega arith) (ground arith) used in
            let bits = bit_test-clear p.bitmap f v.bytes in
            rw (inside, used, free_frame)
              (
                kept.0,
                (λ g. bits g (ground (arith, v.sized, v.covered)) ∙ ground arith),
                kept.1 ∙ ground arith,
              )
      ]
    ]
  where
    stays :
        (p : Pmm) (f g : ℕ)
        → bit_test p.bitmap f ≡ false
        → bit_test p.bitmap g ≡ (not (g == f && ltb f p.total_frames) && bit_test p.bitmap g)
    stays p f g free = elim (Bool-cases (g == f)) [
      | inl e ↦
          let same : g ≡ f = ground arith in
          let unused : bit_test p.bitmap g ≡ false = rw same free in ground arith
      | inr ne ↦ rw ne
    ]

-- A frame that is allocated and given back leaves every frame, and the count, as they were.
pub free_frame-alloc_frame :
    (p : Pmm)
    → PmmOk p
    → (alloc_frame p).0 ≢ 0
    → ((g : ℕ)
        → bit_test (free_frame (alloc_frame p).1 (alloc_frame p).0).bitmap g ≡ bit_test p.bitmap g)
      × ((free_frame (alloc_frame p).1 (alloc_frame p).0).free_frames ≡ p.free_frames)
free_frame-alloc_frame p v some_frame = elim (alloc_frame_lem p v) [
  | inl (none_left, full) ↦ absurd (some_frame (ap (λ r. r.0) none_left))
  | inr (f, t) ↦
      let a = (alloc_frame p).0 in
      let p' = (alloc_frame p).1 in
      let number : a / 4096 ≡ f = omega (arith, t.address) in
      let below : f < p'.total_frames = omega (arith, t.same_total, t.first.below_total) in
      let back = free_frame_lem p' a t.valid (omega (arith, t.address, t.not_null)) in
      (
        (λ g. ground (arith, back.1 g, t.in_use g, t.first.is_free)),
        ground (arith, back.2, t.in_use f, t.counts),
      )
]
