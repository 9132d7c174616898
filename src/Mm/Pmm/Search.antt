-- ===== src/Mm/Pmm/Search.antt =====
-- The frame that the search of kernel/mm/pmm.c, pmm_alloc_frame, finds: the first free one.
use void.Base.{
  ℕ, zero, suc, ◌+◌, ◌*◌, ◌/◌, ◌%◌, ◌≤◌, ◌<◌, ◌≡◌, true, false, Option, none, some, List, arith,
  ◌==◌, leb, get_or, Bool-cases, inl, inr,
}
use void.Base.Bytes.{test-full}
use void.Mm.Pmm.{Scan, found, stop, go_on, bit_test, scan_bits, scan_bytes}

module _ (bm : List ℕ) (total : ℕ) where
  -- All frames from `lo` up to `hi` are in use.
  abbrev pub InUse : ℕ → ℕ → Type 0
  InUse lo hi = (g : ℕ) → lo ≤ g → g < hi → bit_test bm g ≡ true

  pub record First (lo hi f : ℕ) : Type 0 where
    pub below_total : f < total
    pub is_free : bit_test bm f ≡ false
    pub from_lo : lo ≤ f
    pub below_hi : f < hi
    pub before : InUse lo f

  abbrev pub ScanOk : ℕ → ℕ → Scan → Type 0
  ScanOk lo hi (found f) = First lo hi f
  ScanOk lo hi stop = InUse lo total
  ScanOk lo hi go_on = InUse lo hi

  extend : (lo hi : ℕ) → bit_test bm lo ≡ true → InUse (lo + 1) hi → InUse lo hi
  extend lo hi t u g h1 h2 = elim (Bool-cases (lo == g)) [
    | inl e ↦ ground arith
    | inr ne ↦ u g (ground arith) h2
  ]

  extend_scan :
      (lo hi : ℕ) (r : Scan) → bit_test bm lo ≡ true → ScanOk (lo + 1) hi r → ScanOk lo hi r
  extend_scan lo hi (found f) t v = record {
    below_total = v.below_total;
    is_free = v.is_free;
    from_lo = omega (arith, v.from_lo);
    below_hi = v.below_hi;
    before = extend lo f t v.before;
  }
  extend_scan lo hi stop t v = extend lo total t v
  extend_scan lo hi go_on t v = extend lo hi t v

  scan_bits-ScanOk :
      (i n bit lo hi : ℕ)
      → lo ≡ i * 8 + bit
      → hi ≡ lo + n
      → ScanOk lo hi (scan_bits bm total i n bit)
  unfolding scan_bits
  scan_bits-ScanOk i zero bit lo hi e e' = λ g h1 h2. absurd (omega arith)
  scan_bits-ScanOk i (suc n) bit lo hi e e' = elim (Bool-cases (leb total (i * 8 + bit))) [
    | inl over ↦ rw over (λ g h1 h2. absurd (ground arith))
    | inr under ↦ elim (Bool-cases (bit_test bm (i * 8 + bit))) [
      | inr free ↦
          rw (under, free)
            (record {
              below_total = ground arith;
              is_free = free;
              from_lo = omega arith;
              below_hi = omega arith;
              before = λ g h1 h2. absurd (omega arith);
            })
      | inl used ↦
          rw (under, used)
            (extend_scan lo hi (scan_bits bm total i n (bit + 1)) (rw e used)
              (scan_bits-ScanOk i n (bit + 1) (lo + 1) hi (omega arith) (omega arith)))
    ]
  ]

  -- What the whole search comes to: the first free frame, or none below the last one.
  abbrev pub SearchOk : ℕ → ℕ → Option ℕ → Type 0
  SearchOk lo hi (some f) = First lo hi f
  SearchOk lo hi none = (g : ℕ) → lo ≤ g → g < hi → g < total → bit_test bm g ≡ true

  widen :
      (lo mid hi : ℕ) (o : Option ℕ)
      → InUse lo mid
      → lo ≤ mid
      → SearchOk mid hi o
      → SearchOk lo hi o
  widen lo mid hi (some f) u le v = record {
    below_total = v.below_total;
    is_free = v.is_free;
    from_lo = omega (arith, v.from_lo);
    below_hi = v.below_hi;
    before = λ g h1 h2. elim (Bool-cases (leb mid g)) [
      | inl past ↦ v.before g (ground arith) h2
      | inr inside ↦ u g h1 (ground arith)
    ];
  }
  widen lo mid hi none u le v = λ g h1 h2 h3. elim (Bool-cases (leb mid g)) [
    | inl past ↦ v g (ground arith) h2 h3
    | inr inside ↦ u g h1 (ground arith)
  ]

  full_byte : (i lo : ℕ) → lo ≡ i * 8 → get_or bm i 0 ≡ 255 → InUse lo (lo + 8)
  unfolding bit_test
  full_byte i lo e full g h1 h2 =
      let here : g / 8 ≡ i = omega arith in rw (here, full) (test-full (g % 8) (omega arith))

  after_bits :
      (i lo hi : ℕ) (r : Scan) (rest : Option ℕ)
      → lo + 8 ≤ hi
      → ScanOk lo (lo + 8) r
      → SearchOk (lo + 8) hi rest
      → SearchOk lo hi (elim r [ found f ↦ some f | stop ↦ none | go_on ↦ rest ])
  after_bits i lo hi (found f) rest le v s = record {
    below_total = v.below_total;
    is_free = v.is_free;
    from_lo = v.from_lo;
    below_hi = omega (arith, v.below_hi);
    before = v.before;
  }
  after_bits i lo hi stop rest le v s = λ g h1 h2 h3. v g h1 h3
  after_bits i lo hi go_on rest le v s = widen lo (lo + 8) hi rest v (omega arith) s

  pub scan_bytes-SearchOk :
      (n i lo hi : ℕ) → lo ≡ i * 8 → hi ≡ lo + n * 8 → SearchOk lo hi (scan_bytes bm total n i)
  unfolding scan_bytes
  scan_bytes-SearchOk zero i lo hi e e' = λ g h1 h2 h3. absurd (omega arith)
  scan_bytes-SearchOk (suc n) i lo hi e e' =
      let later = scan_bytes-SearchOk n (i + 1) (lo + 8) hi (omega arith) (omega arith) in
      elim (Bool-cases (get_or bm i 0 == 255)) [
        | inl full ↦ rw full (
            widen lo (lo + 8) hi (scan_bytes bm total n (i + 1)) (full_byte i lo e (ground arith))
              (omega arith) later)
        | inr room ↦ rw room (
            after_bits i lo hi (scan_bits bm total i 8 0) (scan_bytes bm total n (i + 1))
              (omega arith) (scan_bits-ScanOk i 8 0 lo (lo + 8) (omega arith) (omega arith)) later)
      ]
