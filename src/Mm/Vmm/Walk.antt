-- ===== src/Mm/Vmm/Walk.antt =====
-- walk_or_create of kernel/mm/vmm.c on the tree of the page tables.
use void.Base.{
  ℕ, suc, ◌/◌, ◌%◌, ◌^◌, ◌≤◌, ◌<◌, ◌≡◌, ◌⊎◌, refl, ◌∙◌, true, false, Option, none, some, ◌==◌, ◌||◌,
  arith, Bool-cases, inl, inr,
}
use Prim.Native.Nat.{bit_or}
use void.Base.Words.{bit_or_flags}
use void.Mm.Pmm.{Pmm, bit_test, alloc_frame}
use void.Mm.Pmm.Alloc.{PmmOk, alloc_frame_lem}
use void.Mm.Vmm.{
  Machine, entry, zero_frame, index, present, huge, phys_of, alloc_table, walk_or_create,
}
use void.Mm.Vmm.Space.{SpaceOk, table, table_next, leaf, user_half}
use void.Mm.Vmm.Create.{IsFresh, created, grown-SpaceOk, created-table, leaf-created, next-created}

-- The space is in order, its tables are old or were free frames, and no frame has become free.
pub record Grown (root : ℕ) (s s' : Machine) : Type 0 where
  pub space : SpaceOk s' root
  pub newer :
      (w j u : ℕ)
      → w < user_half
      → j ≤ 3
      → table s'.mem root w j ≡ some u
      → (table s.mem root w j ≡ some u) ⊎ (bit_test s.pmm.bitmap (u / 4096) ≡ false)
  pub used : (g : ℕ) → bit_test s.pmm.bitmap g ≡ true → bit_test s'.pmm.bitmap g ≡ true

pub Grown_refl : (root : ℕ) (s : Machine) → SpaceOk s root → Grown root s s
Grown_refl root s ok = record { space = ok; newer = λ w j u user deep h. inl h; used = λ g h. h }

pub Grown_trans : (root : ℕ) (s t u : Machine) → Grown root s t → Grown root t u → Grown root s u
Grown_trans root s t u a b = record {
  space = b.space;
  newer = λ w j x user deep h. elim (b.newer w j x user deep h) [
    | inl old ↦ a.newer w j x user deep old
    | inr free ↦ elim (Bool-cases (bit_test s.pmm.bitmap (x / 4096))) [
      | inr unused ↦ inr unused
      | inl taken ↦ let still = a.used (x / 4096) taken in cc (still, free)
    ]
  ];
  used = λ g h. b.used g (a.used g h);
}

-- It also has every table that it had, and its last-level entries are the same.
pub record Kept (root : ℕ) (s s' : Machine) : Type 0 where
  pub grown : Grown root s s'
  pub leaves : (w : ℕ) → w < user_half → leaf s'.mem root w ≡ leaf s.mem root w

pub Kept-refl : (root : ℕ) (s : Machine) → SpaceOk s root → Kept root s s
Kept-refl root s ok = record { grown = Grown_refl root s ok; leaves = λ w user. refl }

-- A frame that alloc_table has taken and zeroed.
pub record NewTable (s : Machine) (g : ℕ) (p : Pmm) : Type 0 where
  pub not_null : (g == 0) ≡ false
  pub fresh : IsFresh s.pmm g
  pub frames : PmmOk p
  pub memory : p.total_frames ≤ 2 ^ 40
  pub in_use : (h : ℕ) → bit_test p.bitmap h ≡ (h == g / 4096 || bit_test s.pmm.bitmap h)

alloc_table_lem :
    (s : Machine)
    → PmmOk s.pmm
    → s.pmm.total_frames ≤ 2 ^ 40
    → (alloc_table s ≡ (0, s))
      ⊎ ((g : ℕ) × (p : Pmm) × (alloc_table s ≡ (g, record { pmm = p; mem = zero_frame s.mem g }))
          × NewTable s g p)
unfolding alloc_table
alloc_table_lem s ok small = elim (alloc_frame_lem s.pmm ok) [
  | inl (none_left, full) ↦ inl (rw none_left)
  | inr (f, t) ↦
      let g = (alloc_frame s.pmm).0 in
      let number : g / 4096 ≡ f = omega (arith, t.address) in
      let not_null : (g == 0) ≡ false = ground (arith, t.not_null) in
      inr (
        g,
        (alloc_frame s.pmm).1,
        rw not_null,
        record {
          not_null = not_null;
          fresh = record {
            aligned = omega (arith, t.address);
            small = omega (arith, t.address, t.first.below_total);
            unused = rw number t.first.is_free;
          };
          frames = t.valid;
          memory = omega (arith, t.same_total);
          in_use = λ h. rw number (t.in_use h);
        },
      )
]

new_entry_leads :
    (g flags : ℕ)
    → g % 4096 ≡ 0
    → g < 2 ^ 52
    → (flags ≡ 3) ⊎ (flags ≡ 7)
    → (present (bit_or g flags) ≡ true)
      × (huge (bit_or g flags) ≡ false)
      × (phys_of (bit_or g flags) ≡ g)
new_entry_leads g flags aligned small (inl e) =
    rw (bit_or_flags g flags aligned small (omega arith)) (ground arith, ground arith, omega arith)
new_entry_leads g flags aligned small (inr e) =
    rw (bit_or_flags g flags aligned small (omega arith)) (ground arith, ground arith, omega arith)

module _ (s : Machine) (root : ℕ) (ok : SpaceOk s root) (v k t flags : ℕ) (low : v < user_half)
    (above : k < 3) (here : table s.mem root v k ≡ some t) (kind : (flags ≡ 3) ⊎ (flags ≡ 7)) where
  abbrev walked : Option ℕ × Machine
  walked = walk_or_create t (index k v) flags s

  -- The next table, or no memory.
  pub walk_or_create_lem :
      ((walked.0 ≡ none) × Kept root s walked.1)
      ⊎ ((u : ℕ) × (walked.0 ≡ some u)
          × (table walked.1.mem root v (suc k) ≡ some u)
          × Kept root s walked.1)
  unfolding walk_or_create
  walk_or_create_lem = elim (Bool-cases (present (entry s.mem t (index k v)))) [
    | inl there ↦ rw there (
        inr (
          phys_of (entry s.mem t (index k v)),
          refl,
          table_next s.mem root v k t here there,
          Kept-refl root s ok,
        ))
    | inr absent ↦ elim (alloc_table_lem s ok.frames ok.memory) [
      | inl full ↦ rw (absent, full) (inl (refl, Kept-refl root s ok))
      | inr (g, p, e, new) ↦
          let leads = new_entry_leads g flags new.fresh.aligned new.fresh.small kind in
          let m =
            created s root ok v k t g (bit_or g flags) low above here absent new.fresh leads in
          rw (absent, e, new.not_null)
            (inr (
              phys_of (entry m t (index k v)),
              refl,
              next-created s root ok v k t g (bit_or g flags) low above here absent new.fresh leads,
              record {
                grown = record {
                  space =
                      grown-SpaceOk s root ok v k t g (bit_or g flags) low above here absent
                        new.fresh leads p new.frames new.memory new.in_use;
                  newer = λ w j u user deep h.
                      elim (created-table s root ok v k t g (bit_or g flags) low above here absent
                        new.fresh leads w j u user deep h) [
                          | inl old ↦ inl old
                          | inr (j_eq, u_g, pre) ↦ inr (rw u_g new.fresh.unused)
                        ];
                  used = λ h taken. new.in_use h ∙ ground (arith, taken);
                };
                leaves =
                    leaf-created s root ok v k t g (bit_or g flags) low above here absent new.fresh
                      leads;
              },
            ))
    ]
  ]
