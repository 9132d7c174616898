-- ===== src/Mm/Vmm/Create.antt =====
-- A new table in the tree of kernel/mm/vmm.c: walk_or_create with a free frame.
use void.Base.{
  ℕ, zero, suc, ◌/◌, ◌%◌, ◌^◌, ◌≤◌, ◌<◌, ◌≡◌, ◌≢◌, ◌⊎◌, sym, ap, ◌∙◌, true, false, some, ◌==◌, ◌||◌,
  if◌then◌else◌, arith, Bool-cases, Option-cases, inl, inr,
}
use void.Mm.Pmm.{Pmm, bit_test}
use void.Mm.Pmm.Alloc.{PmmOk}
use void.Mm.Vmm.{Mem, Machine, entry, put_entry, zero_frame, index, present, huge, phys_of}
use void.Mm.Vmm.Space.{
  SpaceOk, table, table_back, table_next, leaf, SamePrefix, user_half, index_lt,
}

pub record IsFresh (p : Pmm) (g : ℕ) : Type 0 where
  pub aligned : g % 4096 ≡ 0
  pub small : g < 2 ^ 52
  pub unused : bit_test p.bitmap (g / 4096) ≡ false

-- Reads of a table after the writes of walk_or_create.
pub entry-put_self : (m : Mem) (t i e : ℕ) → entry (put_entry m t i e) t i ≡ e
unfolding put_entry
entry-put_self m t i e = ground arith

pub entry-put_ne :
    (m : Mem) (t i e u j : ℕ)
    → t % 4096 ≡ 0
    → u % 4096 ≡ 0
    → i < 512
    → j < 512
    → (t ≢ u) ⊎ (i ≢ j)
    → entry (put_entry m t i e) u j ≡ entry m u j
unfolding put_entry
entry-put_ne m t i e u j at au hi hj (inl ne) = ground arith
entry-put_ne m t i e u j at au hi hj (inr ne) = ground arith

entry-zero_frame :
    (m : Mem) (g u j : ℕ)
    → g % 4096 ≡ 0
    → u % 4096 ≡ 0
    → j < 512
    → entry (zero_frame m g) u j ≡ (if u == g then 0 else entry m u j)
unfolding zero_frame
entry-zero_frame m g u j ag au hj = ground arith

SamePrefix-meet : (k a b c : ℕ) → SamePrefix k a c → SamePrefix k b c → SamePrefix k a b
SamePrefix-meet zero a b c p q = tt
SamePrefix-meet (suc k) a b c p q = (SamePrefix-meet k a b c p.0 q.0, p.1 ∙ sym q.1)

-- `t` is the table of `v` at depth `k`, without the entry that `v` needs; `g` is the new frame, and
-- `e` the entry that leads to it.
module _ (s : Machine) (root : ℕ) (ok : SpaceOk s root) (v k t g e : ℕ) (low : v < user_half)
    (above : k < 3) (here : table s.mem root v k ≡ some t)
    (absent : present (entry s.mem t (index k v)) ≡ false) (fresh : IsFresh s.pmm g)
    (leads : (present e ≡ true) × (huge e ≡ false) × (phys_of e ≡ g)) where
  abbrev pub created : Mem
  created = put_entry (zero_frame s.mem g) t (index k v) e

  abbrev t_ok : (t % 4096 ≡ 0) × (t < 2 ^ 52) × (bit_test s.pmm.bitmap (t / 4096) ≡ true)
  t_ok = ok.tables v k t low (omega arith) here

  -- An entry of a table in use is what it was, but for the new one.
  entry-created :
      (u j : ℕ)
      → u % 4096 ≡ 0
      → bit_test s.pmm.bitmap (u / 4096) ≡ true
      → j < 512
      → (t ≢ u) ⊎ (index k v ≢ j)
      → entry created u j ≡ entry s.mem u j
  entry-created u j aligned used small other =
      let ne : (u == g) ≡ false = ground (arith, fresh.unused) in
      entry-put_ne (zero_frame s.mem g) t (index k v) e u j t_ok.0 aligned (index_lt k v) small
        other
      ∙ entry-zero_frame s.mem g u j fresh.aligned aligned small
      ∙ rw ne

  entry-created_new : (j : ℕ) → j < 512 → entry created g j ≡ 0
  entry-created_new j small =
      let ne : t ≢ g = λ same. ground (arith, fresh.unused, t_ok.2) in
      let self : (g == g) ≡ true = ground arith in
      entry-put_ne (zero_frame s.mem g) t (index k v) e g j t_ok.0 fresh.aligned (index_lt k v)
        small (inl ne)
      ∙ entry-zero_frame s.mem g g j fresh.aligned fresh.aligned small
      ∙ rw self

  -- Whether the entry of `w` in the table `u` at depth `j` is the new one.
  data Place (w j u : ℕ) : Type 0 where
    new_entry : u ≡ t → index j w ≡ index k v → j ≡ k → SamePrefix j w v → Place w j u
    old_entry : (t ≢ u) ⊎ (index k v ≢ index j w) → Place w j u

  place : (w j u : ℕ) → w < user_half → j ≤ 3 → table s.mem root w j ≡ some u → Place w j u
  place w j u user deep e' = elim (Bool-cases (u == t)) [
    | inr ne ↦ old_entry (inl (λ same. ground arith))
    | inl same ↦ elim (Bool-cases (index k v == index j w)) [
      | inr ne ↦ old_entry (inr (ground arith))
      | inl equal ↦
          let u_t : u ≡ t = ground arith in
          let meet = ok.apart w v j k t user low deep (omega arith) (rw (← u_t) e') here in
          new_entry u_t (ground arith) meet.0 meet.1
    ]
  ]

  clash : {A : Type 0} (b i : ℕ) → b ≡ t → i ≡ index k v → present (entry s.mem b i) ≡ true → A
  clash b i u_t i_eq there =
      let there' : present (entry s.mem t (index k v)) ≡ true = rw (← u_t, ← i_eq) there in
      cc (there', absent)

  -- Tables stay.
  pub table-created :
      (w j u : ℕ)
      → w < user_half
      → j ≤ 3
      → table s.mem root w j ≡ some u
      → table created root w j ≡ some u
  table-created w zero u user deep h = unfold table in (unfold table in h)
  table-created w (suc j) u user deep h =
      let (b, before, there, next) = table_back s.mem root w j u h in
      let b_ok = ok.tables w j b user (omega arith) before in
      elim (place w j b user (omega arith) before) [
        | new_entry u_t i_eq j_eq pre ↦ clash b (index j w) u_t i_eq there
        | old_entry other ↦
            let same = entry-created b (index j w) b_ok.0 b_ok.2 (index_lt j w) other in
            table_next created root w j b (table-created w j b user (omega arith) before)
              (rw same there)
            ∙ ap some (ap phys_of same ∙ next)
      ]

  pub next-created : table created root v (suc k) ≡ some (phys_of (entry created t (index k v)))
  next-created =
      table_next created root v k t (table-created v k t low (omega arith) here)
        (rw (entry-put_self (zero_frame s.mem g) t (index k v) e) leads.0)

  not_present : (w : ℕ) → w ≡ 0 → present w ≡ false
  not_present w h = rw h

  -- There is one new table, behind the indices of `v`.
  pub created-table :
      (w j u : ℕ)
      → w < user_half
      → j ≤ 3
      → table created root w j ≡ some u
      → (table s.mem root w j ≡ some u) ⊎ ((j ≡ suc k) × (u ≡ g) × SamePrefix j w v)
  created-table w zero u user deep h = inl (unfold table in (unfold table in h))
  created-table w (suc j) u user deep h =
      let (b, before, there, next) = table_back created root w j u h in
      elim (created-table w j b user (omega arith) before) [
        | inr (j_eq, b_g, pre) ↦
            let zero_there : entry created b (index j w) ≡ 0 =
              rw b_g (entry-created_new (index j w) (index_lt j w)) in
            let gone = not_present _ zero_there in cc (there, gone)
        | inl old ↦
            let b_ok = ok.tables w j b user (omega arith) old in
            elim (place w j b user (omega arith) old) [
              | new_entry u_t i_eq j_eq pre ↦
                  let is_e : entry created b (index j w) ≡ e =
                    rw (u_t, i_eq) (entry-put_self (zero_frame s.mem g) t (index k v) e) in
                  inr (
                    ap suc j_eq,
                    sym next ∙ ap phys_of is_e ∙ leads.2,
                    (pre, i_eq ∙ ap (λ n. index n v) (sym j_eq)),
                  )
              | old_entry other ↦
                  let same = entry-created b (index j w) b_ok.0 b_ok.2 (index_lt j w) other in
                  inl (
                    table_next s.mem root w j b old (rw (← same) there)
                    ∙ ap some (ap phys_of (sym same) ∙ next))
            ]
      ]

  -- The last-level entries are what they were.
  pub leaf-created : (w : ℕ) → w < user_half → leaf created root w ≡ leaf s.mem root w
  leaf-created w user = elim (Option-cases (table s.mem root w 3)) [
    | inr (pt, there) ↦
        let pt_ok = ok.tables w 3 pt user (omega arith) there in
        let same : entry created pt (index 3 w) ≡ entry s.mem pt (index 3 w) =
          elim (place w 3 pt user (omega arith) there) [
            | new_entry u_t i_eq j_eq pre ↦ absurd (omega (arith, j_eq))
            | old_entry other ↦ entry-created pt (index 3 w) pt_ok.0 pt_ok.2 (index_lt 3 w) other
          ] in
        rw (there, table-created w 3 pt user (omega arith) there) same
    | inl past ↦ elim (Option-cases (table created root w 3)) [
      | inl past' ↦ rw (past, past')
      | inr (u, there) ↦ elim (created-table w 3 u user (omega arith) there) [
        | inl old ↦ cc (past, old)
        | inr (j_eq, u_g, pre) ↦
            rw (past, there) (rw u_g (entry-created_new (index 3 w) (index_lt 3 w)))
      ]
    ]
  ]

  in_both :
      {A : Type 0} (w j u : ℕ) → w < user_half → j ≤ 3 → table s.mem root w j ≡ some u → u ≡ g → A
  in_both w j u user deep old u_g =
      let used = (ok.tables w j u user deep old).2 in
      let used_g : bit_test s.pmm.bitmap (g / 4096) ≡ true = rw (← u_g) used in
      cc (used_g, fresh.unused)

  module _ (p : Pmm) (frames : PmmOk p) (memory : p.total_frames ≤ 2 ^ 40)
      (in_use : (h : ℕ) → bit_test p.bitmap h ≡ (h == g / 4096 || bit_test s.pmm.bitmap h)) where
    abbrev pub grown : Machine
    grown = record { pmm = p; mem = created }

    pub grown-SpaceOk : SpaceOk grown root
    grown-SpaceOk = record {
      frames = frames;
      memory = memory;
      tables = λ w j u user deep h. elim (created-table w j u user deep h) [
        | inl old ↦
            let u_ok = ok.tables w j u user deep old in
            (u_ok.0, u_ok.1, in_use (u / 4096) ∙ ground (arith, u_ok.2))
        | inr (j_eq, u_g, pre) ↦
            rw u_g (fresh.aligned, fresh.small, in_use (g / 4096) ∙ ground arith)
      ];
      apart = λ w w' j j' u user user' deep deep' h h'. elim (created-table w j u user deep h) [
        | inl old ↦ elim (created-table w' j' u user' deep' h') [
          | inl old' ↦ ok.apart w w' j j' u user user' deep deep' old old'
          | inr new' ↦ in_both w j u user deep old new'.1
        ]
        | inr (j_eq, u_g, pre) ↦ elim (created-table w' j' u user' deep' h') [
          | inl old' ↦ in_both w' j' u user' deep' old' u_g
          | inr (j_eq', u_g', pre') ↦
              (j_eq ∙ sym j_eq', SamePrefix-meet j w w' v pre (rw (j_eq ∙ sym j_eq') pre'))
        ]
      ];
      no_huge = λ w j u user deep h there. elim (created-table w j u user (omega arith) h) [
        | inr (j_eq, u_g, pre) ↦
            let zero_there : entry created u (index j w) ≡ 0 =
              rw u_g (entry-created_new (index j w) (index_lt j w)) in
            let gone = not_present _ zero_there in cc (there, gone)
        | inl old ↦
            let u_ok = ok.tables w j u user (omega arith) old in
            elim (place w j u user (omega arith) old) [
              | new_entry u_t i_eq j_eq pre ↦
                  let is_e : entry created u (index j w) ≡ e =
                    rw (u_t, i_eq) (entry-put_self (zero_frame s.mem g) t (index k v) e) in
                  rw is_e leads.1
              | old_entry other ↦
                  let same = entry-created u (index j w) u_ok.0 u_ok.2 (index_lt j w) other in
                  rw same (ok.no_huge w j u user deep old (rw (← same) there))
            ]
      ];
    }
