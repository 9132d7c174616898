-- ===== src/Mm/Vmm/Leaf.antt =====
-- A write of an entry of the last depth, with which vmm_map_page and vmm_unmap_page of
-- kernel/mm/vmm.c end.
use void.Base.{
  ℕ, zero, suc, ◌/◌, ◌≤◌, ◌<◌, ◌≡◌, ◌≢◌, sym, ap, ◌∙◌, some, ◌==◌, if◌then◌else◌, arith, Bool-cases,
  Option-cases, inl, inr,
}
use void.Mm.Vmm.{Mem, Machine, entry, put_entry, index, phys_of}
use void.Mm.Vmm.Space.{
  SpaceOk, table, table_back, table_next, leaf, table-SamePrefix, SamePrefix-page, page-SamePrefix,
  user_half, index_lt,
}
use void.Mm.Vmm.Create.{entry-put_self, entry-put_ne}

module _ (s : Machine) (root : ℕ) (ok : SpaceOk s root) (v pt e : ℕ) (low : v < user_half)
    (here : table s.mem root v 3 ≡ some pt) where
  abbrev pub written : Mem
  written = put_entry s.mem pt (index 3 v) e

  -- Entries of the other depths stay.
  entry-written :
      (w j u : ℕ)
      → w < user_half
      → j < 3
      → table s.mem root w j ≡ some u
      → entry written u (index j w) ≡ entry s.mem u (index j w)
  entry-written w j u user above there =
      let pt_ok = ok.tables v 3 pt low (omega arith) here in
      let u_ok = ok.tables w j u user (omega arith) there in
      let other : pt ≢ u = λ same. omega (
        arith,
        (ok.apart v w 3 j u low user (omega arith) (omega arith) (rw (← same) here) there).0,
      ) in
      entry-put_ne s.mem pt (index 3 v) e u (index j w) pt_ok.0 u_ok.0 (index_lt 3 v) (index_lt j w)
        (inl other)

  table-written :
      (w j u : ℕ)
      → w < user_half
      → j ≤ 3
      → table s.mem root w j ≡ some u
      → table written root w j ≡ some u
  table-written w zero u user deep h = unfold table in (unfold table in h)
  table-written w (suc j) u user deep h =
      let (b, before, there, next) = table_back s.mem root w j u h in
      let same = entry-written w j b user (omega arith) before in
      table_next written root w j b (table-written w j b user (omega arith) before) (rw same there)
      ∙ ap some (ap phys_of same ∙ next)

  pub written-table :
      (w j u : ℕ)
      → w < user_half
      → j ≤ 3
      → table written root w j ≡ some u
      → table s.mem root w j ≡ some u
  written-table w zero u user deep h = unfold table in (unfold table in h)
  written-table w (suc j) u user deep h =
      let (b, before, there, next) = table_back written root w j u h in
      let old = written-table w j b user (omega arith) before in
      let same = entry-written w j b user (omega arith) old in
      table_next s.mem root w j b old (rw (← same) there) ∙ ap some (ap phys_of (sym same) ∙ next)

  pub written-SpaceOk : SpaceOk (record s { mem = written }) root
  written-SpaceOk = record {
    frames = ok.frames;
    memory = ok.memory;
    tables = λ w j u user deep h. ok.tables w j u user deep (written-table w j u user deep h);
    apart = λ w x j k u user user' deep deep' h h'.
        ok.apart w x j k u user user' deep deep' (written-table w j u user deep h)
          (written-table x k u user' deep' h');
    no_huge = λ w j u user above h there.
        let old = written-table w j u user (omega arith) h in
        let same = entry-written w j u user above old in
        rw same (ok.no_huge w j u user above old (rw (← same) there));
  }

  other_entry :
      (w u : ℕ)
      → w < user_half
      → w / 4096 ≢ v / 4096
      → table s.mem root w 3 ≡ some u
      → entry written u (index 3 w) ≡ entry s.mem u (index 3 w)
  other_entry w u user ne there =
      let pt_ok = ok.tables v 3 pt low (omega arith) here in
      let u_ok = ok.tables w 3 u user (omega arith) there in
      entry-put_ne s.mem pt (index 3 v) e u (index 3 w) pt_ok.0 u_ok.0 (index_lt 3 v) (index_lt 3 w)
        (elim (Bool-cases (pt == u)) [
          | inr differ ↦ inl (λ same. ground arith)
          | inl same ↦
              let pt_u : pt ≡ u = ground arith in
              let meet =
                ok.apart v w 3 3 u low user (omega arith) (omega arith) (rw (← pt_u) here) there in
              inr (λ equal. ne (sym (SamePrefix-page v w low user (meet.1, equal))))
        ])

  -- The entry of the page is the new one, and every other page keeps its own.
  pub leaf-written :
      (w : ℕ)
      → w < user_half
      → leaf written root w ≡ (if w / 4096 == v / 4096 then e else leaf s.mem root w)
  leaf-written w user = elim (Bool-cases (w / 4096 == v / 4096)) [
    | inl same ↦
        let prefix = page-SamePrefix v w (ground arith) in
        let there = sym (table-SamePrefix s.mem root v w 3 prefix.0) ∙ here in
        rw (same, table-written w 3 pt user (omega arith) there, ← prefix.1)
          (entry-put_self s.mem pt (index 3 v) e)
    | inr other ↦ elim (Option-cases (table s.mem root w 3)) [
      | inl past ↦ elim (Option-cases (table written root w 3)) [
        | inl past' ↦ rw (other, past, past')
        | inr (u, there) ↦ cc (past, written-table w 3 u user (omega arith) there)
      ]
      | inr (u, there) ↦
          rw (other, there, table-written w 3 u user (omega arith) there)
            (other_entry w u user (ground arith) there)
    ]
  ]
