-- ===== src/Mm/Vmm/Maps.antt =====
-- What vmm_map_page and vmm_unmap_page of kernel/mm/vmm.c do to the entries that vmm_get_pte returns.
use void.Base.{
  ℕ, suc, ◌/◌, ◌<◌, ◌≡◌, ◌⊎◌, refl, sym, ◌∙◌, true, false, ◌&&◌, Option, none, some, ◌==◌,
  if◌then◌else◌, arith, Bool-cases, inl, inr,
}
use Prim.Native.Nat.{bit_or}
use void.Mm.Vmm.{
  Machine, VoidStatus, void_ok, err_nomem, entry, put_entry, index, present, user, phys_of,
  and_then, table_flags, walk_or_create, map_page, unmap_page, get_pte,
}
use void.Mm.Vmm.Space.{
  SpaceOk, table, table_next, table_none, table_past, leaf, user_half, get_pte-leaf,
}
use void.Mm.Vmm.Walk.{Grown, Grown_trans, Kept, walk_or_create_lem}
use void.Mm.Vmm.Leaf.{written-SpaceOk, written-table, leaf-written}

module _ (root virt e : ℕ) where
  -- The call has set the entry of the page, or it has run out of memory and changed no entry.
  Result : Machine → VoidStatus × Machine → Type 0
  Result s r =
      Grown root s r.1
      × (((r.0 ≡ void_ok)
            × ((w : ℕ)
                → w < user_half
                → leaf r.1.mem root w ≡ (if w / 4096 == virt / 4096 then e else leaf s.mem root w)))
          ⊎ ((r.0 ≡ err_nomem)
              × ((w : ℕ) → w < user_half → leaf r.1.mem root w ≡ leaf s.mem root w)))

  Result-Kept :
      (s s' : Machine) (r : VoidStatus × Machine) → Kept root s s' → Result s' r → Result s r
  unfolding Result
  Result-Kept s s' r kept (ok, inl (done, entries)) = (
    Grown_trans root s s' r.1 kept.grown ok,
    inl (done, λ w low. entries w low ∙ rw (kept.leaves w low)),
  )
  Result-Kept s s' r kept (ok, inr (failed, entries)) = (
    Grown_trans root s s' r.1 kept.grown ok,
    inr (failed, λ w low. entries w low ∙ kept.leaves w low),
  )

  and_then-Result :
      (s : Machine) (walked : Option ℕ × Machine) (f : ℕ → Machine → VoidStatus × Machine) (k : ℕ)
      → ((walked.0 ≡ none) × Kept root s walked.1)
        ⊎ ((u : ℕ) × (walked.0 ≡ some u)
            × (table walked.1.mem root virt (suc k) ≡ some u)
            × Kept root s walked.1)
      → ((u : ℕ) (s' : Machine)
          → SpaceOk s' root
          → table s'.mem root virt (suc k) ≡ some u
          → Result s' (f u s'))
      → Result s (and_then walked f)
  unfolding Result
  and_then-Result s (o, s') f k (inl (out, kept)) next =
      rw out (kept.grown, inr (refl, kept.leaves))
  and_then-Result s (o, s') f k (inr (u, got, there, kept)) next =
      rw got (Result-Kept s s' (f u s') kept (next u s' kept.grown.space there))

module _ (s : Machine) (root : ℕ) (ok : SpaceOk s root) (virt phys flags : ℕ)
    (low : virt < user_half) where
  kind : (table_flags flags ≡ 3) ⊎ (table_flags flags ≡ 7)
  kind = elim (Bool-cases (user flags)) [ inl u ↦ inr (rw u) | inr k ↦ inl (rw k) ]

  last_Result :
      (s' : Machine)
      → SpaceOk s' root
      → (pt : ℕ) → table s'.mem root virt 3 ≡ some pt
      → Result root virt (bit_or (phys_of phys) flags) s' (
        void_ok,
        record s' { mem = put_entry s'.mem pt (index 3 virt) (bit_or (phys_of phys) flags) },
      )
  unfolding Result
  last_Result s' ok' pt there =
      let e = bit_or (phys_of phys) flags in
      (
        record {
          space = written-SpaceOk s' root ok' virt pt e low there;
          newer = λ w j u user deep h.
              inl (written-table s' root ok' virt pt e low there w j u user deep h);
          used = λ g h. h;
        },
        inl (refl, leaf-written s' root ok' virt pt e low there),
      )

  map_page-Result :
      Result root virt (bit_or (phys_of phys) flags) s (map_page root virt phys flags s)
  unfolding map_page table
  map_page-Result =
      let e = bit_or (phys_of phys) flags in
      let f = table_flags flags in
      and_then-Result root virt e s (walk_or_create root (index 0 virt) f s) _ 0
        (walk_or_create_lem s root ok virt 0 root f low (omega arith) refl kind)
        λ pdpt s1 ok1 at1.
          and_then-Result root virt e s1 (walk_or_create pdpt (index 1 virt) f s1) _ 1
            (walk_or_create_lem s1 root ok1 virt 1 pdpt f low (omega arith) at1 kind)
            λ pd s2 ok2 at2.
              and_then-Result root virt e s2 (walk_or_create pd (index 2 virt) f s2) _ 2
                (walk_or_create_lem s2 root ok2 virt 2 pd f low (omega arith) at2 kind)
                λ pt s3 ok3 at3. last_Result s3 ok3 pt at3

  abbrev pub mapped : VoidStatus × Machine
  mapped = map_page root virt phys flags s

  pub map_page-Grown : Grown root s mapped.1
  unfolding Result
  map_page-Grown = map_page-Result.0

  -- vmm_map_page keeps the page tables of the user half in order. It sets the entry of the page to
  -- the address and the flags and leaves the entry of every other page, or it finds no memory for a
  -- table and leaves all entries.
  pub map_page_lem :
      SpaceOk mapped.1 root
      × (((mapped.0 ≡ void_ok)
            × ((w : ℕ)
                → w < user_half
                → get_pte mapped.1.mem root w ≡ (
                    if w / 4096 == virt / 4096
                    then bit_or (phys_of phys) flags
                    else get_pte s.mem root w)))
          ⊎ ((mapped.0 ≡ err_nomem)
              × ((w : ℕ) → w < user_half → get_pte mapped.1.mem root w ≡ get_pte s.mem root w)))
  unfolding Result
  map_page_lem =
      let r = map_page-Result in
      let there = λ (w : ℕ) (user : w < user_half). get_pte-leaf mapped.1 root w r.0.space user in
      let before = λ (w : ℕ) (user : w < user_half). get_pte-leaf s root w ok user in
      elim r.1 [
        | inl (done, entries) ↦
            (r.0.space, inl (done, λ w user. there w user ∙ entries w user ∙ rw (before w user)))
        | inr (failed, entries) ↦
            (r.0.space, inr (failed, λ w user. there w user ∙ entries w user ∙ sym (before w user)))
      ]

module _ (s : Machine) (root : ℕ) (ok : SpaceOk s root) (virt : ℕ) (low : virt < user_half) where
  abbrev pub unmapped : ℕ × Machine
  unmapped = unmap_page root virt s

  unmap_cases :
      ((unmapped ≡ (0, s)) × (table s.mem root virt 3 ≡ none))
      ⊎ ((pt : ℕ) × (table s.mem root virt 3 ≡ some pt)
          × (((present (entry s.mem pt (index 3 virt)) ≡ false) × (unmapped ≡ (0, s)))
              ⊎ ((present (entry s.mem pt (index 3 virt)) ≡ true)
                  × (unmapped ≡ (
                    phys_of (entry s.mem pt (index 3 virt)),
                    record s { mem = put_entry s.mem pt (index 3 virt) 0 },
                  )))))
  unfolding unmap_page
  unmap_cases =
      let m = s.mem in
      let e4 = entry m root (index 0 virt) in
      let e3 = entry m (phys_of e4) (index 1 virt) in
      let e2 = entry m (phys_of e3) (index 2 virt) in
      let e1 = entry m (phys_of e2) (index 3 virt) in
      let at0 : table m root virt 0 ≡ some root = unfold table in refl in
      elim (Bool-cases (present e4)) [
        | inr gone ↦ inl (
          rw gone,
          table_past m root virt 2
              (table_past m root virt 1 (table_none m root virt 0 root at0 gone)),
        )
        | inl here4 ↦
            let at1 = table_next m root virt 0 root at0 here4 in
            elim (Bool-cases (present e3)) [
              | inr gone ↦ inl (
                rw (here4, gone),
                table_past m root virt 2 (table_none m root virt 1 (phys_of e4) at1 gone),
              )
              | inl here3 ↦
                  let at2 = table_next m root virt 1 (phys_of e4) at1 here3 in
                  elim (Bool-cases (present e2)) [
                    | inr gone ↦
                        inl
                          (rw (here4, here3, gone), table_none m root virt 2 (phys_of e3) at2 gone)
                    | inl here2 ↦
                        let at3 = table_next m root virt 2 (phys_of e3) at2 here2 in
                        inr (
                          phys_of e2,
                          at3,
                          elim (Bool-cases (present e1)) [
                            | inr gone ↦ inl (gone, rw (here4, here3, here2, gone))
                            | inl got ↦ inr (got, rw (here4, here3, here2, got))
                          ],
                        )
                  ]
            ]
      ]

  -- vmm_unmap_page keeps the page tables of the user half in order, clears the entry of a page that
  -- is present and returns its address, leaves the entry of every other page, and returns 0 if the
  -- page is not present.
  pub unmap_page_lem :
      SpaceOk unmapped.1 root
      × (unmapped.0
          ≡ (if present (get_pte s.mem root virt) then phys_of (get_pte s.mem root virt) else 0))
      × ((w : ℕ)
          → w < user_half
          → get_pte unmapped.1.mem root w ≡ (
              if w / 4096 == virt / 4096 && present (get_pte s.mem root virt)
              then 0
              else get_pte s.mem root w))
  unmap_page_lem = elim unmap_cases [
    | inl (same, past) ↦
        let zero_entry : get_pte s.mem root virt ≡ 0 = get_pte-leaf s root virt ok low ∙ rw past in
        rw (same, zero_entry) (ok, refl, λ w user. ground arith)
    | inr (pt, there, inl (gone, same)) ↦
        let entry_is : get_pte s.mem root virt ≡ entry s.mem pt (index 3 virt) =
          get_pte-leaf s root virt ok low ∙ rw there in
        rw (same, entry_is, gone) (ok, refl, λ w user. ground arith)
    | inr (pt, there, inr (got, same)) ↦
        let entry_is : get_pte s.mem root virt ≡ entry s.mem pt (index 3 virt) =
          get_pte-leaf s root virt ok low ∙ rw there in
        let ok' = written-SpaceOk s root ok virt pt 0 low there in
        let s' : Machine = record s { mem = put_entry s.mem pt (index 3 virt) 0 } in
        rw (same, entry_is, got)
          (
            ok',
            refl,
            λ w user.
                get_pte-leaf s' root w ok' user
                ∙ leaf-written s root ok virt pt 0 low there w user
                ∙ rw (get_pte-leaf s root w ok user) (ground arith),
          )
  ]
