-- ===== src/Mm/Vmm/Translate.antt =====
-- vmm_virt_to_phys of kernel/mm/vmm.c, and what it answers after vmm_map_page.
use void.Base.{
  ℕ, ◌+◌, ◌/◌, ◌%◌, ◌^◌, ◌<◌, ◌≡◌, refl, ◌∙◌, true, some, if◌then◌else◌, arith, Bool-cases, inl,
  inr,
}
use Prim.Native.Nat.{bit_or}
use void.Base.Words.{bit_or_flags}
use void.Mm.Vmm.{Machine, void_ok, entry, index, present, phys_of, map_page, virt_to_phys, get_pte}
use void.Mm.Vmm.Space.{SpaceOk, table, table_next, table_none, table_past, user_half, get_pte-leaf}
use void.Mm.Vmm.Maps.{map_page_lem}

abbrev pub address_in : ℕ → ℕ → ℕ
address_in pte v = if present pte then bit_or (phys_of pte) (v % 4096) else 0

-- In the user half the answer follows from the entry of the page.
pub virt_to_phys-get_pte :
    (s : Machine) (root v : ℕ)
    → SpaceOk s root
    → v < user_half
    → virt_to_phys s.mem root v ≡ address_in (get_pte s.mem root v) v
unfolding virt_to_phys
virt_to_phys-get_pte s root v ok low =
    let m = s.mem in
    let e4 = entry m root (index 0 v) in
    let e3 = entry m (phys_of e4) (index 1 v) in
    let e2 = entry m (phys_of e3) (index 2 v) in
    let at0 : table m root v 0 ≡ some root = unfold table in refl in
    rw (get_pte-leaf s root v ok low) (elim (Bool-cases (present e4)) [
      | inr gone ↦ rw (
        gone,
        table_past m root v 2 (table_past m root v 1 (table_none m root v 0 root at0 gone)),
      )
      | inl here4 ↦
          let at1 = table_next m root v 0 root at0 here4 in
          elim (Bool-cases (present e3)) [
            | inr gone ↦
                rw
                  (here4, gone, table_past m root v 2 (table_none m root v 1 (phys_of e4) at1 gone))
            | inl here3 ↦
                let at2 = table_next m root v 1 (phys_of e4) at1 here3 in
                let small3 = ok.no_huge v 1 (phys_of e4) low (omega arith) at1 here3 in
                elim (Bool-cases (present e2)) [
                  | inr gone ↦
                      rw (here4, here3, small3, gone, table_none m root v 2 (phys_of e3) at2 gone)
                  | inl here2 ↦
                      let at3 = table_next m root v 2 (phys_of e3) at2 here2 in
                      let small2 = ok.no_huge v 2 (phys_of e3) low (omega arith) at2 here2 in
                      rw (here4, here3, small3, here2, small2, at3) (ground arith)
                ]
          ]
    ])

-- A page that vmm_map_page has mapped to a frame, present and without flags among the address bits,
-- is translated to that frame, at the offset of the address.
pub virt_to_phys-map_page :
    (s : Machine) (root : ℕ)
    → SpaceOk s root
    → (virt phys flags w : ℕ) → virt < user_half
    → w < user_half
    → w / 4096 ≡ virt / 4096
    → phys % 4096 ≡ 0
    → phys < 2 ^ 52
    → present flags ≡ true
    → flags % 2 ^ 52 < 4096
    → (map_page root virt phys flags s).0 ≡ void_ok
    → virt_to_phys (map_page root virt phys flags s).1.mem root w ≡ phys + w % 4096
virt_to_phys-map_page s root ok virt phys flags w low low' page aligned small here room done =
    let (ok', cases) = map_page_lem s root ok virt phys flags low in
    let s' = (map_page root virt phys flags s).1 in
    let frame : phys_of phys ≡ phys = omega arith in
    let sum = bit_or_flags phys flags aligned small room in
    let offset = bit_or_flags phys (w % 4096) aligned small (omega arith) in
    elim cases [
      | inr (failed, entries) ↦ cc (failed, done)
      | inl (ok_code, entries) ↦
          let pte : get_pte s'.mem root w ≡ phys + flags =
            entries w low' ∙ rw frame (ground (arith, sum)) in
          let back : phys_of (phys + flags) ≡ phys = omega arith in
          let there : present (phys + flags) ≡ true = ground arith in
          virt_to_phys-get_pte s' root w ok' low' ∙ rw (pte, there, back) offset
    ]
