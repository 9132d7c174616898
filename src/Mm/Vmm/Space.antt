-- ===== src/Mm/Vmm/Space.antt =====
-- The page tables of kernel/mm/vmm.c as a tree: which table an address goes through at each depth, and
-- the invariant of the user half of an address space.
use void.Base.{
  ℕ, zero, suc, ◌/◌, ◌%◌, ◌^◌, ◌≤◌, ◌<◌, ◌≡◌, refl, true, false, Option, none, some, if◌then◌else◌,
  arith, Bool-cases, inl, inr,
}
use void.Mm.Pmm.{bit_test}
use void.Mm.Pmm.Alloc.{PmmOk}
use void.Mm.Vmm.{Mem, Machine, entry, index, present, huge, phys_of, get_pte}

abbrev step_into : Mem → ℕ → Option ℕ → Option ℕ
step_into m i none = none
step_into m i (some t) = if present (entry m t i) then some (phys_of (entry m t i)) else none

-- The table at depth `k` on the way of an address.
unfoldable pub table : Mem → ℕ → ℕ → ℕ → Option ℕ
table m root v zero = some root
table m root v (suc k) = step_into m (index k v) (table m root v k)

abbrev pub leaf_of : Mem → ℕ → Option ℕ → ℕ
leaf_of m v none = 0
leaf_of m v (some pt) = entry m pt (index 3 v)

abbrev pub leaf : Mem → ℕ → ℕ → ℕ
leaf m root v = leaf_of m v (table m root v 3)

abbrev pub SamePrefix : ℕ → ℕ → ℕ → Type 0
SamePrefix zero v w = Unit {0}
SamePrefix (suc k) v w = SamePrefix k v w × (index k v ≡ index k w)

abbrev pub user_half : ℕ
user_half = 0x800000000000

-- Physical addresses have at most 52 bits. Every table of the user half is an aligned frame that is in
-- use, two ways meet in a table only at the same depth and behind the same indices, and no entry above
-- the last depth is a huge page.
pub record SpaceOk (s : Machine) (root : ℕ) : Type 0 where
  pub frames : PmmOk s.pmm
  pub memory : s.pmm.total_frames ≤ 2 ^ 40
  pub tables :
      (v k t : ℕ)
      → v < user_half
      → k ≤ 3
      → table s.mem root v k ≡ some t
      → (t % 4096 ≡ 0) × (t < 2 ^ 52) × (bit_test s.pmm.bitmap (t / 4096) ≡ true)
  pub apart :
      (v w j k t : ℕ)
      → v < user_half
      → w < user_half
      → j ≤ 3
      → k ≤ 3
      → table s.mem root v j ≡ some t
      → table s.mem root w k ≡ some t
      → (j ≡ k) × SamePrefix j v w
  pub no_huge :
      (v k t : ℕ)
      → v < user_half
      → k < 3
      → table s.mem root v k ≡ some t
      → present (entry s.mem t (index k v)) ≡ true
      → huge (entry s.mem t (index k v)) ≡ false

pub index_lt : (k v : ℕ) → index k v < 512
index_lt zero v = omega arith
index_lt (suc zero) v = omega arith
index_lt (suc (suc zero)) v = omega arith
index_lt (suc (suc (suc k))) v = omega arith

pub SamePrefix-page :
    (v w : ℕ) → v < user_half → w < user_half → SamePrefix 4 v w → v / 4096 ≡ w / 4096
SamePrefix-page v w hv hw s = omega arith

pub page-SamePrefix : (v w : ℕ) → v / 4096 ≡ w / 4096 → SamePrefix 4 v w
page-SamePrefix v w h = omega arith

-- A step to the next depth.
pub table_step :
    (m : Mem) (root v k : ℕ) {t : ℕ}
    → table m root v k ≡ some t
    → table m root v (suc k)
      ≡ (if present (entry m t (index k v)) then some (phys_of (entry m t (index k v))) else none)
unfolding table
table_step m root v k e = rw e

-- The table depends on the indices above it.
pub table-SamePrefix :
    (m : Mem) (root v w k : ℕ) → SamePrefix k v w → table m root v k ≡ table m root w k
unfolding table
table-SamePrefix m root v w zero h = refl
table-SamePrefix m root v w (suc k) h = rw (h.1, table-SamePrefix m root v w k h.0)

step_some :
    (m : Mem) (i : ℕ) (o : Option ℕ) (t : ℕ)
    → step_into m i o ≡ some t
    → (u : ℕ) × (o ≡ some u) × (present (entry m u i) ≡ true) × (phys_of (entry m u i) ≡ t)
step_some m i none t e = cc
step_some m i (some u) t e = elim (Bool-cases (present (entry m u i))) [
  | inl here ↦ (u, refl, here, ground arith)
  | inr gone ↦ absurd (ground arith)
]

-- The table before a table.
pub table_back :
    (m : Mem) (root v k t : ℕ)
    → table m root v (suc k) ≡ some t
    → (u : ℕ) × (table m root v k ≡ some u)
      × (present (entry m u (index k v)) ≡ true)
      × (phys_of (entry m u (index k v)) ≡ t)
unfolding table
table_back m root v k t e = step_some m (index k v) (table m root v k) t e

pub table_next :
    (m : Mem) (root v k t : ℕ)
    → table m root v k ≡ some t
    → present (entry m t (index k v)) ≡ true
    → table m root v (suc k) ≡ some (phys_of (entry m t (index k v)))
unfolding table
table_next m root v k t e here = rw (e, here)

pub table_none :
    (m : Mem) (root v k t : ℕ)
    → table m root v k ≡ some t
    → present (entry m t (index k v)) ≡ false
    → table m root v (suc k) ≡ none
unfolding table
table_none m root v k t e gone = rw (e, gone)

pub table_past : (m : Mem) (root v k : ℕ) → table m root v k ≡ none → table m root v (suc k) ≡ none
unfolding table
table_past m root v k e = rw e

-- In the user half the entry of the last depth is what vmm_get_pte returns.
pub get_pte-leaf :
    (s : Machine) (root v : ℕ)
    → SpaceOk s root
    → v < user_half
    → get_pte s.mem root v ≡ leaf s.mem root v
unfolding get_pte
get_pte-leaf s root v ok low =
    let m = s.mem in
    let e4 = entry m root (index 0 v) in
    let e3 = entry m (phys_of e4) (index 1 v) in
    let e2 = entry m (phys_of e3) (index 2 v) in
    let at0 : table m root v 0 ≡ some root = unfold table in refl in
    elim (Bool-cases (present e4)) [
      | inr gone ↦ rw (
        gone,
        table_past m root v 2 (table_past m root v 1 (table_none m root v 0 root at0 gone)),
      )
      | inl here4 ↦
          let at1 = table_next m root v 0 root at0 here4 in
          elim (Bool-cases (present e3)) [
            | inr gone ↦
                rw
                  (here4, gone, table_past m root v 2 (table_none m root v 1 (phys_of e4) at1 gone))
            | inl here3 ↦
                let at2 = table_next m root v 1 (phys_of e4) at1 here3 in
                let small3 = ok.no_huge v 1 (phys_of e4) low (omega arith) at1 here3 in
                elim (Bool-cases (present e2)) [
                  | inr gone ↦
                      rw (here4, here3, small3, gone, table_none m root v 2 (phys_of e3) at2 gone)
                  | inl here2 ↦
                      let at3 = table_next m root v 2 (phys_of e3) at2 here2 in
                      let small2 = ok.no_huge v 2 (phys_of e3) low (omega arith) at2 here2 in
                      rw (here4, here3, small3, here2, small2, at3)
                ]
          ]
    ]
