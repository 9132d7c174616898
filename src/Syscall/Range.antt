-- ===== src/Syscall/Range.antt =====
-- user_range_ok of kernel/syscall/syscall.c looks at every page of the range.
use void.Base.{
  ℕ, zero, suc, ◌+◌, ◌-◌, ◌*◌, ◌/◌, ◌≤◌, ◌<◌, ◌≡◌, ◌↔◌, refl, Bool, true, not, ◌&&◌, ◌||◌, arith,
  max,
}
use void.Mm.Vmm.{Mem, index, get_pte, present, user, writable}
use void.Syscall.{page_of, page_ok, pages_ok, user_range_ok, range_in_half, user_limit}

and_split : (a b : Bool) → (a && b) ≡ true → (a ≡ true) × (b ≡ true)
and_split a b h = (ground arith, ground arith)

and_join : (a b : Bool) → a ≡ true → b ≡ true → (a && b) ≡ true
and_join a b p q = ground arith

pages_ok_at :
    (m : Mem) (cr3 : ℕ) (nw : Bool) (n v i : ℕ)
    → pages_ok m cr3 nw n v ≡ true
    → i < n
    → page_ok m cr3 nw (v + 4096 * i) ≡ true
unfolding pages_ok
pages_ok_at m cr3 nw zero v i h lt = absurd (omega arith)
pages_ok_at m cr3 nw (suc n) v zero h lt =
    let same : v + 4096 * 0 ≡ v = omega arith in rw same (and_split _ _ h).0
pages_ok_at m cr3 nw (suc n) v (suc i) h lt =
    let same : v + 4096 * suc i ≡ v + 4096 + 4096 * i = omega arith in
    rw same (pages_ok_at m cr3 nw n (v + 4096) i (and_split _ _ h).1 (omega arith))

pages_ok_all :
    (m : Mem) (cr3 : ℕ) (nw : Bool) (n v : ℕ)
    → ((i : ℕ) → i < n → page_ok m cr3 nw (v + 4096 * i) ≡ true)
    → pages_ok m cr3 nw n v ≡ true
unfolding pages_ok
pages_ok_all m cr3 nw zero v h = refl
pages_ok_all m cr3 nw (suc n) v h =
    let same : v + 4096 * 0 ≡ v = omega arith in
    let first : page_ok m cr3 nw v ≡ true = rw same at (h 0 (omega arith)) in
    let rest = pages_ok_all m cr3 nw n (v + 4096) λ i lt.
      let moved : v + 4096 * suc i ≡ v + 4096 + 4096 * i = omega arith in
      rw moved at (h (suc i) (omega arith)) in
    and_join _ _ first rest

-- The entry of an address is the entry of its page.
pub get_pte-page_of : (m : Mem) (cr3 a : ℕ) → get_pte m cr3 (page_of a) ≡ get_pte m cr3 a
unfolding get_pte
get_pte-page_of m cr3 a =
    let i0 : index 0 (page_of a) ≡ index 0 a = omega arith in
    let i1 : index 1 (page_of a) ≡ index 1 a = omega arith in
    let i2 : index 2 (page_of a) ≡ index 2 a = omega arith in
    let i3 : index 3 (page_of a) ≡ index 3 a = omega arith in rw (i0, i1, i2, i3)

-- The flags that an access needs in the entry of an address.
abbrev pub Accessible : Mem → ℕ → Bool → ℕ → Type 0
Accessible m cr3 need_write a =
    (present (get_pte m cr3 a) ≡ true)
    × (user (get_pte m cr3 a) ≡ true)
    × ((not need_write || writable (get_pte m cr3 a)) ≡ true)

page_ok_iff :
    (m : Mem) (cr3 a : ℕ) (nw : Bool)
    → (page_ok m cr3 nw (page_of a) ≡ true) ↔ Accessible m cr3 nw a
page_ok_iff m cr3 a nw =
    rw (get_pte-page_of m cr3 a)
      ((λ h. (ground arith, ground arith, ground arith)), λ h. ground arith)

range_in_half_iff :
    (base len : ℕ) → (range_in_half base len ≡ true) ↔ ((0 < len) × (base + len ≤ user_limit))
range_in_half_iff base len = ((λ h. (ground arith, ground arith)), λ h. ground arith)

-- A range is accepted exactly if it is not empty and ends in the user half, and every byte of it is on
-- a page that is present and open to the user, and writable where the kernel is to write.
pub user_range_ok_iff :
    (m : Mem) (cr3 base len : ℕ) (need_write : Bool)
    → (user_range_ok m cr3 base len need_write ≡ true) ↔ (
        (0 < len)
        × (base + len ≤ user_limit)
        × ((a : ℕ) → base ≤ a → a < base + len → Accessible m cr3 need_write a))
unfolding user_range_ok
user_range_ok_iff m cr3 base len nw = (
  (λ h.
      let (half, pages) = and_split _ _ h in
      let (some_byte, fits) = (range_in_half_iff base len).0 half in
      (
        some_byte,
        fits,
        λ a above below.
            let i = a / 4096 - base / 4096 in
            let there : page_of base + 4096 * i ≡ page_of a = omega arith in
            (page_ok_iff m cr3 a nw).0
              (rw there at (pages_ok_at m cr3 nw _ (page_of base) i pages (omega arith))),
      )),
  λ h. and_join _ _ ((range_in_half_iff base len).1 (h.0, h.1)) (
      pages_ok_all m cr3 nw _ (page_of base) λ i lt.
        let a = max base (page_of base + 4096 * i) in
        let there : page_of a ≡ page_of base + 4096 * i = omega arith in
        rw (← there) ((page_ok_iff m cr3 a nw).1 (h.2 a (omega arith) (omega arith)))),
)
