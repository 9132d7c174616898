-- ===== src/Syscall/Copies.antt =====
-- copy_from_user and copy_to_user of kernel/syscall/syscall.c: the bytes that a process sees at its
-- addresses, and the access record that the IPC calls take.
use void.Base.{
  ℕ, zero, suc, ◌+◌, ◌-◌, ◌/◌, ◌%◌, ◌≤◌, ◌<◌, ◌≡◌, ◌≢◌, refl, sym, ap, ◌∙◌, true, false, none, some,
  List, [], ◌∷◌, ◌++◌, ◌==◌, if◌then◌else◌, arith, Bool-cases, Option-cases, inl, inr, length,
  length-append,
}
use void.Base.Words.{bit_or_flags}
use void.Kernel.Access.{UserAccess}
use void.Mm.Vmm.{Mem, Machine, get_pte, present, phys_of, virt_to_phys}
use void.Mm.Vmm.Space.{SpaceOk, user_half}
use void.Mm.Vmm.Translate.{virt_to_phys-get_pte}
use void.Syscall.{
  byte, page_of, chunk_at, read_run, copy_from_loop, copy_from_user, copy_to_user, user_range_ok,
}
use void.Syscall.Bytes.{length-read_run}
use void.Syscall.Range.{get_pte-page_of, user_range_ok_iff}

-- The byte that a process sees at an address, and `n` of them.
abbrev pub user_byte : Mem → ℕ → ℕ → ℕ
user_byte m cr3 a = byte m (virt_to_phys m cr3 a)

abbrev pub user_bytes : Mem → ℕ → ℕ → (n : ℕ) → List ℕ
user_bytes m cr3 a zero = []
user_bytes m cr3 a (suc n) = user_byte m cr3 a ∷ user_bytes m cr3 (a + 1) n

user_bytes-append :
    (m : Mem) (cr3 a p q : ℕ)
    → user_bytes m cr3 a p ++ user_bytes m cr3 (a + p) q ≡ user_bytes m cr3 a (p + q)
user_bytes-append m cr3 a zero q =
    let at : a + 0 ≡ a = omega arith in let count : 0 + q ≡ q = omega arith in rw (at, count)
user_bytes-append m cr3 a (suc p) q =
    let at : a + suc p ≡ a + 1 + p = omega arith in
    let count : suc p + q ≡ suc (p + q) = omega arith in
    rw (at, count) (ap (λ bs. user_byte m cr3 a ∷ bs) (user_bytes-append m cr3 (a + 1) p q))

-- A run of physical bytes within a page.
read_run-user_bytes :
    (m : Mem) (cr3 f q : ℕ) (n a : ℕ)
    → ((w : ℕ) → w / 4096 ≡ q → virt_to_phys m cr3 w ≡ f + w % 4096)
    → a / 4096 ≡ q
    → a % 4096 + n ≤ 4096
    → read_run m (f + a % 4096) n ≡ user_bytes m cr3 a n
unfolding read_run
read_run-user_bytes m cr3 f q zero a maps page fits = refl
read_run-user_bytes m cr3 f q (suc zero) a maps page fits = rw (maps a page)
read_run-user_bytes m cr3 f q (suc (suc n)) a maps page fits =
    let next : f + a % 4096 + 1 ≡ f + (a + 1) % 4096 = omega arith in
    rw (maps a page, next)
      (ap (λ bs. byte m (f + a % 4096) ∷ bs)
        (read_run-user_bytes m cr3 f q (suc n) (a + 1) maps (omega arith) (omega arith)))

-- An address on a page that is present, in a frame other than frame 0.
abbrev pub Backed : Mem → ℕ → ℕ → Type 0
Backed m cr3 a = (present (get_pte m cr3 a) ≡ true) × (phys_of (get_pte m cr3 a) ≢ 0)

module _ (s : Machine) (cr3 : ℕ) (ok : SpaceOk s cr3) where
  -- On such a page an address is translated to its offset in the frame.
  page_maps :
      (a w : ℕ)
      → a < user_half
      → Backed s.mem cr3 a
      → w / 4096 ≡ a / 4096
      → virt_to_phys s.mem cr3 w ≡ phys_of (get_pte s.mem cr3 a) + w % 4096
  page_maps a w low backed page =
      let same_page : page_of w ≡ page_of a = omega arith in
      let same : get_pte s.mem cr3 w ≡ get_pte s.mem cr3 a =
        sym (get_pte-page_of s.mem cr3 w)
        ∙ ap (get_pte s.mem cr3) same_page
        ∙ get_pte-page_of s.mem cr3 a in
      virt_to_phys-get_pte s cr3 w ok (omega arith)
      ∙ rw (same, backed.0)
          (bit_or_flags (phys_of (get_pte s.mem cr3 a)) (w % 4096) (omega arith) (omega arith)
            (omega arith))

  copy_from_loop_lem :
      (fuel a left : ℕ)
      → left < fuel
      → a + left ≤ user_half
      → ((b : ℕ) → a ≤ b → b < a + left → Backed s.mem cr3 b)
      → copy_from_loop fuel s.mem cr3 a left ≡ some (user_bytes s.mem cr3 a left)
  unfolding copy_from_loop
  copy_from_loop_lem zero a left enough low backed = absurd (omega arith)
  copy_from_loop_lem (suc fuel) a zero enough low backed = refl
  copy_from_loop_lem (suc fuel) a (suc left) enough low backed =
      let m = s.mem in
      let n = suc left in
      let chunk = chunk_at a n in
      let here = backed a (omega arith) (omega arith) in
      let f = phys_of (get_pte m cr3 a) in
      let at : virt_to_phys m cr3 a ≡ f + a % 4096 = page_maps a a (omega arith) here refl in
      let split : (chunk ≤ n) × (0 < chunk) × (a % 4096 + chunk ≤ 4096) = ground arith in
      let not_null : (f + a % 4096 == 0) ≡ false = ground (arith, here.1) in
      let run =
        read_run-user_bytes m cr3 f (a / 4096) chunk a
          (λ w page. page_maps a w (omega arith) here page) refl split.2 in
      let later =
        copy_from_loop_lem fuel (a + chunk) (n - chunk) (omega arith) (omega arith)
          (λ b above below. backed b (omega arith) (omega arith)) in
      let more : (n == 0) ≡ false = ground arith in
      let total : chunk + (n - chunk) ≡ n = omega arith in
      let rest = user_bytes m cr3 (a + chunk) (n - chunk) in
      let not_null' : (virt_to_phys m cr3 a == 0) ≡ false = rw at not_null in
      let stepped : copy_from_loop (suc fuel) m cr3 a n
          ≡ some (read_run m (virt_to_phys m cr3 a) chunk ++ rest) =
        rw (more, not_null', later) in
      stepped
      ∙ ap (λ p. some (read_run m p chunk ++ rest)) at
      ∙ ap (λ bs. some (bs ++ rest)) run
      ∙ ap some (user_bytes-append m cr3 a chunk (n - chunk) ∙ ap (user_bytes m cr3 a) total)

  -- A copy from user memory answers with the bytes that the process sees at the addresses, whatever
  -- pages they lie on, if the whole range is open to the user, and refuses it otherwise. No page of
  -- the range lies in frame 0, which the frame allocator never hands out.
  pub copy_from_user_lem :
      (usrc len : ℕ)
      → ((a : ℕ) → usrc ≤ a → a < usrc + len → phys_of (get_pte s.mem cr3 a) ≢ 0)
      → copy_from_user s.mem cr3 usrc len ≡ (
          if user_range_ok s.mem cr3 usrc len false
          then some (user_bytes s.mem cr3 usrc len)
          else none)
  unfolding copy_from_user
  copy_from_user_lem usrc len frames = elim (Bool-cases (user_range_ok s.mem cr3 usrc len false)) [
    | inr refused ↦ rw refused
    | inl granted ↦
        let (some_byte, low, open_pages) = (user_range_ok_iff s.mem cr3 usrc len false).0 granted in
        rw granted (
          copy_from_loop_lem (len + 1) usrc len (omega arith) low
            λ b above below. ((open_pages b above below).0, frames b above below))
  ]

length-copy_from_loop :
    (fuel : ℕ) (m : Mem) (cr3 a left : ℕ) (bs : List ℕ)
    → copy_from_loop fuel m cr3 a left ≡ some bs
    → length bs ≡ left
unfolding copy_from_loop
length-copy_from_loop zero m cr3 a left bs h = cc
length-copy_from_loop (suc fuel) m cr3 a left bs h = elim (Bool-cases (left == 0)) [
  | inl stop ↦ let nothing : some [] ≡ some bs = rw stop at h in ground arith
  | inr more ↦ elim (Bool-cases (virt_to_phys m cr3 a == 0)) [
    | inl null ↦ let none_here : none ≡ some bs = rw (more, null) at h in cc
    | inr phys ↦
        elim (Option-cases
          (copy_from_loop fuel m cr3 (a + chunk_at a left) (left - chunk_at a left))) [
            | inl failed ↦ let none_here : none ≡ some bs = rw (more, phys, failed) at h in cc
            | inr (rest, e) ↦
                let joined : some (read_run m (virt_to_phys m cr3 a) (chunk_at a left) ++ rest)
                    ≡ some bs =
                  rw (more, phys, e) at h in
                let parts : read_run m (virt_to_phys m cr3 a) (chunk_at a left) ++ rest ≡ bs =
                  cc joined in
                let kept : chunk_at a left ≤ left = ground arith in
                omega (
                  arith,
                  ap (λ (xs : List ℕ). length xs) parts,
                  length-append (read_run m (virt_to_phys m cr3 a) (chunk_at a left)) rest,
                  length-read_run (chunk_at a left) m (virt_to_phys m cr3 a),
                  length-copy_from_loop fuel m cr3 (a + chunk_at a left) (left - chunk_at a left)
                      rest e,
                )
          ]
  ]
]

pub length-copy_from_user :
    (m : Mem) (cr3 usrc len : ℕ) (bs : List ℕ)
    → copy_from_user m cr3 usrc len ≡ some bs
    → length bs ≡ len
unfolding copy_from_user
length-copy_from_user m cr3 usrc len bs h = elim (Bool-cases (user_range_ok m cr3 usrc len false)) [
  | inr refused ↦ let none_here : none ≡ some bs = rw refused at h in cc
  | inl granted ↦ length-copy_from_loop (len + 1) m cr3 usrc len bs (rw granted at h)
]

-- The access to user memory that the IPC calls take: the page tables of each process are a parameter.
abbrev pub paged_access : (ℕ → ℕ) → UserAccess
paged_access cr3 = record {
  Mem = Mem;
  range_ok = λ m pid base len need_write. user_range_ok m (cr3 pid) base len need_write;
  copy_from = λ m pid p n. copy_from_user m (cr3 pid) p n;
  copy_to = λ m pid p bs. copy_to_user m (cr3 pid) p bs (length bs);
  length-copy_from = λ m pid p n xs h. length-copy_from_user m (cr3 pid) p n xs h;
}
