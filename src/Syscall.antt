-- ===== src/Syscall.antt =====
-- User pointers, kernel/syscall/syscall.c: user_range_ok, copy_from_user and copy_to_user.
-- A process is its page table; a buffer of the kernel is the list of its bytes.
pub mod Bytes
pub mod Range
pub mod Copies
use void.Base.{
  ℕ, zero, suc, ◌+◌, ◌-◌, ◌*◌, ◌/◌, ◌%◌, ◌^◌, Bool, true, false, not, ◌&&◌, ◌||◌, Option, none,
  some, List, [], ◌∷◌, ◌++◌, ltb, leb, ◌==◌, if◌then◌else◌, min, take, drop,
}
use void.Mm.Vmm.{Mem, present, user, writable, get_pte, virt_to_phys}

-- Byte `k` of a word, lowest first.
abbrev pub byte_at : ℕ → ℕ → ℕ
byte_at zero w = w % 256
byte_at (suc k) w = byte_at k (w / 256)

abbrev pub put_at : ℕ → ℕ → ℕ → ℕ
put_at zero w b = w / 256 * 256 + b
put_at (suc k) w b = w % 256 + 256 * put_at k (w / 256) b

-- A byte of physical memory.
unfoldable pub byte : Mem → ℕ → ℕ
byte m a = byte_at (a % 8) (m (a / 8))

unfoldable pub put_byte : Mem → ℕ → ℕ → Mem
put_byte m a b x = if x == a / 8 then put_at (a % 8) (m (a / 8)) b else m x

abbrev pub user_limit : ℕ
user_limit = 0x800000000000

abbrev pub page_of : ℕ → ℕ
page_of a = a / 4096 * 4096

abbrev pub page_ok : Mem → ℕ → Bool → ℕ → Bool
page_ok m cr3 need_write v =
    let pte = get_pte m cr3 v in present pte && user pte && (not need_write || writable pte)

-- `n` pages from `v` on.
unfoldable pub pages_ok : Mem → ℕ → Bool → (n : ℕ) → ℕ → Bool
pages_ok m cr3 need_write zero v = true
pages_ok m cr3 need_write (suc n) v =
    page_ok m cr3 need_write v && pages_ok m cr3 need_write n (v + 4096)

abbrev pub range_in_half : ℕ → ℕ → Bool
range_in_half base len =
    not (len == 0)
    && ltb base user_limit
    && leb len user_limit
    && leb base ((base + len) % 2 ^ 64)
    && leb ((base + len) % 2 ^ 64) user_limit

unfoldable pub user_range_ok : Mem → ℕ → ℕ → ℕ → Bool → Bool
unfolding pages_ok
user_range_ok m cr3 base len need_write =
    range_in_half base len
    && (let first = page_of base in
        let last = page_of (base + len - 1) in
        pages_ok m cr3 need_write ((last - first) / 4096 + 1) first)

-- The bytes of a chunk, upwards.
unfoldable pub read_run : Mem → ℕ → (n : ℕ) → List ℕ
unfolding byte
read_run m phys zero = []
read_run m phys (suc n) = byte m phys ∷ read_run m (phys + 1) n

unfoldable pub write_run : ℕ → List ℕ → Mem → Mem
unfolding put_byte
write_run phys [] m = m
write_run phys (b ∷ bs) m = write_run (phys + 1) bs (put_byte m phys b)

-- What is left of the page, or of the buffer.
abbrev pub chunk_at : ℕ → ℕ → ℕ
chunk_at va left = let chunk = 4096 - (va - page_of va) in if ltb left chunk then left else chunk

-- `left` bytes are not yet copied, from `va` on.
unfoldable pub copy_from_loop : (fuel : ℕ) → Mem → ℕ → ℕ → ℕ → Option (List ℕ)
unfolding read_run
copy_from_loop zero m cr3 va left = none
copy_from_loop (suc fuel) m cr3 va left =
    let chunk = chunk_at va left in
    let phys = virt_to_phys m cr3 va in
    let rest =
      elim (copy_from_loop fuel m cr3 (va + chunk) (left - chunk)) as (λ o. Option (List ℕ)) [
        | none ↦ none
        | some bs ↦ some (read_run m phys chunk ++ bs)
      ] in
    if left == 0 then some [] else if phys == 0 then none else rest

unfoldable pub copy_from_user : Mem → ℕ → ℕ → ℕ → Option (List ℕ)
unfolding user_range_ok copy_from_loop
copy_from_user m cr3 usrc len =
    if user_range_ok m cr3 usrc len false then copy_from_loop (len + 1) m cr3 usrc len else none

unfoldable pub copy_to_loop : (fuel : ℕ) → ℕ → ℕ → List ℕ → ℕ → Mem → Option Mem
unfolding write_run
copy_to_loop zero cr3 va src left m = none
copy_to_loop (suc fuel) cr3 va src left m =
    let chunk = chunk_at va left in
    let phys = virt_to_phys m cr3 va in
    let rest =
      copy_to_loop fuel cr3 (va + chunk) (drop chunk src) (left - chunk)
        (write_run phys (take chunk src) m) in
    if left == 0 then some m else if phys == 0 then none else rest

-- The length of the source is `len`.
unfoldable pub copy_to_user : Mem → ℕ → ℕ → List ℕ → ℕ → Option Mem
unfolding user_range_ok copy_to_loop
copy_to_user m cr3 udst src len =
    if user_range_ok m cr3 udst len true then copy_to_loop (len + 1) cr3 udst src len m else none
