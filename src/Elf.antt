-- ===== src/Elf.antt =====
-- The ELF loader's inspection of an image, elf_validate and elf_load_end of kernel/elf/elf.c.
-- The image is the list of the bytes behind its pointer; a read behind them is a fault. The C
-- structures are read field by field where the source casts a pointer into the image.
pub mod Format
pub mod Reads
pub mod Align
pub mod Segments
pub mod Sound
pub mod Accepts
pub mod Embedded
pub mod Wraps
use void.Base.{
  ℕ, zero, suc, ◌+◌, ◌-◌, ◌*◌, ◌/◌, ◌%◌, ◌^◌, ◌≡◌, Bool, true, false, not, ◌&&◌, ◌||◌, Option, none,
  some, List, [], ◌∷◌, ◌++◌, ltb, leb, ◌==◌, if◌then◌else◌, length, get_elem?,
}
use Prim.Native.Nat.{bit_and}
use Format.{
  Ehdr, Image, Outcome, Phdr, Status, done, dyn_base, ehdr_size, executable, fault, fault_status,
  field_at, inval, max_loads, max_phnum, noexec, nomem, phdr_at, phdr_size, pt_dynamic, pt_interp,
  pt_load, read_ehdr, read_phdr, readable, refused, require, stack_size, stack_top, u64, user_max,
  user_min, writable, ◌>>=◌, ◌>>◌,
}

pub record Range : Type 0 where
  pub start : ℕ
  pub stop : ℕ

-- The local variables of elf_validate over its loop; `seen` holds the ranges in order.
pub record Scan : Type 0 where
  pub seen : List Range
  pub entry_ok : Bool
  pub interp_off : ℕ
  pub interp_len : ℕ

unfoldable pub overlaps : ℕ → ℕ → List Range → Bool
overlaps vaddr vend [] = false
overlaps vaddr vend (r ∷ rs) = ltb vaddr r.stop && ltb r.start vend || overlaps vaddr vend rs

unfoldable pub aligned : Phdr → Bool
aligned ph =
    leb ph.p_align 1
    || bit_and ph.p_align (ph.p_align - 1) == 0
      && bit_and ph.p_vaddr (ph.p_align - 1) == bit_and ph.p_offset (ph.p_align - 1)

abbrev pub contains : Phdr → ℕ → Bool
contains ph a = leb ph.p_vaddr a && ltb a (u64 (ph.p_vaddr + ph.p_memsz))

-- The checks of one PT_LOAD header.
unfoldable pub check_load : ℕ → ℕ → ℕ → Phdr → Scan → Outcome Scan
unfolding overlaps aligned
check_load size base entry ph st = do
  require (ltb (length st.seen) max_loads)
  require (leb ph.p_filesz ph.p_memsz)
  require (leb ph.p_offset size)
  require (leb ph.p_filesz (size - ph.p_offset))
  let vaddr = u64 (ph.p_vaddr + base)
  require (leb ph.p_vaddr vaddr)
  require (leb ph.p_vaddr (u64 (ph.p_vaddr + ph.p_memsz)))
  let vend = u64 (vaddr + ph.p_memsz)
  require (leb user_min vaddr)
  require (leb vend user_max)
  require (readable ph)
  require (not (writable ph && executable ph))
  require (aligned ph)
  require (not (ltb vaddr stack_top && ltb (stack_top - stack_size) vend))
  require (not (overlaps vaddr vend st.seen))
  done (record st {
    seen = st.seen ++ record { start = vaddr; stop = vend } ∷ [];
    entry_ok = st.entry_ok || executable ph && contains ph entry;
  })

unfoldable pub check_interp : ℕ → Phdr → Scan → Outcome Scan
check_interp size ph st = do
  require (not (ph.p_filesz == 0) && ltb ph.p_offset size)
  require (ltb ph.p_filesz 64)
  require (leb (u64 (ph.p_offset + ph.p_filesz)) size)
  done (record st { interp_off = ph.p_offset; interp_len = ph.p_filesz })

unfoldable pub check_phdr : ℕ → ℕ → ℕ → Phdr → Scan → Outcome Scan
check_phdr size base entry ph st =
    if ph.p_type == pt_interp
    then check_interp size ph st
    else if ph.p_type == pt_dynamic
    then done st
    else if not (ph.p_type == pt_load)
    then done st
    else if ph.p_memsz == 0
    then done st
    else check_load size base entry ph st

-- `n` headers from number `i` on.
unfoldable pub scan_phdrs : Image → ℕ → ℕ → Ehdr → (n : ℕ) → (i : ℕ) → Scan → Outcome Scan
scan_phdrs image size base eh zero i st = done st
scan_phdrs image size base eh (suc n) i st = phdr_at image eh i >>= λ ph.
    check_phdr size base eh.e_entry ph st >>= λ st'. scan_phdrs image size base eh n (i + 1) st'

unfoldable pub check_ident : Ehdr → Bool
check_ident eh =
    eh.mag0 == 0x7F
    && eh.mag1 == 69
    && eh.mag2 == 76
    && eh.mag3 == 70
    && eh.class == 2
    && eh.encoding == 1
    && eh.ident_version == 1

unfoldable pub check_header : ℕ → Ehdr → Bool
unfolding check_ident
check_header size eh =
    check_ident eh
    && (eh.e_type == 2 || eh.e_type == 3)
    && eh.e_machine == 62
    && eh.e_version == 1
    && eh.e_ehsize == ehdr_size
    && eh.e_phentsize == phdr_size
    && not (eh.e_phnum == 0)
    && leb eh.e_phnum max_phnum
    && leb eh.e_phoff size
    && leb (eh.e_phnum * phdr_size) (size - eh.e_phoff)

abbrev pub load_base : Ehdr → ℕ
load_base eh = if eh.e_type == 3 then dyn_base else 0

-- What elf_validate leaves in the context; `interp` is the path without its NUL, if there is one.
pub record Loader : Type 0 where
  pub image_size : ℕ
  pub ehdr : Ehdr
  pub entry : ℕ
  pub base : ℕ
  pub has_interp : Bool
  pub interp : List ℕ
  pub phdr : ℕ

unfoldable pub copy_bytes : Image → ℕ → (n : ℕ) → Outcome (List ℕ)
copy_bytes image off zero = done []
copy_bytes image off (suc n) = elim (get_elem? image off) [
  | none ↦ fault
  | some b ↦ copy_bytes image (off + 1) n >>= λ bs. done (b ∷ bs)
]

abbrev pub start_scan : Scan
start_scan = record { seen = []; entry_ok = false; interp_off = 0; interp_len = 0 }

unfoldable pub validate : Image → ℕ → Outcome Loader
validate image size = do
  require (leb ehdr_size size)
  eh ← read_ehdr image
  require (check_header size eh)
  st ← scan_phdrs image size (load_base eh) eh eh.e_phnum 0 start_scan
  require (not (length st.seen == 0))
  require st.entry_ok
  require (ltb st.interp_len 64)
  path ← copy_bytes image st.interp_off st.interp_len
  done (record {
    image_size = size;
    ehdr = eh;
    entry = eh.e_entry;
    base = load_base eh;
    has_interp = not (st.interp_len == 0);
    interp = path;
    phdr = u64 (eh.e_phoff + load_base eh);
  })

-- The highest end of a loaded segment among `n` headers from number `i` on.
unfoldable pub load_end_from : Image → Loader → (n : ℕ) → (i : ℕ) → ℕ → Outcome ℕ
unfolding read_phdr
load_end_from image ctx zero i end = done end
load_end_from image ctx (suc n) i end = phdr_at image ctx.ehdr i >>= λ ph.
    let e = u64 (u64 (ph.p_vaddr + ctx.base) + ph.p_memsz) in
    load_end_from image ctx n (i + 1)
      (if not (ph.p_type == pt_load) || ph.p_memsz == 0 then end else if ltb end e then e else end)

abbrev pub load_end : Image → Loader → Outcome ℕ
load_end image ctx = load_end_from image ctx ctx.ehdr.e_phnum 0 0
