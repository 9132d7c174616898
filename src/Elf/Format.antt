-- ===== src/Elf/Format.antt =====
-- The format of an image, kernel/include/elf/elf.h, and how its headers are read, with the result of
-- a check that can fail or read outside of the image.
use void.Base.{
  ℕ, zero, suc, ◌+◌, ◌*◌, ◌/◌, ◌%◌, ◌^◌, Bool, true, false, none, some, List, ◌==◌, get_elem?,
}

pub data Status : Type 0 where
  nomem fault_status noexec inval : Status

pub data Outcome {ℓ} (A : Type ℓ) : Type ℓ where
  done : A → Outcome A
  refused : Status → Outcome A
  fault : Outcome A

infixl 5 ◌>>=◌ ◌>>◌
abbrev pub ◌>>=◌ {ℓ κ} : {A : Type ℓ} {B : Type κ} → Outcome A → (A → Outcome B) → Outcome B
done a >>= f = f a
refused s >>= f = refused s
fault >>= f = fault

abbrev pub ◌>>◌ {ℓ} : {B : Type ℓ} → Outcome (Unit {0}) → Outcome B → Outcome B
m >> k = m >>= λ _. k

-- `if (!test) return ELF_ERR_NOEXEC;`
unfoldable pub require : Bool → Outcome (Unit {0})
require true = done tt
require false = refused noexec

abbrev pub Image : Type 0
Image = List ℕ

abbrev pub u64 : ℕ → ℕ
u64 x = x % 2 ^ 64

-- A little-endian field of `n` bytes.
unfoldable pub field_at : Image → ℕ → (n : ℕ) → Outcome ℕ
field_at image off zero = done 0
field_at image off (suc n) = elim (get_elem? image off) [
  | none ↦ fault
  | some b ↦ field_at image (off + 1) n >>= λ v. done (b + 256 * v)
]

pub record Ehdr : Type 0 where
  pub mag0 : ℕ
  pub mag1 : ℕ
  pub mag2 : ℕ
  pub mag3 : ℕ
  pub class : ℕ
  pub encoding : ℕ
  pub ident_version : ℕ
  pub e_type : ℕ
  pub e_machine : ℕ
  pub e_version : ℕ
  pub e_entry : ℕ
  pub e_phoff : ℕ
  pub e_ehsize : ℕ
  pub e_phentsize : ℕ
  pub e_phnum : ℕ

pub record Phdr : Type 0 where
  pub p_type : ℕ
  pub p_flags : ℕ
  pub p_offset : ℕ
  pub p_vaddr : ℕ
  pub p_filesz : ℕ
  pub p_memsz : ℕ
  pub p_align : ℕ

abbrev pub ehdr_size : ℕ
ehdr_size = 64

abbrev pub phdr_size : ℕ
phdr_size = 56

unfoldable pub read_ehdr : Image → Outcome Ehdr
unfolding field_at
read_ehdr image = do
  m0 ← field_at image 0 1
  m1 ← field_at image 1 1
  m2 ← field_at image 2 1
  m3 ← field_at image 3 1
  c ← field_at image 4 1
  d ← field_at image 5 1
  v ← field_at image 6 1
  type ← field_at image 16 2
  machine ← field_at image 18 2
  version ← field_at image 20 4
  entry ← field_at image 24 8
  phoff ← field_at image 32 8
  ehsize ← field_at image 52 2
  phentsize ← field_at image 54 2
  phnum ← field_at image 56 2
  done (record {
    mag0 = m0;
    mag1 = m1;
    mag2 = m2;
    mag3 = m3;
    class = c;
    encoding = d;
    ident_version = v;
    e_type = type;
    e_machine = machine;
    e_version = version;
    e_entry = entry;
    e_phoff = phoff;
    e_ehsize = ehsize;
    e_phentsize = phentsize;
    e_phnum = phnum;
  })

-- The program header at an offset of the image.
unfoldable pub read_phdr : Image → ℕ → Outcome Phdr
unfolding field_at
read_phdr image at = do
  type ← field_at image at 4
  flags ← field_at image (at + 4) 4
  offset ← field_at image (at + 8) 8
  vaddr ← field_at image (at + 16) 8
  filesz ← field_at image (at + 32) 8
  memsz ← field_at image (at + 40) 8
  align ← field_at image (at + 48) 8
  done (record {
    p_type = type;
    p_flags = flags;
    p_offset = offset;
    p_vaddr = vaddr;
    p_filesz = filesz;
    p_memsz = memsz;
    p_align = align;
  })

abbrev pub phdr_at : Image → Ehdr → ℕ → Outcome Phdr
phdr_at image eh i = read_phdr image (eh.e_phoff + i * phdr_size)

abbrev pub pt_load : ℕ
pt_load = 1

abbrev pub pt_dynamic : ℕ
pt_dynamic = 2

abbrev pub pt_interp : ℕ
pt_interp = 3

abbrev pub max_loads : ℕ
max_loads = 16

abbrev pub max_phnum : ℕ
max_phnum = 64

abbrev pub user_min : ℕ
user_min = 0x10000

abbrev pub user_max : ℕ
user_max = 0x800000000000

abbrev pub dyn_base : ℕ
dyn_base = 0x40000000

abbrev pub stack_top : ℕ
stack_top = 0x700000000000

abbrev pub stack_size : ℕ
stack_size = 16 * 4096

abbrev pub executable : Phdr → Bool
executable ph = ph.p_flags % 2 == 1

abbrev pub writable : Phdr → Bool
writable ph = ph.p_flags / 2 % 2 == 1

abbrev pub readable : Phdr → Bool
readable ph = ph.p_flags / 4 % 2 == 1
