-- ===== src/Tests/Elf.antt =====
-- Witnesses and runs for the inspection of ELF images.
use void.Base.{◌≡◌, ◌≢◌, refl, true, false, [], ◌∷◌, arith, ◌+◌}
use void.Elf.{
  aligned, Loader, Scan, validate, check_header, check_phdr, check_load, check_interp, scan_phdrs,
  copy_bytes, start_scan, load_end, load_end_from,
}
use void.Elf.Format.{
  Image, Phdr, done, refused, noexec, fault, require, read_ehdr, read_phdr, dyn_base,
}
use void.Elf.Accepts.{validate-ne-fault}
use void.Elf.Wraps.{check_load_kernel_half}
use void.Elf.Embedded.{find_embedded, blobs, blobs_from, same_blob}

-- An executable with one segment of a page at 0x400000.
abbrev page_image : Image
page_image =
    127 ∷ 69 ∷ 76 ∷ 70 ∷ 2 ∷ 1 ∷ 1 ∷ 0 ∷ 0 ∷ 0 ∷ 0 ∷ 0 ∷ 0 ∷ 0 ∷ 0 ∷ 0 ∷ 2 ∷ 0 ∷ 62 ∷ 0 ∷ 1 ∷ 0 ∷ 0
    ∷ 0 ∷ 0 ∷ 0 ∷ 64 ∷ 0 ∷ 0 ∷ 0 ∷ 0 ∷ 0 ∷ 64 ∷ 0 ∷ 0 ∷ 0 ∷ 0 ∷ 0 ∷ 0 ∷ 0 ∷ 0 ∷ 0 ∷ 0 ∷ 0 ∷ 0 ∷ 0
    ∷ 0 ∷ 0 ∷ 0 ∷ 0 ∷ 0 ∷ 0 ∷ 64 ∷ 0 ∷ 56 ∷ 0 ∷ 1 ∷ 0 ∷ 0 ∷ 0 ∷ 0 ∷ 0 ∷ 0 ∷ 0 ∷ 1 ∷ 0 ∷ 0 ∷ 0 ∷ 5
    ∷ 0 ∷ 0 ∷ 0 ∷ 0 ∷ 0 ∷ 0 ∷ 0 ∷ 0 ∷ 0 ∷ 0 ∷ 0 ∷ 0 ∷ 0 ∷ 64 ∷ 0 ∷ 0 ∷ 0 ∷ 0 ∷ 0 ∷ 0 ∷ 0 ∷ 0 ∷ 0 ∷ 0
    ∷ 0 ∷ 0 ∷ 0 ∷ 0 ∷ 0 ∷ 0 ∷ 0 ∷ 0 ∷ 0 ∷ 0 ∷ 0 ∷ 0 ∷ 16 ∷ 0 ∷ 0 ∷ 0 ∷ 0 ∷ 0 ∷ 0 ∷ 0 ∷ 16 ∷ 0 ∷ 0
    ∷ 0 ∷ 0 ∷ 0 ∷ 0 ∷ []

abbrev page_loader : Loader
page_loader = record {
  image_size = 120;
  ehdr = record {
    mag0 = 127;
    mag1 = 69;
    mag2 = 76;
    mag3 = 70;
    class = 2;
    encoding = 1;
    ident_version = 1;
    e_type = 2;
    e_machine = 62;
    e_version = 1;
    e_entry = 0x400000;
    e_phoff = 64;
    e_ehsize = 64;
    e_phentsize = 56;
    e_phnum = 1;
  };
  entry = 0x400000;
  base = 0;
  has_interp = false;
  interp = [];
  phdr = 64;
}

ends_behind_page : load_end page_image page_loader ≡ done 0x401000
unfolding load_end_from read_phdr
ends_behind_page = refl

cut_short : validate page_image 119 ≡ refused noexec
unfolding validate require read_ehdr read_phdr check_header check_phdr check_load check_interp
    scan_phdrs copy_bytes
cut_short = refl

validate-ne-fault_example : validate page_image 119 ≢ fault
validate-ne-fault_example =
    validate-ne-fault page_image (omega arith) 119 (omega arith) (omega arith)

-- A segment that starts at the kernel's base.
abbrev kernel_segment : Phdr
kernel_segment = record {
  p_type = 1;
  p_flags = 4;
  p_offset = 0;
  p_vaddr = 0xFFFFFFFF40000000;
  p_filesz = 0;
  p_memsz = 0x80000000;
  p_align = 0;
}

aligned_segment : aligned kernel_segment ≡ true
unfolding aligned
aligned_segment = refl

check_load_kernel_half_example :
    (st' : Scan) × (check_load 120 dyn_base 0 kernel_segment start_scan ≡ done st')
check_load_kernel_half_example =
    check_load_kernel_half 120 0 kernel_segment start_scan (omega arith) tt (omega arith)
      (omega arith) refl refl aligned_segment (omega arith) (omega arith) (omega arith)
      (omega arith)

finds_init :
    find_embedded (blobs (λ i. i) (λ i. i + 1)) (105 ∷ 110 ∷ [])
    ≡ done (record { name = 105 ∷ 110 ∷ 105 ∷ 116 ∷ []; base = 0; size = 1 })
unfolding find_embedded blobs_from same_blob
finds_init = refl
