-- ===== src/Elf/Accepts.antt =====
-- elf_validate of kernel/elf/elf.c: it never reads outside the image, and an image that it accepts
-- can be loaded.
use void.Base.{
  ℕ, zero, suc, ◌+◌, ◌*◌, ◌≤◌, ◌<◌, ◌^◌, ◌≡◌, ◌≢◌, refl, true, List, [], ◌∷◌, length, leb→le,
  Bool-cases, arith, inl, inr, append_nil, All, Some, sym,
}
use mathlib.Core.Path.{subst}
use void.Elf.{Scan, Loader, scan_phdrs, check_header, start_scan, load_base, validate}
use void.Elf.Format.{done, fault, Image, Ehdr, Phdr, read_ehdr}
use void.Elf.Reads.{
  Ends, returns, bind, mono, keep, safe, require-Ends, Bytes, read_phdr-Ends, read_ehdr-Ends,
  copy_bytes-Ends,
}
use void.Elf.Segments.{SegmentOk, Enters}
use void.Elf.Sound.{
  Headers, loads, is_load, Apart, Scanned, PathOk, one_loaded, none_loaded, after_skip, after_load,
  check_phdr-Ends,
}

-- The segments of an accepted image: `phs` are all its program headers, in order.
pub record Loadable (image : Image) (size : ℕ) (ctx : Loader) : Type 0 where
  pub phs : List Phdr
  pub headers : Headers image ctx.ehdr ctx.ehdr.e_phnum 0 phs
  pub header : (read_ehdr image ≡ done ctx.ehdr) × (check_header size ctx.ehdr ≡ true)
  pub placed : (ctx.base ≡ load_base ctx.ehdr) × (ctx.entry ≡ ctx.ehdr.e_entry)
  pub segments : All (SegmentOk size ctx.base) (loads phs)
  pub apart : Apart ctx.base (loads phs)
  pub some_segment : 0 < length (loads phs)
  pub enters : Some (Enters ctx.entry) (loads phs)
  pub path_fits : length ctx.interp < 64

module _ (image : Image) (bytes : Bytes image) (size : ℕ) (inside : size ≤ length image)
    (small : size < 2 ^ 63) where
  scan_step :
      (base entry : ℕ) (ph : Phdr) (phs : List Phdr) (st st1 st' : Scan)
      → Scanned size base entry (loads (ph ∷ [])) st st1
      → Scanned size base entry (loads phs) st1 st'
      → Scanned size base entry (loads (ph ∷ phs)) st st'
  scan_step base entry ph phs st st1 st' a b = elim (Bool-cases (is_load ph)) [
    | inl load ↦
        let a' = subst (λ ls. Scanned size base entry ls st st1) (sym (one_loaded ph load)) a in
        rw (load, loads) (after_load size base entry ph (loads phs) st st1 st' a' b)
    | inr none ↦
        let a' = subst (λ ls. Scanned size base entry ls st st1) (sym (none_loaded ph none)) a in
        rw (none, loads) (after_skip size base entry ph (loads phs) st st1 st' a' b)
  ]

  scan_phdrs-Ends :
      (base : ℕ) (eh : Ehdr) (n i : ℕ) (st : Scan)
      → base < 2 ^ 63
      → eh.e_phoff + (i + n) * 56 ≤ size
      → PathOk size st
      → Ends
          (λ st'.
            (phs : List Phdr) × Headers image eh n i phs
            × Scanned size base eh.e_entry (loads phs) st st')
          (scan_phdrs image size base eh n i st)
  unfolding scan_phdrs
  scan_phdrs-Ends base eh zero i st low table path = returns (
    [],
    tt,
    record {
      segments = tt;
      clear = tt;
      apart = tt;
      count = omega arith;
      enters = λ e. inl e;
      path = path;
      grown = sym (append_nil st.seen);
    },
  )
  scan_phdrs-Ends base eh (suc n) i st low table path =
      bind (keep (read_phdr-Ends image bytes (eh.e_phoff + i * 56) (omega arith))) λ ph read.
        bind
          (check_phdr-Ends size base eh.e_entry ph st (loads (ph ∷ [])) refl small low read.0 path)
          λ st1 a.
            mono (scan_phdrs-Ends base eh n (i + 1) st1 low (omega arith) a.path)
              λ st' r. (ph ∷ r.0, (read.1, r.1), scan_step base eh.e_entry ph r.0 st st1 st' a r.2)

  table_inside :
      (eh : Ehdr) → check_header size eh ≡ true → eh.e_phoff + (0 + eh.e_phnum) * 56 ≤ size
  unfolding check_header
  table_inside eh h = ground arith

  pub validate-Ends : Ends (Loadable image size) (validate image size)
  unfolding validate
  validate-Ends = bind (require-Ends _) λ _ big.
      bind (keep (read_ehdr-Ends image bytes (omega (arith, leb→le _ _ big)))) λ eh read.
        bind (require-Ends _) λ _ good.
          bind
            (scan_phdrs-Ends (load_base eh) eh eh.e_phnum 0 start_scan (ground arith)
              (table_inside eh good) (omega arith))
            λ st scan. bind (require-Ends _) λ _ some_seen. bind (require-Ends _) λ _ entry.
              bind (require-Ends _) λ _ short.
                bind
                  (copy_bytes-Ends image bytes st.interp_off st.interp_len
                    (omega (arith, scan.2.path)))
                  λ path len.
                    let segs = scan.2 in
                    returns (record {
                      phs = scan.0;
                      headers = scan.1;
                      header = (read.1, good);
                      placed = (refl, refl);
                      segments = segs.segments;
                      apart = segs.apart;
                      some_segment = ground (arith, segs.count);
                      enters = elim (segs.enters entry) [ inl h ↦ cc | inr h ↦ h ];
                      path_fits = ground (arith, len);
                    })

  -- On an image of bytes in memory, fewer than 2 to the power of 63, elf_validate reads no byte outside
  -- of it, whatever the bytes are.
  pub validate-ne-fault : validate image size ≢ fault
  validate-ne-fault = safe validate-Ends
