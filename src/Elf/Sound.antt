-- ===== src/Elf/Sound.antt =====
-- What elf_validate of kernel/elf/elf.c establishes of an image that it accepts.
use void.Base.{
  ℕ, zero, suc, ◌+◌, ◌≤◌, ◌<◌, ◌^◌, ◌≡◌, ◌⊎◌, refl, Bool, true, false, not, ◌&&◌, ◌||◌, List, [],
  ◌∷◌, ◌++◌, length, Bool-cases, ◌==◌, arith, inl, inr, ap, ◌∙◌, sym, map, if◌then◌else◌, All, Some,
  append_assoc, append_nil, length-append,
}
use mathlib.Core.Path.{subst}
use void.Elf.{Range, Scan, check_interp, check_phdr, overlaps}
use void.Elf.Format.{done, Image, Ehdr, Phdr, phdr_at, pt_load, pt_interp, pt_dynamic}
use void.Elf.Reads.{Ends, returns, bind, mono, require-Ends, Sized}
use void.Elf.Segments.{SegmentOk, Enters, Added, seg_start, seg_stop, seg_range, check_load-Ends}

-- The `n` program headers of an image from number `i` on.
abbrev pub Headers : Image → Ehdr → (n : ℕ) → ℕ → List Phdr → Type 0
Headers image eh zero i [] = Unit
Headers image eh zero i (ph ∷ phs) = ⊥
Headers image eh (suc n) i [] = ⊥
Headers image eh (suc n) i (ph ∷ phs) =
    (phdr_at image eh i ≡ done ph) × Headers image eh n (i + 1) phs

abbrev pub is_load : Phdr → Bool
is_load ph = ph.p_type == pt_load && not (ph.p_memsz == 0)

abbrev pub loads : List Phdr → List Phdr
loads [] = []
loads (ph ∷ phs) = if is_load ph then ph ∷ loads phs else loads phs

-- The range of the segment meets none of the ranges.
abbrev pub Clear : ℕ → List Range → Phdr → Type 0
Clear base seen ph = overlaps (seg_start base ph) (seg_stop base ph) seen ≡ false

-- No two segments overlap.
abbrev pub Apart : ℕ → List Phdr → Type 0
Apart base [] = Unit
Apart base (ph ∷ phs) = All (Clear base (seg_range base ph ∷ [])) phs × Apart base phs

abbrev pub PathOk : ℕ → Scan → Type 0
PathOk size st = st.interp_off + st.interp_len ≤ size

-- The effect of the loop of elf_validate over headers with the segments `ls`.
pub record Scanned (size base entry : ℕ) (ls : List Phdr) (st st' : Scan) : Type 0 where
  pub segments : All (SegmentOk size base) ls
  pub clear : All (Clear base st.seen) ls
  pub apart : Apart base ls
  pub count : length st'.seen ≡ length st.seen + length ls
  pub enters : st'.entry_ok ≡ true → (st.entry_ok ≡ true) ⊎ Some (Enters entry) ls
  pub path : PathOk size st'
  pub grown : st'.seen ≡ st.seen ++ map (seg_range base) ls

overlaps-append :
    (a b : ℕ) (rs : List Range) (r : Range)
    → overlaps a b (rs ++ r ∷ []) ≡ (overlaps a b rs || overlaps a b (r ∷ []))
unfolding overlaps
overlaps-append a b [] r = refl
overlaps-append a b (q ∷ rs) r = ground (arith, overlaps-append a b rs r)

Clear-append :
    (base : ℕ) (seen : List Range) (r : Range) (phs : List Phdr)
    → All (Clear base (seen ++ r ∷ [])) phs
    → All (Clear base seen) phs × All (Clear base (r ∷ [])) phs
Clear-append base seen r [] h = (tt, tt)
Clear-append base seen r (ph ∷ phs) h =
    let (rest, last) = Clear-append base seen r phs h.1 in
    let both = overlaps-append (seg_start base ph) (seg_stop base ph) seen r in
    ((ground (arith, both, h.0), rest), (ground (arith, both, h.0), last))

check_interp-Ends :
    (size : ℕ) (ph : Phdr) (st : Scan)
    → size < 2 ^ 63
    → Ends
        (λ st'. (st'.seen ≡ st.seen) × (st'.entry_ok ≡ st.entry_ok) × PathOk size st')
        (check_interp size ph st)
unfolding check_interp
check_interp-Ends size ph st small = bind (require-Ends _) λ _ inside.
    bind (require-Ends _)
      λ _ short. bind (require-Ends _) λ _ fits. returns (refl, refl, ground arith)

pub none_loaded : (ph : Phdr) → is_load ph ≡ false → [] ≡ loads (ph ∷ [])
none_loaded ph h = rw (h, loads)

pub one_loaded : (ph : Phdr) → is_load ph ≡ true → ph ∷ [] ≡ loads (ph ∷ [])
one_loaded ph h = rw (h, loads)

module _ (size base entry : ℕ) (ph : Phdr) (st : Scan) (segs : List Phdr)
    (only : loads (ph ∷ []) ≡ segs) where
  skipped :
      (st' : Scan)
      → is_load ph ≡ false
      → st'.seen ≡ st.seen
      → st'.entry_ok ≡ st.entry_ok
      → PathOk size st'
      → Scanned size base entry segs st st'
  skipped st' none same ok path =
      subst (λ ls. Scanned size base entry ls st st') (none_loaded ph none ∙ only)
        (record {
          segments = tt;
          clear = tt;
          apart = tt;
          count = omega (arith, ap (λ (rs : List Range). length rs) same);
          enters = λ e. inl (cc (e, ok));
          path = path;
          grown = same ∙ sym (append_nil st.seen);
        })

  added :
      (st' : Scan)
      → is_load ph ≡ true
      → PathOk size st
      → Added size base entry ph st st'
      → Scanned size base entry segs st st'
  added st' load path a =
      subst (λ ls. Scanned size base entry ls st st') (one_loaded ph load ∙ only)
        (record {
          segments = (a.segment, tt);
          clear = (a.clear, tt);
          apart = (tt, tt);
          count = rw a.seen (length-append st.seen (seg_range base ph ∷ []));
          enters = λ e. elim (a.enters e) [ inl old ↦ inl old | inr new ↦ inr (inl new) ];
          path = omega (arith, a.same_path.0, a.same_path.1);
          grown = a.seen;
        })

  -- A header adds its segment, or leaves the segments alone.
  pub check_phdr-Ends :
      size < 2 ^ 63
      → base < 2 ^ 63
      → Sized ph
      → PathOk size st
      → Ends (Scanned size base entry segs st) (check_phdr size base entry ph st)
  unfolding check_phdr
  check_phdr-Ends small low sized path = elim (Bool-cases (ph.p_type == pt_interp)) [
    | inl interp ↦
        rw interp (
          mono (check_interp-Ends size ph st small) λ st' h. skipped st' (ground arith) h.0 h.1 h.2)
    | inr other ↦ rw other (elim (Bool-cases (ph.p_type == pt_dynamic)) [
      | inl dynamic ↦ rw dynamic (returns (skipped st (ground arith) refl refl path))
      | inr other ↦ rw other (elim (Bool-cases (ph.p_type == pt_load)) [
        | inr note ↦ rw note (returns (skipped st (ground arith) refl refl path))
        | inl load ↦ rw load (elim (Bool-cases (ph.p_memsz == 0)) [
          | inl empty ↦ rw empty (returns (skipped st (ground arith) refl refl path))
          | inr full ↦ rw full (
              mono (check_load-Ends size base entry ph st sized.vaddr_lt sized.memsz_lt low)
                λ st' a. added st' (ground arith) path a)
        ])
      ])
    ])
  ]

-- The loop over a header and then over the rest.
module _ (size base entry : ℕ) (ph : Phdr) (ls : List Phdr) (st st1 st' : Scan) where
  pub after_skip :
      Scanned size base entry [] st st1
      → Scanned size base entry ls st1 st'
      → Scanned size base entry ls st st'
  after_skip a b = record {
    segments = b.segments;
    clear = subst (λ rs. All (Clear base rs) ls) (a.grown ∙ append_nil st.seen) b.clear;
    apart = b.apart;
    count = omega (arith, a.count, b.count);
    enters = λ e. elim (b.enters e) [
      | inr new ↦ inr new
      | inl old ↦ elim (a.enters old) [ inl old ↦ inl old | inr h ↦ absurd h ]
    ];
    path = b.path;
    grown = b.grown ∙ ap (λ rs. rs ++ map (seg_range base) ls) (a.grown ∙ append_nil st.seen);
  }

  pub after_load :
      Scanned size base entry (ph ∷ []) st st1
      → Scanned size base entry ls st1 st'
      → Scanned size base entry (ph ∷ ls) st st'
  after_load a b =
      let (old, new) =
        Clear-append base st.seen (seg_range base ph) ls
          (subst (λ rs. All (Clear base rs) ls) a.grown b.clear) in
      record {
        segments = (a.segments.0, b.segments);
        clear = (a.clear.0, old);
        apart = (new, b.apart);
        count = omega (arith, a.count, b.count);
        enters = λ e. elim (b.enters e) [
          | inr later ↦ inr (inr later)
          | inl before ↦ elim (a.enters before) [
            | inl old ↦ inl old
            | inr here ↦ elim here [ inl h ↦ inr (inl h) | inr h ↦ absurd h ]
          ]
        ];
        path = b.path;
        grown =
            b.grown
            ∙ ap (λ rs. rs ++ map (seg_range base) ls) a.grown
            ∙ append_assoc st.seen (seg_range base ph ∷ []) (map (seg_range base) ls);
      }
