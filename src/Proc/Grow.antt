-- ===== src/Proc/Grow.antt =====
-- The growth of the break, um_brk_grow and um_brk_set of kernel/mm/user_mem.c.
use void.Base.{
  ℕ, zero, suc, ◌+◌, ◌≤◌, ◌<◌, ◌≡◌, ◌≢◌, refl, sym, ap, ◌∙◌, Bool, true, false, [], ◌∷◌, ◌++◌, ltb,
  leb, ◌==◌, if◌then◌else◌, arith, length, ok, err, Ret,
}
use Prim.Native.Nat.{bit_or}
use void.Mm.Pmm.{alloc_frame}
use void.Mm.Vmm.{VoidStatus, Machine, void_ok, err_nomem, err_inval, map_page, zero_frame}
use void.Proc.{World, record_page, give_back, map_user, alloc_user_page, user_limit, max_umap}
use void.Proc.Brk.{brk_grow, brk_set, brk_rounds, and_grow, grown}

past_full :
    (b : Bool) (w : World) (r : VoidStatus × World)
    → (if b then (err_nomem, w) else r).0 ≡ void_ok
    → ((if b then (err_nomem, w) else r) ≡ r) × (r.0 ≡ void_ok)
past_full true w r h = cc h
past_full false w r h = (refl, h)

record_page_records :
    (virt phys : ℕ) (r : VoidStatus × Machine) (w : World)
    → (record_page virt phys r w).0 ≡ void_ok
    → (record_page virt phys r w).1.space.umap
      ≡ w.space.umap ++ record { virt = virt; phys = phys } ∷ []
record_page_records virt phys (void_ok, m) w h = refl
record_page_records virt phys (err_nomem, m) w h = cc h
record_page_records virt phys (err_inval, m) w h = cc h

map_user_records :
    (virt phys flags : ℕ) (w : World)
    → (map_user virt phys flags w).0 ≡ void_ok
    → (map_user virt phys flags w).1.space.umap
      ≡ w.space.umap ++ record { virt = virt; phys = phys } ∷ []
unfolding map_user
map_user_records virt phys flags w h =
    let a = past_full (leb user_limit virt) w _ h in
    let b = past_full (leb max_umap (length w.space.umap)) w _ a.1 in
    ap (λ r. r.1.space.umap) (a.0 ∙ b.0)
    ∙ record_page_records virt phys (map_page w.space.cr3 virt phys (bit_or flags 5) w.machine) w
        b.1

given_back :
    (frame : ℕ) (r : VoidStatus × World)
    → (give_back frame r).0 ≡ void_ok
    → (give_back frame r ≡ r) × (r.0 ≡ void_ok)
given_back frame (void_ok, w) h = (refl, refl)
given_back frame (err_nomem, w) h = cc h
given_back frame (err_inval, w) h = cc h

alloc_user_page_records :
    (va flags : ℕ) (w : World)
    → (alloc_user_page va flags w).0 ≡ void_ok
    → (alloc_user_page va flags w).1.space.umap
      ≡ w.space.umap ++ record { virt = va; phys = (alloc_frame w.machine.pmm).0 } ∷ []
unfolding alloc_user_page
alloc_user_page_records va flags w h =
    let (frame, p) = alloc_frame w.machine.pmm in
    let zeroed : World = record w {
      machine = record { pmm = p; mem = zero_frame w.machine.mem frame };
    } in
    let a = past_full (frame == 0) (record w { machine = record (w.machine) { pmm = p } }) _ h in
    let b = given_back frame (map_user va frame flags zeroed) a.1 in
    ap (λ r. r.1.space.umap) (a.0 ∙ b.0) ∙ map_user_records va frame flags zeroed b.1

and_grow_ok :
    (r : VoidStatus × World) (f : World → Ret ℕ × World) (n : ℕ)
    → (and_grow r f).0 ≡ ok n
    → (r.0 ≡ void_ok) × (and_grow r f ≡ f r.1)
and_grow_ok (void_ok, w) f n h = (refl, refl)
and_grow_ok (err_nomem, w) f n h = cc h
and_grow_ok (err_inval, w) f n h = cc h

-- One page is enough, and the next round ends the loop.
brk_grow_records :
    (fuel va new_brk n : ℕ) (w : World)
    → 2 ≤ fuel
    → va < new_brk
    → new_brk ≤ va + 4096
    → (brk_grow fuel va new_brk w).0 ≡ ok n
    → (brk_grow fuel va new_brk w).1.space.umap
      ≡ w.space.umap ++ record { virt = va; phys = (alloc_frame w.machine.pmm).0 } ∷ []
unfolding brk_grow
brk_grow_records zero va new_brk n w enough below near h = absurd (omega arith)
brk_grow_records (suc zero) va new_brk n w enough below near h = absurd (omega arith)
brk_grow_records (suc (suc fuel)) va new_brk n w enough below near h =
    let more : ltb va new_brk ≡ true = ground arith in
    let ends : ltb (va + 4096) new_brk ≡ false = ground arith in
    let r = alloc_user_page va w.space.brk_perm w in
    let next : World → Ret ℕ × World = λ w'. brk_grow (suc fuel) (va + 4096) new_brk w' in
    let whole : brk_grow (suc (suc fuel)) va new_brk w ≡ and_grow r next =
      ap (λ b. if b then and_grow r next else (ok 0, w)) more in
    let (done, same) = and_grow_ok r next n (sym (ap (λ r. r.0) whole) ∙ h) in
    let stops : next r.1 ≡ (ok 0, r.1) =
      ap
        (λ b.
          if b
          then and_grow (alloc_user_page (va + 4096) r.1.space.brk_perm r.1)
              (λ w'. brk_grow fuel (va + 4096 + 4096) new_brk w')
          else (ok 0, r.1))
        ends in
    ap (λ r. r.1.space.umap) (whole ∙ same ∙ stops)
    ∙ alloc_user_page_records va w.space.brk_perm w done

grown_ok :
    (new_brk : ℕ) (r : Ret ℕ × World)
    → (grown new_brk r).0 ≡ ok 0
    → ((n : ℕ) × (r.0 ≡ ok n)) × ((grown new_brk r).1.space.umap ≡ r.1.space.umap)
grown_ok new_brk (ok n, w) h = ((n, refl), refl)
grown_ok new_brk (err e, w) h = cc h

-- A growth of the break by at most a page, wherever in a page the break is, allocates a page at the
-- break: a process whose break lies inside a page that it owns then owns two frames for that page.
pub brk_set_records :
    (new_brk : ℕ) (w : World)
    → w.space.heap_start ≢ 0
    → w.space.heap_start ≤ w.space.brk_current
    → w.space.brk_current < new_brk
    → new_brk ≤ w.space.brk_current + 4096
    → (brk_set new_brk w).0 ≡ ok 0
    → (brk_set new_brk w).1.space.umap
      ≡ w.space.umap
        ++ record { virt = w.space.brk_current; phys = (alloc_frame w.machine.pmm).0 } ∷ []
unfolding brk_set
brk_set_records new_brk w has_heap above grows near h =
    let old = w.space.brk_current in
    let r = brk_grow (brk_rounds old new_brk) old new_brk w in
    let at_heap : (w.space.heap_start == 0) ≡ false = ground arith in
    let at_start : ltb new_brk w.space.heap_start ≡ false = ground arith in
    let at_old : ltb old new_brk ≡ true = ground arith in
    let whole : brk_set new_brk w ≡ grown new_brk r = rw (at_heap, at_start, at_old) refl in
    let ((n, done), same) = grown_ok new_brk r (sym (ap (λ r. r.0) whole) ∙ h) in
    ap (λ r. r.1.space.umap) whole
    ∙ same
    ∙ brk_grow_records (brk_rounds old new_brk) old new_brk n w (omega arith) grows near done
