-- ===== src/Proc/Family/Births.antt =====
-- process_init and process_alloc of kernel/proc/process.c set up a family and keep it.
use void.Base.{
  ℕ, zero, suc, ◌+◌, ◌<◌, ◌≡◌, ◌^◌, ◌%◌, refl, sym, ap, ◌∙◌, true, false, not, ◌==◌, Bool-cases,
  inl, inr, arith, Option, none, some, List, [], ◌∷◌, length, length-map, get_or, map,
}
use void.Proc.Table.{
  Process, State, no_process, no_pid, proc_at, used, find_process, process_alloc, process_alloc_at,
  process_init, address_space_create, clear_slot, machine_of, fresh_process,
}
use void.Proc.Family.{Kin, kin_of, kin_at, live, Family, joined}
use void.Proc.Family.Slots.{kin_at-set, find_process-some}
use void.Proc.Family.Changes.{joined-FamilyOk, same-FamilyOk}

process_alloc_at-Family :
    (i q : ℕ) (s : State)
    → Family s
    → used (proc_at s i) ≡ false
    → i < length s.procs
    → live (kin_at s q) ≡ true
    → s.next_pid < 2 ^ 31
    → Family (process_alloc_at i (proc_at s q).pid s).1
unfolding process_alloc_at
process_alloc_at-Family i q s fam free inside alive small =
    let (cr3, m) = address_space_create s.kernel_pml4 (machine_of s) in
    let fresh : Process = fresh_process s.next_pid (proc_at s q).pid cr3 in
    let no_wrap : (s.next_pid + 1) % 2 ^ 32 ≡ s.next_pid + 1 = omega arith in
    elim (Bool-cases (cr3 == 0)) [
      | inl h ↦ rw h fam
      | inr h ↦
          rw (h, no_wrap)
            (same-FamilyOk (joined (kin_at s) i (kin_of fresh)) _ (s.next_pid + 1)
              (λ k. kin_at-set s i fresh k inside)
              (joined-FamilyOk (kin_at s) s.next_pid fam i q (kin_of fresh) free alive refl refl
                refl))
    ]

pub process_alloc-Family :
    (q : ℕ) (s : State)
    → Family s
    → live (kin_at s q) ≡ true
    → s.next_pid < 2 ^ 31
    → Family (process_alloc (proc_at s q).pid s).1
unfolding process_alloc
process_alloc-Family q s fam alive small = by_search (find_process (λ c. not (used c)) s.procs) refl
  where
    by_search :
        (o : Option ℕ)
        → find_process (λ c. not (used c)) s.procs ≡ o
        → Family
            (elim o as (λ o. Option ℕ × State) [
              | none ↦ (none, s)
              | some i ↦ process_alloc_at i (proc_at s q).pid s
            ]).1
    by_search none e = fam
    by_search (some i) e =
        let (free, inside) = find_process-some (λ c. not (used c)) s.procs i e in
        process_alloc_at-Family i q s fam (ground (arith, free)) inside alive small

cleared_get : (cs : List Process) (k : ℕ) → used (get_or (map clear_slot cs) k no_process) ≡ false
cleared_get [] k = refl
cleared_get (c ∷ cs) zero = refl
cleared_get (c ∷ cs) (suc k) = cleared_get cs k

abbrev kernel_kin : Kin
kernel_kin = record { pid = 0; ppid = no_pid; here = true; dead = false; status = 0 }

-- The slots after process_init.
process_init_kin :
    (s : State) (k : ℕ)
    → 0 < length s.procs
    → kin_at (process_init s) k
      ≡ joined (λ k. kin_of (get_or (map clear_slot s.procs) k no_process)) 0 kernel_kin k
unfolding process_init
process_init_kin s k h =
    kin_at-set (record s { procs = map clear_slot s.procs }) 0 _ k
      (let l = length-map s.procs clear_slot in omega (arith, l, h))

-- The kernel's process is the only one.
only_kernel :
    (s : State) (k : ℕ) → 0 < length s.procs → (kin_at (process_init s) k).here ≡ true → k ≡ 0
only_kernel s zero h here = refl
only_kernel s (suc k) h here =
    let e : (kin_at (process_init s) (suc k)).here
        ≡ used (get_or (map clear_slot s.procs) (suc k) no_process) =
      ap (λ c. c.here) (process_init_kin s (suc k) h)
      ∙ (let ne : (suc k == 0) ≡ false = ground arith in rw ne refl) in
    cc (here, e, cleared_get s.procs (suc k))

process_init_next : (s : State) → (process_init s).next_pid ≡ 1
unfolding process_init
process_init_next s = refl

pub process_init-Family : (s : State) → 0 < length s.procs → Family (process_init s)
process_init-Family s h =
    let at : kin_at (process_init s) 0 ≡ kernel_kin = process_init_kin s 0 h in
    record {
      root = (ap (λ c. c.pid) at, ap live at);
      unique = λ i j hi hj e. only_kernel s i h hi ∙ sym (only_kernel s j h hj);
      young = λ i hi.
          let z = ap (λ k. (kin_at (process_init s) k).pid) (only_kernel s i h hi) in
          omega (arith, process_init_next s, z, ap (λ c. c.pid) at);
      parented = λ i hi other. absurd (other (only_kernel s i h hi));
    }
