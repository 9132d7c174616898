-- ===== src/Proc/Family/Reap.antt =====
-- A parent learns how its child ended: process_exit_current and process_try_reap of
-- kernel/proc/process.c.
use void.Base.{
  ℕ, zero, suc, ◌+◌, ◌<◌, ◌≡◌, ◌≢◌, ◌^◌, refl, sym, ap, ◌∙◌, Bool, true, false, ◌&&◌, ◌||◌, ◌==◌,
  Bool-cases, inl, inr, arith, List, [], ◌∷◌, length, get_or, ok,
}
use void.Proc.Table.{Process, State, no_process, no_pid, proc_at, used, is_zombie, process_destroy}
use void.Proc.Life.{end_process, is_child, reap_from, try_reap}
use void.Proc.Family.{kin_at, live, Family}
use void.Proc.Family.Slots.{in_table}
use void.Proc.Family.Calls.{end_process-Family}
use void.Proc.Family.Effects.{end_process_kin}

abbrev ready_to_reap : ℕ → ℕ → Process → Bool
ready_to_reap parent pid c = is_child parent pid c && is_zombie c

-- The scan stops at the first child that is dead.
reap_first :
    (parent pid : ℕ) (cs : List Process) (i k : ℕ) (any_child : Bool) (s : State)
    → k < length cs
    → ready_to_reap parent pid (get_or cs k no_process) ≡ true
    → ((j : ℕ) → j < k → ready_to_reap parent pid (get_or cs j no_process) ≡ false)
    → reap_from parent pid cs i any_child s ≡ (
      ok (get_or cs k no_process).pid,
      (get_or cs k no_process).exit_status,
      process_destroy (k + i) s,
    )
unfolding reap_from
reap_first parent pid [] i k any_child s inside h before = absurd (omega (arith, inside))
reap_first parent pid (c ∷ cs) i zero any_child s inside h before =
    rw h (ap (λ n. (ok c.pid, c.exit_status, process_destroy n s)) (omega arith))
reap_first parent pid (c ∷ cs) i (suc k) any_child s inside h before =
    let at : k + (i + 1) ≡ suc k + i = omega arith in
    let r =
      reap_first parent pid cs (i + 1) k (any_child || is_child parent pid c) s (omega arith) h
        (λ j below. before (suc j) (omega arith)) in
    let skipped = before 0 (omega arith) in
    rw skipped (
      r
      ∙ ap
          (λ n. (
            ok (get_or cs k no_process).pid,
            (get_or cs k no_process).exit_status,
            process_destroy n s,
          ))
          at)

-- The slot of a process that has ended.
after_end :
    (i status : ℕ) (s : State)
    → used (proc_at s i) ≡ true
    → ((proc_at (end_process i status s) i).pid ≡ (proc_at s i).pid)
      × ((proc_at (end_process i status s) i).ppid ≡ (proc_at s i).ppid)
      × (used (proc_at (end_process i status s) i) ≡ true)
      × (is_zombie (proc_at (end_process i status s) i) ≡ true)
      × ((proc_at (end_process i status s) i).exit_status ≡ status)
after_end i status s here =
    let self : (i == i) ≡ true = ground arith in
    let kin : kin_at (end_process i status s) i
        ≡ record (kin_at s i) { dead = true; status = status } =
      end_process_kin i status s i here ∙ rw self refl in
    (
      ap (λ c. c.pid) kin,
      ap (λ c. c.ppid) kin,
      ap (λ c. c.here) kin ∙ here,
      ap (λ c. c.dead) kin,
      ap (λ c. c.status) kin,
    )

-- A process that exits with a status stays until its parent asks for it by its pid: the parent then
-- gets the pid and the status, and this process, and no other, is destroyed.
pub try_reap-end_process :
    (i status : ℕ) (s : State)
    → Family s
    → live (kin_at s i) ≡ true
    → i ≢ 0
    → s.next_pid < 2 ^ 31
    → try_reap (proc_at s i).ppid (proc_at s i).pid (end_process i status s)
      ≡ (ok (proc_at s i).pid, status, process_destroy i (end_process i status s))
unfolding try_reap
try_reap-end_process i status s fam alive other small =
    let p = proc_at s i in
    let s' : State = end_process i status s in
    let (pid, ppid, uses, dies, left) = after_end i status s (ground (arith, alive)) in
    let fam' = end_process-Family i status s fam alive other in
    let young = fam.young i (ground (arith, alive)) in
    let named : (p.pid == no_pid) ≡ false = ground (arith, young, small) in
    let found =
      reap_first p.ppid p.pid s'.procs 0 i false s' (in_table s'.procs i uses)
        (rw (uses, dies, ppid, pid) (ground arith))
        (λ j below. elim (Bool-cases (ready_to_reap p.ppid p.pid (proc_at s' j))) [
          | inr h ↦ h
          | inl h ↦
              let uses_j : used (proc_at s' j) ≡ true = ground (arith, h) in
              let same : (proc_at s' j).pid ≡ p.pid = ground (arith, h, named) in
              let e = fam'.unique j i uses_j uses (same ∙ sym pid) in
              absurd (omega (arith, below, e))
        ]) in
    let at : i + 0 ≡ i = omega arith in found ∙ rw (pid, left, at) refl
