-- ===== src/Proc/Family/Reach.antt =====
-- The processes in every order of their calls: starts, exits and waits of kernel/proc/process.c.
use void.Base.{ℕ, ◌<◌, ◌≡◌, ◌^◌, true, length}
use void.Proc.Table.{State, proc_at, process_alloc, process_init}
use void.Proc.Life.{exit_current, wait_current}
use void.Proc.Family.{kin_at, live, Family}
use void.Proc.Family.Calls.{Alike-Family, CurrentLive, exit_current-Family, wait_current-Family}
use void.Proc.Family.Effects.{Alike}
use void.Proc.Family.Births.{process_alloc-Family, process_init-Family}

-- A process that has not ended starts another, before the pids reach 2 to the power of 31; the current
-- one, which has not ended either, exits or waits; or something else happens, which touches no pid, no
-- parent and no exit status and neither starts nor ends a process.
pub data Step : State → State → Type 0 where
  starts :
      (q : ℕ) (s : State)
      → live (kin_at s q) ≡ true
      → s.next_pid < 2 ^ 31
      → Step s (process_alloc (proc_at s q).pid s).1
  exits : (frame status : ℕ) (s : State) → CurrentLive s → Step s (exit_current frame status s).1
  waits :
      (frame pid ustatus : ℕ) (s : State)
      → CurrentLive s
      → Step s (wait_current frame pid ustatus s).1
  other : (s s' : State) → Alike s s' → Step s s'

pub data Reach (s : State) : State → Type 0 where
  here : Reach s s
  next : {t u : State} → Reach s t → Step t u → Reach s u

Step-Family : {s t : State} → Step s t → Family s → Family t
Step-Family (starts q s alive small) fam = process_alloc-Family q s fam alive small
Step-Family (exits frame status s current) fam = exit_current-Family frame status s fam current
Step-Family (waits frame pid ustatus s current) fam =
    wait_current-Family frame pid ustatus s fam current
Step-Family (other s t same) fam = Alike-Family s t same fam

run-Family : {s t : State} → Reach s t → Family s → Family t
run-Family here fam = fam
run-Family (next run step) fam = Step-Family step (run-Family run fam)

-- From boot on, in every order of these steps, slot 0 stays the kernel's living process, no two
-- processes have the same pid, and the parent of every other process, an ended one that waits to be
-- reaped included, is a living process with a smaller pid: whoever exits first, the chain of parents
-- leads to the kernel's process, and every dead process has a living one to reap it.
pub Reach-Family : (s t : State) → 0 < length s.procs → Reach (process_init s) t → Family t
Reach-Family s t some_slot run = run-Family run (process_init-Family s some_slot)
