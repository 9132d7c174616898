-- ===== src/Tests/Family.antt =====
-- Witnesses for the process table.
use void.Base.{zero, suc, ◌^◌, ◌-◌, ◌<◌, ◌≡◌, refl, none, true, [], ◌∷◌, replicate, arith, ok}
use void.Base.Bytes.{test_bit, set_bit}
use void.Mm.Pmm.{alloc_frame, scan_bytes, scan_bits, bit_set, bit_test}
use void.Mm.Vmm.{Mem}
use void.Kernel.{Kernel}
use void.Sched.{Sched, no_thread, boot_thread}
use void.Proc.Table.{
  State, no_process, proc_at, process_init, process_alloc, process_alloc_at, address_space_create,
  share_kernel_half, find_process, process_destroy,
}
use void.Proc.Life.{end_process, try_reap, wait_current}
use void.Proc.Family.{kin_at, live, Family}
use void.Proc.Family.Calls.{CurrentLive}
use void.Proc.Family.Reach.{Reach, starts, waits, here, next, Reach-Family}
use void.Proc.Family.Reap.{try_reap-end_process}
use void.Tests.Mm.{demo_pmm}

abbrev no_memory : Kernel Mem
no_memory = record {
  current = none;
  tables = λ p. none;
  registry = [];
  services = [];
  memory = λ a. 0;
}

abbrev one_thread : Sched
one_thread = record {
  threads = boot_thread 4096 ∷ replicate 63 no_thread;
  next_tid = 1;
  current = 0;
  idle_thread = 0;
  scheduler_active = true;
  next_stack_vaddr = 0;
}

-- A table of four slots before process_init.
abbrev before_boot : State
before_boot = record {
  procs = replicate 4 no_process;
  next_pid = 0;
  kernel_pml4 = 4096;
  pmm = demo_pmm;
  files = λ a. none;
  kernel = no_memory;
  sched = one_thread;
}

-- The kernel's process has started a child.
abbrev with_child : State
with_child = (process_alloc (proc_at (process_init before_boot) 0).pid (process_init before_boot)).1

root_lives : live (kin_at (process_init before_boot) 0) ≡ true
unfolding process_init
root_lives = refl

few_pids : (process_init before_boot).next_pid < 2 ^ 31
unfolding process_init
few_pids = omega arith

child_started : Reach (process_init before_boot) with_child
child_started = next here (starts 0 (process_init before_boot) root_lives few_pids)

child_slot : live (kin_at with_child 1) ≡ true
unfolding process_init process_alloc process_alloc_at address_space_create share_kernel_half
    find_process alloc_frame scan_bytes scan_bits bit_set bit_test test_bit set_bit
child_slot = refl

current_lives : CurrentLive with_child
unfolding process_init process_alloc process_alloc_at address_space_create share_kernel_half
    find_process alloc_frame scan_bytes scan_bits bit_set bit_test test_bit set_bit
current_lives zero h = refl
current_lives (suc i) h = cc h

-- The kernel's process waits for any child: the child runs on.
Reach-Family_example : Family (wait_current 77 (2 ^ 32 - 1) 0 with_child).1
Reach-Family_example =
    Reach-Family before_boot (wait_current 77 (2 ^ 32 - 1) 0 with_child).1 (omega arith)
      (next child_started (waits 77 (2 ^ 32 - 1) 0 with_child current_lives))

with_child-Family : Family with_child
with_child-Family = Reach-Family before_boot with_child (omega arith) child_started

small : with_child.next_pid < 2 ^ 31
unfolding process_init process_alloc process_alloc_at address_space_create share_kernel_half
    find_process alloc_frame scan_bytes scan_bits bit_set bit_test test_bit set_bit
small = omega arith

try_reap-end_process_example :
    try_reap (proc_at with_child 1).ppid (proc_at with_child 1).pid (end_process 1 42 with_child)
    ≡ (ok (proc_at with_child 1).pid, 42, process_destroy 1 (end_process 1 42 with_child))
try_reap-end_process_example =
    try_reap-end_process 1 42 with_child with_child-Family child_slot (omega arith) small

child_pid : (proc_at with_child 1).pid ≡ 1
unfolding process_init process_alloc process_alloc_at address_space_create share_kernel_half
    find_process alloc_frame scan_bytes scan_bits bit_set bit_test test_bit set_bit
child_pid = refl
