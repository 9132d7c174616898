-- ===== src/Proc/Table.antt =====
-- The process table, kernel/proc/process.c: process_init, process_alloc, process_destroy and the
-- lookups. A pointer to a process is its index in the table; a pid is a 32-bit word.
use void.Base.{
  ℕ, zero, suc, ◌+◌, ◌-◌, ◌/◌, ◌%◌, ◌^◌, Bool, true, false, not, ◌&&◌, Option, none, some, List, [],
  ◌∷◌, ltb, leb, ◌==◌, if◌then◌else◌, get_or, set, replicate, map,
}
use void.Mm.Pmm.{Pmm, alloc_frame, free_frame}
use void.Mm.Vmm.{Mem, Machine, entry, put_entry, present, phys_of}
use void.Vfs.Files.{Fd, Files, fd_none, fd_tty, closed_fd, close_fds}
use void.Kernel.{Kernel, update}
use void.Ipc.Calls.{destroy_process}
use void.Sched.{Sched, thread_at}
use void.Proc.{Space, World, release_pages}

-- MAX_PROCESSES
abbrev max_processes : ℕ
max_processes = 64

-- -1 as a pid_t_v.
abbrev pub no_pid : ℕ
no_pid = 2 ^ 32 - 1

pub data ProcState : Type 0 where
  proc_unused proc_embryo proc_ready proc_running proc_blocked proc_zombie : ProcState

-- process_t; its handle table is in the state of the IPC calls, under the pid.
pub record Process : Type 0 where
  pub pid : ℕ
  pub ppid : ℕ
  pub state : ProcState
  pub exit_status : ℕ
  pub exited : Bool
  pub thread : Option ℕ
  pub fds : List Fd
  pub cwd : List ℕ
  pub space : Space

-- The memory is the one of the IPC calls; `kernel.current` is the pid of the thread that runs.
pub record State : Type 0 where
  pub procs : List Process
  pub next_pid : ℕ
  pub kernel_pml4 : ℕ
  pub pmm : Pmm
  pub files : Files
  pub kernel : Kernel Mem
  pub sched : Sched

abbrev no_space : Space
no_space = record { cr3 = 0; umap = []; heap_start = 0; brk_current = 0; brk_perm = 0 }

abbrev pub no_process : Process
no_process = record {
  pid = no_pid;
  ppid = 0;
  state = proc_unused;
  exit_status = 0;
  exited = false;
  thread = none;
  fds = [];
  cwd = [];
  space = no_space;
}

abbrev pub proc_at : State → ℕ → Process
proc_at s i = get_or s.procs i no_process

abbrev pub machine_of : State → Machine
machine_of s = record { pmm = s.pmm; mem = s.kernel.memory }

abbrev pub set_machine : Machine → State → State
set_machine m s = record s { pmm = m.pmm; kernel = record (s.kernel) { memory = m.mem } }

abbrev pub in_use : ProcState → Bool
in_use proc_unused = false
in_use _ = true

abbrev pub dead : ProcState → Bool
dead proc_zombie = true
dead _ = false

abbrev pub blocking : ProcState → Bool
blocking proc_blocked = true
blocking _ = false

abbrev pub used : Process → Bool
used c = in_use c.state

abbrev pub is_zombie : Process → Bool
is_zombie c = dead c.state

abbrev pub is_blocked : Process → Bool
is_blocked c = blocking c.state

-- The place of the first process that passes the test.
unfoldable pub find_process : (Process → Bool) → List Process → Option ℕ
find_process f [] = none
find_process f (c ∷ cs) =
    let rest : Option ℕ = elim (find_process f cs) [ none ↦ none | some i ↦ some (suc i) ] in
    if f c then some 0 else rest

unfoldable pub process_get : State → ℕ → Option ℕ
unfolding find_process
process_get s pid = find_process (λ c. used c && c.pid == pid) s.procs

abbrev pub process_current : State → Option ℕ
process_current s = (thread_at s.sched.threads s.sched.current).proc

-- The lower half of the table is cleared, and the upper half is the kernel's.
unfoldable pub share_kernel_half : Mem → ℕ → ℕ → Mem
share_kernel_half m pml4 kpml4 a =
    if leb (pml4 / 8) a && ltb a (pml4 / 8 + 256)
    then 0
    else if leb (pml4 / 8 + 256) a && ltb a (pml4 / 8 + 512)
    then m (kpml4 / 8 + (a - pml4 / 8))
    else m a

-- 0 is the failure.
unfoldable pub address_space_create : ℕ → Machine → ℕ × Machine
unfolding share_kernel_half
address_space_create kpml4 s =
    let (frame, p) = alloc_frame s.pmm in
    if frame == 0
    then (0, record s { pmm = p })
    else (frame, record { pmm = p; mem = share_kernel_half s.mem frame kpml4 })

abbrev tty_fd : Fd
tty_fd = record { type = fd_tty; object = none; offset = 0 }

abbrev pub fresh_process : ℕ → ℕ → ℕ → Process
fresh_process pid parent cr3 = record {
  pid = pid;
  ppid = parent;
  state = proc_embryo;
  exit_status = 0;
  exited = false;
  thread = none;
  fds = tty_fd ∷ tty_fd ∷ tty_fd ∷ replicate 13 closed_fd;
  cwd = 47 ∷ [];
  space = record no_space { cr3 = cr3 };
}

-- A process in slot `i`, if there is memory for its page table.
unfoldable pub process_alloc_at : ℕ → ℕ → State → Option ℕ × State
unfolding address_space_create
process_alloc_at i parent s =
    let (cr3, m) = address_space_create s.kernel_pml4 (machine_of s) in
    let s' = set_machine m s in
    if cr3 == 0 then (none, s') else (
      some i,
      record s' {
        procs = set s.procs i (fresh_process s.next_pid parent cr3);
        next_pid = (s.next_pid + 1) % 2 ^ 32;
        kernel = record (s'.kernel) { tables = update s.kernel.tables s.next_pid none };
      },
    )

unfoldable pub process_alloc : ℕ → State → Option ℕ × State
unfolding find_process process_alloc_at
process_alloc parent s = elim (find_process (λ c. not (used c)) s.procs) [
  | none ↦ (none, s)
  | some i ↦ process_alloc_at i parent s
]

abbrev pub clear_slot : Process → Process
clear_slot c = record c { state = proc_unused; pid = no_pid }

abbrev clear_fd : Fd → Fd
clear_fd e = record e { type = fd_none }

-- Slot 0 becomes the kernel's own process, and every other slot is free.
unfoldable pub process_init : State → State
process_init s =
    let cleared = map clear_slot s.procs in
    let k = get_or cleared 0 no_process in
    let kernel_process = record k {
      pid = 0;
      ppid = no_pid;
      state = proc_running;
      exit_status = 0;
      exited = false;
      thread = some s.sched.current;
      fds = map clear_fd k.fds;
      cwd = 47 ∷ [];
      space = record (k.space) { cr3 = s.kernel_pml4; umap = [] };
    } in
    let t = record (thread_at s.sched.threads s.sched.current) { proc = some 0 } in
    record s {
      procs = set cleared 0 kernel_process;
      next_pid = 1;
      sched = record (s.sched) { threads = set s.sched.threads s.sched.current t };
    }

-- The loops of process_destroy_user_space over the entries of a table from number `i` on.
unfoldable pub free_tables : (n : ℕ) → ℕ → ℕ → Mem → Pmm → Pmm
free_tables zero i pd m p = p
free_tables (suc n) i pd m p =
    let e = entry m pd i in
    free_tables n (i + 1) pd m (if present e then free_frame p (phys_of e) else p)

unfoldable pub free_directories : (n : ℕ) → ℕ → ℕ → Mem → Pmm → Pmm
unfolding free_tables
free_directories zero i pdpt m p = p
free_directories (suc n) i pdpt m p =
    let e = entry m pdpt i in
    let freed = free_frame (free_tables 512 0 (phys_of e) m p) (phys_of e) in
    free_directories n (i + 1) pdpt m (if present e then freed else p)

unfoldable pub free_user_half : (n : ℕ) → ℕ → ℕ → Machine → Machine
unfolding free_directories
free_user_half zero i pml4 s = s
free_user_half (suc n) i pml4 s =
    let e = entry s.mem pml4 i in
    let freed : Machine = record {
      pmm = free_frame (free_directories 512 0 (phys_of e) s.mem s.pmm) (phys_of e);
      mem = put_entry s.mem pml4 i 0;
    } in
    free_user_half n (i + 1) pml4 (if present e then freed else s)

unfoldable pub destroy_user_space : World → World
unfolding free_user_half
destroy_user_space w =
    let released = release_pages w.space.umap w in
    let m = free_user_half 256 0 w.space.cr3 released.machine in
    record {
      machine = record m { pmm = free_frame m.pmm w.space.cr3 };
      space = record (w.space) { cr3 = 0; umap = [] };
    }

-- The memory, the open files, the endpoints and the names of a process go, and its slot is free.
unfoldable pub free_process : ℕ → State → State
unfolding destroy_user_space
free_process i s =
    let p = proc_at s i in
    let w = destroy_user_space (record { machine = machine_of s; space = p.space }) in
    let (fds, files) = close_fds p.fds s.files in
    let s' = set_machine w.machine s in
    record s' {
      procs =
          set s.procs i
            (record p { space = w.space; fds = fds; state = proc_unused; pid = no_pid });
      files = files;
      kernel = destroy_process p.pid s'.kernel;
    }

unfoldable pub process_destroy : ℕ → State → State
unfolding free_process
process_destroy i s = if used (proc_at s i) then free_process i s else s
