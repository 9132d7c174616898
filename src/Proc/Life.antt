-- ===== src/Proc/Life.antt =====
-- The end of a process, kernel/proc/process.c: process_exit_current, process_try_reap and
-- process_wait_current.
use void.Base.{
  ℕ, zero, suc, ◌+◌, ◌-◌, ◌^◌, Bool, true, false, ◌&&◌, ◌||◌, Option, none, some, List, [], ◌∷◌,
  ltb, ◌==◌, if◌then◌else◌, get_or, set, Ret, ok, err, child, perm,
}
use void.Mm.Vmm.{Mem, get_pte, present, user, writable, virt_to_phys}
use void.Vfs.Files.{close_fds}
use void.Ipc.Calls.{exit_process, u32_bytes}
use void.Sched.{Sched, ThreadState, thread_at, sched_tick}
use void.Syscall.{write_run}
use void.Proc.{release_pages}
use void.Proc.Table.{
  Process, State, no_pid, no_process, proc_zombie, proc_blocked, proc_ready, proc_running, proc_at,
  machine_of, set_machine, used, is_zombie, is_blocked, process_get, process_current,
  process_destroy,
}

-- What a call leaves: the word in the caller's RAX, unless the call does not write it, the frame to
-- restore, and the page table to load, if it is another one.
pub record Answer : Type 0 where
  rax : Option (Ret ℕ)
  pub frame : ℕ
  pub cr3 : Option ℕ

abbrev pub answer : ℕ → Ret ℕ → Answer
answer frame r = record { rax = some r; frame = frame; cr3 = none }

abbrev pub set_thread_state : ThreadState → ℕ → Sched → Sched
set_thread_state state t s = record s {
  threads = set s.threads t (record (thread_at s.threads t) { state = state });
}

abbrev pub set_process : ℕ → Process → State → State
set_process i p s = record s { procs = set s.procs i p }

-- The scheduler's step; the process that then runs is the current one.
unfoldable pub switch_away : ℕ → State → ℕ × Option ℕ × State
switch_away frame s =
    let (restored, cr3, sched) = sched_tick s.sched frame in
    let s' = record s { sched = sched } in
    let pid : Option ℕ = elim (process_current s') [
      | none ↦ none
      | some i ↦ some (proc_at s' i).pid
    ] in
    (restored, cr3, record s' { kernel = record (s'.kernel) { current = pid } })

-- Every child of `pid` becomes one of `ppid`.
unfoldable pub reparent : ℕ → ℕ → List Process → List Process
reparent pid ppid [] = []
reparent pid ppid (c ∷ cs) =
    (if used c && c.ppid == pid then record c { ppid = ppid } else c) ∷ reparent pid ppid cs

abbrev ready_thread : Option ℕ → Sched → Sched
ready_thread none s = s
ready_thread (some t) s = set_thread_state ThreadState.ready t s

-- A parent that is blocked can run again.
unfoldable pub wake_process : ℕ → State → State
wake_process j s =
    let q = proc_at s j in
    if is_blocked q
    then record s {
      procs = set s.procs j (record q { state = proc_ready });
      sched = ready_thread q.thread s.sched;
    }
    else s

unfoldable pub wake : ℕ → State → State
unfolding wake_process
wake ppid s = elim (process_get s ppid) [ none ↦ s | some j ↦ wake_process j s ]

-- The process leaves its memory, its open files and its endpoints; its slot stays.
unfoldable pub end_process : ℕ → ℕ → State → State
unfolding reparent wake
end_process i status s =
    let p = proc_at s i in
    let ended = record p { exit_status = status; exited = true; state = proc_zombie } in
    let procs = reparent p.pid p.ppid (set s.procs i ended) in
    let w = release_pages p.space.umap (record { machine = machine_of s; space = p.space }) in
    let (fds, files) = close_fds p.fds s.files in
    let left = record (get_or procs i no_process) {
      space = record (p.space) { umap = [] };
      fds = fds;
    } in
    let s' = set_machine w.machine s in
    wake left.ppid
      (record s' { procs = set procs i left; files = files; kernel = exit_process p.pid s'.kernel })

unfoldable pub exit_process_at : ℕ → ℕ → ℕ → State → Answer × State
unfolding end_process switch_away
exit_process_at frame i status s =
    let t = s.sched.current in
    let s1 = end_process i status s in
    let (restored, cr3, s2) =
      switch_away frame (record s1 { sched = set_thread_state ThreadState.exited t s1.sched }) in
    (record { rax = none; frame = restored; cr3 = cr3 }, s2)

-- The kernel's own process does not exit.
unfoldable pub exit_current : ℕ → ℕ → State → Answer × State
unfolding exit_process_at
exit_current frame status s = elim (process_current s) [
  | none ↦ (answer frame (err perm), s)
  | some i ↦
      if (proc_at s i).pid == 0
      then (answer frame (err perm), s)
      else exit_process_at frame i status s
]

-- A child of `parent`, the one that is asked for or, if `pid` is -1, any.
abbrev pub is_child : ℕ → ℕ → Process → Bool
is_child parent pid c = used c && c.ppid == parent && (pid == no_pid || c.pid == pid)

-- The slots from number `i` on; the first of them that holds a dead child is freed.
unfoldable pub reap_from :
    ℕ → ℕ → List Process → (i : ℕ) → (any_child : Bool) → State → Ret ℕ × ℕ × State
reap_from parent pid [] i any_child s = ((if any_child then ok 0 else err child), 0, s)
reap_from parent pid (c ∷ cs) i any_child s =
    let rest = reap_from parent pid cs (i + 1) (any_child || is_child parent pid c) s in
    if is_child parent pid c && is_zombie c
    then (ok c.pid, c.exit_status, process_destroy i s)
    else rest

-- The pid, 0 if no such child is dead; and the status.
unfoldable pub try_reap : ℕ → ℕ → State → Ret ℕ × ℕ × State
unfolding reap_from
try_reap parent pid s = reap_from parent pid s.procs 0 false s

-- The status, four bytes, if the page of the pointer is writable by the process.
unfoldable pub write_status : ℕ → ℕ → ℕ → Mem → Mem
write_status cr3 ustatus st m =
    let pte = get_pte m cr3 ustatus in
    let phys = virt_to_phys m cr3 ustatus in
    if ustatus == 0
    then m
    else if present pte && user pte && writable pte
    then if phys == 0 then m else write_run phys (u32_bytes st) m
    else m

-- The caller blocks until a child wakes it, unless no other thread runs.
unfoldable pub block_current : ℕ → ℕ → State → Answer × State
unfolding switch_away
block_current frame i s =
    let t = s.sched.current in
    let blocked = set_process i (record (proc_at s i) { state = proc_blocked }) s in
    let (restored, cr3, s') =
      switch_away frame
        (record blocked { sched = set_thread_state ThreadState.blocked t blocked.sched }) in
    let undone = set_process i (record (proc_at s' i) { state = proc_running }) s' in
    if restored == frame
    then (
      record { rax = some (ok 0); frame = frame; cr3 = cr3 },
      record undone { sched = set_thread_state ThreadState.running t undone.sched },
    )
    else (record { rax = some (ok 0); frame = restored; cr3 = cr3 }, s')

abbrev set_memory : Mem → State → State
set_memory m s = record s { kernel = record (s.kernel) { memory = m } }

-- A pid whose sign bit is set is a negative number.
unfoldable pub after_reap : ℕ → ℕ → ℕ → Ret ℕ → ℕ → State → Answer × State
unfolding write_status block_current
after_reap frame i ustatus (err e) st s = (answer frame (err e), s)
after_reap frame i ustatus (ok zero) st s = block_current frame i s
after_reap frame i ustatus (ok (suc n)) st s =
    if ltb n (2 ^ 31 - 1)
    then (
      answer frame (ok (suc n)),
      set_memory (write_status (proc_at s i).space.cr3 ustatus st s.kernel.memory) s,
    )
    else (answer frame (ok (suc n + 2 ^ 64 - 2 ^ 32)), s)

unfoldable pub wait_process_at : ℕ → ℕ → ℕ → ℕ → State → Answer × State
unfolding try_reap after_reap
wait_process_at frame i pid ustatus s =
    let (r, st, s') = try_reap (proc_at s i).pid pid s in after_reap frame i ustatus r st s'

unfoldable pub wait_current : ℕ → ℕ → ℕ → State → Answer × State
unfolding wait_process_at
wait_current frame pid ustatus s = elim (process_current s) [
  | none ↦ (answer frame (err perm), s)
  | some i ↦ wait_process_at frame i pid ustatus s
]
