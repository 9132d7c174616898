-- ===== src/Sched.antt =====
-- The thread scheduler, kernel/sched/sched.c.
-- A pointer to a thread is its index in the table. The frame that a new thread starts from, the
-- TSS and the page tables are not modelled: a tick gives the stack pointer to restore and the page
-- table to load, if it is another one.
pub mod Ring
pub mod Insert
pub mod Turns
pub mod Tick
pub mod Fair
use void.Base.{
  ℕ, zero, suc, ◌+◌, ◌-◌, ◌*◌, Bool, true, false, not, Option, none, some, List, [], ◌∷◌, leb, ◌==◌,
  if◌then◌else◌, get_or, set, map, replicate,
}

abbrev pub max_threads : ℕ
max_threads = 64

-- KTHREAD_STACK_SIZE
abbrev pub kthread_stack_size : ℕ
kthread_stack_size = 16 * 4096

-- sizeof(isr_frame_t): 15 registers, the vector, the error code and what iretq pops.
abbrev pub frame_size : ℕ
frame_size = 176

pub data ThreadState : Type 0 where
  ready running blocked exited : ThreadState

pub record Thread : Type 0 where
  pub rsp : ℕ
  pub cr3 : ℕ
  pub stack_base : ℕ
  pub stack_size : ℕ
  pub tid : ℕ
  pub state : ThreadState
  pub proc : Option ℕ
  pub next : ℕ

abbrev pub no_thread : Thread
no_thread = record {
  rsp = 0;
  cr3 = 0;
  stack_base = 0;
  stack_size = 0;
  tid = 0;
  state = exited;
  proc = none;
  next = 0;
}

pub record Sched : Type 0 where
  pub threads : List Thread
  pub next_tid : ℕ
  pub current : ℕ
  pub idle_thread : ℕ
  pub scheduler_active : Bool
  pub next_stack_vaddr : ℕ

abbrev pub thread_at : List Thread → ℕ → Thread
thread_at ts i = get_or ts i no_thread

abbrev pub state_ready : ThreadState → Bool
state_ready ready = true
state_ready _ = false

abbrev pub state_running : ThreadState → Bool
state_running running = true
state_running _ = false

abbrev pub is_ready : List Thread → ℕ → Bool
is_ready ts i = state_ready (thread_at ts i).state

-- The do-while loop of pick_next at `t`; the fuel is a bound on the length of the ring.
unfoldable pub search_from : List Thread → (start : ℕ) → (fuel : ℕ) → ℕ → Option ℕ
search_from ts start zero t = none
search_from ts start (suc fuel) t =
    let after = (thread_at ts t).next in
    let rest = search_from ts start fuel after in
    if is_ready ts t then some t else if after == start then none else rest

unfoldable pub pick_next : Sched → ℕ
unfolding search_from
pick_next s =
    let start = (thread_at s.threads s.current).next in
    elim (search_from s.threads start max_threads start) [ some t ↦ t | none ↦ s.idle_thread ]

-- The thread that was interrupted keeps its frame, and can run again if it was running.
unfoldable pub save_current : Sched → ℕ → Sched
save_current s frame =
    let c = thread_at s.threads s.current in
    let state = if state_running c.state then ready else c.state in
    record s { threads = set s.threads s.current (record c { rsp = frame; state = state }) }

unfoldable pub switch_to : Sched → ℕ → Sched
switch_to s t = record s {
  threads = set s.threads t (record (thread_at s.threads t) { state = running });
  current = t;
}

-- The frame to restore, the page table to load, and the scheduler after.
unfoldable pub enter : Sched → ℕ → ℕ × Option ℕ × Sched
unfolding switch_to
enter saved t =
    let old_cr3 = (thread_at saved.threads saved.current).cr3 in
    let new_cr3 = (thread_at saved.threads t).cr3 in
    (
      (thread_at saved.threads t).rsp,
      (if new_cr3 == old_cr3 then none else some new_cr3),
      switch_to saved t,
    )

unfoldable pub sched_tick : Sched → ℕ → ℕ × Option ℕ × Sched
unfolding save_current pick_next enter
sched_tick s frame =
    if s.scheduler_active
    then enter (save_current s frame) (pick_next (save_current s frame))
    else (frame, none, s)

-- A thread is put into the ring behind the current one.
unfoldable pub insert : Sched → ℕ → Sched
insert s t =
    let linked =
      set s.threads t
        (record (thread_at s.threads t) { next = (thread_at s.threads s.current).next }) in
    record s { threads = set linked s.current (record (thread_at linked s.current) { next = t }) }

-- `frames` says whether there is memory for the stack.
unfoldable pub alloc_kstack : Sched → (frames : Bool) → Option ℕ × Sched
alloc_kstack s frames = (
  (if frames then some s.next_stack_vaddr else none),
  record s { next_stack_vaddr = s.next_stack_vaddr + (kthread_stack_size + 4096) },
)

unfoldable pub create_kthread : Sched → (cr3 : ℕ) → (frames : Bool) → ℕ × Sched
unfolding alloc_kstack insert
create_kthread s cr3 frames =
    if leb max_threads s.next_tid
    then (0, s)
    else (let t = s.next_tid in
        let fresh = record s {
          threads =
              set s.threads t
                (record (thread_at s.threads t) { tid = t; cr3 = cr3; state = ready });
          next_tid = t + 1;
        } in
        let stack = alloc_kstack fresh frames in
        elim stack.0 [
          | none ↦ (0, stack.1)
          | some base ↦ (
            t,
            insert
                (record (stack.1) {
                  threads = set fresh.threads t (record (thread_at fresh.threads t) {
                    stack_base = base;
                    stack_size = kthread_stack_size;
                    rsp = base + kthread_stack_size - frame_size;
                  });
                })
                t,
          )
        ])

unfoldable pub adopt_thread :
    Sched → (rsp cr3 : ℕ) → (proc : Option ℕ) → (kstack_base kstack_size : ℕ) → Option ℕ × Sched
unfolding insert
adopt_thread s rsp cr3 proc base size =
    if leb max_threads s.next_tid
    then (none, s)
    else (let t = s.next_tid in
        let thread = record (thread_at s.threads t) {
          tid = t;
          rsp = rsp;
          cr3 = cr3;
          proc = proc;
          stack_base = base;
          stack_size = size;
          state = ready;
        } in
        (some t, insert (record s { threads = set s.threads t thread; next_tid = t + 1 }) t))

-- sched_exit up to the switch.
unfoldable pub exit_current : Sched → Sched
exit_current s = record s {
  threads = set s.threads s.current (record (thread_at s.threads s.current) { state = exited });
}

-- sched_init up to the idle thread, on the zeroed table.
abbrev pub boot_thread : ℕ → Thread
boot_thread cr3 = record no_thread { state = running; cr3 = cr3; next = 0 }

unfoldable pub sched_init : (cr3 : ℕ) → (frames : Bool) → Sched
unfolding create_kthread
sched_init cr3 frames =
    let cleared : Sched = record {
      threads = set (replicate max_threads no_thread) 0 (boot_thread cr3);
      next_tid = 1;
      current = 0;
      idle_thread = 0;
      scheduler_active = false;
      next_stack_vaddr = 0xFFFFFFFF91000000;
    } in
    let made = create_kthread cleared cr3 frames in record (made.1) { idle_thread = made.0 }
