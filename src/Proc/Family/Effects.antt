-- ===== src/Proc/Family/Effects.antt =====
-- What the steps of kernel/proc/process.c do to each slot of the process table.
use void.Base.{
  ℕ, suc, ◌+◌, ◌<◌, ◌≡◌, ◌⊎◌, refl, sym, ap, ◌∙◌, Bool, true, false, ◌&&◌, ◌||◌, ◌==◌,
  if◌then◌else◌, Bool-cases, inl, inr, arith, Option, none, some, List, [], ◌∷◌, length, length-set,
  get_or, set,
}
use void.Proc.Table.{
  Process, State, ProcState, no_process, proc_at, used, is_zombie, is_blocked, in_use, blocking,
  proc_unused, proc_embryo, proc_running, proc_zombie, proc_blocked, proc_ready, process_get,
  process_destroy, free_process, no_pid, dead,
}
use void.Proc.Life.{reparent, wake, wake_process, end_process, switch_away, is_child, reap_from}
use void.Proc.Family.{Kin, kin_of, kin_at, joined, ended}
use void.Proc.Family.Slots.{
  in_table, get_or-set, get_or-reparent, length-reparent, handed, kin_at-set, same_kin,
}

abbrev pub Alike : State → State → Type 0
Alike s s' = (s'.next_pid ≡ s.next_pid) × ((k : ℕ) → kin_at s' k ≡ kin_at s k)

pub zombie_used : (st : ProcState) → dead st ≡ true → in_use st ≡ true
zombie_used proc_zombie h = refl
zombie_used proc_unused h = cc h
zombie_used proc_embryo h = refl
zombie_used proc_ready h = refl
zombie_used proc_running h = refl
zombie_used proc_blocked h = refl

blocked_state : (st : ProcState) → blocking st ≡ true → st ≡ proc_blocked
blocked_state proc_blocked h = refl
blocked_state proc_unused h = cc h
blocked_state proc_embryo h = cc h
blocked_state proc_ready h = cc h
blocked_state proc_running h = cc h
blocked_state proc_zombie h = cc h

wake_process-Alike : (j : ℕ) (s : State) → Alike s (wake_process j s)
unfolding wake_process
wake_process-Alike j s = elim (Bool-cases (is_blocked (proc_at s j))) [
  | inr h ↦ rw h (refl, λ k. refl)
  | inl h ↦
      let st = blocked_state (proc_at s j).state h in
      let ready_kin : kin_of (record (proc_at s j) { state = proc_ready }) ≡ kin_at s j =
        sym (ap (λ st. kin_of (record (proc_at s j) { state = st })) st) in
      let inside = in_table s.procs j (ap in_use st) in
      rw h (refl, λ k. same_kin s j _ k inside ready_kin)
]

wake-Alike : (ppid : ℕ) (s : State) → Alike s (wake ppid s)
unfolding wake
wake-Alike ppid s = by_search (process_get s ppid)
  where
    by_search :
        (o : Option ℕ) → Alike s (elim o as (λ o. State) [ none ↦ s | some j ↦ wake_process j s ])
    by_search none = (refl, λ k. refl)
    by_search (some j) = wake_process-Alike j s

handed_kin :
    (pid ppid : ℕ) (c : Process)
    → kin_of (handed pid ppid c)
      ≡ (if used c && c.ppid == pid then record (kin_of c) { ppid = ppid } else kin_of c)
handed_kin pid ppid c = elim (Bool-cases (used c && c.ppid == pid)) [
  | inl h ↦ rw h refl
  | inr h ↦ rw h refl
]

abbrev dying : Process → ℕ → Process
dying c status = record c { exit_status = status; exited = true; state = proc_zombie }

handed_self :
    (c : Process) (status : ℕ)
    → used c ≡ true
    → kin_of (handed c.pid c.ppid (dying c status))
      ≡ record (kin_of c) { dead = true; status = status }
handed_self c status h =
    handed_kin c.pid c.ppid (dying c status)
    ∙ (elim (Bool-cases (c.ppid == c.pid)) [ inl e ↦ rw (e, h) refl | inr e ↦ rw (e, h) refl ])

-- The slots after process `i` has died and handed on its children.
ended_slots :
    (s : State) (i status k : ℕ)
    → used (proc_at s i) ≡ true
    → kin_of (
        get_or
          (reparent
            (proc_at s i).pid
            (proc_at s i).ppid
            (set s.procs i (dying (proc_at s i) status)))
          k
          no_process)
      ≡ ended (kin_at s) i status k
ended_slots s i status k here =
    let p = proc_at s i in
    let at = get_or-set s.procs i (dying p status) k (in_table s.procs i here) in
    ap kin_of (get_or-reparent p.pid p.ppid (set s.procs i (dying p status)) k)
    ∙ ap (λ c. kin_of (handed p.pid p.ppid c)) at
    ∙ (elim (Bool-cases (k == i)) [
      | inl h ↦ rw h (handed_self p status here)
      | inr h ↦ rw h (handed_kin p.pid p.ppid (proc_at s k))
    ])

pub end_process_kin :
    (i status : ℕ) (s : State) (k : ℕ)
    → used (proc_at s i) ≡ true
    → kin_at (end_process i status s) k ≡ ended (kin_at s) i status k
unfolding end_process
end_process_kin i status s k here =
    let p = proc_at s i in
    let procs = reparent p.pid p.ppid (set s.procs i (dying p status)) in
    let inside : i < length procs =
      (let l = length-reparent p.pid p.ppid (set s.procs i (dying p status)) in
        let n = in_table s.procs i here in
        omega (arith, l, length-set s.procs i (dying p status), n)) in
    (wake-Alike _ _).1 k
    ∙ same_kin (record s { procs = procs }) i _ k inside refl
    ∙ ended_slots s i status k here

pub end_process_next : (i status : ℕ) (s : State) → (end_process i status s).next_pid ≡ s.next_pid
unfolding end_process
end_process_next i status s = (wake-Alike _ _).0

-- A process that has left.
abbrev pub gone : Process → Kin
gone p = record { pid = no_pid; ppid = p.ppid; here = false; dead = false; status = p.exit_status }

pub free_process_kin :
    (i : ℕ) (s : State)
    → i < length s.procs
    → ((free_process i s).next_pid ≡ s.next_pid)
      × ((k : ℕ) → kin_at (free_process i s) k ≡ joined (kin_at s) i (gone (proc_at s i)) k)
unfolding free_process
free_process_kin i s inside = (refl, λ k. kin_at-set s i _ k inside)

pub process_destroy-used :
    (i : ℕ) (s : State) → used (proc_at s i) ≡ true → process_destroy i s ≡ free_process i s
unfolding process_destroy
process_destroy-used i s here = ap (λ b. if b then free_process i s else s) here

-- A wait frees a dead child, or it changes nothing.
pub reap_cases :
    (parent pid : ℕ) (cs : List Process) (i : ℕ) (any_child : Bool) (s : State)
    → ((reap_from parent pid cs i any_child s).2 ≡ s)
      ⊎ ((k : ℕ) × (is_zombie (get_or cs k no_process) ≡ true)
          × ((reap_from parent pid cs i any_child s).2 ≡ process_destroy (k + i) s))
unfolding reap_from
reap_cases parent pid [] i any_child s = inl refl
reap_cases parent pid (c ∷ cs) i any_child s =
    elim (Bool-cases (is_child parent pid c && is_zombie c)) [
      | inl h ↦ inr (0, ground (arith, h), rw h (ap (λ n. process_destroy n s) (omega arith)))
      | inr h ↦ elim (reap_cases parent pid cs (i + 1) (any_child || is_child parent pid c) s) [
        | inl same ↦ inl (rw h same)
        | inr (k, d, e) ↦
            let at : k + (i + 1) ≡ suc k + i = omega arith in
            inr (suc k, d, rw h (e ∙ ap (λ n. process_destroy n s) at))
      ]
    ]

pub switch_away-Alike : (frame : ℕ) (s : State) → Alike s (switch_away frame s).2
unfolding switch_away
switch_away-Alike frame s = (refl, λ k. refl)
