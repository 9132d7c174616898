-- ===== src/Proc/Family/Calls.antt =====
-- The calls of kernel/proc/process.c keep the family.
use mathlib.Core.Path.{subst}
use void.Base.{
  ℕ, zero, suc, ◌+◌, ◌≡◌, ◌≢◌, ◌^◌, refl, sym, ap, ◌∙◌, true, false, ◌==◌, ltb, ◌-◌, if◌then◌else◌,
  Bool-cases, inl, inr, arith, Option, none, some, Ret, ok, err, perm,
}
use void.Proc.Table.{
  State, ProcState, proc_at, used, is_zombie, in_use, proc_running, proc_blocked, process_destroy,
  free_process, dead, process_current,
}
use void.Proc.Life.{
  end_process, switch_away, exit_current, exit_process_at, Answer, answer, try_reap, block_current,
  wait_current, set_process, set_thread_state, after_reap, wait_process_at,
}
use void.Sched.{ThreadState}
use void.Proc.Family.{kin_at, live, Family, joined, ended}
use void.Proc.Family.Slots.{in_table, same_kin}
use void.Proc.Family.Changes.{same-FamilyOk, ended-FamilyOk, left-FamilyOk}
use void.Proc.Family.Effects.{
  Alike, zombie_used, end_process_kin, end_process_next, gone, free_process_kin,
  process_destroy-used, reap_cases, switch_away-Alike,
}

process_destroy-Family :
    (i : ℕ) (s : State)
    → Family s
    → is_zombie (proc_at s i) ≡ true
    → Family (process_destroy i s)
      × ((k : ℕ) → live (kin_at s k) ≡ true → live (kin_at (process_destroy i s) k) ≡ true)
process_destroy-Family i s fam h =
    let here = zombie_used (proc_at s i).state h in
    let (next, kin) = free_process_kin i s (in_table s.procs i here) in
    let at = process_destroy-used i s here in
    let left = left-FamilyOk (kin_at s) s.next_pid fam i (gone (proc_at s i)) h refl in
    (
      subst Family (sym at) (
          rw next (
            same-FamilyOk (joined (kin_at s) i (gone (proc_at s i))) (kin_at (free_process i s))
              s.next_pid kin left)),
      λ k alive.
          let other : (k == i) ≡ false = elim (Bool-cases (k == i)) [
            | inr ne ↦ ne
            | inl e ↦
                let same : k ≡ i = ground (arith, e) in
                let d : dead (proc_at s k).state ≡ true =
                  ap (λ k. dead (proc_at s k).state) same ∙ h in
                absurd (ground (arith, alive, d))
          ] in
          let stays : kin_at (free_process i s) k ≡ kin_at s k = kin k ∙ rw other refl in
          ap (λ t. live (kin_at t k)) at ∙ ap live stays ∙ alive,
    )

try_reap-Family :
    (parent pid : ℕ) (s : State)
    → Family s
    → Family (try_reap parent pid s).2
      × ((k : ℕ) → live (kin_at s k) ≡ true → live (kin_at (try_reap parent pid s).2 k) ≡ true)
unfolding try_reap
try_reap-Family parent pid s fam =
    let kept : State → Type 0 =
      λ t. Family t × ((k : ℕ) → live (kin_at s k) ≡ true → live (kin_at t k) ≡ true) in
    elim (reap_cases parent pid s.procs 0 false s) [
      | inl same ↦ subst kept (sym same) (fam, λ k alive. alive)
      | inr (k, d, e) ↦
          let at : k + 0 ≡ k = omega arith in
          subst kept (sym (e ∙ ap (λ n. process_destroy n s) at)) (process_destroy-Family k s fam d)
    ]

pub Alike-Family : (s s' : State) → Alike s s' → Family s → Family s'
Alike-Family s s' (next, same) fam =
    rw next (same-FamilyOk (kin_at s) (kin_at s') s.next_pid same fam)

-- The current process, if there is one, has not ended.
abbrev pub CurrentLive : State → Type 0
CurrentLive s = (i : ℕ) → process_current s ≡ some i → live (kin_at s i) ≡ true

pub end_process-Family :
    (i status : ℕ) (s : State)
    → Family s
    → live (kin_at s i) ≡ true
    → i ≢ 0
    → Family (end_process i status s)
end_process-Family i status s fam alive other =
    let here : used (proc_at s i) ≡ true = ground (arith, alive) in
    rw (end_process_next i status s) (
      same-FamilyOk (ended (kin_at s) i status) (kin_at (end_process i status s)) s.next_pid
        (λ k. end_process_kin i status s k here)
        (ended-FamilyOk (kin_at s) s.next_pid fam status i alive other))

exit_process_at-Family :
    (frame i status : ℕ) (s : State)
    → Family s
    → live (kin_at s i) ≡ true
    → i ≢ 0
    → Family (exit_process_at frame i status s).1
unfolding exit_process_at
exit_process_at-Family frame i status s fam alive other =
    let ended_state : State = end_process i status s in
    let left : State = record ended_state {
      sched = set_thread_state ThreadState.exited s.sched.current ended_state.sched;
    } in
    Alike-Family ended_state (switch_away frame left).2 (switch_away-Alike frame left)
      (end_process-Family i status s fam alive other)

pub exit_current-Family :
    (frame status : ℕ) (s : State)
    → Family s
    → CurrentLive s
    → Family (exit_current frame status s).1
unfolding exit_current
exit_current-Family frame status s fam current = by_current (process_current s) current
  where
    by_current :
        (o : Option ℕ)
        → ((i : ℕ) → o ≡ some i → live (kin_at s i) ≡ true)
        → Family
            (elim o as (λ o. Answer × State) [
              | none ↦ (answer frame (err perm), s)
              | some i ↦
                  if (proc_at s i).pid == 0
                  then (answer frame (err perm), s)
                  else exit_process_at frame i status s
            ]).1
    by_current none alive = fam
    by_current (some i) alive = elim (Bool-cases ((proc_at s i).pid == 0)) [
      | inl h ↦ rw h fam
      | inr h ↦
          let other : i ≢ 0 =
            λ e. let r = fam.root.0 in ground (arith, h, r, ap (λ k. (proc_at s k).pid) e) in
          rw h (exit_process_at-Family frame i status s fam (alive i refl) other)
    ]

-- A living process may change to any other living state.
set_live-Alike :
    (s : State) (i : ℕ) (st : ProcState)
    → live (kin_at s i) ≡ true
    → in_use st ≡ true
    → dead st ≡ false
    → Alike s (set_process i (record (proc_at s i) { state = st }) s)
set_live-Alike s i st alive uses lives =
    let here : used (proc_at s i) ≡ true = ground (arith, alive) in
    let not_dead : is_zombie (proc_at s i) ≡ false = ground (arith, alive) in
    (
      refl,
      λ k.
          same_kin s i (record (proc_at s i) { state = st }) k (in_table s.procs i here)
            (rw (uses, lives, here, not_dead) refl),
    )

Alike-live :
    (s s' : State) (k : ℕ) → Alike s s' → live (kin_at s k) ≡ true → live (kin_at s' k) ≡ true
Alike-live s s' k (_, same) alive = ap live (same k) ∙ alive

block_current-Family :
    (frame i : ℕ) (s : State)
    → Family s
    → live (kin_at s i) ≡ true
    → Family (block_current frame i s).1
unfolding block_current
block_current-Family frame i s fam alive =
    let blocked : State = set_process i (record (proc_at s i) { state = proc_blocked }) s in
    let left : State = record blocked {
      sched = set_thread_state ThreadState.blocked s.sched.current blocked.sched;
    } in
    let away : State = (switch_away frame left).2 in
    let at_block = set_live-Alike s i proc_blocked alive refl refl in
    let at_switch = switch_away-Alike frame left in
    let fam_away = Alike-Family left away at_switch (Alike-Family s blocked at_block fam) in
    let alive_away = Alike-live left away i at_switch (Alike-live s blocked i at_block alive) in
    let undone : State = set_process i (record (proc_at away i) { state = proc_running }) away in
    elim (Bool-cases ((switch_away frame left).0 == frame)) [
      | inl h ↦ rw h (
          Alike-Family away undone (set_live-Alike away i proc_running alive_away refl refl)
            fam_away)
      | inr h ↦ rw h fam_away
    ]

after_reap-Family :
    (frame i ustatus : ℕ) (r : Ret ℕ) (st : ℕ) (s : State)
    → Family s
    → live (kin_at s i) ≡ true
    → Family (after_reap frame i ustatus r st s).1
unfolding after_reap
after_reap-Family frame i ustatus (err e) st s fam alive = fam
after_reap-Family frame i ustatus (ok zero) st s fam alive =
    block_current-Family frame i s fam alive
after_reap-Family frame i ustatus (ok (suc n)) st s fam alive =
    elim (Bool-cases (ltb n (2 ^ 31 - 1))) [ inl h ↦ rw h fam | inr h ↦ rw h fam ]

pub wait_current-Family :
    (frame pid ustatus : ℕ) (s : State)
    → Family s
    → CurrentLive s
    → Family (wait_current frame pid ustatus s).1
unfolding wait_current wait_process_at
wait_current-Family frame pid ustatus s fam current = by_current (process_current s) current
  where
    by_current :
        (o : Option ℕ)
        → ((i : ℕ) → o ≡ some i → live (kin_at s i) ≡ true)
        → Family
            (elim o as (λ o. Answer × State) [
              | none ↦ (answer frame (err perm), s)
              | some i ↦ wait_process_at frame i pid ustatus s
            ]).1
    by_current none alive = fam
    by_current (some i) alive =
        let (r, st, s') = try_reap (proc_at s i).pid pid s in
        let (fam', lives) = try_reap-Family (proc_at s i).pid pid s fam in
        after_reap-Family frame i ustatus r st s' fam' (lives i (alive i refl))
