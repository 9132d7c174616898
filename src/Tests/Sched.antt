-- ===== src/Tests/Sched.antt =====
-- Witnesses and runs for the scheduler.
use void.Base.{ℕ, suc, ◌+◌, ◌≤◌, ◌≡◌, refl, true, List, [], ◌∷◌, arith, set, replicate}
use void.Sched.{
  Sched, no_thread, boot_thread, ready, thread_at, sched_init, create_kthread, insert, alloc_kstack,
}
use void.Sched.Fair.{ticks, turn_comes}
use void.Sched.Ring.{RingOf}

-- After boot, with the scheduler started: thread 0 runs and the idle thread 1 waits.
abbrev demo_sched : Sched
demo_sched = record {
  threads =
      set (set (replicate 64 no_thread) 0 (record (boot_thread 7) { next = 1 })) 1
        (record no_thread { tid = 1; cr3 = 7; state = ready; next = 0 });
  next_tid = 2;
  current = 0;
  idle_thread = 1;
  scheduler_active = true;
  next_stack_vaddr = 0;
}

demo-RingOf : RingOf demo_sched (1 ∷ [])
demo-RingOf = record {
  circular = (refl, (refl, tt));
  once = λ x. ground arith;
  below = λ x h. ground arith;
  table = refl;
  fits = omega arith;
  shorter = omega arith;
  idle_in = omega arith;
}

turn_comes_example :
    (m : ℕ) × (m ≤ 0)
    × ((ticks (suc m) (λ i. 500 + i) demo_sched).current ≡ 1)
    × ((front' : List ℕ) × RingOf (ticks (suc m) (λ i. 500 + i) demo_sched) front')
turn_comes_example =
    turn_comes 0 demo_sched (λ i. 500 + i) (1 ∷ []) [] 1 (0 ∷ []) demo-RingOf refl refl refl
      (omega arith)

boot_ring : (thread_at (sched_init 7 true).threads 0).next ≡ 1
unfolding sched_init create_kthread insert alloc_kstack
boot_ring = refl
