-- ===== src/Sched/Fair.antt =====
-- Successive ticks of kernel/sched/sched.c.
use void.Base.{ℕ, zero, suc, ◌≤◌, ◌≡◌, true, List, [], ◌∷◌, ◌++◌, arith, length, inl, inr}
use void.Sched.{Sched, is_ready, sched_tick}
use void.Sched.Ring.{RingOf}
use void.Sched.Tick.{tick-Ticked}

-- `n` ticks, each with the frame of the thread that it interrupts.
unfoldable pub ticks : ℕ → (ℕ → ℕ) → Sched → Sched
unfolding sched_tick
ticks zero frames s = s
ticks (suc n) frames s = ticks n (λ i. frames (suc i)) (sched_tick s (frames 0)).2

-- When the scheduler is active, its threads form a ring, and `x` can run with the threads of `a`
-- before it in the ring, then `x` is the current thread after at most one tick more than there are
-- threads in `a`, and the threads form a ring then.
pub turn_comes :
    (n : ℕ) (s : Sched) (frames : ℕ → ℕ) (front a : List ℕ) (x : ℕ) (b : List ℕ)
    → RingOf s front
    → s.scheduler_active ≡ true
    → front ++ s.current ∷ [] ≡ a ++ x ∷ b
    → is_ready s.threads x ≡ true
    → length a ≤ n
    → (m : ℕ) × (m ≤ n)
      × ((ticks (suc m) frames s).current ≡ x)
      × ((front' : List ℕ) × RingOf (ticks (suc m) frames s) front')
unfolding ticks
turn_comes zero s frames front a x b r active place can near =
    let t = tick-Ticked s (frames 0) front a x b r active place can in
    elim t.came [
      | inl came ↦ (0, omega arith, came, (t.front, t.ring))
      | inr (a', b', place', less, can') ↦ absurd (omega (arith, less, near))
    ]
turn_comes (suc n) s frames front a x b r active place can near =
    let t = tick-Ticked s (frames 0) front a x b r active place can in
    elim t.came [
      | inl came ↦ (0, omega arith, came, (t.front, t.ring))
      | inr (a', b', place', less, can') ↦
          let later =
            turn_comes n (sched_tick s (frames 0)).2 (λ i. frames (suc i)) t.front a' x b' t.ring
              t.active place' can' (omega (arith, less, near)) in
          (suc later.0, omega (arith, later.1), later.2, later.3)
    ]
