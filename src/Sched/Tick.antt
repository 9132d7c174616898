-- ===== src/Sched/Tick.antt =====
-- One tick of kernel/sched/sched.c at which a given thread can run.
use void.Base.{
  ℕ, ◌+◌, ◌≤◌, ◌<◌, ◌≡◌, refl, ap, ◌∙◌, ◌≢◌, true, some, List, [], ◌∷◌, ◌++◌, ◌==◌, arith,
  if◌then◌else◌, length, set, Bool-cases, inl, inr, ◌⊎◌, append_assoc, get_or-set_self,
  get_or-set_ne,
}
use mathlib.Core.Path.{subst}
use void.Sched.{
  Thread, ThreadState, Sched, no_thread, ready, running, blocked, exited, enter, state_ready,
  state_running, thread_at, is_ready, search_from, max_threads, pick_next, save_current, switch_to,
  sched_tick,
}
use void.Sched.Ring.{RingOf, count, count-append, first_ready}
use void.Sched.Turns.{RingOf-set, current_below, in_table, search-RingOf, RingOf-rotate}

-- The thread picked from a queue in which `x` can run: `x`, or one before it.
record Picked (ts : List Thread) (a : List ℕ) (x : ℕ) (b : List ℕ) : Type 0 where
  turn : ℕ
  before : List ℕ
  behind : List ℕ
  picked : first_ready ts (a ++ x ∷ b) ≡ some turn
  place : a ++ x ∷ b ≡ before ++ turn ∷ behind
  nearer : (turn ≡ x) ⊎ ((a' : List ℕ) × (behind ≡ a' ++ x ∷ b) × (length a' < length a))

pick_turn :
    (ts : List Thread) (a : List ℕ) (x : ℕ) (b : List ℕ) → is_ready ts x ≡ true → Picked ts a x b
pick_turn ts [] x b can = record {
  turn = x;
  before = [];
  behind = b;
  picked = rw can;
  place = refl;
  nearer = inl refl;
}
pick_turn ts (y ∷ a) x b can = elim (Bool-cases (is_ready ts y)) [
  | inl first ↦ record {
    turn = y;
    before = [];
    behind = a ++ x ∷ b;
    picked = rw first;
    place = refl;
    nearer = inr (a, refl, omega arith);
  }
  | inr passed ↦
      let later = pick_turn ts a x b can in
      record {
        turn = later.turn;
        before = y ∷ later.before;
        behind = later.behind;
        picked = rw passed later.picked;
        place = ap (λ r. y ∷ r) later.place;
        nearer = elim later.nearer [
          | inl same ↦ inl same
          | inr (a', e, h) ↦ inr (a', e, omega (arith, h))
        ];
      }
]

ready-set :
    (ts : List Thread) (c : ℕ) (t : Thread) (i : ℕ)
    → c ≢ i
    → is_ready (set ts c t) i ≡ is_ready ts i
ready-set ts c t i ne =
    ap (λ r. state_ready r.state) (get_or-set_ne ts {i = c} {j = i} t no_thread ne)

still_ready :
    (st : ThreadState)
    → state_ready st ≡ true
    → state_ready (if state_running st then ready else st) ≡ true
still_ready ready h = refl
still_ready running h = refl
still_ready blocked h = h
still_ready exited h = h

pick_found :
    (s : Sched) {t : ℕ}
    → search_from s.threads
        (thread_at s.threads s.current).next
        max_threads
        (thread_at s.threads s.current).next
      ≡ some t
    → pick_next s ≡ t
unfolding pick_next
pick_found s found = rw (pick_next, found)

module _ (s : Sched) (frame : ℕ) where
  pub saved-RingOf : (front : List ℕ) → RingOf s front → RingOf (save_current s frame) front
  unfolding save_current
  saved-RingOf front r = RingOf-set s front s.current _ r (current_below s front r) refl

  saved_ready :
      (x : ℕ)
      → s.current < length s.threads
      → is_ready s.threads x ≡ true
      → is_ready (save_current s frame).threads x ≡ true
  unfolding save_current
  saved_ready x low can = elim (Bool-cases (s.current == x)) [
    | inr other ↦
        let ne : s.current ≢ x = ground arith in ready-set s.threads s.current _ x ne ∙ can
    | inl same ↦
        let at : x ≡ s.current = ground arith in
        rw at (
          ap (λ r. state_ready r.state) (get_or-set_self s.threads s.current _ no_thread low)
          ∙ still_ready (thread_at s.threads s.current).state (rw at at can))
  ]

  tick_switch :
      {t : ℕ}
      → s.scheduler_active ≡ true
      → pick_next (save_current s frame) ≡ t
      → (sched_tick s frame).2 ≡ switch_to (save_current s frame) t
  unfolding sched_tick enter
  tick_switch {t} active found =
      let whole : sched_tick s frame
          ≡ enter (save_current s frame) (pick_next (save_current s frame)) =
        ground (arith, active) in
      ap (λ r. r.2) whole ∙ ap (λ r. switch_to (save_current s frame) r) found

-- One tick at which `x`, behind `a` in the queue, can run: its turn comes, or it moves forward.
pub record Ticked (s : Sched) (frame : ℕ) (a : List ℕ) (x : ℕ) : Type 0 where
  pub front : List ℕ
  pub ring : RingOf (sched_tick s frame).2 front
  pub active : (sched_tick s frame).2.scheduler_active ≡ true
  pub came :
      ((sched_tick s frame).2.current ≡ x)
      ⊎ ((a' : List ℕ) × (b' : List ℕ) × (front ++ (sched_tick s frame).2.current ∷ []
            ≡ a' ++ x ∷ b')
          × (length a' < length a)
          × (is_ready (sched_tick s frame).2.threads x ≡ true))

switch-RingOf :
    (s : Sched) (front : List ℕ) (t : ℕ) (before behind : List ℕ)
    → RingOf s front
    → front ++ s.current ∷ [] ≡ before ++ t ∷ behind
    → RingOf (switch_to s t) (behind ++ before)
unfolding switch_to
switch-RingOf s front t before behind r e =
    let run : Thread = record (thread_at s.threads t) { state = running } in
    let inside : count t (front ++ s.current ∷ []) ≢ 0 =
      rw e (ground (arith, count-append t before (t ∷ behind))) in
    RingOf-rotate (record s { threads = set s.threads t run }) front
      (RingOf-set s front t run r (in_table s front r t inside) refl) t before behind e

requeue :
    (x t : ℕ) (a b before : List ℕ) {behind : List ℕ}
    → behind ≡ a ++ x ∷ b
    → (behind ++ before) ++ t ∷ [] ≡ a ++ x ∷ (b ++ (before ++ t ∷ []))
requeue x t a b before e =
    rw e (append_assoc (a ++ x ∷ b) before (t ∷ []) ∙ append_assoc a (x ∷ b) (before ++ t ∷ []))

once_differ :
    {x t : ℕ} {q : List ℕ} (before a b : List ℕ) {behind : List ℕ}
    → q ≡ before ++ t ∷ behind
    → behind ≡ a ++ x ∷ b
    → count t q ≤ 1
    → t ≢ x
once_differ {x} {t} {q} before a b e f once same =
    let all : count t q ≡ count t before + count t (t ∷ (a ++ x ∷ b)) =
      rw (e, f) (count-append t before (t ∷ (a ++ x ∷ b))) in
    absurd (ground (arith, all, count-append t a (x ∷ b)))

switch_ready :
    (s : Sched) (t x : ℕ) → t ≢ x → is_ready (switch_to s t).threads x ≡ is_ready s.threads x
unfolding switch_to
switch_ready s t x ne = ready-set s.threads t _ x ne

pub tick-Ticked :
    (s : Sched) (frame : ℕ) (front a : List ℕ) (x : ℕ) (b : List ℕ)
    → RingOf s front
    → s.scheduler_active ≡ true
    → front ++ s.current ∷ [] ≡ a ++ x ∷ b
    → is_ready s.threads x ≡ true
    → Ticked s frame a x
unfolding save_current switch_to
tick-Ticked s frame front a x b r active place can =
    let saved = save_current s frame in
    let ring = saved-RingOf s frame front r in
    let can' = saved_ready s frame x (current_below s front r) can in
    let p = pick_turn saved.threads a x b can' in
    let found : pick_next saved ≡ p.turn =
      pick_found saved (
        search-RingOf saved front ring
        ∙ (ap (λ q. first_ready saved.threads q) place ∙ p.picked)) in
    let once = λ (y : ℕ). subst (λ q. count y q ≤ 1) place (r.once y) in
    let now = tick_switch s frame active found in
    let turned = switch-RingOf saved front p.turn p.before p.behind ring (place ∙ p.place) in
    record {
      front = p.behind ++ p.before;
      ring = rw now turned;
      active = rw now active;
      came = rw now (elim p.nearer [
        | inl same ↦ inl same
        | inr (a', e, less) ↦ inr (
          a',
          b ++ (p.before ++ p.turn ∷ []),
          requeue x p.turn a' b p.before e,
          less,
          switch_ready saved p.turn x (once_differ p.before a' b p.place e (once p.turn)) ∙ can',
        )
      ]);
    }
