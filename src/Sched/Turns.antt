-- ===== src/Sched/Turns.antt =====
-- Whose turn it is after a tick of kernel/sched/sched.c.
use void.Base.{
  ℕ, ◌≤◌, ◌<◌, ◌≡◌, sym, ap, ◌∙◌, ◌≢◌, true, some, List, [], ◌∷◌, ◌++◌, ◌==◌, arith, length, set,
  Bool-cases, inl, inr, append_assoc, length-set, length-append, get_or-set_self, get_or-set_ne,
}
use mathlib.Core.Path.{subst}
use void.Sched.{Thread, Sched, no_thread, thread_at, is_ready, search_from, max_threads}
use void.Sched.Ring.{
  RingOf, Circular, Linked-same, Circular-rotate, Linked-append_left, head_or, count, count-append,
  first_ready, search_first,
}

-- The thread of the queue whose turn it is: those before it cannot run.
pub record Turn (ts : List Thread) (queue : List ℕ) (t : ℕ) : Type 0 where
  pub before : List ℕ
  pub behind : List ℕ
  pub place : queue ≡ before ++ t ∷ behind
  pub can_run : is_ready ts t ≡ true

first_ready-Turn :
    (ts : List Thread) (queue : List ℕ) {t : ℕ} → first_ready ts queue ≡ some t → Turn ts queue t
first_ready-Turn ts [] e = absurd cc
first_ready-Turn ts (x ∷ xs) {t} e = elim (Bool-cases (is_ready ts x)) [
  | inl can ↦
      let same : x ≡ t = ground arith in
      record { before = []; behind = xs; place = ap (λ r. r ∷ xs) same; can_run = rw (← same) can }
  | inr cannot ↦
      let later = first_ready-Turn ts xs {t = t} (ground arith) in
      record {
        before = x ∷ later.before;
        behind = later.behind;
        place = ap (λ r. x ∷ r) later.place;
        can_run = later.can_run;
      }
]

search_queue :
    (ts : List Thread) (n : ℕ) (q : List ℕ)
    → Circular ts q
    → ((x : ℕ) → count x q ≤ 1)
    → length q ≤ n
    → 0 < length q
    → search_from ts (head_or 0 q) n (head_or 0 q) ≡ first_ready ts q
search_queue ts n [] c once fits some_in = absurd (omega arith)
search_queue ts n (x ∷ q) c once fits some_in =
    let here = once x in search_first ts x n x q c (ground arith) (omega arith)

pub set_next :
    (ts : List Thread) (c : ℕ) (t : Thread) (i : ℕ)
    → c < length ts
    → t.next ≡ (thread_at ts c).next
    → (thread_at (set ts c t) i).next ≡ (thread_at ts i).next
set_next ts c t i h e = elim (Bool-cases (i == c)) [
  | inl same ↦ let at : i ≡ c = ground arith in rw (at, get_or-set_self ts c t no_thread h) e
  | inr other ↦
      let ne : c ≢ i = ground arith in rw (get_or-set_ne ts {i = c} {j = i} t no_thread ne)
]

-- The ring does not depend on anything but the links.
pub RingOf-set :
    (s : Sched) (front : List ℕ) (c : ℕ) (t : Thread)
    → RingOf s front
    → c < length s.threads
    → t.next ≡ (thread_at s.threads c).next
    → RingOf (record s { threads = set s.threads c t }) front
RingOf-set s front c t r h e = record {
  circular =
      Linked-same s.threads (set s.threads c t) (head_or 0 (front ++ s.current ∷ []))
        (front ++ s.current ∷ []) (λ i. set_next s.threads c t i h e) r.circular;
  once = r.once;
  below = r.below;
  table = length-set s.threads c t ∙ r.table;
  fits = r.fits;
  shorter = r.shorter;
  idle_in = r.idle_in;
}

module _ (s : Sched) (front : List ℕ) (r : RingOf s front) where
  pub in_table : (x : ℕ) → count x (front ++ s.current ∷ []) ≢ 0 → x < length s.threads
  in_table x h = omega (arith, r.below x h, r.table, r.fits)

  pub current_below : s.current < length s.threads
  current_below =
      let split = count-append s.current front (s.current ∷ []) in
      in_table s.current (ground (arith, split))

  -- A search in the ring finds the first of the queue that can run.
  pub search-RingOf :
      search_from s.threads
        (thread_at s.threads s.current).next
        max_threads
        (thread_at s.threads s.current).next
      ≡ first_ready s.threads (front ++ s.current ∷ [])
  search-RingOf =
      let q = front ++ s.current ∷ [] in
      let first : (thread_at s.threads s.current).next ≡ head_or 0 q =
        (Linked-append_left s.threads (head_or 0 q) front (s.current ∷ []) r.circular).1.0 in
      let size = length-append front (s.current ∷ []) in
      rw first (
        search_queue s.threads max_threads q r.circular r.once
          (omega (arith, size, r.shorter, r.fits)) (omega (arith, size)))

  pub RingOf-rotate :
      (t : ℕ) (before behind : List ℕ)
      → front ++ s.current ∷ [] ≡ before ++ t ∷ behind
      → RingOf (record s { current = t }) (behind ++ before)
  RingOf-rotate t before behind e =
      let q = front ++ s.current ∷ [] in
      let turned : (behind ++ before) ++ t ∷ [] ≡ behind ++ (before ++ t ∷ []) =
        append_assoc behind before (t ∷ []) in
      let cut : q ≡ (before ++ t ∷ []) ++ behind = e ∙ sym (append_assoc before (t ∷ []) behind) in
      let same : (x : ℕ) → count x ((behind ++ before) ++ t ∷ []) ≡ count x q = λ x.
        rw (turned, cut)
          (count-append x behind (before ++ t ∷ [])
            ∙ omega (arith, count-append x (before ++ t ∷ []) behind)) in
      record {
        circular = rw turned (
            Circular-rotate s.threads (before ++ t ∷ []) behind
              (subst (λ l. Circular s.threads l) cut r.circular));
        once = λ x. omega (arith, same x, r.once x);
        below = λ x h. r.below x (omega (arith, same x, h));
        table = r.table;
        fits = r.fits;
        shorter = omega (
          arith,
          r.shorter,
          length-append behind before,
          length-append before (t ∷ behind),
          length-append front (s.current ∷ []),
          ap (λ l. length l) e,
        );
        idle_in = omega (arith, same s.idle_thread, r.idle_in);
      }
