-- ===== src/Sched/Insert.antt =====
-- New threads and the ring of kernel/sched/sched.c.
use void.Base.{
  ℕ, ◌+◌, ◌≤◌, ◌<◌, ◌≡◌, refl, ap, ◌∙◌, ◌≢◌, Option, none, some, List, [], ◌∷◌, ◌++◌, ◌==◌, arith,
  if◌then◌else◌, length, set, leb, Bool-cases, inl, inr, ◌⊎◌, length-set, get_or-set_self,
  get_or-set_ne,
}
use void.Sched.{Thread, Sched, no_thread, thread_at, max_threads, insert, adopt_thread}
use void.Sched.Ring.{
  RingOf, Linked, Circular, Linked-append_left, Linked-append, head_or, count, count-append,
}

-- Only the links of the threads of the list matter.
Linked-on :
    (ts ts' : List Thread) (f : ℕ) (xs : List ℕ)
    → ((i : ℕ) → count i xs ≢ 0 → (thread_at ts' i).next ≡ (thread_at ts i).next)
    → Linked ts f xs
    → Linked ts' f xs
Linked-on ts ts' f [] same l = tt
Linked-on ts ts' f (x ∷ xs) same l =
    (same x (ground arith) ∙ l.0, Linked-on ts ts' f xs (λ i h. same i (ground arith)) l.1)

head_or_full : (f g : ℕ) (xs : List ℕ) (y : ℕ) → head_or f (xs ++ y ∷ []) ≡ head_or g (xs ++ y ∷ [])
head_or_full f g [] y = refl
head_or_full f g (x ∷ xs) y = refl

-- The scheduler with a new thread in the table, not yet in the ring.
abbrev add : Sched → Thread → Sched
add s t = record s { threads = set s.threads s.next_tid t; next_tid = s.next_tid + 1 }

links-set :
    (ts : List Thread) (k : ℕ) (x : Thread) (i : ℕ)
    → k < length ts
    → (thread_at (set ts k x) i).next ≡ (if i == k then x.next else (thread_at ts i).next)
links-set ts k x i h = elim (Bool-cases (i == k)) [
  | inl same ↦
      let at : i ≡ k = ground arith in
      rw same (
        ap (λ j. (thread_at (set ts k x) j).next) at
        ∙ ap (λ r. r.next) (get_or-set_self ts k x no_thread h))
  | inr other ↦
      let ne : k ≢ i = ground arith in
      rw other (ap (λ r. r.next) (get_or-set_ne ts {i = k} {j = i} x no_thread ne))
]

-- The two writes that put thread `n` behind thread `c`.
join_links :
    (ts : List Thread) (c n i : ℕ) (a b : Thread)
    → c < length ts
    → n < length ts
    → a.next ≡ (thread_at ts c).next
    → b.next ≡ n
    → (thread_at (set (set ts n a) c b) i).next
      ≡ (if i == c then n else if i == n then (thread_at ts c).next else (thread_at ts i).next)
join_links ts c n i a b hc hn ea eb =
    links-set (set ts n a) c b i (rw (length-set ts n a) hc) ∙ rw (eb, links-set ts n a i hn, ea)

insert_links :
    (s : Sched) (t : Thread) (i : ℕ)
    → s.current < s.next_tid
    → s.next_tid < length s.threads
    → (thread_at (insert (add s t) s.next_tid).threads i).next ≡ (
        if i == s.current
        then s.next_tid
        else if i == s.next_tid
        then (thread_at s.threads s.current).next
        else (thread_at s.threads i).next)
unfolding insert
insert_links s t i low room =
    let ts = set s.threads s.next_tid t in
    let size : length ts ≡ length s.threads = length-set s.threads s.next_tid t in
    join_links ts s.current s.next_tid i _ _ (omega (arith, size, low, room))
      (omega (arith, size, room)) refl refl
    ∙ ground (
      arith,
      links-set s.threads s.next_tid t s.current room,
      links-set s.threads s.next_tid t i room,
    )

kept_link :
    (i c n a b d : ℕ) (front : List ℕ)
    → d ≡ (if i == c then n else if i == n then a else b)
    → count i front ≢ 0
    → count n front ≡ 0
    → count c front ≡ 0
    → d ≡ b
kept_link i c n a b d front e inside new_out here_out = elim (Bool-cases (i == c)) [
  | inl same ↦ let at : i ≡ c = ground arith in absurd (inside (rw at here_out))
  | inr other ↦ elim (Bool-cases (i == n)) [
    | inl same ↦ let at : i ≡ n = ground arith in absurd (inside (rw at new_out))
    | inr neither ↦ ground arith
  ]
]

join_ring :
    (ts ts' : List Thread) (c n : ℕ) (front : List ℕ)
    → c ≢ n
    → ((i : ℕ)
        → (thread_at ts' i).next
          ≡ (if i == c then n else if i == n then (thread_at ts c).next else (thread_at ts i).next))
    → Circular ts (front ++ c ∷ [])
    → count n front ≡ 0
    → count c front ≡ 0
    → Circular ts' (n ∷ (front ++ c ∷ []))
join_ring ts ts' c n front differ links ring new_out here_out =
    let q = front ++ c ∷ [] in
    let parts = Linked-append_left ts (head_or 0 q) front (c ∷ []) ring in
    let at_new = links n in
    let at_here = links c in
    let first : (thread_at ts' n).next ≡ (thread_at ts c).next = ground arith in
    (
      first ∙ (parts.1.0 ∙ head_or_full 0 n front c),
      Linked-append ts' n front (c ∷ [])
          (Linked-on ts ts' c front
            (λ i inside. kept_link i c n _ _ _ front (links i) inside new_out here_out) parts.0)
          (ground arith, tt),
    )

below_more :
    (x n : ℕ) (q : List ℕ)
    → (count x q ≢ 0 → x < n)
    → (if x == n then 1 else 0) + count x q ≢ 0
    → x < n + 1
below_more x n q below h = elim (Bool-cases (x == n)) [
  | inl same ↦ ground arith
  | inr other ↦ omega (arith, below (ground (arith, h)))
]

once_more :
    (x n : ℕ) (q : List ℕ)
    → count x q ≤ 1
    → count n q ≡ 0
    → (if x == n then 1 else 0) + count x q ≤ 1
once_more x n q once absent = elim (Bool-cases (x == n)) [
  | inr other ↦ ground (arith, once)
  | inl same ↦
      let at : x ≡ n = ground arith in
      let here : count x q ≡ 0 = rw at absent in ground (arith, here)
]

insert_table :
    (s : Sched) (t : Thread) → length (insert (add s t) s.next_tid).threads ≡ length s.threads
unfolding insert
insert_table s t =
    let ts = set s.threads s.next_tid t in
    length-set (set ts s.next_tid _) s.current _
    ∙ (length-set ts s.next_tid _ ∙ length-set s.threads s.next_tid t)

pub insert-RingOf :
    (s : Sched) (t : Thread) (front : List ℕ)
    → RingOf s front
    → s.next_tid < max_threads
    → RingOf (insert (add s t) s.next_tid) (s.next_tid ∷ front)
unfolding insert
insert-RingOf s t front r room =
    let q = front ++ s.current ∷ [] in
    let low : s.current < s.next_tid =
      r.below s.current (ground (arith, count-append s.current front (s.current ∷ []))) in
    let absent : count s.next_tid q ≡ 0 = ground (arith, r.below s.next_tid) in
    let links = λ (i : ℕ). insert_links s t i low (omega (arith, room, r.table)) in
    let new_split = count-append s.next_tid front (s.current ∷ []) in
    let here_split : count s.current q ≡ count s.current front + 1 =
      count-append s.current front (s.current ∷ []) ∙ ground arith in
    record {
      circular =
          join_ring s.threads (insert (add s t) s.next_tid).threads s.current s.next_tid front
            (omega (arith, low)) links r.circular (omega (arith, absent, new_split))
            (omega (arith, r.once s.current, here_split));
      once = λ x. once_more x s.next_tid q (r.once x) absent;
      below = λ x h. below_more x s.next_tid q (r.below x) h;
      table = insert_table s t ∙ r.table;
      fits = omega (arith, room);
      shorter = omega (arith, r.shorter);
      idle_in = λ z. r.idle_in (omega (arith, z));
    }

-- A thread that is adopted gets the next number and comes first in the ring, before all the others,
-- which keep their order; when the table is full the adoption fails and changes nothing.
pub adopt_thread-RingOf :
    (s : Sched) (front : List ℕ) (rsp cr3 : ℕ) (proc : Option ℕ) (base size : ℕ)
    → RingOf s front
    → ((s.next_tid ≡ max_threads) × (adopt_thread s rsp cr3 proc base size ≡ (none, s)))
      ⊎ (((adopt_thread s rsp cr3 proc base size).0 ≡ some s.next_tid)
          × RingOf (adopt_thread s rsp cr3 proc base size).1 (s.next_tid ∷ front))
unfolding adopt_thread
adopt_thread-RingOf s front rsp cr3 proc base size r =
    elim (Bool-cases (leb max_threads s.next_tid)) [
      | inl full ↦ inl (ground (arith, r.fits), ground arith)
      | inr room ↦ inr (
        rw (room, adopt_thread) refl,
        rw (room, adopt_thread) (insert-RingOf s _ front r (ground arith)),
      )
    ]
