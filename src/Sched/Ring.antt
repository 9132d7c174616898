-- ===== src/Sched/Ring.antt =====
-- The ring of the threads of kernel/sched/sched.c, as the list of the threads in the order in which
-- a search meets them: the current one comes last.
use void.Base.{
  ℕ, zero, suc, ◌+◌, ◌≤◌, ◌<◌, ◌≡◌, ◌∙◌, ◌≢◌, Option, none, some, List, [], ◌∷◌, ◌++◌, ◌==◌, arith,
  if◌then◌else◌, length, append_nil,
}
use mathlib.Core.Path.{subst}
use void.Sched.{Thread, Sched, thread_at, is_ready, search_from, max_threads}

abbrev pub head_or : ℕ → List ℕ → ℕ
head_or f [] = f
head_or f (x ∷ xs) = x

-- Each thread's link is the next of the list, and the last one's is `f`.
abbrev pub Linked : List Thread → ℕ → List ℕ → Type 0
Linked ts f [] = Unit {0}
Linked ts f (x ∷ xs) = ((thread_at ts x).next ≡ head_or f xs) × Linked ts f xs

abbrev pub Circular : List Thread → List ℕ → Type 0
Circular ts q = Linked ts (head_or 0 q) q

abbrev pub count : ℕ → List ℕ → ℕ
count x [] = 0
count x (y ∷ ys) = (if x == y then 1 else 0) + count x ys

pub count-append : (x : ℕ) (xs ys : List ℕ) → count x (xs ++ ys) ≡ count x xs + count x ys
count-append x [] ys = omega arith
count-append x (y ∷ xs) ys = omega (arith, count-append x xs ys)

-- The first thread of the list that can run.
abbrev pub first_ready : List Thread → List ℕ → Option ℕ
first_ready ts [] = none
first_ready ts (x ∷ xs) = if is_ready ts x then some x else first_ready ts xs

pub search_first :
    (ts : List Thread) (start fuel x : ℕ) (xs : List ℕ)
    → Linked ts start (x ∷ xs)
    → count start xs ≡ 0
    → length xs < fuel
    → search_from ts start fuel x ≡ first_ready ts (x ∷ xs)
unfolding search_from
search_first ts start zero x xs l once h = absurd (omega arith)
search_first ts start (suc fuel) x [] l once h = ground (arith, l.0)
search_first ts start (suc fuel) x (y ∷ xs) l once h =
    let later = search_first ts start fuel y xs l.1 (ground arith) (omega arith) in
    ground (arith, l.0, later)

pub Linked-append_left :
    (ts : List Thread) (f : ℕ) (xs ys : List ℕ)
    → Linked ts f (xs ++ ys)
    → Linked ts (head_or f ys) xs × Linked ts f ys
Linked-append_left ts f [] ys l = (tt, l)
Linked-append_left ts f (x ∷ []) ys l = ((l.0, tt), l.1)
Linked-append_left ts f (x ∷ z ∷ xs) ys l =
    let r = Linked-append_left ts f (z ∷ xs) ys l.1 in ((l.0, r.0), r.1)

pub Linked-append :
    (ts : List Thread) (f : ℕ) (xs ys : List ℕ)
    → Linked ts (head_or f ys) xs
    → Linked ts f ys
    → Linked ts f (xs ++ ys)
Linked-append ts f [] ys l m = m
Linked-append ts f (x ∷ []) ys l m = (l.0, m)
Linked-append ts f (x ∷ z ∷ xs) ys l m = (l.0, Linked-append ts f (z ∷ xs) ys l.1 m)

-- A ring can be read from any of its threads on.
pub Circular-rotate :
    (ts : List Thread) (xs ys : List ℕ) → Circular ts (xs ++ ys) → Circular ts (ys ++ xs)
Circular-rotate ts [] ys c = rw (append_nil ys) c
Circular-rotate ts (x ∷ xs) [] c = subst (λ q. Circular ts q) (append_nil (x ∷ xs)) c
Circular-rotate ts (x ∷ xs) (y ∷ ys) c =
    let parts = Linked-append_left ts x (x ∷ xs) (y ∷ ys) c in
    Linked-append ts y (y ∷ ys) (x ∷ xs) parts.1 parts.0

-- What a step leaves of the links.
pub Linked-same :
    (ts ts' : List Thread) (f : ℕ) (xs : List ℕ)
    → ((i : ℕ) → (thread_at ts' i).next ≡ (thread_at ts i).next)
    → Linked ts f xs
    → Linked ts' f xs
Linked-same ts ts' f [] same l = tt
Linked-same ts ts' f (x ∷ xs) same l = (same x ∙ l.0, Linked-same ts ts' f xs same l.1)

-- Read from the thread after the current one, the ring is `front` and then the current one.
pub record RingOf (s : Sched) (front : List ℕ) : Type 0 where
  pub circular : Circular s.threads (front ++ s.current ∷ [])
  pub once : (x : ℕ) → count x (front ++ s.current ∷ []) ≤ 1
  pub below : (x : ℕ) → count x (front ++ s.current ∷ []) ≢ 0 → x < s.next_tid
  pub table : length s.threads ≡ max_threads
  pub fits : s.next_tid ≤ max_threads
  pub shorter : length front < s.next_tid
  pub idle_in : count s.idle_thread (front ++ s.current ∷ []) ≢ 0
