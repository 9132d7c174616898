-- ===== src/Ipc/Queue/Fifo.antt =====
-- The circular queue of an endpoint (kernel/ipc/ipc.c) seen as the list of its messages.
use void.Base.{
  ℕ, zero, suc, ◌+◌, ◌-◌, ◌%◌, ◌≤◌, ◌<◌, ◌≡◌, refl, ◌≢◌, Bool, Option, none, some, List, [], ◌∷◌,
  ◌++◌, arith, leb, if◌then◌else◌, set, get_or, length, length-set, ap, Ret, ok, err, nomem, badf,
  get_or-set_self, get_or-set_ne, ◌∙◌, Errno, Ret-cases, Option-cases, inl, inr,
}
use mathlib.Core.Path.{ap₂}
use void.Ipc.Queue.{Message, blank, Endpoint, enqueue, dequeue}

pub record IsValid (ep : Endpoint) : Type 0 where
  pub storage : length ep.queue ≡ 16
  pub head_in : ep.queue_head < 16
  pub count_in : ep.queue_count ≤ 16
  pub tail_at : ep.queue_tail ≡ (ep.queue_head + ep.queue_count) % 16

-- The `n` messages from position `h` on, the positions taken modulo the depth.
abbrev pub slots : List Message → ℕ → ℕ → List Message
slots q h zero = []
slots q h (suc n) = get_or q (h % 16) blank ∷ slots q (suc h) n

abbrev pub contents : Endpoint → List Message
contents ep = slots ep.queue ep.queue_head ep.queue_count

pub length-slots : (q : List Message) (h n : ℕ) → length (slots q h n) ≡ n
length-slots q h zero = refl
length-slots q h (suc n) = ap suc (length-slots q (suc h) n)

pub length-contents : (ep : Endpoint) → length (contents ep) ≡ ep.queue_count
length-contents ep = length-slots ep.queue ep.queue_head ep.queue_count

slots_mod : (q : List Message) (n h k : ℕ) → h % 16 ≡ k % 16 → slots q h n ≡ slots q k n
slots_mod q zero h k e = refl
slots_mod q (suc n) h k e =
    ap₂ ◌∷◌ (ap (λ i. get_or q i blank) e) (slots_mod q n (suc h) (suc k) (omega arith))

-- A write that lies behind the window does not show in it.
slots-set_outside :
    (q : List Message) (m : Message) (n h i j : ℕ)
    → n ≤ j
    → j < 16
    → i ≡ (h + j) % 16
    → slots (set q i m) h n ≡ slots q h n
slots-set_outside q m zero h i j le lt e = refl
slots-set_outside q m (suc n) h i j le lt e =
    ap₂ ◌∷◌ (get_or-set_ne q {i = i} {j = h % 16} m blank (omega arith))
      (slots-set_outside q m n (suc h) i (j - 1) (omega arith) (omega arith) (omega arith))

-- A write just behind the window extends it.
slots-set_end :
    (q : List Message) (m : Message) (n h i : ℕ)
    → length q ≡ 16
    → n < 16
    → i ≡ (h + n) % 16
    → slots (set q i m) h (suc n) ≡ slots q h n ++ m ∷ []
slots-set_end q m zero h i len lt e =
    ap (λ x. x ∷ [])
      (ap (λ k. get_or (set q i m) k blank) here ∙ get_or-set_self q i m blank (omega arith))
  where
    here : h % 16 ≡ i
    here = omega arith
slots-set_end q m (suc n) h i len lt e =
    ap₂ ◌∷◌ (get_or-set_ne q {i = i} {j = h % 16} m blank (omega arith))
      (slots-set_end q m n (suc h) i len (omega arith) (omega arith))

slots_pred :
    (q : List Message) (h n : ℕ)
    → n ≢ 0
    → slots q h n ≡ get_or q (h % 16) blank ∷ slots q (suc h) (n - 1)
slots_pred q h zero ne = absurd (ne refl)
slots_pred q h (suc n) ne = ap (λ k. get_or q (h % 16) blank ∷ slots q (suc h) k) (omega arith)

-- A queue of at most sixteen messages, oldest first, and a mark that refuses more.
unfoldable pub push : Bool → List Message → Message → Ret (List Message)
push closed q m =
    if leb 16 (length q) then err nomem else if closed then err badf else ok (q ++ m ∷ [])

unfoldable pub pop : List Message → Option (Message × List Message)
pop [] = none
pop (m ∷ q) = some (m, q)

abbrev pub seen : Ret Endpoint → Ret (List Message)
seen (ok ep) = ok (contents ep)
seen (err e) = err e

abbrev pub seen? : Option (Message × Endpoint) → Option (Message × List Message)
seen? none = none
seen? (some (m, ep)) = some (m, contents ep)

-- On a valid endpoint, enqueueing reports what the bounded list reports (full before closed), and
-- where it succeeds the messages are the old ones and the new one behind them.
pub enqueue_refines :
    (ep : Endpoint) (m : Message)
    → IsValid ep
    → seen (enqueue ep m) ≡ push ep.closed (contents ep) m
unfolding enqueue push
enqueue_refines ep m v = ground (
  arith,
  length-slots ep.queue ep.queue_head ep.queue_count,
  slots-set_end ep.queue m ep.queue_count ep.queue_head ep.queue_tail v.storage,
)

pub dequeue_refines : (ep : Endpoint) → IsValid ep → seen? (dequeue ep) ≡ pop (contents ep)
unfolding dequeue pop
dequeue_refines ep v = ground (
  arith,
  slots_pred ep.queue ep.queue_head ep.queue_count,
  slots_mod ep.queue (ep.queue_count - 1) (suc ep.queue_head) ((ep.queue_head + 1) % 16),
)

pub enqueue-IsValid :
    (ep : Endpoint) (m : Message) {ep' : Endpoint}
    → IsValid ep
    → enqueue ep m ≡ ok ep'
    → IsValid ep'
unfolding enqueue
enqueue-IsValid ep m v e = ground (arith, length-set ep.queue ep.queue_tail m)

pub dequeue-IsValid :
    (ep : Endpoint) {m : Message} {ep' : Endpoint}
    → IsValid ep
    → dequeue ep ≡ some (m, ep')
    → IsValid ep'
unfolding dequeue
dequeue-IsValid ep v e = ground arith

pub closed-enqueue :
    (ep : Endpoint) (m : Message) {ep' : Endpoint} → enqueue ep m ≡ ok ep' → ep'.closed ≡ ep.closed
unfolding enqueue
closed-enqueue ep m e = ground arith

pub closed-dequeue :
    (ep : Endpoint) {m : Message} {ep' : Endpoint}
    → dequeue ep ≡ some (m, ep')
    → ep'.closed ≡ ep.closed
unfolding dequeue
closed-dequeue ep e = ground arith

-- What a client can do to a queue, and what it learns from each operation.
pub data Op : Type 0 where
  put : Message → Op
  take : Op

pub data Seen : Type 0 where
  accepted : Seen
  refused : Errno → Seen
  empty : Seen
  got : Message → Seen

unfoldable pub run : Endpoint → List Op → List Seen
run ep [] = []
run ep (put m ∷ ops) = elim (enqueue ep m) [
  | ok ep' ↦ accepted ∷ run ep' ops
  | err e ↦ refused e ∷ run ep ops
]
run ep (take ∷ ops) = elim (dequeue ep) [
  | none ↦ empty ∷ run ep ops
  | some (m, ep') ↦ got m ∷ run ep' ops
]

unfoldable pub run_list : Bool → List Message → List Op → List Seen
run_list closed q [] = []
run_list closed q (put m ∷ ops) = elim (push closed q m) [
  | ok q' ↦ accepted ∷ run_list closed q' ops
  | err e ↦ refused e ∷ run_list closed q ops
]
run_list closed q (take ∷ ops) = elim (pop q) [
  | none ↦ empty ∷ run_list closed q ops
  | some (m, q') ↦ got m ∷ run_list closed q' ops
]

-- No sequence of enqueues and dequeues on a valid endpoint tells its circular queue from the bounded
-- list of its messages: the same refusals, and the same messages in the order of their arrival.
pub run_refines :
    (ops : List Op) (ep : Endpoint) → IsValid ep → run ep ops ≡ run_list ep.closed (contents ep) ops
unfolding run run_list
run_refines [] ep v = refl
run_refines (put m ∷ ops) ep v = elim (Ret-cases (enqueue ep m)) [
  | inl (ep', e) ↦ ground (
    arith,
    enqueue_refines ep m v,
    closed-enqueue ep m e,
    run_refines ops ep' (enqueue-IsValid ep m v e),
  )
  | inr (x, e) ↦ ground (arith, enqueue_refines ep m v, run_refines ops ep v)
]
run_refines (take ∷ ops) ep v = elim (Option-cases (dequeue ep)) [
  | inl e ↦ ground (arith, dequeue_refines ep v, run_refines ops ep v)
  | inr ((m, ep'), e) ↦ ground (
    arith,
    dequeue_refines ep v,
    closed-dequeue ep e,
    run_refines ops ep' (dequeue-IsValid ep v e),
  )
]
