-- ===== src/Kernel.antt =====
-- The kernel state that the system calls of kernel/ipc/ipc.c and kernel/svc/svc.c share, and the
-- commands over it.
pub mod Access
pub mod Holds
pub mod Sound
pub mod Rules
use Access.{UserAccess}
use void.Base.{
  ℕ, ◌+◌, ◌/◌, ◌%◌, Bool, true, Option, none, some, List, [], ◌∷◌, ◌==◌, if◌then◌else◌, Ret, ok,
  err, Errno,
}
use void.Ipc.Queue.{Message}
use void.Ipc.Registry.{Registry}
use void.Ipc.Handles.{Table, Handle, create_table}
use void.Base.{set}
use void.Svc.{Service}

-- `current` is the pid of process_current(); `tables` is each process's `ipc_handles`.
pub record Kernel (Mem : Type 0) : Type 0 where
  pub current : Option ℕ
  pub tables : ℕ → Option Table
  pub registry : Registry
  pub services : List Service
  pub memory : Mem

-- A call returns the new state beside its value or its error number.
abbrev pub Cmd : Type 0 → Type 0 → Type 0
Cmd Mem A = Kernel Mem → Kernel Mem × Ret A

abbrev pub and_then : {M A B : Type 0} → Kernel M × Ret A → (A → Cmd M B) → Kernel M × Ret B
and_then (k, ok a) f = f a k
and_then (k, err e) f = (k, err e)

infixl 5 ◌>>=◌ ◌>>◌
abbrev pub ◌>>=◌ : {M A B : Type 0} → Cmd M A → (A → Cmd M B) → Cmd M B
m >>= f = λ k. and_then (m k) f

abbrev pub ◌>>◌ : {M A B : Type 0} → Cmd M A → Cmd M B → Cmd M B
m >> n = m >>= λ _. n

abbrev pub pure : {M A : Type 0} → A → Cmd M A
pure a k = (k, ok a)

abbrev pub fail : {M A : Type 0} → Errno → Cmd M A
fail e k = (k, err e)

-- `if (!test) return -VE_X;`
abbrev pub require : {M : Type 0} → Bool → Errno → Cmd M (Unit {0})
require b e k = if b then (k, ok tt) else (k, err e)

abbrev pub some_or : {M A : Type 0} → Option A → Errno → Cmd M A
some_or none e k = (k, err e)
some_or (some a) e k = (k, ok a)

abbrev pub gets : {M A : Type 0} → (Kernel M → A) → Cmd M A
gets f k = (k, ok (f k))

abbrev pub modify : {M : Type 0} → (Kernel M → Kernel M) → Cmd M (Unit {0})
modify f k = (f k, ok tt)

abbrev pub try : {M A : Type 0} → Ret A → Cmd M A
try r k = (k, r)

-- What kmalloc returns for a handle table and for an endpoint, with the garbage in its queue.
pub record Heap : Type 0 where
  pub table : Bool
  pub endpoint : Option (List Message)

abbrev pub update : {A : Type 0} → (ℕ → A) → ℕ → A → ℕ → A
update f p a q = if q == p then a else f q

-- The handle table of a process, allocated at its first use.
unfoldable pub ensure_table : {M : Type 0} → Heap → ℕ → Cmd M Table
unfolding create_table
ensure_table heap pid k = elim (k.tables pid) [
  | some t ↦ (k, ok t)
  | none ↦
      if heap.table
      then (record k { tables = update k.tables pid (some create_table) }, ok create_table)
      else (k, err Errno.nomem)
]

-- A write to a slot of the table `t` of a process.
abbrev pub set_handle : {M : Type 0} → ℕ → Table → ℕ → Handle → Cmd M (Unit {0})
set_handle pid t i h = modify (λ k. record k { tables = update k.tables pid (some (set t i h)) })

-- process_current(), or -VE_PERM.
abbrev pub current : {M : Type 0} → Cmd M ℕ
current = do p ← gets (λ k. k.current); some_or p Errno.perm
