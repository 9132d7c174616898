-- ===== src/Proc/Family.antt =====
-- Who is whose parent in the process table, kernel/proc/process.c.
pub mod Slots
pub mod Changes
pub mod Effects
pub mod Calls
pub mod Births
pub mod Reach
pub mod Reap
use void.Base.{
  ℕ, zero, suc, ◌+◌, ◌<◌, ◌≤◌, ◌≡◌, ◌≢◌, ◌⊎◌, refl, sym, ap, ◌∙◌, Bool, true, false, not, ◌&&◌,
  ◌==◌, if◌then◌else◌, Bool-cases, inl, inr, arith,
}
use void.Proc.Table.{Process, State, proc_at, used, is_zombie}

-- What the parentage depends on, and the exit status.
pub record Kin : Type 0 where
  pub pid : ℕ
  pub ppid : ℕ
  pub here : Bool
  pub dead : Bool
  pub status : ℕ

abbrev pub kin_of : Process → Kin
kin_of c = record {
  pid = c.pid;
  ppid = c.ppid;
  here = used c;
  dead = is_zombie c;
  status = c.exit_status;
}

abbrev pub kin_at : State → ℕ → Kin
kin_at s i = kin_of (proc_at s i)

abbrev pub live : Kin → Bool
live c = c.here && not c.dead

-- Slot `j` holds the parent of `c`, alive and older than `c`.
pub record ParentAt (f : ℕ → Kin) (c : Kin) (j : ℕ) : Type 0 where
  pub alive : live (f j) ≡ true
  pub named : (f j).pid ≡ c.ppid
  pub older : c.ppid < c.pid

-- Slot 0 is the kernel's process; no two processes have the same pid; the parent of every other
-- process, dead ones included, is a living process with a smaller pid.
pub record FamilyOk (f : ℕ → Kin) (next_pid : ℕ) : Type 0 where
  pub root : ((f 0).pid ≡ 0) × (live (f 0) ≡ true)
  pub unique : (i j : ℕ) → (f i).here ≡ true → (f j).here ≡ true → (f i).pid ≡ (f j).pid → i ≡ j
  pub young : (i : ℕ) → (f i).here ≡ true → (f i).pid < next_pid
  pub parented : (i : ℕ) → (f i).here ≡ true → i ≢ 0 → (j : ℕ) × ParentAt f (f i) j

abbrev pub Family : State → Type 0
Family s = FamilyOk (kin_at s) s.next_pid

-- A process joins in a free slot, and one leaves.
abbrev pub joined : (ℕ → Kin) → ℕ → Kin → ℕ → Kin
joined f i c k = if k == i then c else f k

-- Process `i` dies with a status, and its children are handed to its parent.
abbrev pub ended : (ℕ → Kin) → ℕ → ℕ → ℕ → Kin
ended f i status k =
    if k == i
    then record (f i) { dead = true; status = status }
    else if (f k).here && (f k).ppid == (f i).pid
    then record (f k) { ppid = (f i).ppid }
    else f k
