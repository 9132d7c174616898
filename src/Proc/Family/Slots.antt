-- ===== src/Proc/Family/Slots.antt =====
-- The slots of the process table under the lookups and updates of kernel/proc/process.c.
use void.Base.{
  ℕ, zero, suc, ◌<◌, ◌≡◌, ◌≢◌, ◌⊎◌, refl, sym, ap, ◌∙◌, Bool, true, false, ◌&&◌, ◌==◌,
  if◌then◌else◌, Bool-cases, inl, inr, arith, Option, none, some, List, [], ◌∷◌, length, get_or,
  set, get_or-set_self, get_or-set_ne,
}
use void.Proc.Table.{Process, State, no_process, proc_at, used, find_process}
use void.Proc.Life.{reparent}
use void.Proc.Family.{kin_of, kin_at, joined}

pub in_table : (cs : List Process) (i : ℕ) → used (get_or cs i no_process) ≡ true → i < length cs
in_table [] i h = cc h
in_table (c ∷ cs) zero h = omega arith
in_table (c ∷ cs) (suc i) h = let r = in_table cs i h in omega (arith, r)

pub get_or-set :
    (cs : List Process) (i : ℕ) (c : Process) (k : ℕ)
    → i < length cs
    → get_or (set cs i c) k no_process ≡ (if k == i then c else get_or cs k no_process)
get_or-set cs i c k inside = elim (Bool-cases (k == i)) [
  | inl h ↦
      let e : k ≡ i = ground (arith, h) in
      rw h (ap (λ k. get_or (set cs i c) k no_process) e ∙ get_or-set_self cs i c no_process inside)
  | inr h ↦ let ne : i ≢ k = (λ e. ground (arith, h, e)) in rw h (get_or-set_ne cs c no_process ne)
]

found_cases :
    (b : Bool) (r : Option ℕ) (i : ℕ)
    → (if b then some 0 else (elim r as (λ r. Option ℕ) [ none ↦ none | some k ↦ some (suc k) ]))
      ≡ some i
    → ((b ≡ true) × (i ≡ 0)) ⊎ ((k : ℕ) × (r ≡ some k) × (i ≡ suc k))
found_cases true r i h = inl (refl, cc h)
found_cases false none i h = cc h
found_cases false (some k) i h = inr (k, refl, cc h)

-- A search that finds a slot finds one that passes the test.
pub find_process-some :
    (f : Process → Bool) (cs : List Process) (i : ℕ)
    → find_process f cs ≡ some i
    → (f (get_or cs i no_process) ≡ true) × (i < length cs)
unfolding find_process
find_process-some f [] i h = cc h
find_process-some f (c ∷ cs) i h = elim (found_cases (f c) (find_process f cs) i h) [
  | inl (e, at) ↦ (ap (λ i. f (get_or (c ∷ cs) i no_process)) at ∙ e, omega (arith, at))
  | inr (k, e, at) ↦
      let (passes, inside) = find_process-some f cs k e in
      (ap (λ i. f (get_or (c ∷ cs) i no_process)) at ∙ passes, omega (arith, at, inside))
]

abbrev pub handed : ℕ → ℕ → Process → Process
handed pid ppid c = if used c && c.ppid == pid then record c { ppid = ppid } else c

pub get_or-reparent :
    (pid ppid : ℕ) (cs : List Process) (k : ℕ)
    → get_or (reparent pid ppid cs) k no_process ≡ handed pid ppid (get_or cs k no_process)
unfolding reparent
get_or-reparent pid ppid [] k = refl
get_or-reparent pid ppid (c ∷ cs) zero = refl
get_or-reparent pid ppid (c ∷ cs) (suc k) = get_or-reparent pid ppid cs k

pub length-reparent : (pid ppid : ℕ) (cs : List Process) → length (reparent pid ppid cs) ≡ length cs
unfolding reparent
length-reparent pid ppid [] = refl
length-reparent pid ppid (c ∷ cs) = ap suc (length-reparent pid ppid cs)

pub kin_at-set :
    (s : State) (i : ℕ) (c : Process) (k : ℕ)
    → i < length s.procs
    → kin_of (get_or (set s.procs i c) k no_process) ≡ joined (kin_at s) i (kin_of c) k
kin_at-set s i c k inside = elim (Bool-cases (k == i)) [
  | inl h ↦
      let at : get_or (set s.procs i c) k no_process ≡ c =
        get_or-set s.procs i c k inside ∙ rw h refl in
      rw h (ap kin_of at)
  | inr h ↦
      let at : get_or (set s.procs i c) k no_process ≡ proc_at s k =
        get_or-set s.procs i c k inside ∙ rw h refl in
      rw h (ap kin_of at)
]

-- An update that keeps a process's kin keeps all.
pub same_kin :
    (s : State) (i : ℕ) (c : Process) (k : ℕ)
    → i < length s.procs
    → kin_of c ≡ kin_at s i
    → kin_of (get_or (set s.procs i c) k no_process) ≡ kin_at s k
same_kin s i c k inside same = elim (Bool-cases (k == i)) [
  | inl h ↦
      let e : k ≡ i = ground (arith, h) in
      kin_at-set s i c k inside ∙ rw h (same ∙ ap (kin_at s) (sym e))
  | inr h ↦ kin_at-set s i c k inside ∙ rw h refl
]
