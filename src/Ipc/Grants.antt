-- ===== src/Ipc/Grants.antt =====
-- Where a handle to an endpoint comes from (kernel/ipc/ipc.c, sys_ipc_connect, and
-- kernel/svc/svc.c, sys_sr_lookup), and what it can still reach once the owner is gone.
use void.Base.{
  ℕ, ◌<◌, ◌≡◌, ◌≢◌, false, Option, some, [], ◌∷◌, arith, length, Option-cases, Bool-cases, inl, inr,
}
use void.Ipc.Handles.{Table, free_handle, handle_at, target}
use void.Kernel.{Kernel, Heap, ensure_table, update}
use void.Kernel.Holds.{Holds, returns, fails}

pub free_handle_lem :
    (t : Table) {i : ℕ}
    → free_handle t ≡ some i
    → (i < length t) × ((handle_at t i).allocated ≡ false)
unfolding free_handle
free_handle_lem [] e = ground arith
free_handle_lem (h ∷ hs) {i} e = elim (Option-cases (free_handle hs)) [
  | inl full ↦ ground arith
  | inr (j, e') ↦ ground (arith, free_handle_lem hs e')
]

module _ {M : Type 0} where
  -- `k'` is `k` but for the handle table of `pid`.
  pub record OnlyTable (pid : ℕ) (k k' : Kernel M) : Type 0 where
    pub registry_same : k'.registry ≡ k.registry
    pub services_same : k'.services ≡ k.services
    pub memory_same : k'.memory ≡ k.memory
    pub current_same : k'.current ≡ k.current
    pub others_same : (q : ℕ) → q ≢ pid → k'.tables q ≡ k.tables q

  -- The new handle of `pid` names the endpoint `(owner, id)`; its slot was not in use.
  pub record Granted (pid owner id handle : ℕ) (k' : Kernel M) : Type 0 where
    pub table : Table
    pub installed : k'.tables pid ≡ some table
    pub names : handle_at table handle ≡ target owner id

  OnlyTable-table :
      (pid : ℕ) (k k' : Kernel M) (o : Option Table)
      → OnlyTable pid k k'
      → OnlyTable pid k (record k' { tables = update k'.tables pid o })
  OnlyTable-table pid k k' o same = record {
    registry_same = same.registry_same;
    services_same = same.services_same;
    memory_same = same.memory_same;
    current_same = same.current_same;
    others_same = λ q ne. ground (arith, same.others_same q ne);
  }

  pub ensure_table-OnlyTable :
      (heap : Heap) (pid : ℕ) (k0 k : Kernel M)
      → OnlyTable pid k0 k
      → Holds (OnlyTable pid k0) (λ t k'. k'.tables pid ≡ some t) (ensure_table heap pid k)
  unfolding ensure_table
  ensure_table-OnlyTable heap pid k0 k same = elim (Option-cases (k.tables pid)) [
    | inr (t, e) ↦ rw (e, ensure_table) (returns same e)
    | inl e ↦ elim (Bool-cases heap.table) [
      | inl got ↦
          rw (e, got, ensure_table) (returns (OnlyTable-table pid k0 k _ same) (ground arith))
      | inr oom ↦ rw (e, oom, ensure_table) (fails same)
    ]
  ]
