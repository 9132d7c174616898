-- ===== src/Kernel/Rules.antt =====
-- The rules by which the calls of kernel/ipc/ipc.c and kernel/svc/svc.c keep the kernel's invariant.
use void.Base.{
  ℕ, ◌≡◌, refl, some, List, arith, length, Option-cases, inl, inr, length-set, Bool-cases, ◌∙◌, set,
}
use void.Ipc.Registry.{Registry}
use void.Ipc.Registry.Sound.{RegistryOk}
use void.Ipc.Handles.{Table, Handle, create_table}
use void.Kernel.{Kernel, Heap, ensure_table, update, set_handle}
use void.Kernel.Holds.{Holds, returns, fails}
use void.Kernel.Sound.{Sound, ServicesOk}
use void.Svc.{Service}

length-create_table : length create_table ≡ 64
unfolding create_table
length-create_table = refl

module _ {M : Type 0} where
  abbrev pub IsTable : Table → Kernel M → Type 0
  IsTable t k = length t ≡ 64

  -- A state whose changed parts are in order.
  pub registry-Sound :
      (k : Kernel M) (r : Registry) → RegistryOk r → Sound k → Sound (record k { registry = r })
  registry-Sound k r o s = record {
    registry_ok = o;
    services_ok = s.services_ok;
    tables_ok = s.tables_ok;
  }

  pub services-Sound :
      (k : Kernel M) (es : List Service)
      → ServicesOk es
      → Sound k
      → Sound (record k { services = es })
  services-Sound k es o s = record {
    registry_ok = s.registry_ok;
    services_ok = o;
    tables_ok = s.tables_ok;
  }

  pub table-Sound :
      (k : Kernel M) (pid : ℕ) (t : Table)
      → length t ≡ 64
      → Sound k
      → Sound (record k { tables = update k.tables pid (some t) })
  table-Sound k pid t len s = record {
    registry_ok = s.registry_ok;
    services_ok = s.services_ok;
    tables_ok = λ p t' e. ground (arith, s.tables_ok p t');
  }

  pub ensure_table-Holds :
      (heap : Heap) (pid : ℕ) (k : Kernel M)
      → Sound k
      → Holds Sound IsTable (ensure_table heap pid k)
  unfolding ensure_table
  ensure_table-Holds heap pid k s = elim (Option-cases (k.tables pid)) [
    | inr (t, e) ↦ rw (e, ensure_table) (returns s (s.tables_ok pid t e))
    | inl e ↦ elim (Bool-cases heap.table) [
      | inl got ↦
          rw (e, got, ensure_table)
            (returns (table-Sound k pid create_table length-create_table s) length-create_table)
      | inr oom ↦ rw (e, oom, ensure_table) (fails s)
    ]
  ]

  pub set_handle-Sound :
      (k : Kernel M) (pid : ℕ) (t : Table) (i : ℕ) (h : Handle)
      → length t ≡ 64
      → Sound k
      → Sound (set_handle pid t i h k).0
  set_handle-Sound k pid t i h len s = table-Sound k pid (set t i h) (length-set t i h ∙ len) s
