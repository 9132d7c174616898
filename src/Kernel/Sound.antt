-- ===== src/Kernel/Sound.antt =====
-- The invariant of the kernel state that kernel/ipc/ipc.c and kernel/svc/svc.c share.
use void.Base.{ℕ, ◌≤◌, ◌≡◌, Option, some, List, length}
use void.Ipc.Handles.{Table}
use void.Ipc.Registry.Sound.{RegistryOk}
use void.Ipc.Queue.{Message}
use void.Kernel.{Kernel, Heap}
use void.Svc.{Service}
use void.Svc.Names.{Unique}

pub record ServicesOk (es : List Service) : Type 0 where
  pub unique : Unique es
  pub bounded : length es ≤ 64

abbrev pub TablesOk : (ℕ → Option Table) → Type 0
TablesOk tables = (pid : ℕ) (t : Table) → tables pid ≡ some t → length t ≡ 64

pub record Sound {M : Type 0} (k : Kernel M) : Type 0 where
  pub registry_ok : RegistryOk k.registry
  pub services_ok : ServicesOk k.services
  pub tables_ok : TablesOk k.tables

-- An allocated endpoint has room for sixteen messages.
abbrev pub HeapOk : Heap → Type 0
HeapOk heap = (g : List Message) → heap.endpoint ≡ some g → length g ≡ 16
