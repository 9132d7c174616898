-- ===== src/Svc/Publish.antt =====
-- What a name finds after the calls of kernel/svc/svc.c that change the name table.
use void.Base.{ℕ, ◌≡◌}
use void.Ipc.Calls.{exit_process}
use void.Kernel.{Kernel}
use void.Kernel.Holds.{Holds}
use void.Kernel.Sound.{Sound}
use void.Svc.{Name, find_name}
use void.Svc.Names.{service, find-cleanup, kept}

module _ {M : Type 0} where
  -- `k'` is `k` but for the name table.
  pub record OnlyNames (k k' : Kernel M) : Type 0 where
    pub registry_same : k'.registry ≡ k.registry
    pub tables_same : k'.tables ≡ k.tables
    pub current_same : k'.current ≡ k.current
    pub memory_same : k'.memory ≡ k.memory

  -- After the exit of a process no name finds a service of it, and the names of the other processes
  -- find what they did.
  pub exit-names :
      (pid : ℕ) (k : Kernel M) (m : Name)
      → Sound k
      → service (find_name (exit_process pid k).services m)
        ≡ kept pid (service (find_name k.services m))
  unfolding exit_process
  exit-names pid k m s = find-cleanup k.services pid m s.services_ok.unique
