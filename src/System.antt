-- ===== src/System.antt =====
-- The IPC and service calls together: whichever process runs, in whatever order the calls come
-- (kernel/ipc/ipc.c, kernel/svc/svc.c, and the exit paths of kernel/proc/process.c).
use void.Base.{ℕ, Option, none, [], arith}
use void.Ipc.Calls.{endpoint_create, connect, send, recv, close, exit_process, destroy_process}
use void.Ipc.Sound.{
  endpoint_create-Holds, connect-Holds, close-Holds, unregister-Sound, destroy-Sound,
}
use void.Ipc.Messages.{send-Holds, recv-Holds}
use void.Kernel.{Kernel, Heap}
use void.Kernel.Access.{UserAccess}
use void.Kernel.Holds.{keeps}
use void.Kernel.Sound.{Sound, HeapOk}
use void.Svc.{Name}
use void.Svc.Calls.{register, unregister, lookup_service}
use void.Svc.Sound.{register-Holds, unregister-Holds, lookup_service-Holds}

module _ (u : UserAccess) where
  -- One event: a call by the current process, a switch of the current process, a write to memory by
  -- a user, or the end of a process.
  pub data Step : Kernel u.Mem → Kernel u.Mem → Type 0 where
    creates : (heap : Heap) (k : Kernel u.Mem) → HeapOk heap → Step k (endpoint_create heap k).0
    connects : (heap : Heap) (pid id : ℕ) (k : Kernel u.Mem) → Step k (connect heap pid id k).0
    sends :
        (heap : Heap) (dest tag ptr len : ℕ) (k : Kernel u.Mem)
        → Step k (send u heap dest tag ptr len k).0
    receives :
        (heap : Heap) (handle tag_out data_out max_len : ℕ) (k : Kernel u.Mem)
        → Step k (recv u heap handle tag_out data_out max_len k).0
    closes : (heap : Heap) (handle : ℕ) (k : Kernel u.Mem) → Step k (close heap handle k).0
    registers : (name : Name) (handle : ℕ) (k : Kernel u.Mem) → Step k (register name handle k).0
    unregisters :
        (name : Name) (handle : ℕ) (k : Kernel u.Mem) → Step k (unregister name handle k).0
    looks_up :
        (heap : Heap) (name : Name) (k : Kernel u.Mem) → Step k (lookup_service heap name k).0
    exits : (pid : ℕ) (k : Kernel u.Mem) → Step k (exit_process pid k)
    destroys : (pid : ℕ) (k : Kernel u.Mem) → Step k (destroy_process pid k)
    switches : (next : Option ℕ) (k : Kernel u.Mem) → Step k (record k { current = next })
    writes : (m : u.Mem) (k : Kernel u.Mem) → Step k (record k { memory = m })

  pub data Reach (k : Kernel u.Mem) : Kernel u.Mem → Type 0 where
    here : Reach k k
    next : {k1 k2 : Kernel u.Mem} → Reach k k1 → Step k1 k2 → Reach k k2

  -- The state before the first call: no tables, no endpoints, no names.
  abbrev pub boot : u.Mem → Kernel u.Mem
  boot m = record { current = none; tables = λ _. none; registry = []; services = []; memory = m }

  -- Every event keeps the invariant of the kernel state: the registry holds at most 1024 entries,
  -- each endpoint in it has a valid queue and carries the key of its entry, no service name is
  -- registered twice, and every handle table has 64 handles.
  pub Step-Sound : {k k' : Kernel u.Mem} → Step k k' → Sound k → Sound k'
  Step-Sound (creates heap k h) s = keeps (endpoint_create-Holds heap k h s)
  Step-Sound (connects heap pid id k) s = keeps (connect-Holds heap pid id k s)
  Step-Sound (sends heap dest tag ptr len k) s = keeps (send-Holds u heap dest tag ptr len k s)
  Step-Sound (receives heap handle tag_out data_out max_len k) s =
      keeps (recv-Holds u heap handle tag_out data_out max_len k s)
  Step-Sound (closes heap handle k) s = keeps (close-Holds heap handle k s)
  Step-Sound (registers name handle k) s = keeps (register-Holds name handle k s)
  Step-Sound (unregisters name handle k) s = keeps (unregister-Holds name handle k s)
  Step-Sound (looks_up heap name k) s = keeps (lookup_service-Holds heap name k s)
  Step-Sound (exits pid k) s = unregister-Sound pid k s
  Step-Sound (destroys pid k) s = destroy-Sound pid k s
  Step-Sound (switches n k) s = record {
    registry_ok = s.registry_ok;
    services_ok = s.services_ok;
    tables_ok = s.tables_ok;
  }
  Step-Sound (writes m k) s = record {
    registry_ok = s.registry_ok;
    services_ok = s.services_ok;
    tables_ok = s.tables_ok;
  }

  boot-Sound : (m : u.Mem) → Sound (boot m)
  boot-Sound m = record {
    registry_ok = record { entries = tt; bounded = omega arith };
    services_ok = record { unique = tt; bounded = omega arith };
    tables_ok = λ pid t e. cc;
  }

  -- So the invariant holds in every state that a sequence of events reaches from the boot state.
  pub Reach-Sound : (m : u.Mem) {k : Kernel u.Mem} → Reach (boot m) k → Sound k
  Reach-Sound m here = boot-Sound m
  Reach-Sound m (next r st) = Step-Sound st (Reach-Sound m r)
