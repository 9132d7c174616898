-- ===== src/Svc/Calls.antt =====
-- The service registry's system calls: kernel/svc/svc.c, lines 80 to 190.
-- A handle argument is the bit pattern of its int32_t.
use void.Base.{
  ℕ, Bool, true, false, ◌&&◌, Option, none, some, ltb, ◌==◌, noent, perm, badf, fault, nomem,
}
use void.Ipc.Registry.{Registry, lookup}
use void.Ipc.Handles.{Table, max_handles, free_handle, handle_at, target}
use void.Kernel.{
  Cmd, Heap, ◌>>=◌, ◌>>◌, pure, require, some_or, gets, modify, try, ensure_table, set_handle,
}
use void.Ipc.Queue.{Endpoint}
use void.Svc
use void.Svc.{Name, Service}

abbrev pub owned : Option (ℕ × Endpoint) → ℕ → Bool
owned none pid = false
owned (some (i, ep)) pid = ep.owner_pid == pid

-- svc_check_endpoint: the handle is the process's own, and its endpoint is still registered.
unfoldable pub check_endpoint : Option Table → Registry → ℕ → ℕ → Bool
check_endpoint none r pid handle = false
check_endpoint (some t) r pid handle =
    let h = handle_at t handle in
    ltb handle max_handles
    && h.allocated
    && h.target_pid == pid
    && owned (lookup r pid h.target_endpoint_id) pid

abbrev pub endpoint_of : Option Table → ℕ → ℕ
endpoint_of none handle = 0
endpoint_of (some t) handle = (handle_at t handle).target_endpoint_id

abbrev pub absent : Option (ℕ × Service) → Bool
absent none = true
absent (some _) = false

module _ {M : Type 0} where
  unfoldable pub register : Name → ℕ → Cmd M ℕ
  unfolding check_endpoint
  register name handle = do
    p ← gets (λ k. k.current)
    pid ← some_or p fault
    _ ← try (Svc.validate_name name)
    t ← gets (λ k. k.tables pid)
    r ← gets (λ k. k.registry)
    require (check_endpoint t r pid handle) badf
    es ← gets (λ k. k.services)
    require (absent (Svc.find_name es name)) perm
    let new : Service = record { name = name; owner_pid = pid; endpoint_id = endpoint_of t handle }
    es' ← try (Svc.add es new)
    modify (λ k. record k { services = es' })
    pure 0

  unfoldable pub unregister : Name → ℕ → Cmd M ℕ
  unfolding check_endpoint
  unregister name handle = do
    p ← gets (λ k. k.current)
    pid ← some_or p fault
    _ ← try (Svc.validate_name name)
    t ← gets (λ k. k.tables pid)
    r ← gets (λ k. k.registry)
    require (check_endpoint t r pid handle) badf
    es ← gets (λ k. k.services)
    found ← some_or (Svc.find_name es name) noent
    require (found.1.owner_pid == pid) perm
    modify (λ k. record k { services = Svc.free_at es found.0 })
    pure 0

  unfoldable pub lookup_service : Heap → Name → Cmd M ℕ
  lookup_service heap name = do
    p ← gets (λ k. k.current)
    pid ← some_or p fault
    _ ← try (Svc.validate_name name)
    es ← gets (λ k. k.services)
    found ← some_or (Svc.find_name es name) noent
    t ← ensure_table heap pid
    handle ← some_or (free_handle t) nomem
    set_handle pid t handle (target found.1.owner_pid found.1.endpoint_id)
    pure handle
