-- ===== src/Ipc/Calls.antt =====
-- The IPC system calls: kernel/ipc/ipc.c, lines 130 to 380, and the teardown of
-- kernel/proc/process.c that drops a process's IPC state.
-- A handle argument is the bit pattern of its int32_t, so a negative one is at least 2 ^ 31 and
-- fails the upper bound. `Heap` says what kmalloc returns.
use void.Base.{
  ℕ, ◌/◌, ◌%◌, true, false, not, Option, none, some, List, [], ◌∷◌, min, leb, ltb, ◌==◌, ◌||◌,
  if◌then◌else◌, take, badf, nomem, fault, inval,
}
use void.Ipc.Queue.{Message, Endpoint, enqueue, dequeue}
use void.Ipc.Registry.{Registry, lookup, register, store, unregister_by_owner}
use void.Ipc.Handles.{Handle, Table, max_handles, free_handle, handle_at, target}
use void.Svc
use void.Kernel.{
  Kernel, Cmd, Heap, ◌>>=◌, ◌>>◌, pure, require, some_or, gets, modify, try, update, ensure_table,
  current, set_handle,
}
use void.Kernel.Access.{UserAccess}

-- An endpoint as sys_ipc_endpoint_create fills it; its queue holds what the memory held before.
abbrev pub fresh : ℕ → ℕ → List Message → Endpoint
fresh pid handle garbage = record {
  owner_pid = pid;
  endpoint_id = handle;
  closed = false;
  queue = garbage;
  queue_head = 0;
  queue_tail = 0;
  queue_count = 0;
}

module _ {M : Type 0} where
  abbrev pub put_registry : Registry → Cmd M (Unit {0})
  put_registry r = modify (λ k. record k { registry = r })

  abbrev pub put_endpoint : ℕ → Endpoint → Cmd M (Unit {0})
  put_endpoint i ep = modify (λ k. record k { registry = store k.registry i ep })

  -- A handle that is in range and allocated.
  abbrev pub checked_handle : Table → ℕ → Cmd M Handle
  checked_handle t i = require (handle_at t i).allocated badf >> pure (handle_at t i)

  unfoldable pub endpoint_create : Heap → Cmd M ℕ
  endpoint_create heap = do
    pid ← current
    t ← ensure_table heap pid
    handle ← some_or (free_handle t) nomem
    garbage ← some_or heap.endpoint nomem
    r ← gets (λ k. k.registry)
    r' ← try (register r (fresh pid handle garbage) pid handle)
    put_registry r'
    set_handle pid t handle (target pid handle)
    pure handle

  unfoldable pub connect : Heap → ℕ → ℕ → Cmd M ℕ
  connect heap target_pid id = do
    pid ← current
    r ← gets (λ k. k.registry)
    found ← some_or (lookup r target_pid id) badf
    require (not found.1.closed) badf
    t ← ensure_table heap pid
    handle ← some_or (free_handle t) nomem
    set_handle pid t handle (target target_pid id)
    pure handle

  -- The part of sys_ipc_close that acts on an endpoint that the caller owns.
  abbrev pub close_endpoint : ℕ → ℕ → Option (ℕ × Endpoint) → Cmd M (Unit {0})
  close_endpoint pid id none = pure tt
  close_endpoint pid id (some (i, ep)) =
      if ep.owner_pid == pid
      then (do
        put_endpoint i (record ep { closed = true })
        modify (λ k. record k { services = Svc.on_endpoint_close k.services pid id }))
      else pure tt

  unfoldable pub close : Heap → ℕ → Cmd M (Unit {0})
  close heap handle = do
    pid ← current
    t ← ensure_table heap pid
    require (ltb handle max_handles) badf
    h ← checked_handle t handle
    r ← gets (λ k. k.registry)
    close_endpoint pid h.target_endpoint_id (lookup r h.target_pid h.target_endpoint_id)
    set_handle pid t handle (record h { allocated = false })

-- What process_destroy and process_exit_current do to the IPC state: the endpoints and the service
-- names of the process go at its exit, its handle table when it is destroyed.
unfoldable pub exit_process : {M : Type 0} → ℕ → Kernel M → Kernel M
exit_process pid k = record k {
  registry = unregister_by_owner k.registry pid;
  services = Svc.cleanup_owner k.services pid;
}

unfoldable pub destroy_process : {M : Type 0} → ℕ → Kernel M → Kernel M
destroy_process pid k = record k {
  registry = unregister_by_owner k.registry pid;
  tables = update k.tables pid none;
  services = Svc.cleanup_owner k.services pid;
}

-- The four bytes of a uint32_t, lowest first.
abbrev pub u32_bytes : ℕ → List ℕ
u32_bytes x = (x % 256) ∷ (x / 256 % 256) ∷ (x / 65536 % 256) ∷ (x / 16777216 % 256) ∷ []

-- 512 - 4 * sizeof(uint32_t)
abbrev pub max_data : ℕ
max_data = 496

-- The sender's pid is the kernel's, never the caller's word.
abbrev pub message : ℕ → ℕ → ℕ → List ℕ → Message
message pid tag len bytes = record { sender_pid = pid; tag = tag; data_len = len; bytes = bytes }

module _ (u : UserAccess) where
  -- The validated copy of the user's data; a message of no bytes reads nothing.
  abbrev pub copy_data : ℕ → ℕ → ℕ → Cmd (u.Mem) (List ℕ)
  copy_data pid src len = if len == 0 then pure [] else (do
    m ← gets (λ k. k.memory)
    require (u.range_ok m pid src len false) fault
    some_or (u.copy_from m pid src len) fault)

  -- A validated write to the user's memory.
  abbrev pub write_user : ℕ → ℕ → List ℕ → ℕ → Cmd (u.Mem) (Unit {0})
  write_user pid dst bytes len = do
    m ← gets (λ k. k.memory)
    require (u.range_ok m pid dst len true) fault
    m' ← some_or (u.copy_to m pid dst bytes) fault
    modify (λ k. record k { memory = m' })

  unfoldable pub send : Heap → ℕ → ℕ → ℕ → ℕ → Cmd (u.Mem) ℕ
  send heap dest tag data_ptr data_len = do
    pid ← current
    t ← ensure_table heap pid
    require (ltb dest max_handles) badf
    require (leb data_len max_data) inval
    h ← checked_handle t dest
    r ← gets (λ k. k.registry)
    found ← some_or (lookup r h.target_pid h.target_endpoint_id) badf
    bytes ← copy_data pid data_ptr data_len
    ep ← try (enqueue found.1 (message pid tag data_len bytes))
    put_endpoint found.0 ep
    pure 0

  -- A message that does not reach the user's memory has left the queue all the same.
  unfoldable pub deliver : ℕ → Message → ℕ → ℕ → ℕ → Cmd (u.Mem) ℕ
  deliver pid msg tag_out data_out max_len = do
    (if tag_out == 0 then pure tt else write_user pid tag_out (u32_bytes msg.tag) 4)
    let copy_len = min msg.data_len max_len
    (if copy_len == 0 || data_out == 0
        then pure tt
        else write_user pid data_out (take copy_len msg.bytes) copy_len)
    pure copy_len

  -- The message leaves the queue before anything is written; an empty queue gives 0.
  unfoldable pub take_message : ℕ → ℕ × Endpoint → ℕ → ℕ → ℕ → Cmd (u.Mem) ℕ
  unfolding deliver
  take_message pid (i, ep) tag_out data_out max_len = elim (dequeue ep) [
    | none ↦ pure 0
    | some (msg, ep') ↦ put_endpoint i ep' >> deliver pid msg tag_out data_out max_len
  ]

  unfoldable pub recv : Heap → ℕ → ℕ → ℕ → ℕ → Cmd (u.Mem) ℕ
  unfolding take_message
  recv heap handle tag_out data_out max_len = do
    pid ← current
    t ← ensure_table heap pid
    require (ltb handle max_handles) badf
    h ← checked_handle t handle
    r ← gets (λ k. k.registry)
    found ← some_or (lookup r h.target_pid h.target_endpoint_id) badf
    take_message pid found tag_out data_out max_len
