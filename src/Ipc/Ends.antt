-- ===== src/Ipc/Ends.antt =====
-- What the calls answer for endpoints whose process has exited, or whose owner has closed them:
-- kernel/ipc/ipc.c, and the exit path of kernel/proc/process.c.
use void.Base.{
  ℕ, ◌≤◌, ◌<◌, ◌≡◌, refl, true, false, none, some, List, arith, ok, err, badf, nomem, inl, inr,
  Option-cases, ltb, leb, lt→ltb, perm, Bool-cases, ◌==◌, inval, ap, set, get_or-set_self, length,
}
use void.Ipc.Calls.{
  send, recv, copy_data, message, exit_process, max_data, fresh, endpoint_create, connect,
}
use void.Ipc.Delivery.{Names, ensure_known, checked_lem, send_enqueues}
use void.Ipc.Handles.{Table, unused, target, max_handles, free_handle}
use void.Ipc.Queue.{Endpoint, Message, enqueue}
use void.Ipc.Registry.{Registry, lookup, register}
use void.Ipc.Registry.Lookup.{lookup-unregister_self, AllLive, lookup-register_shadowed}
use void.Kernel.{Kernel, Heap, update, try, some_or}
use void.Kernel.Holds.{run, stop, require-true}
use void.Kernel.Access.{UserAccess}
use void.Ipc.Grants.{free_handle_lem}

module _ (u : UserAccess) where
  -- A handle whose key the registry does not hold answers EBADF.
  send_unknown :
      (heap : Heap) (k : Kernel u.Mem) (pid dest owner id tag ptr len : ℕ)
      → Names k pid dest owner id
      → lookup k.registry owner id ≡ none
      → len ≤ 496
      → send u heap dest tag ptr len k ≡ (k, err badf)
  unfolding send
  send_unknown heap k pid dest owner id tag ptr len n gone small =
      run _ (ap (λ o. some_or o perm k) n.running) (
        run _ (ensure_known heap pid k n.own_table) (
          run _ (require-true (ltb dest max_handles) badf k (lt→ltb dest 64 n.in_range)) (
            run _ (require-true (leb len max_data) inval k (ground arith)) (
              run _ (checked_lem n.table dest owner id k n.names)
                (stop _ (ap (λ o. some_or o badf k) gone))))))

  recv_unknown :
      (heap : Heap) (k : Kernel u.Mem) (pid dest owner id tag_out data_out max_len : ℕ)
      → Names k pid dest owner id
      → lookup k.registry owner id ≡ none
      → recv u heap dest tag_out data_out max_len k ≡ (k, err badf)
  unfolding recv
  recv_unknown heap k pid dest owner id tag_out data_out max_len n gone =
      run _ (ap (λ o. some_or o perm k) n.running) (
        run _ (ensure_known heap pid k n.own_table) (
          run _ (require-true (ltb dest max_handles) badf k (lt→ltb dest 64 n.in_range)) (
            run _ (checked_lem n.table dest owner id k n.names)
              (stop _ (ap (λ o. some_or o badf k) gone)))))

connect_unknown :
    {M : Type 0} (heap : Heap) (k : Kernel M) (pid owner id : ℕ)
    → k.current ≡ some pid
    → lookup k.registry owner id ≡ none
    → connect heap owner id k ≡ (k, err badf)
unfolding connect
connect_unknown heap k pid owner id cur gone =
    run _ (ap (λ o. some_or o perm k) cur) (stop _ (ap (λ o. some_or o badf k) gone))

abbrev created : {M : Type 0} → Kernel M → ℕ → Table → ℕ → Registry → Kernel M
created k pid t handle r = record k {
  registry = r;
  tables = update k.tables pid (some (set t handle (target pid handle)));
}

still_found :
    (old : Registry) (pid handle : ℕ) (g : List Message) {r : Registry} {i : ℕ} {ep : Endpoint}
    → AllLive old
    → lookup old pid handle ≡ some (i, ep)
    → register old (fresh pid handle g) pid handle ≡ ok r
    → lookup r pid handle ≡ some (i, ep)
unfolding register
still_found old pid handle g live at added =
    lookup-register_shadowed old 0 _ pid handle live at added

enqueue_closed :
    (ep : Endpoint) (m : Message) → ep.closed ≡ true → ep.queue_count < 16 → enqueue ep m ≡ err badf
unfolding enqueue
enqueue_closed ep m c room = ground arith

module _ (u : UserAccess) where
  -- Copying the data reads nothing but the memory.
  copy_data_moved :
      (pid ptr len : ℕ) (bytes : List ℕ) (k k' : Kernel u.Mem)
      → k'.memory ≡ k.memory
      → copy_data u pid ptr len k ≡ (k, ok bytes)
      → copy_data u pid ptr len k' ≡ (k', ok bytes)
  copy_data_moved pid ptr len bytes k k' same e = elim (Bool-cases (len == 0)) [
    | inl z ↦ ground arith
    | inr nz ↦ elim (Bool-cases (u.range_ok k.memory pid ptr len false)) [
      | inl fine ↦ elim (Option-cases (u.copy_from k.memory pid ptr len)) [
        | inl gone ↦ ground arith
        | inr (xs, got) ↦ ground arith
      ]
      | inr bad ↦ ground arith
    ]
  ]

  -- After the exit of a process, whatever handle another process holds on one of its endpoints,
  -- sending, receiving and connecting answer EBADF and change nothing.
  pub exit_unreachable :
      (heap : Heap) (k : Kernel u.Mem) (pid dest dead id tag ptr len tag_out data_out max_len : ℕ)
      → Names k pid dest dead id
      → len ≤ 496
      → (send u heap dest tag ptr len (exit_process dead k) ≡ (exit_process dead k, err badf))
        × (recv u heap dest tag_out data_out max_len (exit_process dead k)
            ≡ (exit_process dead k, err badf))
        × (connect heap dead id (exit_process dead k) ≡ (exit_process dead k, err badf))
  unfolding exit_process
  exit_unreachable heap k pid dest dead id tag ptr len tag_out data_out max_len n small =
      let gone = lookup-unregister_self k.registry dead id in
      let after : Names (exit_process dead k) pid dest dead id = record {
        table = n.table;
        running = n.running;
        own_table = n.own_table;
        in_range = n.in_range;
        names = n.names;
      } in
      (
        send_unknown u heap (exit_process dead k) pid dest dead id tag ptr len after gone small,
        recv_unknown u heap (exit_process dead k) pid dest dead id tag_out data_out max_len after
            gone,
        connect_unknown heap (exit_process dead k) pid dead id n.running gone,
      )

  -- The endpoint that a process creates on a handle number under which it has closed an endpoint
  -- before is out of reach while no registry slot is free: a send on the new handle meets the closed
  -- endpoint first and answers EBADF.
  pub create-send_shadowed :
      (heap : Heap) (k : Kernel u.Mem) (pid handle i tag ptr len : ℕ) (t : Table) (old : Endpoint)
      (garbage : List Message) (r : Registry) (bytes : List ℕ)
      → k.current ≡ some pid
      → k.tables pid ≡ some t
      → length t ≡ 64
      → free_handle t ≡ some handle
      → heap.endpoint ≡ some garbage
      → AllLive k.registry
      → lookup k.registry pid handle ≡ some (i, old)
      → old.closed ≡ true
      → old.queue_count < 16
      → register k.registry (fresh pid handle garbage) pid handle ≡ ok r
      → len ≤ 496
      → copy_data u pid ptr len k ≡ (k, ok bytes)
      → (k' : Kernel u.Mem) × (endpoint_create heap k ≡ (k', ok handle))
        × (send u heap handle tag ptr len k' ≡ (k', err badf))
  unfolding endpoint_create
  create-send_shadowed heap k pid handle i tag ptr len t old garbage r bytes cur own full free got
        live at closed room added small copied =
      let k' = created k pid t handle r in
      let n : Names k' pid handle pid handle = record {
        table = set t handle (target pid handle);
        running = cur;
        own_table = ground arith;
        in_range = omega (arith, (free_handle_lem t free).0);
        names = get_or-set_self t handle (target pid handle) unused (free_handle_lem t free).0;
      } in
      let sent =
        send_enqueues u heap k' pid handle pid handle i tag ptr len old bytes n
          (still_found k.registry pid handle garbage live at added) small
          (copy_data_moved pid ptr len bytes k k' refl copied) in
      (
        k',
        run _ (ap (λ o. some_or o perm k) cur) (
            run _ (ensure_known heap pid k own) (
              run _ (ap (λ o. some_or o nomem k) free)
                (run _ (ap (λ o. some_or o nomem k) got) (run _ (ap (λ o. try o k) added) refl)))),
        ground (arith, enqueue_closed old (message pid tag len bytes) closed room),
      )
