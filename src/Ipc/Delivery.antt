-- ===== src/Ipc/Delivery.antt =====
-- What a send and a receive do when nothing refuses them, and what closed or dead endpoints answer:
-- kernel/ipc/ipc.c, sys_ipc_send, sys_ipc_recv, sys_ipc_endpoint_create.
use void.Base.{
  ℕ, ◌≤◌, ◌<◌, ◌≡◌, ◌≢◌, false, some, List, [], ◌∷◌, ◌++◌, arith, ok, err, badf, ◌⊎◌, inl, inr,
  Ret-cases, ltb, leb, lt→ltb, perm, inval, ap,
}
use void.Ipc.Calls.{checked_handle, send, copy_data, message, max_data}
use void.Ipc.Handles.{Table, handle_at, target, max_handles}
use void.Ipc.Queue.{Endpoint, Message, enqueue}
use void.Ipc.Queue.Fifo.{IsValid, contents, enqueue_refines, push, length-contents}
use void.Ipc.Registry.{lookup, store}
use void.Ipc.Registry.Lookup.{lookup-store_self, lookup-store_ne}
use void.Kernel.{Kernel, Heap, ensure_table, some_or}
use void.Kernel.Holds.{run, require-true}
use void.Kernel.Access.{UserAccess}

-- Handle `dest` of the current process `pid` names the key `(owner, id)`.
pub record Names {M : Type 0} (k : Kernel M) (pid dest owner id : ℕ) : Type 0 where
  pub table : Table
  pub running : k.current ≡ some pid
  pub own_table : k.tables pid ≡ some table
  pub in_range : dest < 64
  pub names : handle_at table dest ≡ target owner id

pub ensure_known :
    {M : Type 0} (heap : Heap) (pid : ℕ) (k : Kernel M) {t : Table}
    → k.tables pid ≡ some t
    → ensure_table heap pid k ≡ (k, ok t)
unfolding ensure_table
ensure_known heap pid k e = rw (e, ensure_table)

pub checked_lem :
    {M : Type 0} (t : Table) (i owner id : ℕ) (k : Kernel M)
    → handle_at t i ≡ target owner id
    → checked_handle t i k ≡ (k, ok (target owner id))
checked_lem t i owner id k e = rw e

enqueue_open :
    (ep : Endpoint) (m : Message)
    → IsValid ep
    → ep.closed ≡ false
    → ep.queue_count < 16
    → (ep' : Endpoint) × (enqueue ep m ≡ ok ep') × (contents ep' ≡ contents ep ++ m ∷ [])
unfolding push
enqueue_open ep m v opened room = elim (Ret-cases (enqueue ep m)) [
  | inl (ep', e) ↦ (ep', e, ground (arith, enqueue_refines ep m v, length-contents ep))
  | inr (x, e) ↦ absurd (ground (arith, enqueue_refines ep m v, length-contents ep))
]

module _ (u : UserAccess) where
  -- With such a handle and data that can be copied, sending is enqueueing on that endpoint.
  pub send_enqueues :
      (heap : Heap) (k : Kernel u.Mem) (pid dest owner id i tag ptr len : ℕ) (ep : Endpoint)
      (bytes : List ℕ)
      → Names k pid dest owner id
      → lookup k.registry owner id ≡ some (i, ep)
      → len ≤ 496
      → copy_data u pid ptr len k ≡ (k, ok bytes)
      → send u heap dest tag ptr len k ≡ elim (enqueue ep (message pid tag len bytes)) [
        | ok ep' ↦ (record k { registry = store k.registry i ep' }, ok 0)
        | err e ↦ (k, err e)
      ]
  unfolding send
  send_enqueues heap k pid dest owner id i tag ptr len ep bytes n live small copied =
      run _ (ap (λ o. some_or o perm k) n.running) (
        run _ (ensure_known heap pid k n.own_table) (
          run _ (require-true (ltb dest max_handles) badf k (lt→ltb dest 64 n.in_range)) (
            run _ (require-true (leb len max_data) inval k (ground arith)) (
              run _ (checked_lem n.table dest owner id k n.names)
                (run _ (ap (λ o. some_or o badf k) live) (run _ copied (ground arith)))))))

  -- Sending on a handle of a live endpoint that is open and not full returns 0 and puts the message,
  -- with the sender's own pid, behind those that wait there; it changes no other endpoint.
  pub send_delivers :
      (heap : Heap) (k : Kernel u.Mem) (pid dest owner id i tag ptr len : ℕ) (ep : Endpoint)
      (bytes : List ℕ)
      → Names k pid dest owner id
      → lookup k.registry owner id ≡ some (i, ep)
      → IsValid ep
      → ep.closed ≡ false
      → ep.queue_count < 16
      → len ≤ 496
      → copy_data u pid ptr len k ≡ (k, ok bytes)
      → (ep' : Endpoint) × (send u heap dest tag ptr len k
          ≡ (record k { registry = store k.registry i ep' }, ok 0))
        × (contents ep' ≡ contents ep ++ message pid tag len bytes ∷ [])
        × (lookup (store k.registry i ep') owner id ≡ some (i, ep'))
        × ((o d : ℕ)
            → (o ≢ owner) ⊎ (d ≢ id)
            → lookup (store k.registry i ep') o d ≡ lookup k.registry o d)
  send_delivers heap k pid dest owner id i tag ptr len ep bytes n live v opened room small copied =
      let sent =
        send_enqueues heap k pid dest owner id i tag ptr len ep bytes n live small copied in
      let (ep', e, grown) = enqueue_open ep (message pid tag len bytes) v opened room in
      (
        ep',
        ground arith,
        grown,
        lookup-store_self k.registry owner id ep' live,
        λ o d ne. lookup-store_ne k.registry owner id o d ep' live ne,
      )
