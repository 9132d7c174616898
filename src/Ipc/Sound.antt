-- ===== src/Ipc/Sound.antt =====
-- The kernel's invariant under the calls of kernel/ipc/ipc.c on endpoints and handles, and under exits.
use void.Base.{
  ℕ, ◌≡◌, refl, some, List, arith, length, ok, ltb, Option-cases, inl, inr, nomem, Bool-cases, ◌∙◌,
  not, true, ◌==◌, false,
}
use void.Ipc.Queue.{Endpoint, Message}
use void.Ipc.Queue.Fifo
use void.Ipc.Queue.Fifo.{enqueue-IsValid, dequeue-IsValid}
use void.Ipc.Registry.{Registry, lookup, register, store, unregister_by_owner}
use void.Ipc.Registry.Sound.{
  RegistryOk, register-AllOk, lookup-EndpointOk, store-AllOk, length-store, unregister-AllOk,
  length-unregister,
}
use void.Ipc.Handles.{Table, free_handle, target, max_handles, handle_at}
use void.Ipc.Calls.{
  endpoint_create, connect, checked_handle, fresh, close, close_endpoint, exit_process,
  destroy_process,
}
use void.Kernel.{Kernel, Heap}
use void.Kernel.Holds.{
  Holds, returns, bind, SameState, some_or-Holds, try-Holds, require-Holds, Any,
}
use void.Kernel.Rules.{ensure_table-Holds, set_handle-Sound, registry-Sound, services-Sound}
use void.Kernel.Sound.{Sound, HeapOk, ServicesOk}
use void.Svc
use void.Svc.{Service}
use void.Svc.Unique.{Unique-close, length-close, Unique-cleanup, length-cleanup}

register-RegistryOk :
    (r : Registry) (pid id : ℕ) (g : List Message) {r' : Registry}
    → length g ≡ 16
    → RegistryOk r
    → register r (fresh pid id g) pid id ≡ ok r'
    → RegistryOk r'
unfolding register
register-RegistryOk r pid id g {r'} len o e =
    let done =
      register-AllOk r 0
        (record { endpoint = some (fresh pid id g); owner_pid = pid; endpoint_id = id }) {r' = r'}
        (ground arith) o.entries (omega (arith, o.bounded)) e in
    record { entries = done.0; bounded = omega (arith, done.1) }

-- Writing to a found endpoint keeps the registry in order if its key stays and its queue is valid.
pub store-RegistryOk :
    (r : Registry) (owner id : ℕ) {i : ℕ} {ep : Endpoint} (new : Endpoint)
    → RegistryOk r
    → lookup r owner id ≡ some (i, ep)
    → (Fifo.IsValid ep → Fifo.IsValid new)
    → new.owner_pid ≡ ep.owner_pid
    → new.endpoint_id ≡ ep.endpoint_id
    → RegistryOk (store r i new)
store-RegistryOk r owner id {i} {ep} new o e valid same_pid same_id =
    let old = lookup-EndpointOk r owner id {i = i} {ep = ep} o.entries e in
    record {
      entries =
          store-AllOk r owner id {i = i} {ep = ep} new o.entries e (valid old.0) (same_pid ∙ old.1)
            (same_id ∙ old.2);
      bounded = omega (arith, o.bounded, length-store r i new);
    }

close-IsValid : (ep : Endpoint) → Fifo.IsValid ep → Fifo.IsValid (record ep { closed = true })
close-IsValid ep v = ground arith

close-ServicesOk :
    (es : List Service) (owner id : ℕ)
    → ServicesOk es
    → ServicesOk (Svc.on_endpoint_close es owner id)
close-ServicesOk es owner id o = record {
  unique = Unique-close es owner id o.unique;
  bounded = omega (arith, o.bounded, length-close es owner id);
}

module _ {M : Type 0} where
  pub endpoint_create-Holds :
      (heap : Heap) (k : Kernel M)
      → HeapOk heap
      → Sound k
      → Holds Sound Any (endpoint_create heap k)
  unfolding endpoint_create
  endpoint_create-Holds heap k h s = bind (some_or-Holds k.current _ k s) λ pid k1 s1 _.
      bind (ensure_table-Holds heap pid k1 s1) λ t k2 s2 len.
        bind (some_or-Holds (free_handle t) nomem k2 s2) λ handle k3 s3 _.
          bind (some_or-Holds heap.endpoint nomem k3 s3) λ garbage k4 s4 got.
            bind (try-Holds (register k4.registry (fresh pid handle garbage) pid handle) k4 s4)
              λ r k5 s5 done.
                returns
                  (set_handle-Sound (record k5 { registry = r }) pid t handle (target pid handle)
                    len
                    (registry-Sound k5 r
                      (register-RegistryOk k4.registry pid handle garbage (h garbage got.0)
                        s4.registry_ok done.0)
                      s5))
                  tt

  pub connect-Holds :
      (heap : Heap) (target_pid id : ℕ) (k : Kernel M)
      → Sound k
      → Holds Sound Any (connect heap target_pid id k)
  unfolding connect
  connect-Holds heap target_pid id k s = bind (some_or-Holds k.current _ k s) λ pid k1 s1 _.
      bind (some_or-Holds (lookup k1.registry target_pid id) _ k1 s1) λ found k2 s2 _.
        bind (require-Holds (not found.1.closed) _ k2 s2) λ _ k3 s3 _.
          bind (ensure_table-Holds heap pid k3 s3) λ t k4 s4 len.
            bind (some_or-Holds (free_handle t) _ k4 s4) λ handle k5 s5 _.
              returns (set_handle-Sound k5 pid t handle (target target_pid id) len s5) tt

  pub checked_handle-Holds :
      (t : Table) (i : ℕ) (k : Kernel M)
      → Sound k
      → Holds Sound (SameState k) (checked_handle t i k)
  checked_handle-Holds t i k s =
      bind (require-Holds (handle_at t i).allocated _ k s) λ _ k1 s1 same. returns s1 same.1

  -- The part of close that marks the endpoint: its key and its queue stay.
  close_endpoint-Holds :
      (pid id owner : ℕ) (k : Kernel M)
      → Sound k
      → Holds Sound Any (close_endpoint pid id (lookup k.registry owner id) k)
  close_endpoint-Holds pid id owner k s = elim (Option-cases (lookup k.registry owner id)) [
    | inl e ↦ rw e (returns s tt)
    | inr ((i, ep), e) ↦ elim (Bool-cases (ep.owner_pid == pid)) [
      | inl mine ↦ rw (e, mine) (returns (closed i ep e) tt)
      | inr other ↦ rw (e, other) (returns s tt)
    ]
  ]
    where
      closed :
          (i : ℕ) (ep : Endpoint)
          → lookup k.registry owner id ≡ some (i, ep)
          → Sound (record k {
            registry = store k.registry i (record ep { closed = true });
            services = Svc.on_endpoint_close k.services pid id;
          })
      closed i ep e =
          services-Sound (record k { registry = store k.registry i (record ep { closed = true }) })
            (Svc.on_endpoint_close k.services pid id)
            (close-ServicesOk k.services pid id s.services_ok)
            (registry-Sound k (store k.registry i (record ep { closed = true }))
              (store-RegistryOk k.registry owner id {i = i} {ep = ep} (record ep { closed = true })
                s.registry_ok e (close-IsValid ep) refl refl)
              s)

  pub close-Holds :
      (heap : Heap) (handle : ℕ) (k : Kernel M) → Sound k → Holds Sound Any (close heap handle k)
  unfolding close
  close-Holds heap handle k s = bind (some_or-Holds k.current _ k s) λ pid k1 s1 _.
      bind (ensure_table-Holds heap pid k1 s1) λ t k2 s2 len.
        bind (require-Holds (ltb handle max_handles) _ k2 s2) λ _ k3 s3 _.
          bind (checked_handle-Holds t handle k3 s3) λ h k4 s4 _.
            bind (close_endpoint-Holds pid h.target_endpoint_id h.target_pid k4 s4) λ _ k5 s5 _.
              returns (set_handle-Sound k5 pid t handle (record h { allocated = false }) len s5) tt

  pub unregister-Sound : (pid : ℕ) (k : Kernel M) → Sound k → Sound (exit_process pid k)
  unfolding exit_process
  unregister-Sound pid k s =
      services-Sound (record k { registry = unregister_by_owner k.registry pid })
        (Svc.cleanup_owner k.services pid)
        (record {
          unique = Unique-cleanup k.services pid s.services_ok.unique;
          bounded = omega (arith, s.services_ok.bounded, length-cleanup k.services pid);
        })
        (registry-Sound k (unregister_by_owner k.registry pid)
          (record {
            entries = unregister-AllOk k.registry pid s.registry_ok.entries;
            bounded = omega (arith, s.registry_ok.bounded, length-unregister k.registry pid);
          })
          s)

  pub destroy-Sound : (pid : ℕ) (k : Kernel M) → Sound k → Sound (destroy_process pid k)
  unfolding exit_process destroy_process
  destroy-Sound pid k s =
      let dead = unregister-Sound pid k s in
      record {
        registry_ok = dead.registry_ok;
        services_ok = dead.services_ok;
        tables_ok = λ p t e. ground (arith, s.tables_ok p t);
      }
